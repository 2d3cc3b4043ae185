-- ===== src/Fleet/Scan.antt =====
-- What the scanner relies on: uninteresting addresses, a dead scan, and the fleet as one log for each
-- device.
use omarchy_presence_unlock.Base.{
  ℕ, ◌≡◌, refl, inl, inr, false, ◌∷◌, [], List, Str, map, any, ap, ◌∙◌, Any, arith,
}
use omarchy_presence_unlock.Ble.{Advertisement, Needs}
use omarchy_presence_unlock.Wire.{deny_no_device}
use omarchy_presence_unlock.Identity.{Verdict, match, reject, undecided, verdict}
use omarchy_presence_unlock.Identity.Criteria.{matches_of_reject}
use omarchy_presence_unlock.Presence
use omarchy_presence_unlock.Presence.{
  Policy, Decision, allow, deny, Eligibility, default_eligibility,
}
use omarchy_presence_unlock.Fleet.{
  Device, check_device, MultiDeviceAuth, Fleet, is_not_reject, is_interested, observe_device,
  observe, invalidate_device, invalidate, check,
}
use omarchy_presence_unlock.Fleet.Rule.{eligible}
use omarchy_presence_unlock.Fleet.Reason.{check_closest}

reject_of : (v : Verdict) → is_not_reject v ≡ false → v ≡ reject
reject_of reject h = refl
reject_of match h = cc
reject_of undecided h = cc

map_uninterested :
    (now : ℕ) (ad : Advertisement) (ds : List Device)
    → any (λ (d : Device). is_not_reject (verdict d.spec.identity ad.address)) ds ≡ false
    → map (observe_device now ad) ds ≡ ds
unfolding observe_device
map_uninterested now ad [] h = refl
map_uninterested now ad (d ∷ ds) h =
    let no_match =
      matches_of_reject d.spec.identity ad
        (reject_of (verdict d.spec.identity ad.address) (ground arith)) in
    rw no_match (ap (◌∷◌ d) (map_uninterested now ad ds (ground arith)))

-- The scanner loses nothing when it drops an advertisement by its address: if the fleet is not
-- interested in the address, then folding the advertisement, with whatever payload, changes nothing.
pub observe_uninterested :
    (f : Fleet) (now : ℕ) (ad : Advertisement)
    → is_interested f ad.address ≡ false
    → observe f now ad ≡ f
unfolding is_interested observe
observe_uninterested f now ad h = rw (map_uninterested now ad f.devices h)

invalidated_device :
    (d : Device) (now : ℕ) → check_device (invalidate_device d) now ≡ deny deny_no_device
unfolding check_device invalidate_device Presence.check Presence.invalidate
invalidated_device d now = refl

eligible_invalidated : (now : ℕ) (ds : List Device) → eligible now (map invalidate_device ds) ≡ 0
eligible_invalidated now [] = refl
eligible_invalidated now (d ∷ ds) = rw (invalidated_device d now) (eligible_invalidated now ds)

reason_invalidated :
    (now : ℕ) (r : Str) (ds : List Device)
    → Any (λ d. check_device d now ≡ deny r) (map invalidate_device ds)
    → r ≡ deny_no_device
reason_invalidated now r [] h = absurd h
reason_invalidated now r (d ∷ ds) (inl h) = cc (invalidated_device d now)
reason_invalidated now r (d ∷ ds) (inr h) = reason_invalidated now r ds h

check_invalidated :
    (rule : MultiDeviceAuth) (needs : Needs) (now : ℕ) (ds : List Device)
    → check (invalidate (record { devices = ds; multi_device_auth = rule; needs = needs })) now
      ≡ deny deny_no_device
unfolding invalidate
check_invalidated rule needs now [] = unfold check in refl
check_invalidated rule needs now (d ∷ ds) =
    let f : Fleet = record {
      devices = map invalidate_device (d ∷ ds);
      multi_device_auth = rule;
      needs = needs;
    } in
    let (r, denied, given, closest) =
      check_closest f now (cc) (eligible_invalidated now (d ∷ ds)) in
    denied ∙ ap deny (reason_invalidated now r (d ∷ ds) given)

-- A scan that died leaves no evidence: whatever was accumulated and whatever the rule, an invalidated
-- fleet denies at every instant, with the reason that no device was seen.
pub check-invalidate : (f : Fleet) (now : ℕ) → check (invalidate f) now ≡ deny deny_no_device
check-invalidate f now = check_invalidated f.multi_device_auth f.needs now f.devices
