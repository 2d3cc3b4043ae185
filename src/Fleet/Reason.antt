-- ===== src/Fleet/Reason.antt =====
-- The reason of a denial: that of the device closest to authorising.
use mathlib.Core.Path.{subst}
use omarchy_presence_unlock.Base.{
  ℕ, ◌≤◌, ◌<◌, ◌≡◌, ◌≢◌, refl, sym, ◌∙◌, ap, ◌⊎◌, inl, inr, List, [], ◌∷◌, All, Any, All-map, Str,
  length, arith, Bool-cases, ltb, leb,
}
use omarchy_presence_unlock.Wire.{deny_multi_device_auth}
use omarchy_presence_unlock.Ble.{Needs}
use omarchy_presence_unlock.Presence.{Decision, allow, deny, rank}
use omarchy_presence_unlock.Fleet.{
  Device, check_device, MultiDeviceAuth, required, Fleet, Survey, survey, start, conclude, check,
}
use omarchy_presence_unlock.Fleet.Rule.{eligible, survey_allowed}
use omarchy_presence_unlock.Fleet.Ranks.{
  IsDeviceReason, device_reason, absence_of_rank, rank-start, NoCloser, Surveyed, survey-Surveyed,
  required_pos,
}

-- With no eligible device the initial reason stands only where the first device gives it too.
found_reason :
    (now : ℕ) (d : Device) (ds : List Device)
    → eligible now (d ∷ ds) ≡ 0
    → Any (λ e. check_device e now ≡ deny (survey now start (d ∷ ds)).closest_deny) (d ∷ ds)
found_reason now d ds none_eligible =
    let out = survey-Surveyed now (d ∷ ds) start refl in
    elim out.origin [
      | inl initial ↦ inl (first (check_device d now) refl initial out)
      | inr some_device ↦ some_device
    ]
  where
    first :
        (c : Decision)
        → check_device d now ≡ c
        → (survey now start (d ∷ ds)).closest_deny ≡ start.closest_deny
        → Surveyed now start (d ∷ ds) (survey now start (d ∷ ds))
        → check_device d now ≡ deny (survey now start (d ∷ ds)).closest_deny
    first allow e initial out = absurd (ground arith)
    first (deny r) e initial out =
        let far : 4 ≤ rank (deny r) = omega (
          arith,
          NoCloser_of e out.least.0,
          out.ranked,
          ap (λ q. rank (deny q)) initial,
          rank-start,
        ) in
        e ∙ ap deny (absence_of_rank r (device_reason d now r e) far ∙ sym initial)
      where
        NoCloser_of :
            {k : ℕ}
            → check_device d now ≡ deny r
            → NoCloser k (check_device d now)
            → k ≤ rank (deny r)
        NoCloser_of e n = rw e at n

le_of_NoCloser :
    (now k : ℕ) (ds : List Device)
    → eligible now ds ≡ 0
    → All (λ d. NoCloser k (check_device d now)) ds
    → All (λ d. k ≤ rank (check_device d now)) ds
le_of_NoCloser now k [] e h = tt
le_of_NoCloser now k (d ∷ ds) e (n, h) =
    (head (check_device d now) refl n, le_of_NoCloser now k ds (ground arith) h)
  where
    head : (c : Decision) → check_device d now ≡ c → NoCloser k c → k ≤ rank c
    head allow a n = absurd (ground arith)
    head (deny r) a n = n

conclude_none :
    (needed : ℕ) (s : Survey) → 1 ≤ needed → s.allowed ≡ 0 → conclude needed s ≡ deny s.closest_deny
unfolding conclude
conclude_none needed s h e = ground arith

check_closest_cons :
    (rule : MultiDeviceAuth) (needs : Needs) (now : ℕ) (d : Device) (ds : List Device)
    → eligible now (d ∷ ds) ≡ 0
    → check (record { devices = d ∷ ds; multi_device_auth = rule; needs = needs }) now
      ≡ deny (survey now start (d ∷ ds)).closest_deny
unfolding check
check_closest_cons rule needs now d ds e =
    conclude_none (required rule (length (d ∷ ds))) (survey now start (d ∷ ds))
      (required_pos rule (length (d ∷ ds)) (omega arith))
      (omega (arith, survey_allowed now (d ∷ ds) start))

check_closest_by :
    (rule : MultiDeviceAuth) (needs : Needs) (now : ℕ) (ds : List Device)
    → ds ≢ []
    → eligible now ds ≡ 0
    → (r : Str) × (check (record { devices = ds; multi_device_auth = rule; needs = needs }) now
        ≡ deny r)
      × Any (λ d. check_device d now ≡ deny r) ds
      × All (λ d. rank (deny r) ≤ rank (check_device d now)) ds
check_closest_by rule needs now [] h e = absurd (h refl)
check_closest_by rule needs now (d ∷ ds) h e =
    let out = survey-Surveyed now (d ∷ ds) start refl in
    (
      (survey now start (d ∷ ds)).closest_deny,
      check_closest_cons rule needs now d ds e,
      found_reason now d ds e,
      All-map _ _ (d ∷ ds) (λ e' le. omega (arith, out.ranked))
          (le_of_NoCloser now (survey now start (d ∷ ds)).closest_rank (d ∷ ds) e out.least),
    )

-- When no device is eligible, a fleet that has devices denies with the reason of one of them, and no
-- device is closer to authorising than that reason.
pub check_closest :
    (f : Fleet) (now : ℕ)
    → f.devices ≢ []
    → eligible now f.devices ≡ 0
    → (r : Str) × (check f now ≡ deny r)
      × Any (λ d. check_device d now ≡ deny r) f.devices
      × All (λ d. rank (deny r) ≤ rank (check_device d now)) f.devices
check_closest f now = check_closest_by f.multi_device_auth f.needs now f.devices

conclude_some :
    (needed : ℕ) (s : Survey)
    → 0 < s.allowed
    → s.allowed < needed
    → conclude needed s ≡ deny deny_multi_device_auth
unfolding conclude
conclude_some needed s h e = ground arith

check_short_by :
    (rule : MultiDeviceAuth) (needs : Needs) (now : ℕ) (ds : List Device)
    → 0 < eligible now ds
    → eligible now ds < required rule (length ds)
    → check (record { devices = ds; multi_device_auth = rule; needs = needs }) now
      ≡ deny deny_multi_device_auth
unfolding check
check_short_by rule needs now [] h e = elim h [ ]
check_short_by rule needs now (d ∷ ds) h e =
    conclude_some (required rule (length (d ∷ ds))) (survey now start (d ∷ ds))
      (omega (arith, survey_allowed now (d ∷ ds) start))
      (omega (arith, survey_allowed now (d ∷ ds) start))

-- When some devices are eligible but fewer than the rule requires, the fleet denies with the reason
-- of the rule, not with that of a device.
pub check_short :
    (f : Fleet) (now : ℕ)
    → 0 < eligible now f.devices
    → eligible now f.devices < required f.multi_device_auth (length f.devices)
    → check f now ≡ deny deny_multi_device_auth
check_short f now = check_short_by f.multi_device_auth f.needs now f.devices

-- The reasons that a fleet can give.
abbrev pub IsFleetReason : Str → Type 0
IsFleetReason r = (r ≡ deny_multi_device_auth) ⊎ IsDeviceReason r

Any-reason :
    (now : ℕ) (r : Str) (ds : List Device)
    → Any (λ d. check_device d now ≡ deny r) ds
    → IsDeviceReason r
Any-reason now r [] h = absurd h
Any-reason now r (d ∷ ds) (inl h) = device_reason d now r h
Any-reason now r (d ∷ ds) (inr h) = Any-reason now r ds h

closest_reason : (now : ℕ) (ds : List Device) → IsDeviceReason (survey now start ds).closest_deny
closest_reason now ds = elim (survey-Surveyed now ds start refl).origin [
  | inl initial ↦ inl initial
  | inr given ↦ Any-reason now _ ds given
]

conclude_reason :
    (needed : ℕ) (s : Survey) (r : Str)
    → IsDeviceReason s.closest_deny
    → conclude needed s ≡ deny r
    → IsFleetReason r
unfolding conclude
conclude_reason needed s r h e = elim (Bool-cases (leb needed s.allowed)) [
  | inl met ↦ absurd (ground arith)
  | inr short ↦ elim (Bool-cases (ltb 0 s.allowed)) [
    | inl some_eligible ↦ inl (ground arith)
    | inr none_eligible ↦
        let same : s.closest_deny ≡ r = ground arith in inr (subst IsDeviceReason same h)
  ]
]

check_reason_by :
    (rule : MultiDeviceAuth) (needs : Needs) (now : ℕ) (ds : List Device) (r : Str)
    → check (record { devices = ds; multi_device_auth = rule; needs = needs }) now ≡ deny r
    → IsFleetReason r
unfolding check
check_reason_by rule needs now [] r e = inr (inl (ground arith))
check_reason_by rule needs now (d ∷ ds) r e =
    conclude_reason (required rule (length (d ∷ ds))) (survey now start (d ∷ ds)) r
      (closest_reason now (d ∷ ds)) e

-- A fleet denies with one of five reasons.
pub check-IsFleetReason : (f : Fleet) (now : ℕ) (r : Str) → check f now ≡ deny r → IsFleetReason r
check-IsFleetReason f now = check_reason_by f.multi_device_auth f.needs now f.devices
