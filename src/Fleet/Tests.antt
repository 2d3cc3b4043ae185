-- ===== src/Fleet/Tests.antt =====
-- The fleet's theorems at two devices that are known by address.
use omarchy_presence_unlock.Base.{
  ℕ, str_eq, ◌≤◌, ◌≡◌, refl, ◌↔◌, inr, List, [], ◌∷◌, map, All, Str, codes, length, arith,
}
use omarchy_presence_unlock.Base.Int.{negsuc}
use omarchy_presence_unlock.Ble.{Address, new_advertisement}
use omarchy_presence_unlock.Identity.{from_address, matches, verdict, payload_matches, is_empty}
use omarchy_presence_unlock.Profile.{presence, evaluate_presence}
use omarchy_presence_unlock.Presence
use omarchy_presence_unlock.Presence.{default_policy, allow, deny, rank}
use omarchy_presence_unlock.Fleet.{
  DeviceSpec, Fleet, any_device, required, new, new_device, observe_device, survey, survey_step,
  conclude, collect_needs, check, check_device, is_interested, observe,
}
use omarchy_presence_unlock.Fleet.Rule.{Meets, check-Meets}
use omarchy_presence_unlock.Fleet.Log.{
  Delivery, feed, device_after, Picks, Attested, IsChronological, feed_devices, check-Attested,
}
use omarchy_presence_unlock.Fleet.Fields.{restrict, observe-restrict, new-IsCovered}

abbrev watch : Address
watch = 1 ∷ 2 ∷ 3 ∷ 4 ∷ 5 ∷ 6 ∷ []

abbrev phone : Address
phone = 7 ∷ 2 ∷ 3 ∷ 4 ∷ 5 ∷ 6 ∷ []

abbrev spec : Str → Address → DeviceSpec
spec id address = record {
  id = id;
  identity = from_address address;
  profile = presence;
  policy = default_policy;
}

abbrev specs : List DeviceSpec
specs = spec (codes "watch") watch ∷ spec (codes "phone") phone ∷ []

abbrev sent : ℕ → Address → Delivery
sent now address = record { at_ms = now; advertisement = new_advertisement address (negsuc 49) }

-- The watch twice, newest first.
abbrev twice : List Delivery
twice = sent 1000 watch ∷ sent 900 watch ∷ []

-- Only the watch is there.
abbrev some_there : Fleet
some_there = feed (new specs any_device) twice

check-Meets_example :
    (check some_there 1100 ≡ allow) ↔ Meets some_there.multi_device_auth 1100 some_there.devices
check-Meets_example = check-Meets some_there 1100

abbrev twice_ordered : IsChronological twice
twice_ordered = (omega arith, (omega arith, tt))

some_allowed : check some_there 1100 ≡ allow
unfolding check check_device survey survey_step conclude required feed new new_device observe
    observe_device matches verdict payload_matches from_address is_empty evaluate_presence
    Presence.observe Presence.check str_eq new_advertisement is_interested collect_needs rank
some_allowed = refl

feed_devices_example : (feed (new specs any_device) twice).devices ≡ map (device_after twice) specs
feed_devices_example = feed_devices specs any_device twice

check-Attested_example :
    (chosen : List DeviceSpec) × Picks chosen specs
    × (required any_device (length specs) ≤ length chosen)
    × All (Attested 1100 twice) chosen
check-Attested_example =
    check-Attested specs any_device twice 1100 twice_ordered (omega arith) some_allowed

observe-restrict_example :
    observe
      (new specs any_device)
      900
      (restrict (new specs any_device).needs (sent 900 watch).advertisement)
    ≡ observe (new specs any_device) 900 (sent 900 watch).advertisement
observe-restrict_example =
    observe-restrict (new specs any_device) 900 (sent 900 watch).advertisement
      (new-IsCovered specs any_device (inr refl, (inr refl, tt)))
