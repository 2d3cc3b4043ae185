-- ===== src/Daemon/Tests.antt =====
-- The scanner's theorem at a fleet of one device that shows nothing but its address.
use omarchy_presence_unlock.Base.{◌≡◌, refl, inr, List, [], ◌∷◌, some, codes}
use omarchy_presence_unlock.Base.Int.{negsuc}
use omarchy_presence_unlock.Ble.{Advertisement, new_advertisement}
use omarchy_presence_unlock.Identity.{from_address}
use omarchy_presence_unlock.Profile.{presence}
use omarchy_presence_unlock.Presence.{default_policy}
use omarchy_presence_unlock.Fleet.{DeviceSpec, any_device, new, observe}
use omarchy_presence_unlock.Fleet.Fields.{new-IsCovered}
use omarchy_presence_unlock.Daemon.Scan.{
  device_added, scanning, readable, scan_step, scan_step-observe,
}
use omarchy_presence_unlock.Base.{◌≤◌, ◌⊎◌, true, All, length, arith, str_eq}
use omarchy_presence_unlock.Identity
use omarchy_presence_unlock.Identity.{verdict, matches, payload_matches, is_empty}
use omarchy_presence_unlock.Profile.{evaluate_presence}
use omarchy_presence_unlock.Presence
use omarchy_presence_unlock.Presence.{allow, rank}
use omarchy_presence_unlock.Fleet.{
  new_device, invalidate, invalidate_device, observe_device, check_device, survey, survey_step,
  conclude, required, is_interested, collect_needs, check,
}
use omarchy_presence_unlock.Fleet.Log.{feed, Picks, Attested, IsChronological, latest}
use omarchy_presence_unlock.Daemon.Scan.{read_properties}
use omarchy_presence_unlock.Daemon.Life.{
  LifeEvent, life_step, heard, stopped, live, since_start, live-feed, live-Attested,
}
use omarchy_presence_unlock.Daemon.Serve.{
  held, socket, not_found, connection_refused, prepare, remove_stale_socket, prepare_prepared,
}

abbrev specs : List DeviceSpec
specs =
    record {
      id = codes "watch";
      identity = from_address (1 ∷ 2 ∷ 3 ∷ 4 ∷ 5 ∷ 6 ∷ []);
      profile = presence;
      policy = default_policy;
    }
    ∷ []

abbrev sent : Advertisement
sent = new_advertisement (1 ∷ 2 ∷ 3 ∷ 4 ∷ 5 ∷ 6 ∷ []) (negsuc 49)

scan_step-observe_example :
    scan_step (new specs any_device) 900 (device_added sent.address (some (readable sent)))
    ≡ scanning (observe (new specs any_device) 900 sent)
scan_step-observe_example =
    scan_step-observe (new specs any_device) 900 sent
      (new-IsCovered specs any_device (inr refl, tt))

abbrev meeting : List LifeEvent
meeting = heard 900 (device_added sent.address (some (readable sent))) ∷ stopped ∷ []

live-feed_example :
    live (new specs any_device) meeting
    ≡ feed (new specs any_device) (since_start (new specs any_device) meeting)
live-feed_example = live-feed specs any_device meeting

-- The watch twice, after a scan that ended.
abbrev again : List LifeEvent
again = heard 1000 (device_added sent.address (some (readable sent))) ∷ meeting

again_chronological : IsChronological (since_start (new specs any_device) again)
unfolding new since_start is_interested verdict str_eq new_advertisement read_properties
    from_address collect_needs new_device Identity.needs
again_chronological = (omega arith, (omega arith, tt))

again-latest : latest (since_start (new specs any_device) again) ≤ 1100
unfolding new since_start is_interested verdict str_eq new_advertisement read_properties
    from_address collect_needs new_device Identity.needs
again-latest = omega arith

again_allowed : check (live (new specs any_device) again) 1100 ≡ allow
unfolding new since_start is_interested verdict str_eq new_advertisement read_properties
    from_address collect_needs new_device Identity.needs check live life_step scan_step invalidate
    invalidate_device observe observe_device matches payload_matches is_empty evaluate_presence
    Presence.invalidate Presence.observe Presence.check check_device survey survey_step conclude
    required rank
again_allowed = refl

live-Attested_example :
    (chosen : List DeviceSpec) × Picks chosen specs
    × (required any_device (length specs) ≤ length chosen)
    × All (Attested 1100 (since_start (new specs any_device) again)) chosen
live-Attested_example =
    live-Attested specs any_device again 1100 again_chronological again-latest again_allowed

prepare_prepared_example :
    (held ≡ held)
    × ((socket connection_refused ≡ not_found)
        ⊎ ((socket connection_refused ≡ socket connection_refused) × (true ≡ true)))
unfolding prepare remove_stale_socket
prepare_prepared_example = prepare_prepared held (socket connection_refused) true refl
