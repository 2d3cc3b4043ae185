-- ===== src/Profile/Tests.antt =====
-- The registry at the id of the proximity profile, and the Apple profile at a payload.
use omarchy_presence_unlock.Base.{◌≡◌, refl}
use omarchy_presence_unlock.Base.{◌↔◌, [], ◌∷◌, some, Bytes}
use omarchy_presence_unlock.Base.Int.{negsuc}
use omarchy_presence_unlock.Ble.{Advertisement, new_advertisement, manufacturer}
use omarchy_presence_unlock.Presence.{qualify}
use omarchy_presence_unlock.Apple.{company_id}
use omarchy_presence_unlock.Profile.{evaluate_apple_continuity}
use omarchy_presence_unlock.Profile.Continuity.{Unlocks, evaluate_apple_continuity-Unlocks}

-- A Nearby Info of an unlocked watch.
abbrev payload : Bytes
payload = 16 ∷ 3 ∷ 5 ∷ 128 ∷ 0 ∷ []

abbrev seen : Advertisement
seen = record (new_advertisement [] (negsuc 49)) {
  manufacturer_data = some ((company_id, payload) ∷ []);
}

data_seen : manufacturer seen company_id ≡ some payload
unfolding manufacturer
data_seen = refl

evaluate_apple_continuity-Unlocks_example :
    (evaluate_apple_continuity seen ≡ qualify) ↔ Unlocks payload
evaluate_apple_continuity-Unlocks_example = evaluate_apple_continuity-Unlocks seen payload data_seen
