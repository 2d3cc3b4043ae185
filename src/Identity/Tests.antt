-- ===== src/Identity/Tests.antt =====
-- The matching theorem at an address that is the configured one.
use omarchy_presence_unlock.Base.{◌≡◌, ◌↔◌, true, [], ◌∷◌}
use omarchy_presence_unlock.Base.Int.{negsuc}
use omarchy_presence_unlock.Ble.{Address, Advertisement, new_advertisement}
use omarchy_presence_unlock.Identity.{from_address, matches}
use omarchy_presence_unlock.Identity.Criteria.{Holds, matches-Holds}

abbrev watch : Address
watch = 1 ∷ 2 ∷ 3 ∷ 4 ∷ 5 ∷ 6 ∷ []

abbrev seen : Advertisement
seen = new_advertisement watch (negsuc 49)

matches-Holds_example : (matches (from_address watch) seen ≡ true) ↔ Holds (from_address watch) seen
matches-Holds_example = matches-Holds (from_address watch) seen
