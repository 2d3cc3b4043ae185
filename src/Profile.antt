-- ===== src/Profile.antt =====
-- crates/protocol/src/profile/: the registry of device profiles, and how each reads an advertisement.
pub mod Registry
pub mod Continuity
mod Tests
use omarchy_presence_unlock.Base.{
  Bool, true, false, ◌||◌, not, List, [], ◌∷◌, Option, none, some, Str, codes, str_eq,
  if◌then◌else◌,
}
use omarchy_presence_unlock.Ble.{Advertisement, manufacturer, Needs, nothing}
use omarchy_presence_unlock.Presence.{Observation, qualify, revoke, ignore}
use omarchy_presence_unlock.Apple
use omarchy_presence_unlock.Apple.{ParseResult, company_id, parse_nearby_info}

pub record Profile : Type 0 where
  pub id : Str
  pub label : Str
  pub needs : Needs
  pub attests_device_state : Bool
  pub evaluate : Advertisement → Observation

-- The match of `apple_continuity::evaluate` on the decoded payload.
abbrev pub read_nearby_info : ParseResult → Observation
read_nearby_info (ParseResult.ok info) =
    if info.is_watch_locked || not info.is_auto_unlock_enabled then revoke else qualify
read_nearby_info (ParseResult.err Apple.missing_nearby_info) = ignore
read_nearby_info (ParseResult.err other) = revoke

unfoldable pub evaluate_apple_continuity : Advertisement → Observation
evaluate_apple_continuity ad = elim (manufacturer ad company_id) [
  | none ↦ ignore
  | some payload ↦ read_nearby_info (parse_nearby_info payload)
]

unfoldable pub evaluate_presence : Advertisement → Observation
evaluate_presence ad = qualify

abbrev pub apple_continuity : Profile
apple_continuity = record {
  id = codes "apple-continuity";
  label = codes "Apple Continuity";
  needs = record nothing { manufacturer_data = true };
  attests_device_state = true;
  evaluate = evaluate_apple_continuity;
}

abbrev pub presence : Profile
presence = record {
  id = codes "presence";
  label = codes "Proximity only";
  needs = nothing;
  attests_device_state = false;
  evaluate = evaluate_presence;
}

abbrev pub profiles : List Profile
profiles = apple_continuity ∷ presence ∷ []

find_in : Str → List Profile → Option Profile
find_in id [] = none
find_in id (p ∷ ps) = let rest = find_in id ps in if str_eq p.id id then some p else rest

-- `profile::find`
unfoldable pub find : Str → Option Profile
unfolding find_in
find id = find_in id profiles
