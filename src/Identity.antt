-- ===== src/Identity.antt =====
-- crates/protocol/src/identity.rs: how a configured device is recognised in an advertisement.
pub mod Criteria
mod Tests
use omarchy_presence_unlock.Base.{
  Bool, true, false, ◌&&◌, ◌||◌, not, Option, none, some, Str, str_eq, strip_prefix, any, ◌==◌,
  is_some, is_some_and, if◌then◌else◌, Bytes,
}
use omarchy_presence_unlock.Ble.{Address, Uuid, Advertisement, Needs}
use omarchy_presence_unlock.Irk.{IrkMatcher, new_matcher, resolves}

pub data Verdict : Type 0 where
  match reject undecided : Verdict

pub record Identity : Type 0 where
  pub irk : Option IrkMatcher
  pub address : Option Address
  pub service_uuid : Option Uuid
  pub name_prefix : Option Str

-- `Identity::default`
abbrev pub default_identity : Identity
default_identity = record { irk = none; address = none; service_uuid = none; name_prefix = none }

unfoldable pub from_irk : (Bytes → Bytes → Bytes) → Bytes → Identity
from_irk aes irk = record default_identity { irk = some (new_matcher aes irk) }

unfoldable pub from_address : Address → Identity
from_address address = record default_identity { address = some address }

unfoldable pub is_empty : Identity → Bool
is_empty i =
    not (is_some i.irk)
    && not (is_some i.address)
    && not (is_some i.service_uuid)
    && not (is_some i.name_prefix)

unfoldable pub needs : Identity → Needs
needs i = record {
  manufacturer_data = false;
  service_data = false;
  service_uuids = is_some i.service_uuid;
  name = is_some i.name_prefix;
}

-- Decides as much as the address allows.
unfoldable pub verdict : Identity → Address → Verdict
unfolding is_empty
verdict i address =
    if is_empty i
    then reject
    else if is_some_and i.irk (λ irk. not (resolves irk address))
    then reject
    else if is_some_and i.address (λ expected. not (str_eq expected address))
    then reject
    else if is_some i.service_uuid || is_some i.name_prefix
    then undecided
    else match

-- The criteria that require payload.
unfoldable pub payload_matches : Identity → Advertisement → Bool
payload_matches i ad =
    if is_some_and i.service_uuid
      (λ uuid. not (is_some_and ad.service_uuids (λ uuids. any (λ u. u == uuid) uuids)))
    then false
    else if is_some_and i.name_prefix
        (λ prefix. not (is_some_and ad.name (λ name. is_some (strip_prefix prefix name))))
    then false
    else true

unfoldable pub matches : Identity → Advertisement → Bool
unfolding payload_matches
matches i ad = elim (verdict i ad.address) [
  | reject ↦ false
  | match ↦ true
  | undecided ↦ payload_matches i ad
]
