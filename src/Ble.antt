-- ===== src/Ble.antt =====
-- crates/protocol/src/ble.rs: the transport-neutral view of one BLE advertisement.
-- A hash map is an association list, of which the program only reads the entry of a key; a hash
-- set is a list, of which it only reads membership. A UUID is its 128-bit number.
pub mod Text
pub mod RoundTrip
use omarchy_presence_unlock.Base.{
  ℕ, Bool, true, false, ◌||◌, List, [], ◌∷◌, Option, none, some, Str, Bytes, ◌==◌, if◌then◌else◌,
}
use omarchy_presence_unlock.Base.Int.{ℤ}

-- `[u8; 6]`, most significant octet first.
abbrev pub Address : Type 0
Address = List ℕ

abbrev pub Uuid : Type 0
Uuid = ℕ

pub record Advertisement : Type 0 where
  pub address : Address
  pub rssi : ℤ
  pub name : Option Str
  pub manufacturer_data : Option (List (ℕ × Bytes))
  pub service_data : Option (List (Uuid × Bytes))
  pub service_uuids : Option (List Uuid)

-- `Advertisement::new`; the builder methods are updates of one field.
unfoldable pub new_advertisement : Address → ℤ → Advertisement
new_advertisement address rssi = record {
  address = address;
  rssi = rssi;
  name = none;
  manufacturer_data = none;
  service_data = none;
  service_uuids = none;
}

-- `HashMap::get`.
abbrev pub get : List (ℕ × Bytes) → ℕ → Option Bytes
get [] key = none
get ((k, v) ∷ m) key = let rest = get m key in if k == key then some v else rest

unfoldable pub manufacturer : Advertisement → ℕ → Option Bytes
manufacturer ad company = elim ad.manufacturer_data [ none ↦ none | some m ↦ get m company ]

unfoldable pub service : Advertisement → Uuid → Option Bytes
service ad uuid = elim ad.service_data [ none ↦ none | some m ↦ get m uuid ]

-- Which advertisement fields a fleet inspects.
pub record Needs : Type 0 where
  pub manufacturer_data : Bool
  pub service_data : Bool
  pub service_uuids : Bool
  pub name : Bool

abbrev pub nothing : Needs
nothing = record {
  manufacturer_data = false;
  service_data = false;
  service_uuids = false;
  name = false;
}

abbrev pub union : Needs → Needs → Needs
union a b = record {
  manufacturer_data = a.manufacturer_data || b.manufacturer_data;
  service_data = a.service_data || b.service_data;
  service_uuids = a.service_uuids || b.service_uuids;
  name = a.name || b.name;
}
