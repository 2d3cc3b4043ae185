-- ===== src/Daemon/Scan.antt =====
-- crates/daemon/src/scan.rs: from discovery events to the fleet. What BlueZ answers to each property
-- read is part of the event.
use omarchy_presence_unlock.Base.{
  ℕ, ◌≡◌, sym, ap, Bool, not, List, [], ◌∷◌, ◌++◌, Option, none, some, Str, Bytes, codes,
  if◌then◌else◌, arith, Bool-cases, inl, inr,
}
use omarchy_presence_unlock.Base.Int.{ℤ}
use omarchy_presence_unlock.Ble.{Address, Uuid, Advertisement, Needs, new_advertisement}
use omarchy_presence_unlock.Fleet.{Fleet, is_interested, observe}
use omarchy_presence_unlock.Fleet.Scan.{observe_uninterested}
use omarchy_presence_unlock.Fleet.Fields.{restrict, IsCovered, observe-restrict}

-- A property read over D-Bus: an error, or the value if the device has one.
pub data Property (A : Type 0) : Type 0 where
  failed : Property A
  got : Option A → Property A

-- `fetch`: a property that no device depends on is not read.
abbrev pub fetch : {A : Type 0} → Bool → Property A → Property A
fetch wanted property = if wanted then property else got none

pub record Peer : Type 0 where
  pub rssi : Property ℤ
  pub manufacturer_data : Property (List (ℕ × Bytes))
  pub service_data : Property (List (Uuid × Bytes))
  pub service_uuids : Property (List Uuid)
  pub name : Property Str

infixl 5 ◌>>=◌
abbrev pub ◌>>=◌ : {A B : Type 0} → Property A → (Option A → Option B) → Option B
failed >>= f = none
got value >>= f = f value

-- The reads in their order; `none` where one fails, and the event is passed over.
unfoldable pub read_properties : Address → ℤ → Needs → Peer → Option Advertisement
unfolding new_advertisement
read_properties address rssi needs peer = do
  manufacturer_data ← fetch needs.manufacturer_data peer.manufacturer_data
  service_data ← fetch needs.service_data peer.service_data
  service_uuids ← fetch needs.service_uuids peer.service_uuids
  name ← fetch needs.name peer.name
  some (record (new_advertisement address rssi) {
    name = name;
    manufacturer_data = manufacturer_data;
    service_data = service_data;
    service_uuids = service_uuids;
  })

pub data Event : Type 0 where
  device_added : Address → Option Peer → Event
  other_event : Event

-- A scan goes on with the fleet, or ends with an error.
pub data Progress : Type 0 where
  scanning : Fleet → Progress
  scan_error : Progress

-- `Ok(Some(rssi))`
abbrev pub live_rssi : Property ℤ → Option ℤ
live_rssi failed = none
live_rssi (got rssi) = rssi

abbrev pub fold_advertisement : Fleet → ℕ → Option Advertisement → Fleet
fold_advertisement f now none = f
fold_advertisement f now (some ad) = observe f now ad

abbrev pub read_live : Fleet → ℕ → Address → Peer → Option ℤ → Fleet
read_live f now address peer none = f
read_live f now address peer (some rssi) =
    fold_advertisement f now (read_properties address rssi f.needs peer)

abbrev pub read_peer : Fleet → ℕ → Address → Option Peer → Progress
read_peer f now address none = scan_error
read_peer f now address (some peer) = scanning (read_live f now address peer (live_rssi peer.rssi))

-- One round of the loop of `scan`; `now` is the instant at which the advertisement is folded.
unfoldable pub scan_step : Fleet → ℕ → Event → Progress
scan_step f now other_event = scanning f
scan_step f now (device_added address peer) =
    if not (is_interested f address) then scanning f else read_peer f now address peer

-- `skipped_reads`
unfoldable pub skipped_reads : Needs → List Str
skipped_reads n =
    (if n.manufacturer_data then [] else codes "manufacturer-data" ∷ [])
    ++ ((if n.service_data then [] else codes "service-data" ∷ [])
        ++ ((if n.service_uuids then [] else codes "service-uuids" ∷ [])
            ++ (if n.name then [] else codes "name" ∷ [])))

-- A peer whose every property can be read, as the advertisement that it sends.
abbrev pub readable : Advertisement → Peer
readable ad = record {
  rssi = got (some ad.rssi);
  manufacturer_data = got ad.manufacturer_data;
  service_data = got ad.service_data;
  service_uuids = got ad.service_uuids;
  name = got ad.name;
}

read-restrict :
    (needs : Needs) (ad : Advertisement)
    → read_properties ad.address ad.rssi needs (readable ad) ≡ some (restrict needs ad)
unfolding read_properties
read-restrict needs ad = ground arith

-- The two economies of the scanner lose nothing: for a fleet whose needs serve its devices, a round
-- that drops uninteresting addresses and reads only the needed properties leaves the fleet as folding
-- the whole advertisement would, if the device's properties can be read.
pub scan_step-observe :
    (f : Fleet) (now : ℕ) (ad : Advertisement)
    → IsCovered f
    → scan_step f now (device_added ad.address (some (readable ad))) ≡ scanning (observe f now ad)
unfolding scan_step
scan_step-observe f now ad h = elim (Bool-cases (is_interested f ad.address)) [
  | inl interested ↦
      rw interested (rw (read-restrict f.needs ad) (ap scanning (observe-restrict f now ad h)))
  | inr stranger ↦ rw stranger (ap scanning (sym (observe_uninterested f now ad stranger)))
]
