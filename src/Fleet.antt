-- ===== src/Fleet.antt =====
-- crates/protocol/src/presence.rs, second half: the enrolled devices and the multi-device rule.
pub mod Rule
pub mod Ranks
pub mod Reason
pub mod Scan
pub mod Log
pub mod Fields
pub mod Restart
mod Tests
use omarchy_presence_unlock.Base.{
  ℕ, suc, ◌+◌, Bool, true, false, ◌||◌, List, [], ◌∷◌, Option, map, Str, ltb, leb, any, length,
  if◌then◌else◌,
}
use omarchy_presence_unlock.Base.Int.{ℤ}
use omarchy_presence_unlock.Ble.{Address, Advertisement, Needs, nothing, union}
use omarchy_presence_unlock.Wire.{deny_no_device, deny_multi_device_auth}
use omarchy_presence_unlock.Identity
use omarchy_presence_unlock.Identity.{Identity, Verdict, match, reject, undecided, verdict, matches}
use omarchy_presence_unlock.Profile.{Profile}
use omarchy_presence_unlock.Presence
use omarchy_presence_unlock.Presence.{
  Policy, Decision, allow, deny, rank, Eligibility, default_eligibility,
}

pub record DeviceSpec : Type 0 where
  pub id : Str
  pub identity : Identity
  pub profile : Profile
  pub policy : Policy

pub record Device : Type 0 where
  pub spec : DeviceSpec
  pub eligibility : Eligibility

-- `Device::new`
unfoldable pub new_device : DeviceSpec → Device
new_device spec = record { spec = spec; eligibility = default_eligibility }

-- `Device::check`
unfoldable pub check_device : Device → ℕ → Decision
check_device d now = Presence.check d.eligibility now d.spec.policy

pub data MultiDeviceAuth : Type 0 where
  any_device all_devices : MultiDeviceAuth
  at_least : ℕ → MultiDeviceAuth

-- `max(n, 1)`
abbrev pub at_least_one : ℕ → ℕ
at_least_one n = if ltb n 1 then 1 else n

unfoldable pub required : MultiDeviceAuth → ℕ → ℕ
required any_device total = 1
required all_devices total = total
required (at_least n) total = at_least_one n

pub record Fleet : Type 0 where
  pub devices : List Device
  pub multi_device_auth : MultiDeviceAuth
  pub needs : Needs

-- The fold of `Fleet::new` over the fields that the specs need.
unfoldable pub collect_needs : Needs → List DeviceSpec → Needs
collect_needs needs [] = needs
collect_needs needs (spec ∷ specs) =
    collect_needs (union (union needs (Identity.needs spec.identity)) spec.profile.needs) specs

-- `Fleet::new`
unfoldable pub new : List DeviceSpec → MultiDeviceAuth → Fleet
unfolding collect_needs
new specs multi_device_auth = record {
  devices = map new_device specs;
  multi_device_auth = multi_device_auth;
  needs = collect_needs nothing specs;
}

-- `verdict != Verdict::Reject`
abbrev pub is_not_reject : Verdict → Bool
is_not_reject reject = false
is_not_reject match = true
is_not_reject undecided = true

unfoldable pub is_interested : Fleet → Address → Bool
is_interested f address =
    any (λ (d : Device). is_not_reject (verdict d.spec.identity address)) f.devices

-- One device's round of `Fleet::observe`.
unfoldable pub observe_device : ℕ → Advertisement → Device → Device
observe_device now ad d =
    if matches d.spec.identity ad
    then record d {
      eligibility =
          Presence.observe d.eligibility now ad.rssi (d.spec.profile.evaluate ad) d.spec.policy;
    }
    else d

unfoldable pub observe : Fleet → ℕ → Advertisement → Fleet
observe f now ad = record f { devices = map (observe_device now ad) f.devices }

unfoldable pub invalidate_device : Device → Device
invalidate_device d = record d { eligibility = Presence.invalidate d.eligibility }

unfoldable pub invalidate : Fleet → Fleet
invalidate f = record f { devices = map invalidate_device f.devices }

-- The variables of the loop of `Fleet::check`.
pub record Survey : Type 0 where
  pub allowed : ℕ
  pub closest_deny : Str
  pub closest_rank : ℕ

-- One round: what a device's decision adds.
unfoldable pub survey_step : Survey → Decision → Survey
survey_step s allow = record s { allowed = s.allowed + 1 }
survey_step s (deny reason) =
    let r = rank (deny reason) in
    if ltb r s.closest_rank then record s { closest_deny = reason; closest_rank = r } else s

unfoldable pub survey : ℕ → Survey → List Device → Survey
survey now s [] = s
survey now s (d ∷ ds) = survey now (survey_step s (check_device d now)) ds

abbrev pub start : Survey
start = record {
  allowed = 0;
  closest_deny = deny_no_device;
  closest_rank = rank (deny deny_no_device);
}

-- The decision after the loop.
unfoldable pub conclude : ℕ → Survey → Decision
conclude needed s =
    if leb needed s.allowed
    then allow
    else if ltb 0 s.allowed
    then deny deny_multi_device_auth
    else deny s.closest_deny

abbrev pub is_empty {ℓ} : {A : Type ℓ} → List A → Bool
is_empty [] = true
is_empty (x ∷ xs) = false

unfoldable pub check : Fleet → ℕ → Decision
unfolding survey conclude
check f now =
    if is_empty f.devices
    then deny deny_no_device
    else conclude (required f.multi_device_auth (length f.devices)) (survey now start f.devices)

pub record DeviceStatus : Type 0 where
  pub id : Str
  pub profile : Profile
  pub decision : Decision
  pub rssi : Option ℤ

unfoldable pub report : Fleet → ℕ → List DeviceStatus
report f now =
    map
      (λ (d : Device). record {
        id = d.spec.id;
        profile = d.spec.profile;
        decision = check_device d now;
        rssi = d.eligibility.last_rssi;
      })
      f.devices
