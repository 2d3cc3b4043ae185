-- ===== src/Config/Resolve.antt =====
-- `ConfigFile::resolve`: the loop over the entries, and the multi-device rule.
use omarchy_presence_unlock.Base.{
  ℕ, Bool, false, List, [], ◌∷◌, ◌++◌, Option, none, some, Str, Bytes, codes, str_eq, strip_prefix,
  any, length, ltb, ◌==◌, if◌then◌else◌,
}
use omarchy_presence_unlock.Ble.{Address}
use omarchy_presence_unlock.Ble.Text.{parse_address}
use omarchy_presence_unlock.Numbers.{parse_u8}
use omarchy_presence_unlock.Fleet.{
  DeviceSpec, MultiDeviceAuth, any_device, all_devices, at_least, is_empty,
}
use omarchy_presence_unlock.Config.{
  DeviceEntry, ConfigFile, Settings, ConfigError, Result, ok, err, ◌>>=◌, transpose, current_schema,
}
use omarchy_presence_unlock.Config.Device.{Crates, decode_irk, resolve_entry}

-- The parts of an entry that name one physical device, with its id.
pub record Seen : Type 0 where
  pub id : Str
  pub irk : Option Bytes
  pub address : Option Address

-- `a.is_some() && a == b`
abbrev pub shared : Option (List ℕ) → Option (List ℕ) → Bool
shared none b = false
shared (some a) none = false
shared (some a) (some b) = str_eq a b

-- The inner loop: the first device seen that this one repeats.
unfoldable pub check_seen : Seen → List Seen → Result (Unit {0})
check_seen new [] = ok tt
check_seen new (other ∷ seen) =
    let rest = check_seen new seen in
    if shared new.irk other.irk
    then err (ConfigError.duplicate_identity other.id new.id (codes "irk_base64"))
    else if shared new.address other.address
    then err (ConfigError.duplicate_identity other.id new.id (codes "address"))
    else rest

-- `and_then(|text| parse_address(text).ok())`
abbrev pub address_of : Option Str → Option Address
address_of none = none
address_of (some text) = parse_address text

-- `multi_device_auth`
abbrev pub positive : Option ℕ → Option MultiDeviceAuth
positive none = none
positive (some n) = if ltb 0 n then some (at_least n) else none

abbrev pub at_least_rule : Option Str → Option MultiDeviceAuth
at_least_rule none = none
at_least_rule (some n) = positive (parse_u8 n)

abbrev pub rule_or : Str → Option MultiDeviceAuth → Result MultiDeviceAuth
rule_or text none = err (ConfigError.multi_device_auth text)
rule_or text (some rule) = ok rule

unfoldable pub parse_rule : Option Str → Result MultiDeviceAuth
parse_rule none = ok any_device
parse_rule (some text) =
    if str_eq text (codes "any")
    then ok any_device
    else if str_eq text (codes "all")
    then ok all_devices
    else rule_or text (at_least_rule (strip_prefix (codes "at-least:") text))

-- The test that the rule does not exceed the enrollment.
abbrev pub check_count : MultiDeviceAuth → ℕ → Result (Unit {0})
check_count any_device configured = ok tt
check_count all_devices configured = ok tt
check_count (at_least n) configured =
    if ltb configured n then err (ConfigError.exceeds_device_count n configured) else ok tt

-- `ConfigFile::parse` behind the TOML reader.
unfoldable pub check_schema : ConfigFile → Result ConfigFile
check_schema file =
    if file.schema_version == current_schema
    then ok file
    else err (ConfigError.schema file.schema_version)

module _ (c : Crates) where
  -- The loop over the entries, with the devices and the identities so far.
  unfoldable pub resolve_entries :
      List DeviceEntry → List DeviceSpec → List Seen → Result (List DeviceSpec)
  resolve_entries [] devices seen = ok devices
  resolve_entries (e ∷ entries) devices seen =
      let rest = (do
        spec ← resolve_entry c e
        irk ← transpose e.irk_base64 (λ text. decode_irk c e.id text)
        let new : Seen = record { id = e.id; irk = irk; address = address_of e.address }
        unit ← check_seen new seen
        resolve_entries entries (devices ++ spec ∷ []) (seen ++ new ∷ [])) in
      if any (λ (spec : DeviceSpec). str_eq spec.id e.id) devices
      then err (ConfigError.duplicate_device e.id)
      else rest

  unfoldable pub resolve : ConfigFile → Result Settings
  unfolding resolve_entries parse_rule
  resolve file =
      let resolved = (do
        devices ← resolve_entries file.devices [] []
        rule ← parse_rule file.multi_device_auth
        unit ← check_count rule (length devices)
        ok (record { adapter = file.adapter; multi_device_auth = rule; devices = devices })) in
      if is_empty file.devices then err ConfigError.no_devices else resolved
