-- ===== src/Config/Tests.antt =====
-- The theorems on the configuration at a file with one device.
use omarchy_presence_unlock.Base.{◌≡◌, refl, [], ◌∷◌, none, some, codes, str_eq}
use omarchy_presence_unlock.Fleet.{any_device}
use omarchy_presence_unlock.Config.{
  DeviceEntry, ConfigFile, Settings, Result, ok, err, current_schema,
}
use omarchy_presence_unlock.Config.Policy.{validate_policy}
use omarchy_presence_unlock.Config.Device.{Crates}
use omarchy_presence_unlock.Config.Resolve.{resolve}
use omarchy_presence_unlock.Base.{strip_prefix}
use omarchy_presence_unlock.Numbers.{parse_u8, digits}
use omarchy_presence_unlock.Identity.{is_empty}
use omarchy_presence_unlock.Profile.{find}
use omarchy_presence_unlock.Config.Policy.{entry_policy, requested_policy}
use omarchy_presence_unlock.Config.Device.{entry_identity, resolve_entry}
use omarchy_presence_unlock.Config.Resolve.{check_seen}
use omarchy_presence_unlock.Config.Sound.{IsSound, resolve-IsSound}
use omarchy_presence_unlock.Base.{All}
use omarchy_presence_unlock.Fleet.{DeviceSpec}
use omarchy_presence_unlock.Config.Deploy.{IsFeasible, resolve-IsFeasible}

-- A file by which nothing needs to be decoded.
abbrev crates : Crates
crates = record { decode64 = λ text. none; parse_uuid = λ text. none; aes = λ key block. block }

abbrev tag : DeviceEntry
tag = record {
  id = codes "tag";
  profile = codes "presence";
  irk_base64 = none;
  address = none;
  service_uuid = none;
  name_prefix = some (codes "Tag");
  threshold_dbm = none;
  minimum_samples = none;
  sample_window_ms = none;
  freshness_ms = none;
}

abbrev file : ConfigFile
file = record {
  schema_version = current_schema;
  adapter = none;
  multi_device_auth = some (codes "at-least:1");
  devices = tag ∷ [];
}

-- What a result holds, where it is known to be a success.
abbrev value : Settings → Result Settings → Settings
value other (ok s) = s
value other (err e) = other

abbrev no_settings : Settings
no_settings = record { adapter = none; multi_device_auth = any_device; devices = [] }

file_accepted : resolve crates file ≡ ok (value no_settings (resolve crates file))
unfolding resolve resolve_entry entry_identity is_empty find str_eq entry_policy validate_policy
    requested_policy check_seen strip_prefix parse_u8 digits
file_accepted = refl

resolve-IsSound_example : IsSound crates file (value no_settings (resolve crates file))
resolve-IsSound_example =
    resolve-IsSound crates file (value no_settings (resolve crates file)) file_accepted

resolve-IsFeasible_example :
    All
      (λ (spec : DeviceSpec). IsFeasible spec.policy)
      (value no_settings (resolve crates file)).devices
resolve-IsFeasible_example =
    resolve-IsFeasible crates file (value no_settings (resolve crates file)) file_accepted
