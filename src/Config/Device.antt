-- ===== src/Config/Device.antt =====
-- One entry of the file as a device: its key, its identity, its profile and its policy.
use omarchy_presence_unlock.Base.{
  Bool, true, false, [], ◌∷◌, Option, none, some, Str, Bytes, codes, length, trim, ◌==◌,
  is_some_and, if◌then◌else◌,
}
use mathlib.Core.List.{reverse}
use omarchy_presence_unlock.Ble.{Uuid}
use omarchy_presence_unlock.Ble.Text.{parse_address}
use omarchy_presence_unlock.Irk.{new_matcher}
use omarchy_presence_unlock.Identity.{Identity, is_empty}
use omarchy_presence_unlock.Profile.{find}
use omarchy_presence_unlock.Fleet.{DeviceSpec}
use omarchy_presence_unlock.Config.{
  DeviceEntry, ConfigError, Result, ok, err, ◌>>=◌, ok_or, transpose,
}
use omarchy_presence_unlock.Config.Policy.{entry_policy}

-- The other crates' functions: base64, the text form of a UUID, and AES-128.
pub record Crates : Type 0 where
  pub decode64 : Str → Option Bytes
  pub parse_uuid : Str → Option Uuid
  pub aes : Bytes → Bytes → Bytes

abbrev pub irk_of_length : Str → Bytes → Result Bytes
irk_of_length id raw =
    if length raw == 16 then ok (reverse raw) else err (ConfigError.irk_length id)

abbrev pub is_blank : Str → Bool
is_blank [] = true
is_blank (c ∷ s) = false

abbrev pub named_map {ℓ} : {A B : Type ℓ} → (A → B) → Option A → Option B
named_map f none = none
named_map f (some a) = some (f a)

module _ (c : Crates) where
  -- `decode_irk`: the bytes are reversed here, once.
  unfoldable pub decode_irk : Str → Str → Result Bytes
  unfolding trim
  decode_irk id text = do
    raw ← ok_or (c.decode64 (trim text)) (ConfigError.irk_base64 id)
    irk_of_length id raw

  -- The identity, unless it has no criterion.
  abbrev pub nonempty_identity : Str → Identity → Result Identity
  nonempty_identity id i =
      if is_empty i
      then err (
          ConfigError.device id
            (codes "needs at least one of irk_base64, address, service_uuid, or name_prefix"))
      else ok i

  -- The test of the name prefix, and then of the whole.
  abbrev pub named_identity : Str → Identity → Result Identity
  named_identity id i =
      if is_some_and i.name_prefix (λ prefix. is_blank (trim prefix))
      then err (ConfigError.device id (codes "name_prefix must not be empty"))
      else nonempty_identity id i

  unfoldable pub entry_identity : DeviceEntry → Result Identity
  unfolding trim
  entry_identity e = do
    irk ← transpose e.irk_base64 (λ text. decode_irk e.id text)
    address ←
        transpose e.address
          (λ text. ok_or (parse_address text) (ConfigError.device e.id (codes "invalid address")))
    service_uuid ←
        transpose e.service_uuid (λ text.
          ok_or (c.parse_uuid text) (ConfigError.device e.id (codes "invalid service UUID")))
    named_identity e.id (record {
      irk = named_map (new_matcher c.aes) irk;
      address = address;
      service_uuid = service_uuid;
      name_prefix = e.name_prefix;
    })

  -- `DeviceEntry::resolve`
  unfoldable pub resolve_entry : DeviceEntry → Result DeviceSpec
  resolve_entry e = do
    identity ← entry_identity e
    profile ← ok_or (find e.profile) (ConfigError.unsupported_profile e.id e.profile)
    policy ← entry_policy e
    ok (record { id = e.id; identity = identity; profile = profile; policy = policy })
