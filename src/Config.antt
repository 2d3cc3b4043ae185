-- ===== src/Config.antt =====
-- crates/protocol/src/config.rs: from the entries of the file to validated settings. Reading TOML is
-- another crate's: the parsed file is the input. So are base64, UUIDs and AES, which stand for
-- parameters: `decode64`, `parse_uuid`, `aes`.
pub mod Policy
pub mod Device
pub mod Resolve
pub mod Usable
pub mod Sound
pub mod Deploy
mod Tests
use omarchy_presence_unlock.Base.{ℕ, ◌≡◌, refl, List, Option, none, some, Str}
use omarchy_presence_unlock.Base.Int.{ℤ}
use omarchy_presence_unlock.Fleet.{DeviceSpec, MultiDeviceAuth}

abbrev pub current_schema : ℕ
current_schema = 4

pub record DeviceEntry : Type 0 where
  pub id : Str
  pub profile : Str
  pub irk_base64 : Option Str
  pub address : Option Str
  pub service_uuid : Option Str
  pub name_prefix : Option Str
  pub threshold_dbm : Option ℤ
  pub minimum_samples : Option ℕ
  pub sample_window_ms : Option ℕ
  pub freshness_ms : Option ℕ

pub record ConfigFile : Type 0 where
  pub schema_version : ℕ
  pub adapter : Option Str
  pub multi_device_auth : Option Str
  pub devices : List DeviceEntry

pub record Settings : Type 0 where
  pub adapter : Option Str
  pub multi_device_auth : MultiDeviceAuth
  pub devices : List DeviceSpec

-- The errors of `resolve`, with the texts that they carry.
pub data ConfigError : Type 0 where
  no_devices : ConfigError
  schema : ℕ → ConfigError
  irk_length irk_base64 duplicate_device multi_device_auth : Str → ConfigError
  device : Str → Str → ConfigError
  unsupported_profile : Str → Str → ConfigError
  duplicate_identity : Str → Str → Str → ConfigError
  exceeds_device_count : ℕ → ℕ → ConfigError
  -- the device, the field, its value and the allowed range
  policy : Str → Str → Str → Str → ConfigError

pub data Result {ℓ} (A : Type ℓ) : Type ℓ where
  ok : A → Result A
  err : ConfigError → Result A

infixl 5 ◌>>=◌
abbrev pub ◌>>=◌ {ℓ κ} : {A : Type ℓ} {B : Type κ} → Result A → (A → Result B) → Result B
err failure >>= next = err failure
ok value >>= next = next value

-- `ok_or`
abbrev pub ok_or {ℓ} : {A : Type ℓ} → Option A → ConfigError → Result A
ok_or none e = err e
ok_or (some a) e = ok a

-- `.map(f).transpose()?` of an optional field.
abbrev pub transpose {ℓ} : {A : Type ℓ} {B : Type ℓ} → Option A → (A → Result B) → Result (Option B)
transpose none f = ok none
transpose (some a) f = f a >>= λ b. ok (some b)

-- Inversion of a successful chain.
pub >>=-eq-ok {ℓ κ} :
    {A : Type ℓ} {B : Type κ} {out : B} (first : Result A) (next : A → Result B)
    → first >>= next ≡ ok out
    → (value : A) × (first ≡ ok value) × (next value ≡ ok out)
>>=-eq-ok (err failure) next reached = cc
>>=-eq-ok (ok value) next reached = (value, refl, reached)

pub ok_or-eq-ok {ℓ} :
    {A : Type ℓ} (o : Option A) (e : ConfigError) {a : A} → ok_or o e ≡ ok a → o ≡ some a
ok_or-eq-ok none e h = cc
ok_or-eq-ok (some a) e h = cc
