-- ===== src/Cli/Devices.antt =====
-- crates/cli/src/devices.rs: enrolled devices by their ids, and the edits of the configuration file.
-- The entries that `ConfigFile::load` reads are an argument, with no entry if it fails.
pub mod Fresh
pub mod Slug
pub mod Document
pub mod Edit
pub mod Written
pub mod Replaced
pub mod Removed
mod Tests
use omarchy_presence_unlock.Base.{
  ℕ, zero, suc, ◌+◌, Bool, true, false, not, ◌&&◌, ◌||◌, List, [], ◌∷◌, ◌++◌, Option, none, some,
  Str, codes, str_eq, any, all, map, length, ltb, ◌==◌, if◌then◌else◌, is_some_and, unwrap_or, utf8,
  in_range,
}
use omarchy_presence_unlock.Numbers.{decimal}
use omarchy_presence_unlock.Config.{DeviceEntry}

abbrev pub dash : ℕ
dash = b'-'

abbrev pub is_upper : ℕ → Bool
is_upper = in_range b'A' b'Z'

abbrev pub is_lower : ℕ → Bool
is_lower = in_range b'a' b'z'

abbrev pub is_digit : ℕ → Bool
is_digit = in_range b'0' b'9'

-- `char::is_ascii_alphanumeric`
abbrev pub is_alphanumeric : ℕ → Bool
is_alphanumeric c = is_upper c || is_lower c || is_digit c

-- `char::to_ascii_lowercase`
abbrev pub to_lowercase : ℕ → ℕ
to_lowercase c = if is_upper c then c + 32 else c

-- `char::is_ascii_hexdigit`
abbrev pub is_hex_digit : ℕ → Bool
is_hex_digit c = is_digit c || in_range b'A' b'F' c || in_range b'a' b'f' c

-- `split(['-', ':'])`, with the field read so far.
unfoldable pub split_octets : Str → Str → List Str
split_octets cur [] = cur ∷ []
split_octets cur (c ∷ s) =
    let next = split_octets [] s in
    let more = split_octets (cur ++ c ∷ []) s in if c == dash || c == b':' then cur ∷ next else more

abbrev pub is_octet : Str → Bool
is_octet field = length (utf8 field) == 2 && all is_hex_digit field

unfoldable pub looks_like_address : Str → Bool
unfolding split_octets
looks_like_address text =
    let fields = split_octets [] text in all is_octet fields && length fields == 6

-- `out.ends_with('-')`
unfoldable pub ends_with_dash : Str → Bool
ends_with_dash [] = false
ends_with_dash (c ∷ []) = c == dash
ends_with_dash (c ∷ d ∷ s) = ends_with_dash (d ∷ s)

-- The loop of `slug`, with what is written so far.
abbrev pub slug_step : Str → ℕ → Str
slug_step out c =
    if is_alphanumeric c
    then out ++ to_lowercase c ∷ []
    else if not (ends_with_dash out)
    then out ++ dash ∷ []
    else out

unfoldable pub slug_from : Str → Str → Str
slug_from out [] = out
slug_from out (c ∷ s) = slug_from (slug_step out c) s

-- `trim_matches('-')`, from each end.
unfoldable pub trim_start_dashes : Str → Str
trim_start_dashes [] = []
trim_start_dashes (c ∷ s) = let rest = trim_start_dashes s in if c == dash then rest else c ∷ s

abbrev pub unless_bare_dash : ℕ → Str → Str
unless_bare_dash c [] = if c == dash then [] else c ∷ []
unless_bare_dash c (d ∷ s) = c ∷ d ∷ s

unfoldable pub trim_end_dashes : Str → Str
trim_end_dashes [] = []
trim_end_dashes (c ∷ s) = unless_bare_dash c (trim_end_dashes s)

abbrev pub some_nonempty : Str → Option Str
some_nonempty [] = none
some_nonempty (c ∷ s) = some (c ∷ s)

unfoldable pub slug : Str → Option Str
unfolding slug_from trim_start_dashes trim_end_dashes
slug name = some_nonempty (trim_end_dashes (trim_start_dashes (slug_from [] name)))

-- `entry.irk_base64.as_deref() == Some(irk_base64)`, and the id of the first such entry.
unfoldable pub id_for_irk : Str → List DeviceEntry → Option Str
id_for_irk irk [] = none
id_for_irk irk (e ∷ entries) =
    let rest = id_for_irk irk entries in
    if is_some_and e.irk_base64 (λ known. str_eq known irk) then some e.id else rest

-- `eq_ignore_ascii_case`
abbrev pub same_ignoring_case : Str → Str → Bool
same_ignoring_case s t = str_eq (map to_lowercase s) (map to_lowercase t)

unfoldable pub id_for_address : Str → List DeviceEntry → Option Str
id_for_address address [] = none
id_for_address address (e ∷ entries) =
    let rest = id_for_address address entries in
    if is_some_and e.address (λ known. same_ignoring_case known address) then some e.id else rest

abbrev pub ids : List DeviceEntry → List Str
ids = map (λ e. e.id)

-- `taken.contains(...)`
abbrev pub is_taken : List Str → Str → Bool
is_taken taken id = any (λ t. str_eq t id) taken

-- `format!("{base}-{suffix}")`
abbrev pub suffixed : Str → ℕ → Str
suffixed base suffix = base ++ dash ∷ decimal suffix

-- `find` over the next `count` suffixes.
unfoldable pub free_suffix : Str → List Str → ℕ → ℕ → Option Str
free_suffix base taken suffix zero = none
free_suffix base taken suffix (suc count) =
    let rest = free_suffix base taken (suc suffix) count in
    if is_taken taken (suffixed base suffix) then rest else some (suffixed base suffix)

abbrev pub or_else {ℓ} : {A : Type ℓ} → Option A → Option A → Option A
or_else none other = other
or_else (some a) other = some a

abbrev pub and_then {ℓ} : {A B : Type ℓ} → Option A → (A → Option B) → Option B
and_then none f = none
and_then (some a) f = f a

unfoldable pub base_id : Option Str → Option Str → Str
unfolding slug
base_id name address =
    unwrap_or (or_else (and_then name slug) (and_then address slug)) (codes "device")

-- The range `2..=taken.len() + 2` has one more element than there are ids.
unfoldable pub unique_id : Str → List Str → Str
unfolding free_suffix
unique_id base taken =
    if not (is_taken taken base)
    then base
    else unwrap_or (free_suffix base taken 2 (length taken + 1)) base

unfoldable pub derive_id : Option Str → Option Str → List DeviceEntry → Str
unfolding id_for_address unique_id base_id
derive_id name address entries =
    unwrap_or (and_then address (λ known. id_for_address known entries))
      (unique_id (base_id name address) (ids entries))
