-- ===== src/Irk/BondFile.antt =====
-- crates/protocol/src/irk.rs: the reader of the key in a BlueZ bond record. Every line is trimmed, so
-- a carriage return before the newline goes, and the empty piece behind the last newline, which
-- `lines` leaves out, changes nothing.
use omarchy_presence_unlock.Base.{
  ℕ, Bool, true, false, List, [], ◌∷◌, Option, none, some, Str, Bytes, codes, str_eq, strip_prefix,
  split, trim, utf8, from_utf8, length, ◌==◌, if◌then◌else◌,
}
use omarchy_presence_unlock.Numbers.{parse_hex_u8}

pub data BluezIrkError : Type 0 where
  missing malformed : BluezIrkError

pub data BondResult : Type 0 where
  ok : Bytes → BondResult
  err : BluezIrkError → BondResult

-- `strip_suffix` of one character.
unfoldable pub strip_last : ℕ → Str → Option Str
strip_last end [] = none
strip_last end (c ∷ []) = if c == end then some [] else none
strip_last end (c ∷ d ∷ s) = elim (strip_last end (d ∷ s)) [
  | none ↦ none
  | some rest ↦ some (c ∷ rest)
]

abbrev pub bracket_name : Option Str → Option Str
bracket_name none = none
bracket_name (some rest) = strip_last b']' rest

-- The name of a section line.
unfoldable pub section_name : Str → Option Str
unfolding strip_last
section_name line = bracket_name (strip_prefix (codes "[") line)

abbrev pub put_before : ℕ → Option (Str × Str) → Option (Str × Str)
put_before c none = none
put_before c (some (key, value)) = some (c ∷ key, value)

unfoldable pub split_once : ℕ → Str → Option (Str × Str)
split_once sep [] = none
split_once sep (c ∷ s) =
    let rest = put_before c (split_once sep s) in if c == sep then some ([], s) else rest

abbrev pub or_else : Option Str → Option Str → Option Str
or_else none other = other
or_else (some s) other = some s

abbrev pub text_or : Option Str → Str → Str
text_or none other = other
text_or (some s) other = s

-- The digits behind `0x` or `0X`, or all of them.
unfoldable pub hex_text : Str → Str
hex_text hex = text_or (or_else (strip_prefix (codes "0x") hex) (strip_prefix (codes "0X") hex)) hex

abbrev pub octet_of : Option Str → Option ℕ
octet_of none = none
octet_of (some text) = parse_hex_u8 text

abbrev pub with_octet : Option ℕ → BondResult → BondResult
with_octet none rest = err malformed
with_octet (some b) (err e) = err e
with_octet (some b) (ok bytes) = ok (b ∷ bytes)

-- The loop over the pairs of bytes; a byte without a partner is left.
unfoldable pub read_pairs : Bytes → BondResult
read_pairs [] = ok []
read_pairs (a ∷ []) = ok []
read_pairs (a ∷ b ∷ bytes) = with_octet (octet_of (from_utf8 (a ∷ b ∷ []))) (read_pairs bytes)

unfoldable pub read_key : Str → BondResult
unfolding hex_text read_pairs
read_key hex =
    if length (utf8 (hex_text hex)) == 32 then read_pairs (utf8 (hex_text hex)) else err malformed

-- A line inside the section, with what the lines behind it give.
abbrev pub key_line : Option (Str × Str) → BondResult → BondResult
key_line none more = more
key_line (some (key, raw)) more =
    if str_eq (trim key) (codes "Key") then read_key (trim raw) else more

-- The loop over the lines.
unfoldable pub bond_lines : Bool → List Str → BondResult
unfolding section_name split_once
bond_lines in_section [] = err missing
bond_lines in_section (line ∷ lines) = elim (section_name (trim line)) [
  | some name ↦ elim in_section [
    | true ↦ err missing
    | false ↦ bond_lines (str_eq name (codes "IdentityResolvingKey")) lines
  ]
  | none ↦ elim in_section [
    | true ↦ key_line (split_once b'=' (trim line)) (bond_lines true lines)
    | false ↦ bond_lines false lines
  ]
]

unfoldable pub parse_bluez_info_irk : Str → BondResult
unfolding bond_lines
parse_bluez_info_irk info = bond_lines false (split 10 info)
