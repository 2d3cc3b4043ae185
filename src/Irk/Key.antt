-- ===== src/Irk/Key.antt =====
-- What the reader of a bond record returns.
use omarchy_presence_unlock.Base.{
  ℕ, ◌+◌, ◌≤◌, ◌<◌, ◌≡◌, refl, Bool, true, false, List, [], ◌∷◌, Option, none, some, Str, Bytes,
  utf8, length, All, ◌==◌, if◌then◌else◌, arith, Bool-cases, inl, inr, from_utf8, codes, trim,
  str_eq, Option-cases, ==_iff,
}
use mathlib.Core.Path.{subst}
use omarchy_presence_unlock.Numbers.{parse_hex_u8, parse_unsigned}
use omarchy_presence_unlock.Irk.BondFile.{
  BondResult, malformed, ok, err, octet_of, with_octet, hex_text, read_pairs, read_key, key_line,
  split_once, section_name, bond_lines, parse_bluez_info_irk,
}

-- Sixteen octets.
pub record IsKey (irk : Bytes) : Type 0 where
  pub sixteen : length irk ≡ 16
  pub octets : All (λ b. b < 256) irk

octet_of-lt : (s : Option Str) (b : ℕ) → octet_of s ≡ some b → b < 256
unfolding parse_hex_u8 parse_unsigned
octet_of-lt none b h = cc
octet_of-lt (some s) b h = ground arith

-- Half as many octets as there were bytes.
record IsHalf (bytes irk : Bytes) : Type 0 where
  low : length irk + length irk ≤ length bytes
  high : length bytes ≤ length irk + length irk + 1
  octets : All (λ b. b < 256) irk

-- The pairs that the loop reads.
with_octet-ok :
    (o : Option ℕ) (r : BondResult) (irk : Bytes)
    → with_octet o r ≡ ok irk
    → (b : ℕ) × (rest : Bytes) × (o ≡ some b) × (r ≡ ok rest) × (b ∷ rest ≡ irk)
with_octet-ok none r irk h = absurd (cc h)
with_octet-ok (some b) (err e) irk h = absurd (cc h)
with_octet-ok (some b) (ok rest) irk h = (b, rest, refl, refl, cc h)

read_pairs-IsHalf : (bytes irk : Bytes) → read_pairs bytes ≡ ok irk → IsHalf bytes irk
unfolding read_pairs
read_pairs-IsHalf [] irk h =
    let none_read : [] ≡ irk = cc h in
    subst (IsHalf []) none_read (record { low = omega arith; high = omega arith; octets = tt })
read_pairs-IsHalf (a ∷ []) irk h =
    let none_read : [] ≡ irk = cc h in
    subst (IsHalf (a ∷ [])) none_read
      (record { low = omega arith; high = omega arith; octets = tt })
read_pairs-IsHalf (a ∷ b ∷ bytes) irk h =
    let (octet, rest, h1, h2, same) =
      with_octet-ok (octet_of (from_utf8 (a ∷ b ∷ []))) (read_pairs bytes) irk h in
    let half = read_pairs-IsHalf bytes rest h2 in
    subst (IsHalf (a ∷ b ∷ bytes)) same (record {
      low = omega (arith, half.low);
      high = omega (arith, half.high);
      octets = (octet_of-lt (from_utf8 (a ∷ b ∷ [])) octet h1, half.octets);
    })

when-ok :
    (b : Bool) (m : BondResult) (irk : Bytes)
    → (if b then m else err malformed) ≡ ok irk
    → (b ≡ true) × (m ≡ ok irk)
when-ok true m irk h = (refl, h)
when-ok false m irk h = absurd (cc h)

read_key-IsKey : (hex : Str) (irk : Bytes) → read_key hex ≡ ok irk → IsKey irk
unfolding read_key
read_key-IsKey hex irk h =
    let (full, read) =
      when-ok (length (utf8 (hex_text hex)) == 32) (read_pairs (utf8 (hex_text hex))) irk h in
    let half = read_pairs-IsHalf (utf8 (hex_text hex)) irk read in
    record {
      sixteen =
          omega (arith, half.low, half.high, (==_iff (length (utf8 (hex_text hex))) 32).0 full);
      octets = half.octets;
    }

key_line-IsKey :
    (o : Option (Str × Str)) (more : BondResult) (irk : Bytes)
    → (more ≡ ok irk → IsKey irk)
    → key_line o more ≡ ok irk
    → IsKey irk
key_line-IsKey none more irk later h = later h
key_line-IsKey (some (key, raw)) more irk later h =
    elim (Bool-cases (str_eq (trim key) (codes "Key"))) [
      | inl named ↦ read_key-IsKey (trim raw) irk (rw named at h)
      | inr other ↦ later (rw other at h)
    ]

bond_lines-IsKey :
    (in_section : Bool) (lines : List Str) (irk : Bytes)
    → bond_lines in_section lines ≡ ok irk
    → IsKey irk
unfolding bond_lines
bond_lines-IsKey in_section [] irk h = absurd (cc h)
bond_lines-IsKey true (line ∷ lines) irk h = elim (Option-cases (section_name (trim line))) [
  | inl e ↦
      key_line-IsKey (split_once b'=' (trim line)) (bond_lines true lines) irk
        (bond_lines-IsKey true lines irk) (rw (bond_lines, e) at h)
  | inr (name, e) ↦ absurd (cc (rw (bond_lines, e) at h))
]
bond_lines-IsKey false (line ∷ lines) irk h = elim (Option-cases (section_name (trim line))) [
  | inl e ↦ bond_lines-IsKey false lines irk (rw (bond_lines, e) at h)
  | inr (name, e) ↦
      bond_lines-IsKey (str_eq name (codes "IdentityResolvingKey")) lines irk
        (rw (bond_lines, e) at h)
]

-- A key that is read is sixteen octets.
pub parse_bluez_info_irk-IsKey :
    (info : Str) (irk : Bytes) → parse_bluez_info_irk info ≡ ok irk → IsKey irk
unfolding parse_bluez_info_irk
parse_bluez_info_irk-IsKey info irk h = bond_lines-IsKey false _ irk h
