-- ===== src/Ble/Text.antt =====
-- crates/protocol/src/ble.rs: the text form of an address. A `str` is measured in bytes; a field of
-- two bytes is two ASCII characters or one of two bytes, which is no hexadecimal number.
use omarchy_presence_unlock.Base.{
  ℕ, zero, suc, ◌+◌, ◌-◌, ◌/◌, ◌%◌, List, [], ◌∷◌, ◌++◌, Option, none, some, Str, length, ltb, ◌==◌,
  if◌then◌else◌, utf8, split,
}
use omarchy_presence_unlock.Ble.{Address}
use omarchy_presence_unlock.Numbers.{parse_hex_u8}

abbrev pub colon : ℕ
colon = b':'

-- One octet of the loop: two bytes of hexadecimal.
unfoldable pub parse_octet : Str → Option ℕ
parse_octet octet = if length (utf8 octet) == 2 then parse_hex_u8 octet else none

infixl 5 ◌>>=◌
abbrev pub ◌>>=◌ : {A B : Type 0} → Option A → (A → Option B) → Option B
none >>= f = none
some a >>= f = f a

-- The loop over the slots that are left, and the test behind it.
unfoldable pub parse_slots : ℕ → List Str → Option Address
unfolding parse_octet
parse_slots zero [] = some []
parse_slots zero (octet ∷ octets) = none
parse_slots (suc slots) [] = none
parse_slots (suc slots) (octet ∷ octets) = do
  value ← parse_octet octet
  rest ← parse_slots slots octets
  some (value ∷ rest)

unfoldable pub parse_address : Str → Option Address
unfolding parse_slots
parse_address text = parse_slots 6 (split colon text)

-- `{:02X}`: one hexadecimal digit, in upper case.
abbrev pub hex_digit : ℕ → ℕ
hex_digit d = if ltb d 10 then b'0' + d else b'A' + (d - 10)

abbrev pub hex_octet : ℕ → Str
hex_octet b = hex_digit (b / 16) ∷ hex_digit (b % 16) ∷ []

-- `format_address`, for any number of octets.
unfoldable pub format_address : Address → Str
format_address [] = []
format_address (b ∷ []) = hex_octet b
format_address (b ∷ c ∷ rest) = hex_octet b ++ colon ∷ format_address (c ∷ rest)
