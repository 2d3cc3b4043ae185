-- ===== src/Ble/RoundTrip.antt =====
-- An address that is printed is read back.
use omarchy_presence_unlock.Base.{
  ℕ, zero, suc, ◌/◌, ◌%◌, ◌<◌, ◌≡◌, refl, ap, ◌∙◌, Bool, true, false, [], ◌∷◌, ◌++◌, Option, none,
  some, Str, map, All, length, ◌==◌, arith, split, split_from, every_below, every_below_sound, utf8,
}
use omarchy_presence_unlock.Numbers.{parse_hex_u8, digits}
use omarchy_presence_unlock.Ble.{Address}
use omarchy_presence_unlock.Ble.Text.{
  colon, parse_octet, parse_slots, parse_address, hex_octet, hex_digit, format_address,
}

abbrev is_octet : Option ℕ → ℕ → Bool
is_octet none b = false
is_octet (some a) b = a == b

is_octet_sound : (o : Option ℕ) (b : ℕ) → is_octet o b ≡ true → o ≡ some b
is_octet_sound none b h = cc
is_octet_sound (some a) b h = ground arith

octet_table : every_below (λ b. is_octet (parse_octet (hex_octet b)) b) 256 ≡ true
unfolding every_below parse_octet utf8 parse_hex_u8 digits
octet_table = refl

-- Every octet is read back from its two digits.
pub parse_octet-hex_octet : (b : ℕ) → b < 256 → parse_octet (hex_octet b) ≡ some b
parse_octet-hex_octet b h =
    is_octet_sound (parse_octet (hex_octet b)) b (every_below_sound _ 256 octet_table b h)

digit-ne-colon : (d : ℕ) → d < 16 → (hex_digit d == colon) ≡ false
digit-ne-colon d h = ground arith

split-hex_octet :
    (b : ℕ) (rest : Str)
    → b < 256
    → split_from colon [] (hex_octet b ++ colon ∷ rest) ≡ hex_octet b ∷ split_from colon [] rest
unfolding split_from
split-hex_octet b rest h =
    rw (digit-ne-colon (b / 16) (omega arith), digit-ne-colon (b % 16) (omega arith)) refl

split-format_address :
    (b : ℕ) (a : Address)
    → All (λ b. b < 256) (b ∷ a)
    → split_from colon [] (format_address (b ∷ a)) ≡ map hex_octet (b ∷ a)
unfolding format_address split_from
split-format_address b [] (lt, h) =
    rw (digit-ne-colon (b / 16) (omega arith), digit-ne-colon (b % 16) (omega arith)) refl
split-format_address b (c ∷ a) (lt, h) =
    split-hex_octet b (format_address (c ∷ a)) lt
    ∙ ap (◌∷◌ (hex_octet b)) (split-format_address c a h)

parse_slots-map :
    (n : ℕ) (a : Address)
    → length a ≡ n
    → All (λ b. b < 256) a
    → parse_slots n (map hex_octet a) ≡ some a
unfolding parse_slots
parse_slots-map zero [] e h = refl
parse_slots-map zero (b ∷ a) e h = absurd (omega arith)
parse_slots-map (suc n) [] e h = absurd (omega arith)
parse_slots-map (suc n) (b ∷ a) e (lt, h) =
    rw (parse_octet-hex_octet b lt, parse_slots-map n a (omega arith) h) refl

-- An address of six octets is read back from its text.
pub parse_address-format_address :
    (a : Address) → length a ≡ 6 → All (λ b. b < 256) a → parse_address (format_address a) ≡ some a
unfolding parse_address split
parse_address-format_address [] e h = absurd (omega arith)
parse_address-format_address (b ∷ a) e h =
    rw (split-format_address b a h) (parse_slots-map 6 (b ∷ a) e h)
