-- ===== src/Numbers.antt =====
-- The standard library's integer parsing and printing, as the program calls it: `str::parse`,
-- `from_str_radix` and `{}` of `u8`, `u32` and `i16`. Parsing accepts one leading `+`, refuses an
-- empty text or a lone sign, and refuses what does not fit.
pub mod RoundTrip
use mathlib.Core.Logic.{dite}
use mathlib.Core.WellFounded.{Acc, WellFounded}
use native.Mathlib.Decide.{dec_lt}
use omarchy_presence_unlock.Base.{
  ℕ, zero, suc, ◌+◌, ◌-◌, ◌*◌, ◌/◌, ◌%◌, ◌<◌, Bool, ◌&&◌, List, [], ◌∷◌, Option, none, some, Str,
  leb, ltb, ◌==◌, if◌then◌else◌, arith,
}
use omarchy_presence_unlock.Base.Int.{ℤ, pos, negsuc}

abbrev pub plus_sign : ℕ
plus_sign = b'+'

abbrev pub minus_sign : ℕ
minus_sign = b'-'

-- `char::to_digit` before the test against the radix.
abbrev pub digit_value : ℕ → ℕ
digit_value c =
    if leb b'0' c && leb c b'9'
    then c - b'0'
    else if leb b'a' c && leb c b'z'
    then c - b'a' + 10
    else if leb b'A' c && leb c b'Z'
    then c - b'A' + 10
    else 36

-- Digits behind a value; `none` at the first that is none of the radix.
unfoldable pub digits : ℕ → ℕ → Str → Option ℕ
digits radix acc [] = some acc
digits radix acc (c ∷ s) =
    let rest = digits radix (acc * radix + digit_value c) s in
    if ltb (digit_value c) radix then rest else none

abbrev pub at_most : ℕ → Option ℕ → Option ℕ
at_most max none = none
at_most max (some n) = if leb n max then some n else none

abbrev pub digits_some : ℕ → Str → Option ℕ
digits_some radix [] = none
digits_some radix (c ∷ s) = digits radix 0 (c ∷ s)

-- `from_str_radix` of an unsigned type with the given maximum.
unfoldable pub parse_unsigned : ℕ → ℕ → Str → Option ℕ
parse_unsigned radix max [] = none
parse_unsigned radix max (c ∷ s) =
    at_most max (if c == plus_sign then digits_some radix s else digits_some radix (c ∷ s))

unfoldable pub parse_u8 : Str → Option ℕ
unfolding parse_unsigned
parse_u8 = parse_unsigned 10 255

unfoldable pub parse_u32 : Str → Option ℕ
unfolding parse_unsigned
parse_u32 = parse_unsigned 10 4294967295

unfoldable pub parse_hex_u8 : Str → Option ℕ
unfolding parse_unsigned
parse_hex_u8 = parse_unsigned 16 255

-- The negative of a natural number.
abbrev pub negate : ℕ → ℤ
negate zero = pos 0
negate (suc n) = negsuc n

abbrev pub as_negative : Option ℕ → Option ℤ
as_negative none = none
as_negative (some n) = some (negate n)

abbrev pub as_positive : Option ℕ → Option ℤ
as_positive none = none
as_positive (some n) = some (pos n)

-- `str::parse::<i16>`
unfoldable pub parse_i16 : Str → Option ℤ
parse_i16 [] = none
parse_i16 (c ∷ s) =
    if c == minus_sign
    then as_negative (at_most 32768 (digits_some 10 s))
    else as_positive
        (at_most 32767 (if c == plus_sign then digits_some 10 s else digits_some 10 (c ∷ s)))

Acc-below : (k n : ℕ) → n < k → Acc ◌<◌ n
Acc-below zero n h = elim h [ ]
Acc-below (suc k) n h = Acc.intro n λ m lt. Acc-below k m (omega arith)

pub lt_wf : WellFounded ◌<◌
unfolding Acc-below
lt_wf = record { apply = λ n. Acc-below (suc n) n (omega arith) }

-- The digits of `n` in front of a text.
emit : (n : ℕ) → Acc ◌<◌ n → Str → Str
emit n (Acc.intro _ smaller) out =
    dite (dec_lt 9 n) (λ h. emit (n / 10) (smaller (n / 10) (omega arith)) ((b'0' + n % 10) ∷ out))
      (λ _. (b'0' + n) ∷ out)

unfoldable pub decimal : ℕ → Str
unfolding emit lt_wf dec_lt
decimal n = emit n (lt_wf.apply n) []

-- `{}` of an `i16`
unfoldable pub print_i16 : ℤ → Str
print_i16 (pos n) = decimal n
print_i16 (negsuc n) = minus_sign ∷ decimal (suc n)
