-- ===== src/Base/Utf8.antt =====
-- The standard library's UTF-8: `str::as_bytes` and `str::from_utf8`.
use Prim.Native.Nat.{ℕ, ◌+◌, ◌-◌, ◌*◌, ◌/◌, ◌%◌, ◌<◌}
use mathlib.Core.Path.{◌≡◌, refl}
use mathlib.Core.Bool.{Bool, ◌&&◌, ◌||◌}
use mathlib.Core.Option.{Option, none, some}
use mathlib.Core.List.{[], ◌∷◌, ◌++◌}
use native.Mathlib.Omega.{arith}
use omarchy_presence_unlock.Base.Tests.{ltb, leb, if◌then◌else◌}
use omarchy_presence_unlock.Base.Lists.{All}
use omarchy_presence_unlock.Base.Text.{Str, Bytes}

abbrev pub utf8_char : ℕ → Bytes
utf8_char c =
    if ltb c 0x80
    then c ∷ []
    else if ltb c 0x800
    then (0xc0 + c / 64) ∷ (0x80 + c % 64) ∷ []
    else if ltb c 0x10000
    then (0xe0 + c / 4096) ∷ (0x80 + c / 64 % 64) ∷ (0x80 + c % 64) ∷ []
    else (0xf0 + c / 262144) ∷ (0x80 + c / 4096 % 64) ∷ (0x80 + c / 64 % 64) ∷ (0x80 + c % 64) ∷ []

unfoldable pub utf8 : Str → Bytes
utf8 [] = []
utf8 (c ∷ s) = utf8_char c ++ utf8 s

abbrev pub in_range : ℕ → ℕ → ℕ → Bool
in_range lo hi b = leb lo b && leb b hi

abbrev pub is_continuation : ℕ → Bool
is_continuation = in_range 0x80 0xbf

-- The second byte that may follow a leading byte of three, and of four.
abbrev pub second_of_three : ℕ → ℕ → Bool
second_of_three a b =
    in_range 0xe0 0xe0 a && in_range 0xa0 0xbf b
    || in_range 0xe1 0xec a && is_continuation b
    || in_range 0xed 0xed a && in_range 0x80 0x9f b
    || in_range 0xee 0xef a && is_continuation b

abbrev pub second_of_four : ℕ → ℕ → Bool
second_of_four a b =
    in_range 0xf0 0xf0 a && in_range 0x90 0xbf b
    || in_range 0xf1 0xf3 a && is_continuation b
    || in_range 0xf4 0xf4 a && in_range 0x80 0x8f b

abbrev pub push : ℕ → Option Str → Option Str
push c none = none
push c (some s) = some (c ∷ s)

-- A byte that begins no longer sequence stands for itself, or is invalid.
abbrev pub one_byte : ℕ → Option Str → Option Str
one_byte a rest = if ltb a 0x80 then push a rest else none

unfoldable pub from_utf8 : Bytes → Option Str
from_utf8 [] = some []
from_utf8 (a ∷ []) = one_byte a (some [])
from_utf8 (a ∷ b ∷ []) =
    let one = one_byte a (from_utf8 (b ∷ [])) in
    if in_range 0xc2 0xdf a && is_continuation b
    then push ((a - 0xc0) * 64 + (b - 0x80)) (some [])
    else one
from_utf8 (a ∷ b ∷ c ∷ []) =
    let one = one_byte a (from_utf8 (b ∷ c ∷ [])) in
    let two = push ((a - 0xc0) * 64 + (b - 0x80)) (from_utf8 (c ∷ [])) in
    if in_range 0xc2 0xdf a && is_continuation b
    then two
    else if second_of_three a b && is_continuation c
    then push ((a - 0xe0) * 4096 + (b - 0x80) * 64 + (c - 0x80)) (some [])
    else one
from_utf8 (a ∷ b ∷ c ∷ d ∷ s) =
    let one = one_byte a (from_utf8 (b ∷ c ∷ d ∷ s)) in
    let two = push ((a - 0xc0) * 64 + (b - 0x80)) (from_utf8 (c ∷ d ∷ s)) in
    let three = push ((a - 0xe0) * 4096 + (b - 0x80) * 64 + (c - 0x80)) (from_utf8 (d ∷ s)) in
    let four =
      push ((a - 0xf0) * 262144 + (b - 0x80) * 4096 + (c - 0x80) * 64 + (d - 0x80)) (from_utf8 s) in
    if in_range 0xc2 0xdf a && is_continuation b
    then two
    else if second_of_three a b && is_continuation c
    then three
    else if second_of_four a b && is_continuation c && is_continuation d
    then four
    else one

abbrev pub IsAscii : Str → Type 0
IsAscii = All (λ c. c < 0x80)

-- An ASCII text is its own bytes.
pub utf8_of_ascii : (s : Str) → IsAscii s → utf8 s ≡ s
unfolding utf8
utf8_of_ascii [] h = refl
utf8_of_ascii (c ∷ s) (lt, h) = ground (arith, utf8_of_ascii s h)
