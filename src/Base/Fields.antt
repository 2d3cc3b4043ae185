-- ===== src/Base/Fields.antt =====
-- Cutting texts into fields: `split_ascii_whitespace`, `split` at a character, and `strip_suffix`
-- of a newline.
use Prim.Native.Nat.{ℕ}
use mathlib.Core.Path.{◌≡◌, refl, sym, ap, ◌∙◌}
use mathlib.Core.Logic.{◌≢◌}
use mathlib.Core.Bool.{Bool, false, ◌&&◌, ◌||◌}
use mathlib.Core.List.{List, [], ◌∷◌, ◌++◌, append_assoc, append-nil}
use omarchy_presence_unlock.Base.Tests.{◌==◌, leb, if◌then◌else◌}
use omarchy_presence_unlock.Base.Lists.{All}
use omarchy_presence_unlock.Base.Text.{Str}

-- `char::is_ascii_whitespace`: space, tab, line feed, form feed, carriage return.
abbrev pub is_ascii_whitespace : ℕ → Bool
is_ascii_whitespace c = c == 32 || c == 9 || c == 10 || c == 12 || c == 13

-- A field, unless it is empty.
abbrev pub field : Str → List Str
field [] = []
field (c ∷ s) = (c ∷ s) ∷ []

-- `split_ascii_whitespace`, with the field read so far.
unfoldable pub words_from : Str → Str → List Str
words_from cur [] = field cur
words_from cur (c ∷ s) =
    let next = words_from [] s in
    let more = words_from (cur ++ c ∷ []) s in
    if is_ascii_whitespace c then field cur ++ next else more

unfoldable pub words : Str → List Str
unfolding words_from
words = words_from []

-- `strip_suffix('\n').unwrap_or(line)`
unfoldable pub strip_newline : Str → Str
strip_newline [] = []
strip_newline (c ∷ []) = if c == 10 then [] else c ∷ []
strip_newline (c ∷ d ∷ s) = c ∷ strip_newline (d ∷ s)

-- `split` at a character, with the field read so far.
unfoldable pub split_from : ℕ → Str → Str → List Str
split_from sep cur [] = cur ∷ []
split_from sep cur (c ∷ s) =
    let next = split_from sep [] s in
    let more = split_from sep (cur ++ c ∷ []) s in if c == sep then cur ∷ next else more

unfoldable pub split : ℕ → Str → List Str
unfolding split_from
split sep = split_from sep []

-- A field that is read back: not empty, without whitespace.
abbrev pub IsSolid : Str → Type 0
IsSolid = All (λ c. is_ascii_whitespace c ≡ false)

pub record IsWord (s : Str) : Type 0 where
  pub nonempty : s ≢ []
  pub solid : IsSolid s

words_from-append :
    (cur w rest : Str) → IsSolid w → words_from cur (w ++ rest) ≡ words_from (cur ++ w) rest
unfolding words_from
words_from-append cur [] rest h = rw append-nil
words_from-append cur (c ∷ w) rest (solid, h) =
    rw (solid) (words_from-append (cur ++ c ∷ []) w rest h ∙ rw append_assoc)

words_from_space :
    (c : ℕ) (w rest : Str) → words_from (c ∷ w) (32 ∷ rest) ≡ (c ∷ w) ∷ words_from [] rest
unfolding words_from
words_from_space c w rest = refl

-- A word and a space in front of a text is its first field.
pub words_space : (w rest : Str) → IsWord w → words (w ++ (32 ∷ rest)) ≡ w ∷ words rest
unfolding words
words_space [] rest h = absurd (h.nonempty refl)
words_space (c ∷ w) rest h =
    words_from-append [] (c ∷ w) (32 ∷ rest) h.solid ∙ words_from_space c w rest

words_from_end : (c : ℕ) (w : Str) → words_from (c ∷ w) [] ≡ (c ∷ w) ∷ []
unfolding words_from
words_from_end c w = refl

pub words_end : (w : Str) → IsWord w → words w ≡ w ∷ []
unfolding words
words_end [] h = absurd (h.nonempty refl)
words_end (c ∷ w) h =
    ap (words_from []) (sym (append-nil (c ∷ w)))
    ∙ words_from-append [] (c ∷ w) [] h.solid
    ∙ words_from_end c w

pub strip_newline-append : (s : Str) → strip_newline (s ++ 10 ∷ []) ≡ s
unfolding strip_newline
strip_newline-append [] = refl
strip_newline-append (c ∷ []) = refl
strip_newline-append (c ∷ d ∷ s) = ap (◌∷◌ c) (strip_newline-append (d ∷ s))

-- `char::is_whitespace`: the Unicode property White_Space.
abbrev pub is_whitespace : ℕ → Bool
is_whitespace c =
    leb 9 c && leb c 13
    || c == 32
    || c == 0x85
    || c == 0xa0
    || c == 0x1680
    || leb 0x2000 c && leb c 0x200a
    || c == 0x2028
    || c == 0x2029
    || c == 0x202f
    || c == 0x205f
    || c == 0x3000

unfoldable pub trim_start : Str → Str
trim_start [] = []
trim_start (c ∷ s) = let rest = trim_start s in if is_whitespace c then rest else c ∷ s

-- `trim_end`: a character stays if something that stays follows it.
unfoldable pub trim_end : Str → Str
trim_end [] = []
trim_end (c ∷ s) = elim (trim_end s) [
  | [] ↦ if is_whitespace c then [] else c ∷ []
  | d ∷ rest ↦ c ∷ d ∷ rest
]

unfoldable pub trim : Str → Str
unfolding trim_start trim_end
trim s = trim_end (trim_start s)
