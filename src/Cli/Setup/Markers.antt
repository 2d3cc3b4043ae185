-- ===== src/Cli/Setup/Markers.antt =====
-- Searches in a text: `find`, `matches` and `match_indices`. A place is where the text is cut, with what
-- is before it and what starts there; a marker is not empty.
use omarchy_presence_unlock.Base.{
  ℕ, zero, suc, ◌-◌, ◌≡◌, refl, ap, ◌∙◌, inl, inr, Bool, true, false, not, ◌&&◌, List, [], ◌∷◌,
  ◌++◌, map, Option, none, some, Str, length, all, if◌then◌else◌, ◌==◌, Bool-cases, arith,
}
use omarchy_presence_unlock.Config.Device.{named_map}

abbrev pub Place : Type 0
Place = Str × Str

abbrev pub starts_with : Str → Str → Bool
starts_with [] s = true
starts_with (a ∷ p) [] = false
starts_with (a ∷ p) (c ∷ s) = a == c && starts_with p s

abbrev pub behind : Str → Place → Place
behind before (passed, rest) = (before ++ passed, rest)

-- The first occurrence.
unfoldable pub find_text : Str → Str → Option Place
find_text p [] = none
find_text p (c ∷ s) =
    let rest = find_text p s in
    if starts_with p (c ∷ s) then some ([], c ∷ s) else named_map (behind (c ∷ [])) rest

-- The occurrences that do not overlap, behind `skipped` characters.
unfoldable pub matches : Str → ℕ → Str → List Place
matches p skipped [] = []
matches p (suc skipped) (c ∷ s) = map (behind (c ∷ [])) (matches p skipped s)
matches p zero (c ∷ s) =
    let inside = matches p (length p - 1) s in
    let later = matches p 0 s in
    if starts_with p (c ∷ s)
    then ([], c ∷ s) ∷ map (behind (c ∷ [])) inside
    else map (behind (c ∷ [])) later

abbrev pub newline : ℕ
newline = 10

abbrev pub IsLine : Str → Type 0
IsLine p = all (λ c. not (c == newline)) p ≡ true

-- A marker of one line does not cross the end of a line.
pub starts_with-line : (p s t : Str) → IsLine p → starts_with p (s ++ newline ∷ t) ≡ starts_with p s
starts_with-line [] s t line = refl
starts_with-line (a ∷ p) [] t line = ground arith
starts_with-line (a ∷ p) (c ∷ s) t line =
    ap (λ b. a == c && b) (starts_with-line p s t (ground arith))

map-behind :
    (c : ℕ) (before : Str) (o : Option Place)
    → named_map (behind (c ∷ [])) (named_map (behind before) o) ≡ named_map (behind (c ∷ before)) o
map-behind c before none = refl
map-behind c before (some place) = refl

pub nowhere :
    (p s : Str) (c : ℕ)
    → find_text p (c ∷ s) ≡ none
    → (starts_with p (c ∷ s) ≡ false) × (find_text p s ≡ none)
unfolding find_text
nowhere p s c h = elim (Bool-cases (starts_with p (c ∷ s))) [
  | inl here ↦ absurd (cc (rw here at h))
  | inr there ↦ (there, unmapped (find_text p s) (rw there at h))
]
  where
    unmapped : (o : Option Place) → named_map (behind (c ∷ [])) o ≡ none → o ≡ none
    unmapped none h = refl
    unmapped (some place) h = absurd (cc h)

-- Lines without the marker in front change its place only.
pub find_text-line :
    (a : ℕ) (p s t : Str)
    → IsLine (a ∷ p)
    → find_text (a ∷ p) s ≡ none
    → find_text (a ∷ p) (s ++ newline ∷ t)
      ≡ named_map (behind (s ++ newline ∷ [])) (find_text (a ∷ p) t)
unfolding find_text
find_text-line a p [] t line h = rw (starts_with-line (a ∷ p) [] t line) refl
find_text-line a p (c ∷ s) t line h =
    let elsewhere = nowhere (a ∷ p) s c h in
    let here = starts_with-line (a ∷ p) (c ∷ s) t line ∙ elsewhere.0 in
    rw here (
      ap (named_map (behind (c ∷ []))) (find_text-line a p s t line elsewhere.1)
      ∙ map-behind c (s ++ newline ∷ []) (find_text (a ∷ p) t))

map-behind_list :
    (c : ℕ) (before : Str) (places : List Place)
    → map (behind (c ∷ [])) (map (behind before) places) ≡ map (behind (c ∷ before)) places
map-behind_list c before [] = refl
map-behind_list c before (place ∷ places) =
    ap (◌∷◌ (behind (c ∷ before) place)) (map-behind_list c before places)

pub matches-line :
    (a : ℕ) (p s t : Str)
    → IsLine (a ∷ p)
    → find_text (a ∷ p) s ≡ none
    → matches (a ∷ p) 0 (s ++ newline ∷ t) ≡ map (behind (s ++ newline ∷ [])) (matches (a ∷ p) 0 t)
unfolding matches find_text
matches-line a p [] t line h = rw (starts_with-line (a ∷ p) [] t line) refl
matches-line a p (c ∷ s) t line h =
    let elsewhere = nowhere (a ∷ p) s c h in
    let here = starts_with-line (a ∷ p) (c ∷ s) t line ∙ elsewhere.0 in
    rw here (
      ap (map (behind (c ∷ []))) (matches-line a p s t line elsewhere.1)
      ∙ map-behind_list c (s ++ newline ∷ []) (matches (a ∷ p) 0 t))

pub matches-none : (p s : Str) → find_text p s ≡ none → matches p 0 s ≡ []
unfolding matches find_text
matches-none p [] h = refl
matches-none p (c ∷ s) h =
    let elsewhere = nowhere p s c h in
    rw elsewhere.0 (ap (map (behind (c ∷ []))) (matches-none p s elsewhere.1))
