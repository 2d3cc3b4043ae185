-- ===== src/Cli/Setup/Undo.antt =====
-- The block is put into a text once, and taken back out.
use mathlib.Core.Path.{subst}
use omarchy_presence_unlock.Base.{
  ℕ, ◌<◌, ◌≡◌, refl, sym, ap, ◌∙◌, inl, inr, true, false, List, [], ◌∷◌, ◌++◌, map, append_assoc,
  append-nil, Option, none, some, Str, length, length-append, ltb, ==_iff, Bool-cases, trim_end,
  arith,
}
use omarchy_presence_unlock.Config.Device.{named_map}
use omarchy_presence_unlock.Cli.Setup.Markers.{
  Place, behind, find_text, matches, newline, IsLine, starts_with-line, find_text-line,
  matches-line, matches-none, nowhere,
}
use omarchy_presence_unlock.Cli.Setup.Binding.{
  block_start, block_end, block_body, block, ends_with_newline, ends_with_blank_line, is_nonempty,
  closed, spaced, render_at, render, remove_at, remove,
}

-- A text without either marker.
pub record IsUnmarked (s : Str) : Type 0 where
  pub start : find_text block_start s ≡ none
  pub end : find_text block_end s ≡ none

start-IsLine : IsLine block_start
start-IsLine = refl

end-IsLine : IsLine block_end
end-IsLine = refl

line-IsUnmarked : (s : Str) → IsUnmarked s → IsUnmarked (s ++ newline ∷ [])
unfolding find_text
line-IsUnmarked s u = record {
  start = rw (find_text-line b'-' _ s [] start-IsLine u.start) refl;
  end = rw (find_text-line b'-' _ s [] end-IsLine u.end) refl;
}

find_text-prefix :
    (a : ℕ) (p s t : Str)
    → IsLine (a ∷ p)
    → find_text (a ∷ p) (s ++ newline ∷ t) ≡ none
    → find_text (a ∷ p) s ≡ none
unfolding find_text
find_text-prefix a p [] t line h = refl
find_text-prefix a p (c ∷ s) t line h =
    let elsewhere = nowhere (a ∷ p) (s ++ newline ∷ t) c h in
    let here = sym (starts_with-line (a ∷ p) (c ∷ s) t line) ∙ elsewhere.0 in
    rw (here, find_text-prefix a p s t line elsewhere.1) refl

trim_end-newline : (s : Str) → trim_end (s ++ newline ∷ []) ≡ trim_end s
unfolding trim_end
trim_end-newline [] = refl
trim_end-newline (c ∷ s) = rw (trim_end-newline s) refl

-- Lines in front of the block that hide no marker.
record IsFront (source front : Str) : Type 0 where
  trimmed : trim_end front ≡ trim_end source
  found_start :
      (t : Str)
      → find_text block_start (front ++ t) ≡ named_map (behind front) (find_text block_start t)
  found_end :
      (t : Str)
      → find_text block_end (front ++ t) ≡ named_map (behind front) (find_text block_end t)
  matched_start :
      (t : Str) → matches block_start 0 (front ++ t) ≡ map (behind front) (matches block_start 0 t)
  matched_end :
      (t : Str) → matches block_end 0 (front ++ t) ≡ map (behind front) (matches block_end 0 t)

lines-IsFront :
    (source q : Str)
    → IsUnmarked q
    → trim_end (q ++ newline ∷ []) ≡ trim_end source
    → IsFront source (q ++ newline ∷ [])
lines-IsFront source q u trimmed = record {
  trimmed = trimmed;
  found_start = λ t.
      ap (find_text block_start) (append_assoc q (newline ∷ []) t)
      ∙ find_text-line b'-' _ q t start-IsLine u.start;
  found_end = λ t.
      ap (find_text block_end) (append_assoc q (newline ∷ []) t)
      ∙ find_text-line b'-' _ q t end-IsLine u.end;
  matched_start = λ t.
      ap (matches block_start 0) (append_assoc q (newline ∷ []) t)
      ∙ matches-line b'-' _ q t start-IsLine u.start;
  matched_end = λ t.
      ap (matches block_end 0) (append_assoc q (newline ∷ []) t)
      ∙ matches-line b'-' _ q t end-IsLine u.end;
}

blank_line : (s : Str) → ends_with_blank_line s ≡ true → (q : Str) × (s ≡ q ++ newline ∷ [])
unfolding ends_with_blank_line
blank_line [] h = absurd (cc h)
blank_line (c ∷ []) h = absurd (cc h)
blank_line (c ∷ d ∷ []) h =
    let last : d ≡ newline = (==_iff d newline).0 (ground arith) in
    (c ∷ [], ap (λ e. c ∷ e ∷ []) last)
blank_line (c ∷ d ∷ e ∷ s) h = let (q, same) = blank_line (d ∷ e ∷ s) h in (c ∷ q, ap (◌∷◌ c) same)

spaced-IsFront :
    (source s : Str)
    → is_nonempty s ≡ true
    → IsUnmarked s
    → trim_end s ≡ trim_end source
    → IsFront source (spaced s)
spaced-IsFront source s some_line u trimmed = elim (Bool-cases (ends_with_blank_line s)) [
  | inr bare ↦ rw (some_line, bare) (lines-IsFront source s u (trim_end-newline s ∙ trimmed))
  | inl blank ↦
      let (q, same) = blank_line s blank in
      let unmarked : IsUnmarked q = record {
        start =
            find_text-prefix b'-' _ q [] start-IsLine
              (ap (find_text block_start) (sym same) ∙ u.start);
        end = find_text-prefix b'-' _ q [] end-IsLine (ap (find_text block_end) (sym same) ∙ u.end);
      } in
      rw (some_line, blank)
        (subst (IsFront source) (sym same)
          (lines-IsFront source q unmarked (ap trim_end (sym same) ∙ trimmed)))
]

closed-IsFront :
    (source : Str)
    → IsUnmarked source
    → is_nonempty source ≡ true
    → IsFront source (spaced (closed source))
closed-IsFront source u some_line = elim (Bool-cases (ends_with_newline source)) [
  | inl ended ↦ rw (some_line, ended) (spaced-IsFront source source some_line u refl)
  | inr unended ↦
      rw (some_line, unended)
        (spaced-IsFront source (source ++ newline ∷ []) (still source some_line)
          (line-IsUnmarked source u) (trim_end-newline source))
]
  where
    still : (s : Str) → is_nonempty s ≡ true → is_nonempty (s ++ newline ∷ []) ≡ true
    still [] h = absurd (cc h)
    still (c ∷ s) h = refl

abbrev installed : Str → Str
installed front = front ++ (block ++ newline ∷ [])

-- The block behind such lines, found and replaced by itself, or removed.
abbrev body_place : Place
body_place = (block_start ++ block_body, block_end ++ newline ∷ [])

block_found :
    (find_text block_start (block ++ newline ∷ []) ≡ some ([], block ++ newline ∷ []))
    × (find_text block_end (block ++ newline ∷ []) ≡ some body_place)
unfolding find_text
block_found = (refl, refl)

block_matched :
    (matches block_start 0 (block ++ newline ∷ []) ≡ ([], block ++ newline ∷ []) ∷ [])
    × (matches block_end 0 (block ++ newline ∷ []) ≡ body_place ∷ [])
unfolding matches
block_matched = (refl, refl)

in_order : (front : Str) → length (front ++ []) < length (front ++ body_place.0)
in_order front = omega (arith, length-append front [], length-append front body_place.0)

ltb_of_lt : {m n : ℕ} → m < n → ltb m n ≡ true
ltb_of_lt h = ground arith

not_ltb_of_lt : {m n : ℕ} → m < n → ltb n m ≡ false
not_ltb_of_lt h = ground arith

render-installed :
    (source front : Str) → IsFront source front → render (installed front) ≡ some (installed front)
unfolding render
render-installed source front f =
    ap (λ starts. render_at (installed front) starts (matches block_end 0 (installed front)))
      (f.matched_start (block ++ newline ∷ []) ∙ ap (map (behind front)) block_matched.0)
    ∙ ap (render_at (installed front) ((front ++ [], block ++ newline ∷ []) ∷ []))
        (f.matched_end (block ++ newline ∷ []) ∙ ap (map (behind front)) block_matched.1)
    ∙ rw (ltb_of_lt (in_order front), append-nil front) refl

remove-installed :
    (source front : Str)
    → IsFront source front
    → remove (installed front) ≡ some (trim_end source ++ newline ∷ [])
unfolding remove
remove-installed source front f =
    ap (λ start. remove_at (installed front) start (find_text block_end (installed front)))
      (f.found_start (block ++ newline ∷ []) ∙ ap (named_map (behind front)) block_found.0)
    ∙ ap (remove_at (installed front) (some (front ++ [], block ++ newline ∷ [])))
        (f.found_end (block ++ newline ∷ []) ∙ ap (named_map (behind front)) block_found.1)
    ∙ rw (not_ltb_of_lt (in_order front), append-nil front, trim_end-newline front, f.trimmed) refl

named_map-behind_nil : (o : Option Place) → o ≡ named_map (behind []) o
named_map-behind_nil none = refl
named_map-behind_nil (some place) = refl

map-behind_nil : (places : List Place) → places ≡ map (behind []) places
map-behind_nil [] = refl
map-behind_nil (place ∷ places) = ap (◌∷◌ place) (map-behind_nil places)

front : (source : Str) → IsUnmarked source → IsFront source (spaced (closed source))
front [] u = record {
  trimmed = refl;
  found_start = λ t. named_map-behind_nil (find_text block_start t);
  found_end = λ t. named_map-behind_nil (find_text block_end t);
  matched_start = λ t. map-behind_nil (matches block_start 0 t);
  matched_end = λ t. map-behind_nil (matches block_end 0 t);
}
front (c ∷ source) u = closed-IsFront (c ∷ source) u refl

-- A text without the markers can be given the block; giving it the block again changes nothing; and
-- removing the block gives the text back, with one newline for whatever blank it ended in.
pub install_remove :
    (source : Str)
    → IsUnmarked source
    → (out : Str) × (render source ≡ some out)
      × (render out ≡ some out)
      × (remove out ≡ some (trim_end source ++ newline ∷ []))
unfolding render
install_remove source u =
    let f = front source u in
    (
      installed (spaced (closed source)),
      rw (matches-none block_start source u.start, matches-none block_end source u.end) refl,
      render-installed source (spaced (closed source)) f,
      remove-installed source (spaced (closed source)) f,
    )
