-- ===== src/Cli/Devices/Slug.antt =====
-- The ids that are made of names.
use mathlib.Core.Path.{subst}
use omarchy_presence_unlock.Base.{
  ℕ, ◌≡◌, ◌≢◌, refl, sym, ap, ◌∙◌, inl, inr, Bool, true, false, not, ◌&&◌, ◌||◌, [], ◌∷◌, ◌++◌,
  append_assoc, append-nil, some, Str, ◌==◌, ==_iff, Bool-cases, arith,
}
use omarchy_presence_unlock.Cli.Devices.{
  dash, is_upper, is_lower, is_digit, is_alphanumeric, to_lowercase, ends_with_dash, slug_step,
  slug_from, trim_start_dashes, trim_end_dashes, unless_bare_dash, some_nonempty, slug,
}

abbrev pub is_slug_char : ℕ → Bool
is_slug_char c = is_lower c || is_digit c || c == dash

-- Lower case letters, digits and dashes, with no two dashes in a row.
unfoldable pub is_clean : Str → Bool
is_clean [] = true
is_clean (c ∷ []) = is_slug_char c
is_clean (c ∷ d ∷ s) = is_slug_char c && not (c == dash && d == dash) && is_clean (d ∷ s)

abbrev pub starts_with_dash : Str → Bool
starts_with_dash [] = false
starts_with_dash (c ∷ s) = c == dash

pub record IsSlug (s : Str) : Type 0 where
  pub nonempty : s ≢ []
  pub clean : is_clean s ≡ true
  pub start : starts_with_dash s ≡ false
  pub end : ends_with_dash s ≡ false

clean-snoc :
    (out : Str) (c : ℕ)
    → is_clean out ≡ true
    → is_slug_char c ≡ true
    → (ends_with_dash out && c == dash) ≡ false
    → is_clean (out ++ c ∷ []) ≡ true
unfolding is_clean ends_with_dash
clean-snoc [] c clean ok apart = ok
clean-snoc (a ∷ []) c clean ok apart = ground arith
clean-snoc (a ∷ b ∷ out) c clean ok apart =
    ground (arith, clean-snoc (b ∷ out) c (ground arith) ok apart)

lowered :
    (c : ℕ)
    → is_alphanumeric c ≡ true
    → (is_slug_char (to_lowercase c) ≡ true) × ((to_lowercase c == dash) ≡ false)
lowered c h = (ground arith, ground arith)

step-clean : (out : Str) (c : ℕ) → is_clean out ≡ true → is_clean (slug_step out c) ≡ true
step-clean out c h = elim (Bool-cases (is_alphanumeric c)) [
  | inl letter ↦
      let ok = lowered c letter in
      rw letter (clean-snoc out (to_lowercase c) h ok.0 (ground (arith, ok.1)))
  | inr other ↦ rw other (elim (Bool-cases (ends_with_dash out)) [
    | inl dashed ↦ rw dashed h
    | inr bare ↦ rw bare (clean-snoc out dash h refl (rw bare refl))
  ])
]

from-clean : (out s : Str) → is_clean out ≡ true → is_clean (slug_from out s) ≡ true
unfolding slug_from
from-clean out [] h = h
from-clean out (c ∷ s) h = from-clean (slug_step out c) s (step-clean out c h)

clean-tail : (c : ℕ) (s : Str) → is_clean (c ∷ s) ≡ true → is_clean s ≡ true
unfolding is_clean
clean-tail c [] h = refl
clean-tail c (d ∷ s) h = ground arith

start-clean :
    (s : Str)
    → is_clean s ≡ true
    → (is_clean (trim_start_dashes s) ≡ true) × (starts_with_dash (trim_start_dashes s) ≡ false)
unfolding trim_start_dashes
start-clean [] h = (h, refl)
start-clean (c ∷ s) h = elim (Bool-cases (c == dash)) [
  | inl dashed ↦ rw dashed (start-clean s (clean-tail c s h))
  | inr other ↦ rw other (h, other)
]

clean-cons :
    (c : ℕ) (s : Str)
    → is_slug_char c ≡ true
    → (c == dash && starts_with_dash s) ≡ false
    → is_clean s ≡ true
    → is_clean (c ∷ s) ≡ true
unfolding is_clean
clean-cons c [] ok apart h = ok
clean-cons c (d ∷ s) ok apart h = ground arith

clean-parts :
    (c : ℕ) (s : Str)
    → is_clean (c ∷ s) ≡ true
    → (is_slug_char c ≡ true) × ((c == dash && starts_with_dash s) ≡ false)
unfolding is_clean
clean-parts c [] h = (h, ground arith)
clean-parts c (d ∷ s) h = (ground arith, ground arith)

-- A text whose end was cut, and how it starts.
record Cut (was s : Str) : Type 0 where
  clean : is_clean s ≡ true
  end : ends_with_dash s ≡ false
  start : (starts_with_dash s && not (starts_with_dash was)) ≡ false

cons-Cut :
    (c : ℕ) (was s : Str)
    → is_clean (c ∷ was) ≡ true
    → Cut was s
    → Cut (c ∷ was) (unless_bare_dash c s)
unfolding is_clean ends_with_dash
cons-Cut c was [] h cut = elim (Bool-cases (c == dash)) [
  | inl dashed ↦ rw dashed (record { clean = refl; end = refl; start = refl })
  | inr other ↦
      rw other
        (record { clean = (clean-parts c was h).0; end = other; start = ground (arith, other) })
]
cons-Cut c was (d ∷ s) h cut = record {
  clean =
      clean-cons c (d ∷ s) (clean-parts c was h).0
        (ground (arith, (clean-parts c was h).1, cut.start)) cut.clean;
  end = cut.end;
  start = ground arith;
}

cut : (s : Str) → is_clean s ≡ true → Cut s (trim_end_dashes s)
unfolding trim_end_dashes is_clean ends_with_dash
cut [] h = record { clean = refl; end = refl; start = refl }
cut (c ∷ s) h = cons-Cut c s (trim_end_dashes s) h (cut s (clean-tail c s h))

some_nonempty-some : (s id : Str) → some_nonempty s ≡ some id → (s ≡ id) × (s ≢ [])
some_nonempty-some [] id h = absurd (cc h)
some_nonempty-some (c ∷ s) id h = (cc h, λ e. absurd (cc e))

unstarted : (s was : Str) → Cut was s → starts_with_dash was ≡ false → starts_with_dash s ≡ false
unstarted s was c h = ground (arith, c.start, h)

slug-IsSlug : (name id : Str) → slug name ≡ some id → IsSlug id
unfolding slug is_clean
slug-IsSlug name id h =
    let written = slug_from [] name in
    let began = start-clean written (from-clean [] name refl) in
    let c = cut (trim_start_dashes written) began.0 in
    let kept = some_nonempty-some (trim_end_dashes (trim_start_dashes written)) id h in
    subst IsSlug kept.0 (record {
      nonempty = kept.1;
      clean = c.clean;
      start =
          unstarted (trim_end_dashes (trim_start_dashes written)) (trim_start_dashes written) c
            began.1;
      end = c.end;
    })

-- Such a text is its own.
step-same :
    (out : Str) (c : ℕ)
    → is_slug_char c ≡ true
    → (ends_with_dash out && c == dash) ≡ false
    → slug_step out c ≡ out ++ c ∷ []
step-same out c ok apart = elim (Bool-cases (c == dash)) [
  | inl dashed ↦
      let same : c ≡ dash = (==_iff c dash).0 dashed in
      let bare : ends_with_dash out ≡ false = ground arith in rw (same, bare) refl
  | inr other ↦
      let letter : is_alphanumeric c ≡ true = ground arith in
      let low : is_upper c ≡ false = ground arith in rw (letter, low) refl
]

ends-snoc : (out : Str) (c : ℕ) → ends_with_dash (out ++ c ∷ []) ≡ (c == dash)
unfolding ends_with_dash
ends-snoc [] c = refl
ends-snoc (a ∷ []) c = refl
ends-snoc (a ∷ b ∷ out) c = ends-snoc (b ∷ out) c

from-same :
    (out s : Str)
    → is_clean s ≡ true
    → (ends_with_dash out && starts_with_dash s) ≡ false
    → slug_from out s ≡ out ++ s
unfolding slug_from
from-same out [] h apart = sym (append-nil out)
from-same out (c ∷ s) h apart =
    let parts = clean-parts c s h in
    ap (λ o. slug_from o s) (step-same out c parts.0 apart)
    ∙ from-same (out ++ c ∷ []) s (clean-tail c s h) (rw (ends-snoc out c) parts.1)
    ∙ append_assoc out (c ∷ []) s

start-same : (s : Str) → starts_with_dash s ≡ false → trim_start_dashes s ≡ s
unfolding trim_start_dashes
start-same [] h = refl
start-same (c ∷ s) h = rw h refl

end-same : (s : Str) → ends_with_dash s ≡ false → trim_end_dashes s ≡ s
unfolding trim_end_dashes ends_with_dash
end-same [] h = refl
end-same (c ∷ []) h = rw h refl
end-same (c ∷ d ∷ s) h = ap (unless_bare_dash c) (end-same (d ∷ s) h)

some_nonempty-same : (s : Str) → s ≢ [] → some_nonempty s ≡ some s
some_nonempty-same [] h = absurd (h refl)
some_nonempty-same (c ∷ s) h = refl

slug-same : (s : Str) → IsSlug s → slug s ≡ some s
unfolding slug ends_with_dash
slug-same s is =
    ap (λ t. some_nonempty (trim_end_dashes (trim_start_dashes t))) (from-same [] s is.clean refl)
    ∙ ap (λ t. some_nonempty (trim_end_dashes t)) (start-same s is.start)
    ∙ ap some_nonempty (end-same s is.end)
    ∙ some_nonempty-same s is.nonempty

-- An id that is made of a name, whatever the name, is not empty and has only lower case letters, digits
-- and dashes, with no dash at an end and no two in a row; and it is the id that is made of itself.
pub slug_canonical : (name id : Str) → slug name ≡ some id → IsSlug id × (slug id ≡ some id)
slug_canonical name id h = let is = slug-IsSlug name id h in (is, slug-same id is)
