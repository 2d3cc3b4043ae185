-- ===== src/Cli/Setup/Lock.antt =====
-- crates/cli/src/setup/lock.rs: the clone of the stock lock. The anchors and their patches are
-- arguments; reading the stock files and JSON are not modelled.
use mathlib.Core.Path.{subst}
use omarchy_presence_unlock.Base.{
  ℕ, ◌≡◌, refl, sym, ap, ◌∙◌, inl, inr, Bool, true, false, not, ◌||◌, List, [], ◌∷◌, ◌++◌, Option,
  none, some, Str, codes, all, drop, length, is_some, if◌then◌else◌, ◌==◌, ==_iff, Bool-cases,
  Option-cases, trim, arith,
}
use omarchy_presence_unlock.Config.Device.{named_map}
use omarchy_presence_unlock.Cli.Devices.{is_alphanumeric, dash, or_else}
use omarchy_presence_unlock.Cli.Setup.Markers.{
  Place, starts_with, behind, find_text, matches, matches-none,
}

abbrev pub marker : Str
marker = codes "// omarchy-presence-unlock:presence"

abbrev pub is_user_char : ℕ → Bool
is_user_char c = is_alphanumeric c || c == dash || c == b'_'

abbrev pub nonempty : Str → Bool
nonempty [] = false
nonempty (c ∷ s) = true

abbrev pub named_plugin : Option Str → Option Str
named_plugin none = none
named_plugin (some user) =
    let name = trim user in
    if not (nonempty name) || not (all is_user_char name)
    then none
    else some (name ++ codes ".lock")

-- `plugin_id`, of `USER` and `LOGNAME`.
unfoldable pub plugin_id : Option Str → Option Str → Option Str
unfolding trim
plugin_id user logname = named_plugin (or_else user logname)

-- `replacen` of one occurrence.
abbrev pub replaced_at : Str → Str → Str → Option Place → Str
replaced_at source anchor patch none = source
replaced_at source anchor patch (some (before, from)) =
    before ++ (patch ++ drop (length anchor) from)

unfoldable pub apply : Str → Str → Str → Option Str
unfolding matches find_text
apply source anchor patch =
    if length (matches anchor 0 source) == 1
    then some (replaced_at source anchor patch (find_text anchor source))
    else none

-- The loop of `render`, over the anchors and their patches.
abbrev pub and_apply : Str → Str → Option Str → Option Str
and_apply anchor patch none = none
and_apply anchor patch (some source) = apply source anchor patch

unfoldable pub apply_all : Option Str → List (Str × Str) → Option Str
unfolding apply
apply_all source [] = source
apply_all source ((anchor, patch) ∷ patches) = apply_all (and_apply anchor patch source) patches

unfoldable pub render : Str → List (Str × Str) → Option Str
unfolding apply_all find_text
render source patches =
    if is_some (find_text marker source) then none else apply_all (some source) patches

-- What is found is there.
starts_with-eq : (p s : Str) → starts_with p s ≡ true → s ≡ p ++ drop (length p) s
starts_with-eq [] s h = refl
starts_with-eq (a ∷ p) [] h = absurd (cc h)
starts_with-eq (a ∷ p) (c ∷ s) h =
    let same : a ≡ c = (==_iff a c).0 (ground arith) in
    let rest = starts_with-eq p s (ground arith) in ap (λ d. d ∷ s) (sym same) ∙ ap (◌∷◌ a) rest

module _ (p : Str) where
  first_of :
      (c : ℕ) (o : Option Place) (before from : Str)
      → named_map (behind (c ∷ [])) o ≡ some (before, from)
      → (rest : Str) × (o ≡ some (rest, from)) × (before ≡ c ∷ rest)
  first_of c none before from h = absurd (cc h)
  first_of c (some (rest, found)) before from h =
      let same : (c ∷ rest, found) ≡ (before, from) = cc h in
      (
        rest,
        ap (λ f. some (rest, f)) (ap (λ (place : Place). place.1) same),
        sym (ap (λ (place : Place). place.0) same),
      )

  found-append :
      (s before from : Str)
      → find_text p s ≡ some (before, from)
      → s ≡ before ++ (p ++ drop (length p) from)
  unfolding find_text
  found-append [] before from h = absurd (cc h)
  found-append (c ∷ s) before from h = elim (Bool-cases (starts_with p (c ∷ s))) [
    | inl here ↦
        let same : ([], c ∷ s) ≡ (before, from) = cc (rw here at h) in
        let empty : [] ≡ before = ap (λ (place : Place). place.0) same in
        let all : c ∷ s ≡ from = ap (λ (place : Place). place.1) same in
        starts_with-eq p (c ∷ s) here
        ∙ ap (λ f. p ++ drop (length p) f) all
        ∙ ap (λ b. b ++ (p ++ drop (length p) from)) empty
    | inr there ↦
        let (rest, found, same) = first_of c (find_text p s) before from (rw there at h) in
        ap (◌∷◌ c) (found-append s rest from found)
        ∙ ap (λ b. b ++ (p ++ drop (length p) from)) (sym same)
  ]

-- The patches in their order, each in the place of the one occurrence of its anchor.
pub data IsPatched : Str → List (Str × Str) → Str → Type 0 where
  done : {s : Str} → IsPatched s [] s
  patched :
      {source out : Str} {patches : List (Str × Str)} (anchor patch before after : Str)
      → source ≡ before ++ (anchor ++ after)
      → length (matches anchor 0 source) ≡ 1
      → IsPatched (before ++ (patch ++ after)) patches out
      → IsPatched source ((anchor, patch) ∷ patches) out

apply-some :
    (source anchor patch out : Str)
    → apply source anchor patch ≡ some out
    → (before : Str) × (after : Str) × (source ≡ before ++ (anchor ++ after))
      × (length (matches anchor 0 source) ≡ 1)
      × (before ++ (patch ++ after) ≡ out)
unfolding apply
apply-some source anchor patch out h = elim (Bool-cases (length (matches anchor 0 source) == 1)) [
  | inr wrong ↦ absurd (cc (rw wrong at h))
  | inl single ↦
      let one = (==_iff (length (matches anchor 0 source)) 1).0 single in
      elim (Option-cases (find_text anchor source)) [
        | inl nowhere ↦
            let zero_matches =
              ap (λ (l : List Place). length l) (matches-none anchor source nowhere) in
            absurd (omega (arith, one, zero_matches))
        | inr ((before, from), found) ↦ (
          before,
          drop (length anchor) from,
          found-append anchor source before from found,
          one,
          cc (rw (single, found) at h),
        )
      ]
]

none-stays : (patches : List (Str × Str)) → apply_all none patches ≡ none
unfolding apply_all
none-stays [] = refl
none-stays ((anchor, patch) ∷ patches) = none-stays patches

apply_all-IsPatched :
    (source : Str) (patches : List (Str × Str)) (out : Str)
    → apply_all (some source) patches ≡ some out
    → IsPatched source patches out
unfolding apply_all
apply_all-IsPatched source [] out h =
    let same : source ≡ out = cc h in subst (IsPatched source []) same done
apply_all-IsPatched source ((anchor, patch) ∷ patches) out h =
    elim (Option-cases (apply source anchor patch)) [
      | inl refused ↦ absurd (cc (rw (refused, none-stays patches) at h))
      | inr (next, applied) ↦
          let (before, after, was, one, made) = apply-some source anchor patch next applied in
          let rest = apply_all-IsPatched next patches out (rw applied at h) in
          patched anchor patch before after was one
            (subst (λ s. IsPatched s patches out) (sym made) rest)
    ]

-- A stock file that is rendered had no marker of this program, and every anchor stood in it exactly
-- once when its turn came and was replaced there by its patch, with nothing else changed.
pub render-IsPatched :
    (source : Str) (patches : List (Str × Str)) (out : Str)
    → render source patches ≡ some out
    → (find_text marker source ≡ none) × IsPatched source patches out
unfolding render
render-IsPatched source patches out h = elim (Option-cases (find_text marker source)) [
  | inl clean ↦ (clean, apply_all-IsPatched source patches out (rw clean at h))
  | inr (place, found) ↦ absurd (cc (rw found at h))
]
