-- ===== src/Profile/Registry.antt =====
-- What the registry finds.
use omarchy_presence_unlock.Base.{
  ◌≡◌, sym, ap, ◌∙◌, inl, inr, Bool-cases, List, [], ◌∷◌, some, Str, str_eq, str_eq_sound, Any,
}
use omarchy_presence_unlock.Profile.{Profile, profiles, find_in, find}

find_in-Any :
    (id : Str) (ps : List Profile) (p : Profile)
    → find_in id ps ≡ some p
    → Any (λ q. p ≡ q) ps × (p.id ≡ id)
unfolding find_in
find_in-Any id [] p h = cc
find_in-Any id (q ∷ ps) p h = elim (Bool-cases (str_eq q.id id)) [
  | inl hit ↦
      let same : q ≡ p = cc (rw hit at h) in
      (inl (sym same), sym (ap (λ (r : Profile). r.id) same) ∙ str_eq_sound q.id id hit)
  | inr miss ↦ let (later, named) = find_in-Any id ps p (rw miss at h) in (inr later, named)
]

-- A profile that is found is one of the registry, under its own id.
pub find_sound :
    (id : Str) (p : Profile) → find id ≡ some p → Any (λ q. p ≡ q) profiles × (p.id ≡ id)
unfolding find
find_sound id p h = find_in-Any id profiles p h
