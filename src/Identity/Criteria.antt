-- ===== src/Identity/Criteria.antt =====
-- An identity matches exactly when it has a criterion and every criterion that is set holds.
use omarchy_presence_unlock.Base.{
  ◌≡◌, refl, ◌↔◌, inl, inr, ◌∷◌, [], not, ==_iff, Bool, true, false, Option, none, some, List, Str,
  strip_prefix, strip_prefix_sound, strip_prefix-append, str_eq, str_eq_iff, any, Any, ◌==◌, ◌++◌,
  arith, is_some_and, Bool-cases, Option-cases, is_some,
}
use omarchy_presence_unlock.Ble.{Address, Uuid, Advertisement}
use omarchy_presence_unlock.Irk.{IrkMatcher, resolves}
use omarchy_presence_unlock.Identity.{
  Identity, match, reject, is_empty, verdict, payload_matches, matches,
}

-- What each criterion asks of an advertisement. A field that was not fetched meets no criterion.
abbrev pub IrkHolds : Option IrkMatcher → Address → Type 0
IrkHolds none address = Unit
IrkHolds (some irk) address = resolves irk address ≡ true

abbrev pub AddressHolds : Option Address → Address → Type 0
AddressHolds none address = Unit
AddressHolds (some expected) address = expected ≡ address

abbrev pub UuidHolds : Option Uuid → Option (List Uuid) → Type 0
UuidHolds none uuids = Unit
UuidHolds (some uuid) none = ⊥
UuidHolds (some uuid) (some uuids) = Any (λ u. u ≡ uuid) uuids

abbrev pub NameHolds : Option Str → Option Str → Type 0
NameHolds none name = Unit
NameHolds (some prefix) none = ⊥
NameHolds (some prefix) (some name) = (rest : Str) × (name ≡ prefix ++ rest)

pub record Holds (i : Identity) (ad : Advertisement) : Type 0 where
  pub some_criterion : is_empty i ≡ false
  pub irk_holds : IrkHolds i.irk ad.address
  pub address_holds : AddressHolds i.address ad.address
  pub uuid_holds : UuidHolds i.service_uuid ad.service_uuids
  pub name_holds : NameHolds i.name_prefix ad.name

any_iff :
    (uuid : Uuid) (uuids : List Uuid)
    → (any (λ u. u == uuid) uuids ≡ true) ↔ Any (λ u. u ≡ uuid) uuids
any_iff uuid uuids = (sound uuids, complete uuids)
  where
    sound : (us : List Uuid) → any (λ u. u == uuid) us ≡ true → Any (λ u. u ≡ uuid) us
    sound [] h = cc
    sound (u ∷ us) h = elim (Bool-cases (u == uuid)) [
      | inl e ↦ inl ((==_iff u uuid).0 e)
      | inr n ↦ inr (sound us (rw n at h))
    ]

    complete : (us : List Uuid) → Any (λ u. u ≡ uuid) us → any (λ u. u == uuid) us ≡ true
    complete [] h = absurd h
    complete (u ∷ us) (inl e) = rw ((==_iff u uuid).1 e)
    complete (u ∷ us) (inr h) = rw (complete us h) (ground arith)

-- The four tests of the code, each false exactly when its criterion holds.
abbrev irk_fails : Option IrkMatcher → Address → Bool
irk_fails irk address = is_some_and irk (λ irk. not (resolves irk address))

abbrev address_fails : Option Address → Address → Bool
address_fails expected address = is_some_and expected (λ expected. not (str_eq expected address))

abbrev uuid_fails : Option Uuid → Option (List Uuid) → Bool
uuid_fails uuid uuids =
    is_some_and uuid (λ uuid. not (is_some_and uuids (λ uuids. any (λ u. u == uuid) uuids)))

abbrev name_fails : Option Str → Option Str → Bool
name_fails prefix name =
    is_some_and prefix
      (λ prefix. not (is_some_and name (λ name. is_some (strip_prefix prefix name))))

irk_iff : (irk : Option IrkMatcher) (a : Address) → (irk_fails irk a ≡ false) ↔ IrkHolds irk a
irk_iff none a = (λ h. tt, λ h. refl)
irk_iff (some irk) a = (λ h. ground arith, λ h. rw h)

address_iff : (e : Option Address) (a : Address) → (address_fails e a ≡ false) ↔ AddressHolds e a
address_iff none a = (λ h. tt, λ h. refl)
address_iff (some e) a = (λ h. (str_eq_iff e a).0 (ground arith), λ h. rw ((str_eq_iff e a).1 h))

uuid_iff :
    (uuid : Option Uuid) (uuids : Option (List Uuid))
    → (uuid_fails uuid uuids ≡ false) ↔ UuidHolds uuid uuids
uuid_iff none uuids = (λ h. tt, λ h. refl)
uuid_iff (some uuid) none = (λ h. cc, λ h. absurd h)
uuid_iff (some uuid) (some uuids) =
    (λ h. (any_iff uuid uuids).0 (ground arith), λ h. rw ((any_iff uuid uuids).1 h))

name_iff : (prefix name : Option Str) → (name_fails prefix name ≡ false) ↔ NameHolds prefix name
name_iff none name = (λ h. tt, λ h. refl)
name_iff (some prefix) none = (λ h. cc, λ h. absurd h)
name_iff (some prefix) (some name) = (
  λ h. elim (Option-cases (strip_prefix prefix name)) [
    | inl e ↦ absurd (ground arith)
    | inr (rest, e) ↦ (rest, strip_prefix_sound prefix name rest e)
  ],
  λ (rest, e). rw e (rw (strip_prefix-append prefix rest)),
)

matches_flat :
    (i : Identity) (ad : Advertisement)
    → (matches i ad ≡ true) ↔ (
        (is_empty i ≡ false)
        × (irk_fails i.irk ad.address ≡ false)
        × (address_fails i.address ad.address ≡ false)
        × (uuid_fails i.service_uuid ad.service_uuids ≡ false)
        × (name_fails i.name_prefix ad.name ≡ false))
unfolding matches verdict is_empty payload_matches
matches_flat i ad = (λ h. ground arith, λ h. ground arith)

-- An identity matches an advertisement exactly when some criterion is set and each one that is set
-- holds: the key resolves the address, the address is the configured one, the service UUID is
-- advertised, the name begins with the prefix; a field that was not fetched meets no criterion.
pub matches-Holds : (i : Identity) (ad : Advertisement) → (matches i ad ≡ true) ↔ Holds i ad
matches-Holds i ad = (
  λ h.
      let (e, k, a, u, n) = (matches_flat i ad).0 h in
      record {
        some_criterion = e;
        irk_holds = (irk_iff i.irk ad.address).0 k;
        address_holds = (address_iff i.address ad.address).0 a;
        uuid_holds = (uuid_iff i.service_uuid ad.service_uuids).0 u;
        name_holds = (name_iff i.name_prefix ad.name).0 n;
      },
  λ h. (matches_flat i ad).1 (
    h.some_criterion,
    (irk_iff i.irk ad.address).1 h.irk_holds,
    (address_iff i.address ad.address).1 h.address_holds,
    (uuid_iff i.service_uuid ad.service_uuids).1 h.uuid_holds,
    (name_iff i.name_prefix ad.name).1 h.name_holds,
  ),
)

-- An address that is rejected matches in no advertisement.
pub matches_of_reject :
    (i : Identity) (ad : Advertisement) → verdict i ad.address ≡ reject → matches i ad ≡ false
unfolding matches
matches_of_reject i ad h = rw (h, matches)

-- An address that decides for a match matches in every advertisement.
pub matches_of_match :
    (i : Identity) (ad : Advertisement) → verdict i ad.address ≡ match → matches i ad ≡ true
unfolding matches
matches_of_match i ad h = rw (h, matches)
