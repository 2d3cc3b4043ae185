-- ===== src/Config/Usable.antt =====
-- What a resolved entry is.
use omarchy_presence_unlock.Base.{
  ◌≡◌, refl, inl, inr, false, some, Str, Bool-cases, is_some_and, trim,
}
use mathlib.Core.Path.{subst}
use omarchy_presence_unlock.Irk.{new_matcher}
use omarchy_presence_unlock.Identity.{Identity, is_empty}
use omarchy_presence_unlock.Profile.{Profile, find}
use omarchy_presence_unlock.Profile.Registry.{find_sound}
use omarchy_presence_unlock.Fleet.{DeviceSpec}
use omarchy_presence_unlock.Fleet.Fields.{IsRegistered}
use omarchy_presence_unlock.Config.{DeviceEntry, ok, >>=-eq-ok, ok_or, ok_or-eq-ok, transpose}
use omarchy_presence_unlock.Config.Policy.{IsSafe, entry_policy, entry_policy-IsSafe}
use omarchy_presence_unlock.Config.Device.{
  Crates, nonempty_identity, named_identity, entry_identity, resolve_entry, is_blank, named_map,
}

find-IsRegistered : (id : Str) (p : Profile) → find id ≡ some p → IsRegistered p
find-IsRegistered id p h = elim (find_sound id p h).0 [
  | inl apple ↦ inl apple
  | inr (inl proximity) ↦ inr proximity
  | inr (inr impossible) ↦ absurd impossible
]

nonempty_identity_sound :
    (c : Crates) (id : Str) (i j : Identity) → nonempty_identity c id i ≡ ok j → is_empty j ≡ false
nonempty_identity_sound c id i j h = elim (Bool-cases (is_empty i)) [
  | inl empty ↦ absurd (cc (rw empty at h))
  | inr some_criterion ↦
      let same : i ≡ j = cc (rw some_criterion at h) in
      subst (λ k. is_empty k ≡ false) same some_criterion
]

named_identity_sound :
    (c : Crates) (id : Str) (i j : Identity) → named_identity c id i ≡ ok j → is_empty j ≡ false
named_identity_sound c id i j h =
    elim (Bool-cases (is_some_and i.name_prefix (λ prefix. is_blank (trim prefix)))) [
      | inl blank ↦ absurd (cc (rw blank at h))
      | inr named ↦ nonempty_identity_sound c id i j (rw named at h)
    ]

entry_identity_sound :
    (c : Crates) (e : DeviceEntry) (i : Identity) → entry_identity c e ≡ ok i → is_empty i ≡ false
unfolding entry_identity
entry_identity_sound c e i h =
    let (irk, decoded, h1) = >>=-eq-ok (transpose e.irk_base64 _) _ h in
    let (address, parsed, h2) = >>=-eq-ok (transpose e.address _) _ h1 in
    let (uuid, read, h3) = >>=-eq-ok (transpose e.service_uuid _) _ h2 in
    let built : Identity = record {
      irk = named_map (new_matcher c.aes) irk;
      address = address;
      service_uuid = uuid;
      name_prefix = e.name_prefix;
    } in
    named_identity_sound c e.id built i h3

-- A device that the daemon may run: a profile of the registry, an identity with a criterion, and a
-- policy within its bounds.
pub record IsUsable (spec : DeviceSpec) : Type 0 where
  pub registered : IsRegistered spec.profile
  pub some_criterion : is_empty spec.identity ≡ false
  pub safe : IsSafe spec.policy

pub resolve_entry-IsUsable :
    (c : Crates) (e : DeviceEntry) (spec : DeviceSpec)
    → resolve_entry c e ≡ ok spec
    → IsUsable spec × (spec.id ≡ e.id)
unfolding resolve_entry
resolve_entry-IsUsable c e spec h =
    let (identity, hi, h1) = >>=-eq-ok (entry_identity c e) _ h in
    let (profile, hp, h2) = >>=-eq-ok (ok_or (find e.profile) _) _ h1 in
    let (policy, hq, h3) = >>=-eq-ok (entry_policy e) _ h2 in
    let built : DeviceSpec = record {
      id = e.id;
      identity = identity;
      profile = profile;
      policy = policy;
    } in
    let usable : IsUsable built = record {
      registered = find-IsRegistered e.profile profile (ok_or-eq-ok (find e.profile) _ hp);
      some_criterion = entry_identity_sound c e identity hi;
      safe = entry_policy-IsSafe e policy hq;
    } in
    let same : built ≡ spec = cc h3 in
    subst (λ (s : DeviceSpec). IsUsable s × (s.id ≡ e.id)) same (usable, refl)
