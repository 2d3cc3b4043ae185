-- ===== src/Config/Sound.antt =====
-- What settings hold that `ConfigFile::resolve` returns.
use mathlib.Core.Path.{subst}
use mathlib.Core.List.{map}
use omarchy_presence_unlock.Base.{
  ℕ, ◌≤◌, ◌≡◌, refl, sym, ap, ◌∙◌, Bool, true, false, ◌||◌, List, [], ◌∷◌, ◌++◌, append_assoc,
  append-nil, Option, none, Str, Bytes, str_eq, any, All, length, if◌then◌else◌, arith,
}
use omarchy_presence_unlock.Fleet.{
  DeviceSpec, MultiDeviceAuth, any_device, all_devices, at_least, is_empty,
}
use omarchy_presence_unlock.Config.{
  DeviceEntry, ConfigFile, Settings, ConfigError, Result, ok, err, ◌>>=◌, >>=-eq-ok, transpose,
}
use omarchy_presence_unlock.Config.Device.{Crates, decode_irk, resolve_entry}
use omarchy_presence_unlock.Config.Resolve.{
  Seen, shared, check_seen, address_of, parse_rule, check_count, resolve_entries, resolve,
}
use omarchy_presence_unlock.Config.Usable.{IsUsable, resolve_entry-IsUsable}

-- What a result gives, where it is a success.
abbrev pub decoded : Result (Option Bytes) → Option Bytes
decoded (ok o) = o
decoded (err e) = none

unless-eq-ok {ℓ} :
    {A : Type ℓ} (b : Bool) (e : ConfigError) (m : Result A) {a : A}
    → (if b then err e else m) ≡ ok a
    → (b ≡ false) × (m ≡ ok a)
unless-eq-ok true e m h = absurd (cc h)
unless-eq-ok false e m h = (refl, h)

module _ (c : Crates) where
  -- The key of an entry, if it decodes.
  abbrev pub key_of : DeviceEntry → Option Bytes
  key_of e = decoded (transpose e.irk_base64 (λ text. decode_irk c e.id text))

  -- Two entries share an id or name the same physical device.
  abbrev pub repeats : DeviceEntry → DeviceEntry → Bool
  repeats e d =
      str_eq d.id e.id
      || (shared (key_of e) (key_of d) || shared (address_of e.address) (address_of d.address))

  -- No entry repeats one of `done` or an entry before it.
  abbrev pub AllApart : List DeviceEntry → List DeviceEntry → Type 0
  AllApart done [] = Unit
  AllApart done (e ∷ entries) = (any (repeats e) done ≡ false) × AllApart (done ++ e ∷ []) entries

  abbrev seen_of : DeviceEntry → Seen
  seen_of e = record { id = e.id; irk = key_of e; address = address_of e.address }

  check_seen-map :
      (e : DeviceEntry) (done : List DeviceEntry)
      → check_seen (seen_of e) (map seen_of done) ≡ ok tt
      → any (λ (d : DeviceEntry). str_eq d.id e.id) done ≡ false
      → any (repeats e) done ≡ false
  unfolding check_seen
  check_seen-map e [] h fresh = refl
  check_seen-map e (d ∷ done) h fresh = ground (arith, check_seen-map e done)

  -- The ids of devices are those of their entries.
  any-id :
      (id : Str) (done : List DeviceEntry) (devices : List DeviceSpec)
      → map (resolve_entry c) done ≡ map ok devices
      → any (λ (spec : DeviceSpec). str_eq spec.id id) devices
        ≡ any (λ (d : DeviceEntry). str_eq d.id id) done
  any-id id [] [] h = refl
  any-id id [] (spec ∷ devices) h = absurd (cc h)
  any-id id (d ∷ done) [] h = absurd (cc h)
  any-id id (d ∷ done) (spec ∷ devices) h =
      let same : spec.id ≡ d.id = (resolve_entry-IsUsable c d spec (cc h)).1 in
      let rest : map (resolve_entry c) done ≡ map ok devices = cc h in
      rw (same, any-id id done devices rest)

  All-IsUsable :
      (done : List DeviceEntry) (devices : List DeviceSpec)
      → map (resolve_entry c) done ≡ map ok devices
      → All IsUsable devices
  All-IsUsable [] [] h = tt
  All-IsUsable [] (spec ∷ devices) h = absurd (cc h)
  All-IsUsable (d ∷ done) [] h = absurd (cc h)
  All-IsUsable (d ∷ done) (spec ∷ devices) h =
      ((resolve_entry-IsUsable c d spec (cc h)).0, All-IsUsable done devices (cc h))

  map-snoc :
      (done : List DeviceEntry) (devices : List DeviceSpec) (e : DeviceEntry) (spec : DeviceSpec)
      → map (resolve_entry c) done ≡ map ok devices
      → resolve_entry c e ≡ ok spec
      → map (resolve_entry c) (done ++ e ∷ []) ≡ map ok (devices ++ spec ∷ [])
  map-snoc [] [] e spec h one = cc
  map-snoc [] (s ∷ devices) e spec h one = absurd (cc h)
  map-snoc (d ∷ done) [] e spec h one = absurd (cc h)
  map-snoc (d ∷ done) (s ∷ devices) e spec h one =
      let rest = map-snoc done devices e spec (cc h) one in cc

  seen-snoc :
      (done : List DeviceEntry) (e : DeviceEntry)
      → map seen_of (done ++ e ∷ []) ≡ map seen_of done ++ seen_of e ∷ []
  seen-snoc [] e = refl
  seen-snoc (d ∷ done) e = rw (seen-snoc done e)

  -- What the loop over the entries gives: the devices so far, and one for each entry that is left.
  record Extended (done : List DeviceEntry) (entries : List DeviceEntry)
      (devices all : List DeviceSpec) : Type 0 where
    built : map (resolve_entry c) (done ++ entries) ≡ map ok all
    apart : AllApart done entries

  resolve_entries-step :
      (e : DeviceEntry) (entries : List DeviceEntry) (devices : List DeviceSpec) (seen : List Seen)
      {all : List DeviceSpec}
      → resolve_entries c (e ∷ entries) devices seen ≡ ok all
      → (any (λ (spec : DeviceSpec). str_eq spec.id e.id) devices ≡ false)
        × ((spec : DeviceSpec) × (resolve_entry c e ≡ ok spec)
            × (check_seen (seen_of e) seen ≡ ok tt)
            × (resolve_entries c entries (devices ++ spec ∷ []) (seen ++ seen_of e ∷ []) ≡ ok all))
  unfolding resolve_entries
  resolve_entries-step e entries devices seen {all = all} h =
      let (fresh, h0) =
        unless-eq-ok (any (λ (spec : DeviceSpec). str_eq spec.id e.id) devices) _ _ h in
      let (spec, h1, g1) = >>=-eq-ok (resolve_entry c e) _ h0 in
      let (irk, h2, g2) =
        >>=-eq-ok (transpose e.irk_base64 (λ text. decode_irk c e.id text)) _ g1 in
      let built : Option Bytes → Seen =
        λ key. record { id = e.id; irk = key; address = address_of e.address } in
      let g2' =
        subst
          (λ key.
            (check_seen (built key) seen >>= λ unit.
            resolve_entries c entries (devices ++ spec ∷ []) (seen ++ built key ∷ []))
            ≡ ok all)
          (sym (ap decoded h2)) g2 in
      let (unit, h3, g3) = >>=-eq-ok (check_seen (seen_of e) seen) _ g2' in
      (fresh, (spec, h1, h3, g3))

  resolve_entries_sound :
      (done entries : List DeviceEntry) (devices all : List DeviceSpec)
      → map (resolve_entry c) done ≡ map ok devices
      → resolve_entries c entries devices (map seen_of done) ≡ ok all
      → Extended done entries devices all
  unfolding resolve_entries
  resolve_entries_sound done [] devices all inv h =
      let same : devices ≡ all = cc h in
      record {
        built =
            subst (λ l. map (resolve_entry c) l ≡ map ok all) (sym (append-nil done))
              (subst (λ ds. map (resolve_entry c) done ≡ map ok ds) same inv);
        apart = tt;
      }
  resolve_entries_sound done (e ∷ entries) devices all inv h =
      let (fresh, (spec, h1, h2, h3)) =
        resolve_entries-step e entries devices (map seen_of done) h in
      let next =
        resolve_entries_sound (done ++ e ∷ []) entries (devices ++ spec ∷ []) all
          (map-snoc done devices e spec inv h1)
          (subst (λ seen. resolve_entries c entries (devices ++ spec ∷ []) seen ≡ ok all)
            (sym (seen-snoc done e)) h3) in
      record {
        built =
            subst (λ l. map (resolve_entry c) l ≡ map ok all) (append_assoc done (e ∷ []) entries)
              next.built;
        apart = (check_seen-map e done h2 (sym (any-id e.id done devices inv) ∙ fresh), next.apart);
      }

-- A rule that some sight of the fleet can meet: at least one device, and no more than there are.
abbrev pub IsInReach : MultiDeviceAuth → ℕ → Type 0
IsInReach any_device configured = Unit
IsInReach all_devices configured = Unit
IsInReach (at_least n) configured = (1 ≤ n) × (n ≤ configured)

-- The settings of a file: a usable device for each entry, in order, no two entries alike, and a
-- rule in reach.
pub record IsSound (c : Crates) (file : ConfigFile) (settings : Settings) : Type 0 where
  pub some_device : is_empty settings.devices ≡ false
  pub built : map (resolve_entry c) file.devices ≡ map ok settings.devices
  pub usable : All IsUsable settings.devices
  pub apart : AllApart c [] file.devices
  pub in_reach : IsInReach settings.multi_device_auth (length settings.devices)
  pub adapter : settings.adapter ≡ file.adapter

parse_rule-positive : (text : Option Str) (n : ℕ) → parse_rule text ≡ ok (at_least n) → 1 ≤ n
unfolding parse_rule
parse_rule-positive text n h = ground arith

check_count-IsInReach :
    (text : Option Str) (rule : MultiDeviceAuth) (configured : ℕ)
    → parse_rule text ≡ ok rule
    → check_count rule configured ≡ ok tt
    → IsInReach rule configured
check_count-IsInReach text any_device configured h checked = tt
check_count-IsInReach text all_devices configured h checked = tt
check_count-IsInReach text (at_least n) configured h checked =
    (parse_rule-positive text n h, ground arith)

is_empty-built :
    (c : Crates) (entries : List DeviceEntry) (devices : List DeviceSpec)
    → map (resolve_entry c) entries ≡ map ok devices
    → is_empty devices ≡ is_empty entries
is_empty-built c [] [] h = refl
is_empty-built c [] (d ∷ devices) h = absurd (cc h)
is_empty-built c (e ∷ entries) [] h = absurd (cc h)
is_empty-built c (e ∷ entries) (d ∷ devices) h = refl

-- Settings that `resolve` returns are sound: each entry is resolved, in order, to a usable device, no
-- entry repeats the id, the key or the address of one before it, there is a device, and the rule asks
-- for at least one device and no more than there are.
pub resolve-IsSound :
    (c : Crates) (file : ConfigFile) (settings : Settings)
    → resolve c file ≡ ok settings
    → IsSound c file settings
unfolding resolve
resolve-IsSound c file settings h =
    let (occupied, h0) = unless-eq-ok (is_empty file.devices) _ _ h in
    let (devices, h1, g1) = >>=-eq-ok (resolve_entries c file.devices [] []) _ h0 in
    let (rule, h2, g2) = >>=-eq-ok (parse_rule file.multi_device_auth) _ g1 in
    let (unit, h3, g3) = >>=-eq-ok (check_count rule (length devices)) _ g2 in
    let parts = resolve_entries_sound c [] file.devices [] devices refl h1 in
    let built : Settings = record {
      adapter = file.adapter;
      multi_device_auth = rule;
      devices = devices;
    } in
    let sound : IsSound c file built = record {
      some_device = is_empty-built c file.devices devices parts.built ∙ occupied;
      built = parts.built;
      usable = All-IsUsable c file.devices devices parts.built;
      apart = parts.apart;
      in_reach = check_count-IsInReach file.multi_device_auth rule (length devices) h2 h3;
      adapter = refl;
    } in
    let same : built ≡ settings = cc g3 in subst (IsSound c file) same sound
