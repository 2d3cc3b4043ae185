-- ===== src/Cli/Devices/Replaced.antt =====
-- Which tables an edit changes, and how.
use mathlib.Core.Path.{subst}
use omarchy_presence_unlock.Base.{
  ◌≡◌, ◌⊎◌, refl, sym, ap, ◌∙◌, inl, inr, true, false, List, [], ◌∷◌, ◌++◌, Option, none, some, Str,
  codes, str_eq, str_eq_refl, Bool, ◌||◌, any, All, if◌then◌else◌, Bool-cases, Option-cases, arith,
}
use omarchy_presence_unlock.Base.Int.{pos}
use omarchy_presence_unlock.Config.Device.{Crates, named_map}
use omarchy_presence_unlock.Cli.Devices.{or_else}
use omarchy_presence_unlock.Cli.Devices.Document.{
  Value, text, integer, Tables, tables, Document, Texts,
}
use omarchy_presence_unlock.Cli.Devices.Edit.{
  Criteria, Overrides, validate, to_i64, criteria_values, override_values, criteria_keys,
  policy_keys, device_array, change_first, has_id, remove_all, set_some, set_all, write_device,
  upsert, with_devices, edit_tables, apply_device,
}

-- The keys that a list of values sets, over what is there.
abbrev given : List (Str × Option Value) → Str → Option Value → Option Value
given [] at was = was
given ((key, value) ∷ values) at was =
    given values at (if str_eq key at then or_else value was else was)

-- A key that the edit writes or clears, whatever it is given.
abbrev pub is_written : Str → Bool
is_written at =
    any (λ key. str_eq key at) criteria_keys
    || any (λ key. str_eq key at) policy_keys
    || str_eq (codes "kind") at
    || str_eq (codes "profile") at

any-append {ℓ} :
    {A : Type ℓ} (p : A → Bool) (xs ys : List A) → any p (xs ++ ys) ≡ any p xs || any p ys
any-append p [] ys = refl
any-append p (x ∷ xs) ys = ground (arith, any-append p xs ys)

-- Neither of two tests holds.
or_neither : (a b : Bool) → a || b ≡ false → (a ≡ false) × (b ≡ false)
or_neither false b h = (refl, h)
or_neither true b h = absurd (cc h)

module _ (k : Tables) where
  get-remove_all :
      (keys : List Str) (table : k.Table) (at : Str)
      → k.get (remove_all k keys table) at
        ≡ (if any (λ key. str_eq key at) keys then none else k.get table at)
  unfolding remove_all
  get-remove_all [] table at = refl
  get-remove_all (key ∷ keys) table at =
      get-remove_all keys (k.remove table key) at
      ∙ ap (λ was. if any (λ u. str_eq u at) keys then none else was) (k.get_remove table key at)
      ∙ ground arith

  get-set_some :
      (key : Str) (value : Option Value) (table : k.Table) (at : Str)
      → k.get (set_some k key value table) at
        ≡ (if str_eq key at then or_else value (k.get table at) else k.get table at)
  get-set_some key none table at = ground arith
  get-set_some key (some value) table at = k.get_set table key value at

  get-set_all :
      (values : List (Str × Option Value)) (table : k.Table) (at : Str)
      → k.get (set_all k values table) at ≡ given values at (k.get table at)
  unfolding set_all
  get-set_all [] table at = refl
  get-set_all ((key, value) ∷ values) table at =
      get-set_all values (set_some k key value table) at
      ∙ ap (given values at) (get-set_some key value table at)

  get-write_device :
      (profile : Str) (c : Criteria) (o : Overrides) (table : k.Table) (at : Str)
      → k.get (write_device k profile c o table) at
        ≡ given (override_values o) at (
            given (criteria_values c) at (
              if any (λ key. str_eq key at) (criteria_keys ++ policy_keys)
              then none
              else if str_eq (codes "kind") at
              then none
              else if str_eq (codes "profile") at
              then some (text profile)
              else k.get table at))
  unfolding write_device
  get-write_device profile c o table at =
      let set = k.set table (codes "profile") (text profile) in
      let bare = k.remove set (codes "kind") in
      let cleared = remove_all k (criteria_keys ++ policy_keys) bare in
      get-set_all (override_values o) (set_all k (criteria_values c) cleared) at
      ∙ ap (given (override_values o) at) (
          get-set_all (criteria_values c) cleared at
          ∙ ap (given (criteria_values c) at) (
              get-remove_all (criteria_keys ++ policy_keys) bare at
              ∙ ap
                  (λ was.
                    if any (λ key. str_eq key at) (criteria_keys ++ policy_keys) then none else was)
                  (k.get_remove set (codes "kind") at
                    ∙ ap (λ was. if str_eq (codes "kind") at then none else was)
                        (k.get_set table (codes "profile") (text profile) at))))

  -- A table that is a device with a profile, these criteria and these settings, and nothing left of
  -- an older one but what the edit does not own.
  pub record IsDevice (profile : Str) (c : Criteria) (o : Overrides) (was table : k.Table)
      : Type 0 where
    pub profile_of : k.get table (codes "profile") ≡ some (text profile)
    pub no_kind : k.get table (codes "kind") ≡ none
    pub irk_base64 : k.get table (codes "irk_base64") ≡ named_map text c.irk_base64
    pub address : k.get table (codes "address") ≡ named_map text c.address
    pub service_uuid : k.get table (codes "service_uuid") ≡ named_map text c.service_uuid
    pub name_prefix : k.get table (codes "name_prefix") ≡ named_map text c.name_prefix
    pub threshold_dbm : k.get table (codes "threshold_dbm") ≡ named_map integer o.threshold_dbm
    pub minimum_samples :
        k.get table (codes "minimum_samples") ≡ named_map (λ n. integer (pos n)) o.minimum_samples
    pub freshness_ms :
        k.get table (codes "freshness_ms") ≡ named_map (λ n. integer (to_i64 n)) o.freshness_ms
    pub id_of : k.get table (codes "id") ≡ k.get was (codes "id")
    pub others : (at : Str) → is_written at ≡ false → k.get table at ≡ k.get was at

  -- Values with other keys set nothing at a key.
  given-others :
      (values : List (Str × Option Value)) (at : Str) (was : Option Value)
      → any (λ (v : Str × Option Value). str_eq v.0 at) values ≡ false
      → given values at was ≡ was
  given-others [] at was h = refl
  given-others ((key, value) ∷ values) at was h =
      let other : str_eq key at ≡ false = ground arith in
      rw other (given-others values at was (ground arith))

  or_else-none : (o : Option Value) → or_else o none ≡ o
  or_else-none none = refl
  or_else-none (some v) = refl

  write_device-IsDevice :
      (profile : Str) (c : Criteria) (o : Overrides) (table : k.Table)
      → IsDevice profile c o table (write_device k profile c o table)
  unfolding str_eq
  write_device-IsDevice profile c o table =
      let at = get-write_device profile c o table in
      record {
        profile_of = at (codes "profile");
        no_kind = at (codes "kind");
        irk_base64 = at (codes "irk_base64") ∙ or_else-none (named_map text c.irk_base64);
        address = at (codes "address") ∙ or_else-none (named_map text c.address);
        service_uuid = at (codes "service_uuid") ∙ or_else-none (named_map text c.service_uuid);
        name_prefix = at (codes "name_prefix") ∙ or_else-none (named_map text c.name_prefix);
        threshold_dbm =
            at (codes "threshold_dbm") ∙ or_else-none (named_map integer o.threshold_dbm);
        minimum_samples =
            at (codes "minimum_samples")
            ∙ or_else-none (named_map (λ n. integer (pos n)) o.minimum_samples);
        freshness_ms =
            at (codes "freshness_ms")
            ∙ or_else-none (named_map (λ n. integer (to_i64 n)) o.freshness_ms);
        id_of = at (codes "id");
        others = λ key other.
            let (front, not_profile) = or_neither _ _ other in
            let (cleared, not_kind) = or_neither _ _ front in
            let (not_criteria, not_policy) = or_neither _ _ cleared in
            let neither = any-append (λ u. str_eq u key) criteria_keys policy_keys in
            at key
            ∙ given-others (override_values o) key _ not_policy
            ∙ given-others (criteria_values c) key _ not_criteria
            ∙ rw (neither, not_criteria, not_policy, not_kind, not_profile) refl;
      }

  -- The tables before one place, the table there, and those behind it: one with the id, the first,
  -- or a new one at the end.
  pub record IsPlaced (id : Str) (change : k.Table → k.Table) (ts us : List k.Table) : Type 0 where
    pub before : List k.Table
    pub old : k.Table
    pub after : List k.Table
    pub others : All (λ table. has_id k id table ≡ false) before
    pub named : has_id k id old ≡ true
    pub was : (ts ≡ before ++ old ∷ after) ⊎ ((ts ≡ before) × (after ≡ []))
    pub now : us ≡ before ++ change old ∷ after

  change_first-IsPlaced :
      (id : Str) (change : k.Table → k.Table) (ts : List k.Table)
      → any (has_id k id) ts ≡ true
      → (placed : IsPlaced id change ts (change_first (has_id k id) change ts)) × (ts
          ≡ placed.before ++ placed.old ∷ placed.after)
  unfolding change_first
  change_first-IsPlaced id change [] h = absurd (cc h)
  change_first-IsPlaced id change (table ∷ ts) h = elim (Bool-cases (has_id k id table)) [
    | inl here ↦ rw here (
      record {
        before = [];
        old = table;
        after = ts;
        others = tt;
        named = here;
        was = inl refl;
        now = refl;
      },
      refl,
    )
    | inr there ↦
        let (rest, same) = change_first-IsPlaced id change ts (rw there at h) in
        rw there (
          record {
            before = table ∷ rest.before;
            old = rest.old;
            after = rest.after;
            others = (there, rest.others);
            named = rest.named;
            was = inl (ap (◌∷◌ table) same);
            now = ap (◌∷◌ table) rest.now;
          },
          ap (◌∷◌ table) same,
        )
  ]

  none-All :
      (id : Str) (ts : List k.Table)
      → any (has_id k id) ts ≡ false
      → All (λ table. has_id k id table ≡ false) ts
  none-All id [] h = tt
  none-All id (table ∷ ts) h = (ground arith, none-All id ts (ground arith))

  new-has_id : (id : Str) → has_id k id (k.set k.empty (codes "id") (text id)) ≡ true
  unfolding has_id str_eq
  new-has_id id = rw (k.get_set k.empty (codes "id") (text id) (codes "id")) (str_eq_refl id)

  upsert-IsPlaced :
      (id : Str) (change : k.Table → k.Table) (ts : List k.Table)
      → IsPlaced id change ts (upsert k id change ts)
  unfolding upsert
  upsert-IsPlaced id change ts = elim (Bool-cases (any (has_id k id) ts)) [
    | inl known ↦ rw known (change_first-IsPlaced id change ts known).0
    | inr new ↦ rw new (record {
      before = ts;
      old = k.set k.empty (codes "id") (text id);
      after = [];
      others = none-All id ts new;
      named = new-has_id id;
      was = inr (refl, refl);
      now = refl;
    })
  ]

  edit_tables-some :
      (document out : Document k.Table) (edit : List k.Table → Option (List k.Table))
      (o : Option (List k.Table))
      → edit_tables k document edit o ≡ some out
      → (ts : List k.Table) × (us : List k.Table) × (o ≡ some ts)
        × (edit ts ≡ some us)
        × (with_devices k document us ≡ out)
  edit_tables-some document out edit none h = absurd (cc h)
  edit_tables-some document out edit (some ts) h = elim (Option-cases (edit ts)) [
    | inl refused ↦ absurd (cc (rw refused at h))
    | inr (us, made) ↦ (ts, us, refl, made, cc (rw made at h))
  ]

  -- What an edit of one device leaves of a document.
  pub record IsOneDevice (id : Str) (change : k.Table → k.Table) (document out : Document k.Table)
      : Type 0 where
    pub was : List k.Table
    pub array : device_array document.device ≡ some was
    pub now : List k.Table
    pub edited : out.device ≡ tables now
    pub root : out.root ≡ document.root
    pub placed : IsPlaced id change was now

-- Adding a device leaves one table changed, the first one with the id or a new one at the end. That
-- table has the profile, exactly the criteria and the settings that were given, the id that it had and
-- no older kind; the other tables and the rest of the document are what they were.
pub apply_device-IsDevice :
    (c : Crates) (k : Tables) (t : Texts k.Table) (id profile : Str) (criteria : Criteria)
    (overrides : Overrides) (document out : Document k.Table)
    → apply_device c k t id profile criteria overrides document ≡ some out
    → (one : IsOneDevice k id (write_device k profile criteria overrides) document out) × IsDevice k
        profile criteria overrides one.placed.old
        (write_device k profile criteria overrides one.placed.old)
unfolding apply_device
apply_device-IsDevice c k t id profile criteria overrides document out h =
    elim (Bool-cases (validate c criteria)) [
      | inr refused ↦ absurd (cc (rw refused at h))
      | inl valid ↦
          let change = write_device k profile criteria overrides in
          let (ts, us, array, made, same) =
            edit_tables-some k document out (λ ts. some (upsert k id change ts))
              (device_array document.device) (rw valid at h) in
          let upserted : upsert k id change ts ≡ us = cc made in
          let placed = subst (IsPlaced k id change ts) upserted (upsert-IsPlaced k id change ts) in
          (
            record {
              was = ts;
              array = array;
              now = us;
              edited = sym (ap (λ (d : Document k.Table). d.device) same);
              root = sym (ap (λ (d : Document k.Table). d.root) same);
              placed = placed;
            },
            write_device-IsDevice k profile criteria overrides placed.old,
          )
    ]
