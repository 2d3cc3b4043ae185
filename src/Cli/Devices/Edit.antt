-- ===== src/Cli/Devices/Edit.antt =====
-- The edits of the enrolled devices. The texts of errors are left out.
use omarchy_presence_unlock.Base.{
  ℕ, zero, suc, Bool, true, false, not, ◌&&◌, ◌||◌, List, [], ◌∷◌, ◌++◌, Option, none, some, Str,
  Bytes, codes, str_eq, retain, length, any, ◌^◌, ◌-◌, ltb, ◌==◌, if◌then◌else◌, is_some, unwrap_or,
  trim,
}
use omarchy_presence_unlock.Base.Int.{ℤ, pos}
use omarchy_presence_unlock.Ble.Text.{parse_address}
use omarchy_presence_unlock.Config.{DeviceEntry, ConfigFile, Result, ok, err, ◌>>=◌, current_schema}
use omarchy_presence_unlock.Config.Device.{Crates, named_map}
use omarchy_presence_unlock.Config.Resolve.{check_schema, resolve}
use omarchy_presence_unlock.Cli.Atomic.Update.{Attempt, Updated, update_failed, update}
use omarchy_presence_unlock.Cli.Devices.{id_for_irk, derive_id, or_else}
use omarchy_presence_unlock.Cli.Devices.Document.{
  Value, text, integer, other, Tables, Item, absent, inline, tables, another, Document, Texts,
}

pub record Criteria : Type 0 where
  pub irk_base64 : Option Str
  pub address : Option Str
  pub service_uuid : Option Str
  pub name_prefix : Option Str

pub record Overrides : Type 0 where
  pub threshold_dbm : Option ℤ
  pub minimum_samples : Option ℕ
  pub freshness_ms : Option ℕ

unfoldable pub is_empty : Criteria → Bool
is_empty c =
    not (is_some c.irk_base64)
    && not (is_some c.address)
    && not (is_some c.service_uuid)
    && not (is_some c.name_prefix)

-- A text that is there passes a test.
abbrev pub passes : Option Str → (Str → Bool) → Bool
passes none test = true
passes (some s) test = test s

abbrev pub is_key : Option Bytes → Bool
is_key none = false
is_key (some raw) = length raw == 16

abbrev pub i64_max : ℕ
i64_max = 2 ^ 63 - 1

-- `i64::try_from(freshness).unwrap_or(i64::MAX)`
abbrev pub to_i64 : ℕ → ℤ
to_i64 n = if ltb i64_max n then pos i64_max else pos n

abbrev pub criteria_values : Criteria → List (Str × Option Value)
criteria_values c =
    (codes "irk_base64", named_map text c.irk_base64)
    ∷ (codes "address", named_map text c.address)
    ∷ (codes "service_uuid", named_map text c.service_uuid)
    ∷ (codes "name_prefix", named_map text c.name_prefix)
    ∷ []

abbrev pub override_values : Overrides → List (Str × Option Value)
override_values o =
    (codes "threshold_dbm", named_map integer o.threshold_dbm)
    ∷ (codes "minimum_samples", named_map (λ n. integer (pos n)) o.minimum_samples)
    ∷ (codes "freshness_ms", named_map (λ n. integer (to_i64 n)) o.freshness_ms)
    ∷ []

-- `CRITERIA_KEYS` and `POLICY_KEYS`
abbrev pub criteria_keys : List Str
criteria_keys =
    codes "irk_base64" ∷ codes "address" ∷ codes "service_uuid" ∷ codes "name_prefix" ∷ []

abbrev pub policy_keys : List Str
policy_keys = codes "threshold_dbm" ∷ codes "minimum_samples" ∷ codes "freshness_ms" ∷ []

abbrev pub is_ok {ℓ} : {A : Type ℓ} → Result A → Bool
is_ok (ok a) = true
is_ok (err e) = false

module _ (c : Crates) where
  unfoldable pub validate : Criteria → Bool
  unfolding is_empty trim
  validate criteria =
      not (is_empty criteria)
      && passes criteria.irk_base64 (λ s. is_key (c.decode64 (trim s)))
      && passes criteria.address (λ s. is_some (parse_address s))
      && passes criteria.service_uuid (λ s. is_some (c.parse_uuid s))

  abbrev pub is_usable_file : Option ConfigFile → Bool
  is_usable_file none = false
  is_usable_file (some file) = is_ok (check_schema file >>= resolve c)

-- `device_array`: an absent key and an empty inline array become an empty array of tables.
unfoldable pub device_array : {T : Type 0} → Item T → Option (List T)
device_array absent = some []
device_array (inline zero) = some []
device_array (inline (suc n)) = none
device_array (tables ts) = some ts
device_array another = none

-- The first table that passes a test, changed in its place.
unfoldable pub change_first : {T : Type 0} → (T → Bool) → (T → T) → List T → List T
change_first test change [] = []
change_first test change (t ∷ ts) =
    let rest = change_first test change ts in if test t then change t ∷ ts else t ∷ rest

module _ (k : Tables) where
  abbrev pub is_text : Str → Option Value → Bool
  is_text s (some (text found)) = str_eq found s
  is_text s (some (integer n)) = false
  is_text s (some other) = false
  is_text s none = false

  -- `table.get("id").and_then(Item::as_str) == Some(id)`
  unfoldable pub has_id : Str → k.Table → Bool
  has_id id table = is_text id (k.get table (codes "id"))

  unfoldable pub remove_all : List Str → k.Table → k.Table
  remove_all [] table = table
  remove_all (key ∷ keys) table = remove_all keys (k.remove table key)

  abbrev pub set_some : Str → Option Value → k.Table → k.Table
  set_some key none table = table
  set_some key (some value) table = k.set table key value

  unfoldable pub set_all : List (Str × Option Value) → k.Table → k.Table
  set_all [] table = table
  set_all ((key, value) ∷ values) table = set_all values (set_some key value table)

  -- What `apply_device` does to the device's table.
  unfoldable pub write_device : Str → Criteria → Overrides → k.Table → k.Table
  unfolding remove_all set_all
  write_device profile criteria overrides table = set_all (override_values overrides) (
      set_all (criteria_values criteria) (
        remove_all (criteria_keys ++ policy_keys)
          (k.remove (k.set table (codes "profile") (text profile)) (codes "kind"))))

  -- `upsert`, and the change of the table that it lends.
  unfoldable pub upsert : Str → (k.Table → k.Table) → List k.Table → List k.Table
  unfolding has_id change_first
  upsert id change ts =
      let appended = ts ++ change (k.set k.empty (codes "id") (text id)) ∷ [] in
      if any (has_id id) ts then change_first (has_id id) change ts else appended

  abbrev pub with_devices : Document k.Table → List k.Table → Document k.Table
  with_devices document ts = record document { device = tables ts }

  -- The tables of a document, edited.
  abbrev pub edit_tables :
      Document k.Table
      → (List k.Table → Option (List k.Table))
      → Option (List k.Table)
      → Option (Document k.Table)
  edit_tables document edit none = none
  edit_tables document edit (some ts) = named_map (with_devices document) (edit ts)

  -- `set_threshold`
  unfoldable pub set_threshold : Str → ℤ → Document k.Table → Option (Document k.Table)
  unfolding device_array has_id change_first
  set_threshold id threshold document =
      edit_tables document
        (λ ts.
          if any (has_id id) ts
          then some (
              change_first (has_id id)
                (λ table. k.set table (codes "threshold_dbm") (integer threshold)) ts)
          else none)
        (device_array document.device)

  -- `set_multi_device_auth`
  unfoldable pub set_multi_device_auth : Str → Document k.Table → Option (Document k.Table)
  set_multi_device_auth expression document =
      some (record document {
        root = k.set document.root (codes "multi_device_auth") (text expression);
      })

  unfoldable pub empty_document : Document k.Table
  empty_document = record {
    root = k.set k.empty (codes "schema_version") (integer (pos current_schema));
    device = absent;
  }

module _ (c : Crates) (k : Tables) (t : Texts k.Table) where
  unfoldable pub apply_device :
      Str → Str → Criteria → Overrides → Document k.Table → Option (Document k.Table)
  unfolding validate device_array upsert write_device
  apply_device id profile criteria overrides document =
      if not (validate c criteria)
      then none
      else edit_tables k document
          (λ ts. some (upsert k id (write_device k profile criteria overrides) ts))
          (device_array document.device)

  unfoldable pub is_usable : Str → Bool
  is_usable source = is_usable_file c (t.read source)

  abbrev pub is_absent : Item k.Table → Bool
  is_absent absent = true
  is_absent (inline n) = false
  is_absent (tables ts) = false
  is_absent another = false

  -- The devices that are kept, if there was one to remove, and the test of what would be written.
  abbrev pub remove_from : Str → Document k.Table → List k.Table → Option (Document k.Table)
  remove_from id document ts =
      let kept = retain (λ table. not (has_id k id table)) ts in
      let edited = with_devices k document kept in
      if length kept == length ts
      then none
      else if length kept == 0
      then some edited
      else if is_usable (t.print edited)
      then some edited
      else none

  abbrev pub remove_checked :
      Str → Document k.Table → Option (List k.Table) → Option (Document k.Table)
  remove_checked id document none = none
  remove_checked id document (some ts) = remove_from id document ts

  -- `remove`
  unfoldable pub remove_device : Str → Document k.Table → Option (Document k.Table)
  unfolding device_array has_id is_usable
  remove_device id document =
      if is_absent document.device
      then none
      else remove_checked id document (device_array document.device)

  abbrev pub printed_if : Bool → Option (Document k.Table) → Option Str
  printed_if allow_empty none = none
  printed_if allow_empty (some document) =
      if allow_empty || is_usable (t.print document) then some (t.print document) else none

  abbrev pub render_parsed :
      Bool → (Document k.Table → Option (Document k.Table)) → Option (Document k.Table) → Option Str
  render_parsed allow_empty edit none = none
  render_parsed allow_empty edit (some document) = printed_if allow_empty (edit document)

  -- The text that an edit writes for a text.
  unfoldable pub render : Bool → (Document k.Table → Option (Document k.Table)) → Str → Option Str
  unfolding is_usable
  render allow_empty edit source = render_parsed allow_empty edit (t.parse source)

  -- The attempt of `update_config`: the text of a missing file, and the mode 0o600.
  abbrev pub config_attempt : Attempt → Attempt
  config_attempt a = record a { missing_text = t.print (empty_document k); mode = 0x180 }

  -- `update_config`, with whether its directory was made.
  unfoldable pub update_config :
      Bool → Bool → (Document k.Table → Option (Document k.Table)) → Attempt → Updated
  unfolding render empty_document
  update_config prepared allow_empty edit a =
      if not prepared then update_failed else update (render allow_empty edit) (config_attempt a)

  -- The commands: `add` replaces a device, `remove` may leave none.
  unfoldable pub add : Str → Str → Criteria → Overrides → Bool → Attempt → Updated
  unfolding apply_device update_config
  add id profile criteria overrides prepared a =
      update_config prepared false (apply_device id profile criteria overrides) a

  unfoldable pub remove : Str → Bool → Attempt → Updated
  unfolding remove_device update_config
  remove id prepared a = update_config prepared true (remove_device id) a

  abbrev pub no_overrides : Overrides
  no_overrides = record { threshold_dbm = none; minimum_samples = none; freshness_ms = none }

  abbrev pub key_criteria : Str → Criteria
  key_criteria irk = record {
    irk_base64 = some irk;
    address = none;
    service_uuid = none;
    name_prefix = none;
  }

  -- The id that `enroll_irk` chooses, and what it writes under that id.
  unfoldable pub enrolled_id : Bytes → Option Str → Option Str → List DeviceEntry → Str
  unfolding id_for_irk derive_id
  enrolled_id irk id name entries =
      unwrap_or (or_else id (id_for_irk (t.encode64 irk) entries)) (derive_id name none entries)

  unfoldable pub enroll_irk :
      Bytes → Str → Option Str → Option Str → List DeviceEntry → Bool → Attempt → Updated
  unfolding enrolled_id add
  enroll_irk irk profile id name entries prepared a =
      add (enrolled_id irk id name entries) profile (key_criteria (t.encode64 irk)) no_overrides
        prepared a
