-- ===== src/Cli/Devices/Tests.antt =====
-- The edits on documents whose tables are lists.
use omarchy_presence_unlock.Base.{
  ◌≡◌, refl, true, false, List, [], ◌∷◌, Option, none, some, Str, codes, utf8, str_eq,
  if◌then◌else◌, strip_prefix,
}
use omarchy_presence_unlock.Numbers.{parse_u8, digits}
use omarchy_presence_unlock.Identity
use omarchy_presence_unlock.Profile.{find}
use omarchy_presence_unlock.Config.{DeviceEntry, ConfigFile, current_schema}
use omarchy_presence_unlock.Config.Policy.{entry_policy, requested_policy, validate_policy}
use omarchy_presence_unlock.Config.Device.{Crates, entry_identity, resolve_entry}
use omarchy_presence_unlock.Config.Resolve.{check_seen, check_schema, resolve}
use omarchy_presence_unlock.Cli.Atomic.{opened, Replacement, replace, fill, stage}
use omarchy_presence_unlock.Cli.Atomic.Update.{
  Attempt, missing, replaced, checked, update, snapshot,
}
use omarchy_presence_unlock.Cli.Devices.{
  slug, slug_from, trim_start_dashes, trim_end_dashes, ends_with_dash, ids, is_taken, derive_id,
}
use omarchy_presence_unlock.Cli.Devices.Fresh.{derive_id-free}
use omarchy_presence_unlock.Cli.Devices.Document.{
  Value, text, Tables, Item, absent, inline, tables, another, Document, Texts,
}
use omarchy_presence_unlock.Cli.Devices.Edit
use omarchy_presence_unlock.Cli.Devices.Edit.{
  Criteria, Overrides, validate, device_array, change_first, has_id, write_device, upsert,
  apply_device, remove_device, remove_all, set_all, is_usable, render, config_attempt,
  update_config,
}
use omarchy_presence_unlock.Cli.Devices.Replaced.{IsOneDevice, IsDevice, apply_device-IsDevice}
use omarchy_presence_unlock.Cli.Devices.Removed.{IsRemoved, remove_device-IsRemoved}
use omarchy_presence_unlock.Cli.Devices.Written.{Saved, update_config-Saved}

-- A table is its changes, the newest first.
abbrev Changes : Type 0
Changes = List (Str × Option Value)

abbrev newest : Changes → Str → Option Value
newest [] at = none
newest ((key, value) ∷ changes) at = if str_eq key at then value else newest changes at

abbrev lists : Tables
lists = record {
  Table = Changes;
  empty = [];
  get = newest;
  set = λ table key value. (key, some value) ∷ table;
  remove = λ table key. (key, none) ∷ table;
  get_empty = λ key. refl;
  get_set = λ table key value at. refl;
  get_remove = λ table key at. refl;
}

abbrev crates : Crates
crates = record { decode64 = λ s. none; parse_uuid = λ s. none; aes = λ key block. block }

abbrev tag : DeviceEntry
tag = record {
  id = codes "my-tag";
  profile = codes "presence";
  irk_base64 = none;
  address = none;
  service_uuid = none;
  name_prefix = some (codes "Tag");
  threshold_dbm = none;
  minimum_samples = none;
  sample_window_ms = none;
  freshness_ms = none;
}

abbrev file : ConfigFile
file = record {
  schema_version = current_schema;
  adapter = none;
  multi_device_auth = none;
  devices = tag ∷ [];
}

abbrev bare : Document Changes
bare = record { root = []; device = absent }

-- The print of a document with tables is not that of one without.
abbrev print : Item Changes → Str
print absent = codes "u"
print (inline n) = codes "u"
print (tables ts) = codes "t"
print another = codes "u"

abbrev texts : Texts Changes
texts = record {
  parse = λ source. some bare;
  print = λ document. print document.device;
  read = λ source. some file;
  encode64 = λ bytes. [];
}

abbrev name : Option Str
name = some (codes "My  Tag!")

abbrev no_name : Option Str
no_name = none

slugged : slug (codes "My  Tag!") ≡ some (codes "my-tag")
unfolding slug slug_from trim_start_dashes trim_end_dashes ends_with_dash
slugged = refl

derive_id-free_example : is_taken (ids (tag ∷ [])) (derive_id name no_name (tag ∷ [])) ≡ false
derive_id-free_example = derive_id-free name no_name (tag ∷ []) refl

abbrev criteria : Criteria
criteria = record {
  irk_base64 = none;
  address = none;
  service_uuid = none;
  name_prefix = some (codes "Tag");
}

abbrev overrides : Overrides
overrides = record { threshold_dbm = none; minimum_samples = some 3; freshness_ms = none }

abbrev edit : Document Changes → Option (Document Changes)
edit = apply_device crates lists texts (codes "my-tag") (codes "presence") criteria overrides

abbrev or_bare : Option (Document Changes) → Document Changes
or_bare none = bare
or_bare (some document) = document

edits : edit bare ≡ some (or_bare (edit bare))
unfolding apply_device validate Edit.is_empty device_array upsert has_id
edits = refl

apply_device-IsDevice_example :
    (one : IsOneDevice lists
      (codes "my-tag")
      (write_device lists (codes "presence") criteria overrides)
      bare
      (or_bare (edit bare)))
    × IsDevice lists
        (codes "presence")
        criteria
        overrides
        one.placed.old
        (write_device lists (codes "presence") criteria overrides one.placed.old)
apply_device-IsDevice_example =
    apply_device-IsDevice crates lists texts (codes "my-tag") (codes "presence") criteria overrides
      bare (or_bare (edit bare)) edits

abbrev enrolled : Document Changes
enrolled = record {
  root = [];
  device = tables (
      ((codes "id", some (text (codes "a"))) ∷ [])
      ∷ ((codes "id", some (text (codes "b"))) ∷ [])
      ∷ []);
}

abbrev left : Document Changes
left = record { root = []; device = tables (((codes "id", some (text (codes "b"))) ∷ []) ∷ []) }

removes : remove_device crates lists texts (codes "a") enrolled ≡ some left
unfolding remove_device device_array has_id str_eq is_usable check_schema resolve resolve_entry
    entry_identity Identity.is_empty find entry_policy validate_policy requested_policy check_seen
    strip_prefix parse_u8 digits
removes = refl

remove_device-IsRemoved_example : IsRemoved crates lists texts (codes "a") enrolled left
remove_device-IsRemoved_example =
    remove_device-IsRemoved crates lists texts (codes "a") enrolled left removes

abbrev attempt : Attempt
attempt = record {
  target = record { parent = codes "/c/"; name = codes "a" };
  missing_text = [];
  mode = 0;
  pid = 11;
  counter = 0;
  directory_made = true;
  locked = true;
  readable_before = true;
  before = λ path. none;
  readable_now = true;
  now = λ path. none;
  calls = record {
    openings = opened 7 ∷ [];
    written = none;
    permissions_set = true;
    synced = true;
    check = true;
    renamed = true;
    directory_synced = true;
    removed = true;
  };
}

abbrev written : Replacement
written =
    replace attempt.target (utf8 (codes "t")) 0x180 11 0
      (checked (config_attempt crates lists texts attempt) missing)

updates : update_config crates lists texts true false edit attempt ≡ replaced written
unfolding update_config update render snapshot apply_device validate Edit.is_empty device_array
    is_usable check_schema resolve resolve_entry entry_identity Identity.is_empty find str_eq
    entry_policy validate_policy requested_policy check_seen strip_prefix parse_u8 digits
updates = refl

success : written.success ≡ true
unfolding replace stage fill snapshot
success = refl

update_config-Saved_example : Saved crates lists texts true edit attempt written
update_config-Saved_example =
    update_config-Saved crates lists texts true false edit attempt written updates success
