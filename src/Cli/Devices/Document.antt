-- ===== src/Cli/Devices/Document.antt =====
-- The document that `toml_edit` edits, which is another crate's: its tables, and what it makes of a
-- text. The `device` key is kept apart from the other keys of the document.
use omarchy_presence_unlock.Base.{
  ℕ, ◌≡◌, List, Option, none, some, Str, Bytes, str_eq, if◌then◌else◌,
}
use omarchy_presence_unlock.Base.Int.{ℤ}
use omarchy_presence_unlock.Config.{ConfigFile}

-- What a key can hold.
pub data Value : Type 0 where
  text : Str → Value
  integer : ℤ → Value
  other : Value

-- Tables, with the laws of a map: a key that is set or removed has its new value and the other keys
-- have theirs.
pub record Tables : Type 1 where
  pub Table : Type 0
  pub empty : Table
  pub get : Table → Str → Option Value
  pub set : Table → Str → Value → Table
  pub remove : Table → Str → Table
  pub get_empty : (key : Str) → get empty key ≡ none
  pub get_set :
      (table : Table) (key : Str) (value : Value) (at : Str)
      → get (set table key value) at ≡ (if str_eq key at then some value else get table at)
  pub get_remove :
      (table : Table) (key at : Str)
      → get (remove table key) at ≡ (if str_eq key at then none else get table at)

-- The item at `device`: none, an inline array with its length, tables, or anything else.
pub data Item (T : Type 0) : Type 0 where
  absent : Item T
  inline : ℕ → Item T
  tables : List T → Item T
  another : Item T

pub record Document (T : Type 0) : Type 0 where
  pub root : T
  pub device : Item T

-- The texts of documents: `parse` and `to_string` of `toml_edit`, `toml::from_str`, and base64.
pub record Texts (T : Type 0) : Type 0 where
  pub parse : Str → Option (Document T)
  pub print : Document T → Str
  pub read : Str → Option ConfigFile
  pub encode64 : Bytes → Str
