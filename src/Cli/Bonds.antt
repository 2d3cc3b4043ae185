-- ===== src/Cli/Bonds.antt =====
-- crates/cli/src/pairing.rs: what is printed of the bond records of an adapter. Which directories there
-- are and what their files hold are arguments.
pub mod Secret
mod Tests
use omarchy_presence_unlock.Base.{
  ℕ, Bool, true, false, not, ◌&&◌, ◌||◌, List, [], ◌∷◌, ◌++◌, map, Option, none, some, Str, Bytes,
  codes, str_eq, length, split, trim, all, utf8, if◌then◌else◌, ◌==◌,
}
use omarchy_presence_unlock.Irk.BondFile.{
  BondResult, ok, err, BluezIrkError, missing, malformed, section_name, split_once,
  parse_bluez_info_irk,
}
use omarchy_presence_unlock.Cli.Devices.{is_hex_digit}
use omarchy_presence_unlock.Cli.Setup.Binding.{lines_from}

pub record BondSection : Type 0 where
  pub name : Str
  pub entries : List (Str × Str)

-- `sections.last_mut()`, with an entry pushed: none if there is no section yet.
unfoldable pub push_entry : Str × Str → List BondSection → List BondSection
push_entry entry [] = []
push_entry entry (s ∷ []) = record s { entries = s.entries ++ entry ∷ [] } ∷ []
push_entry entry (s ∷ t ∷ sections) = s ∷ push_entry entry (t ∷ sections)

abbrev pub trimmed_entry : Str × Str → Str × Str
trimmed_entry (key, value) = (trim key, trim value)

abbrev pub after_entry : Option (Str × Str) → List BondSection → List BondSection
after_entry none sections = sections
after_entry (some entry) sections = push_entry (trimmed_entry entry) sections

abbrev pub after_line : Option Str → Str → List BondSection → List BondSection
after_line (some name) line sections = sections ++ record { name = name; entries = [] } ∷ []
after_line none line sections = after_entry (split_once b'=' line) sections

-- The loop over the lines, with the sections so far.
unfoldable pub sections_from : List BondSection → List Str → List BondSection
unfolding section_name split_once push_entry trim
sections_from sections [] = sections
sections_from sections (line ∷ lines) =
    sections_from (after_line (section_name (trim line)) (trim line) sections) lines

unfoldable pub bond_sections : Str → List BondSection
unfolding sections_from lines_from
bond_sections info = sections_from [] (lines_from [] info)

unfoldable pub ends_with : Str → Str → Bool
ends_with suffix [] = str_eq [] suffix
ends_with suffix (c ∷ s) = str_eq (c ∷ s) suffix || ends_with suffix s

unfoldable pub is_secret : Str → Str → Bool
unfolding ends_with
is_secret section key = str_eq key (codes "Key") && ends_with (codes "Key") section

-- A printed entry: its value, or only how many bytes the value has.
pub data Printed : Type 0 where
  shown : Str → Str → Printed
  redacted : Str → ℕ → Printed

-- What is said of the key: the command that enrolls it, that there is one, or why there is none.
pub data Verdict : Type 0 where
  command : Bytes → Verdict
  distributed : Verdict
  no_key bad_key unreadable : Verdict

pub record Report : Type 0 where
  pub identity : Str
  pub sections : List (Str × List Printed)
  pub verdict : Verdict

abbrev pub print_entry : Bool → Str → Str × Str → Printed
print_entry show_keys section (key, value) =
    if is_secret section key && not show_keys
    then redacted key (length (utf8 value))
    else shown key value

abbrev pub print_section : Bool → BondSection → Str × List Printed
print_section show_keys s = (s.name, map (print_entry show_keys s.name) s.entries)

abbrev pub key_verdict : Bool → BondResult → Verdict
key_verdict show_keys (ok irk) = if show_keys then command irk else distributed
key_verdict show_keys (err missing) = no_key
key_verdict show_keys (err malformed) = bad_key

-- One bond record, or that it cannot be read.
unfoldable pub bond_report : Bool → Str → Option Str → Report
unfolding bond_sections is_secret parse_bluez_info_irk
bond_report show_keys identity none = record {
  identity = identity;
  sections = [];
  verdict = unreadable;
}
bond_report show_keys identity (some record_text) = record {
  identity = identity;
  sections = map (print_section show_keys) (bond_sections record_text);
  verdict = key_verdict show_keys (parse_bluez_info_irk record_text);
}

-- `is_address_dir`
unfoldable pub is_address_dir : Str → Bool
is_address_dir name =
    length (utf8 name) == 17
    && length (split b':' name) == 6
    && all (λ c. is_hex_digit c || c == b':') name

-- The reports of `bond_info`: an error if there is no record, one report for each record else.
unfoldable pub bond_info : Bool → List (Str × Option Str) → Option (List Report)
unfolding bond_report
bond_info show_keys [] = none
bond_info show_keys (record_of ∷ records) =
    some (map (λ (r : Str × Option Str). bond_report show_keys r.0 r.1) (record_of ∷ records))
