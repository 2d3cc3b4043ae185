-- ===== src/Cli/Atomic/Update.antt =====
-- `update_atomic`: an edit of a file that other programs may edit too. The files at the first snapshot
-- and those at the second, behind the rendering, are both arguments.
use omarchy_presence_unlock.Base.{
  ℕ, Bool, true, false, not, ◌&&◌, Option, none, some, Str, str_eq, utf8, from_utf8, ◌==◌,
  if◌then◌else◌,
}
use omarchy_presence_unlock.Cli.Atomic.{File, Files, Target, path_of, Calls, Replacement, replace}

pub data Snapshot : Type 0 where
  missing : Snapshot
  present : ℕ → Str → Snapshot

abbrev pub present_text : ℕ → Option Str → Option Snapshot
present_text inode none = none
present_text inode (some text) = some (present inode text)

-- `snapshot`, of a path that can be opened and read or not.
unfoldable pub snapshot : Bool → Option File → Option Snapshot
snapshot false file = none
snapshot true none = some missing
snapshot true (some file) = present_text file.inode (from_utf8 file.contents)

abbrev pub same_snapshot : Snapshot → Snapshot → Bool
same_snapshot missing missing = true
same_snapshot missing (present inode text) = false
same_snapshot (present inode text) missing = false
same_snapshot (present inode text) (present inode' text') = inode == inode' && str_eq text text'

-- The check of the replacement: the second snapshot is the first one again.
abbrev pub is_unchanged : Option Snapshot → Snapshot → Bool
is_unchanged none before = false
is_unchanged (some now) before = same_snapshot now before

abbrev pub source_of : Str → Snapshot → Str
source_of missing_text missing = missing_text
source_of missing_text (present inode text) = text

-- One call: its arguments, and what it meets.
pub record Attempt : Type 0 where
  pub target : Target
  pub missing_text : Str
  pub mode : ℕ
  pub pid : ℕ
  pub counter : ℕ
  pub directory_made : Bool
  pub locked : Bool
  pub readable_before : Bool
  pub before : Files
  pub readable_now : Bool
  pub now : Files
  pub calls : Calls

pub data Updated : Type 0 where
  update_failed unchanged : Updated
  replaced : Replacement → Updated

-- The calls of the replacement, with its check.
abbrev pub checked : Attempt → Snapshot → Calls
checked a s = record a.calls {
  check = is_unchanged (snapshot a.readable_now (a.now (path_of a.target))) s;
}

abbrev pub write_rendered : Attempt → Snapshot → Option Str → Updated
write_rendered a s none = update_failed
write_rendered a s (some rendered) =
    if str_eq rendered (source_of a.missing_text s)
    then unchanged
    else replaced (replace a.target (utf8 rendered) a.mode a.pid a.counter (checked a s))

abbrev pub render_snapshot : (Str → Option Str) → Attempt → Option Snapshot → Updated
render_snapshot render a none = update_failed
render_snapshot render a (some s) = write_rendered a s (render (source_of a.missing_text s))

unfoldable pub update : (Str → Option Str) → Attempt → Updated
update render a =
    if not (a.directory_made && a.locked)
    then update_failed
    else render_snapshot render a (snapshot a.readable_before (a.before (path_of a.target)))
