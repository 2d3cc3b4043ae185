-- ===== src/Cli/Atomic.antt =====
-- crates/cli/src/atomic.rs: the replacement of a file. The file system is what is at each path; what
-- its calls answer, and what other programs do in between, comes with each run. A path is a text.
pub mod Whole
pub mod Replace
pub mod Update
pub mod Conflict
mod Tests
use omarchy_presence_unlock.Base.{
  ℕ, zero, suc, ◌+◌, ◌≡◌, Bool, true, false, not, List, [], ◌∷◌, ◌++◌, Option, none, some, Str,
  Bytes, codes, str_eq, take, ◌==◌, if◌then◌else◌, ◌||◌,
}
use omarchy_presence_unlock.Numbers.{decimal}

-- A file, with the identity that `dev` and `ino` give it.
pub record File : Type 0 where
  pub inode : ℕ
  pub mode : ℕ
  pub contents : Bytes

abbrev pub Files : Type 0
Files = Str → Option File

abbrev pub put : Files → Str → Option File → Files
put files path file at = if str_eq at path then file else files at

-- The calls that change the file system.
pub data Action : Type 0 where
  -- `create_new`: path, inode, mode
  create : Str → ℕ → ℕ → Action
  -- the bytes that a write appends
  append : Str → Bytes → Action
  set_permissions : Str → ℕ → Action
  rename : Str → Str → Action
  remove : Str → Action

abbrev pub appended : Bytes → Option File → Option File
appended bytes none = none
appended bytes (some file) = some (record file { contents = file.contents ++ bytes })

abbrev pub with_mode : ℕ → Option File → Option File
with_mode mode none = none
with_mode mode (some file) = some (record file { mode = mode })

unfoldable pub act : Files → Action → Files
act files (create path inode mode) =
    put files path (some (record { inode = inode; mode = mode; contents = [] }))
act files (append path bytes) = put files path (appended bytes (files path))
act files (set_permissions path mode) = put files path (with_mode mode (files path))
act files (rename from to) = put (put files to (files from)) from none
act files (remove path) = put files path none

-- The files after the actions, the oldest first.
unfoldable pub act_all : Files → List Action → Files
act_all files [] = files
act_all files (a ∷ actions) = act_all (act files a) actions

-- `format!(".{}.tmp-{}-{}", ...)` beside the target, which is `parent` with its separator and `name`.
pub record Target : Type 0 where
  pub parent : Str
  pub name : Str

abbrev pub path_of : Target → Str
path_of t = t.parent ++ t.name

unfoldable pub temporary_path : Target → ℕ → ℕ → Str
temporary_path t pid counter =
    t.parent
    ++ (codes "." ++ (t.name ++ (codes ".tmp-" ++ (decimal pid ++ (codes "-" ++ decimal counter)))))

-- How one call of `open` with `create_new` ends.
pub data Opening : Type 0 where
  opened : ℕ → Opening
  already_exists open_error : Opening

-- How the calls of one replacement end. `written` is how many bytes were written if the write failed.
pub record Calls : Type 0 where
  pub openings : List Opening
  pub written : Option ℕ
  pub permissions_set : Bool
  pub synced : Bool
  pub check : Bool
  pub renamed : Bool
  pub directory_synced : Bool
  -- whether `remove_file` removes the temporary file on a failure
  pub removed : Bool

-- The candidate that was created: its path and inode, or that none was.
pub data Staged : Type 0 where
  staged : Str → ℕ → Staged
  not_staged : Staged

-- `find_map` over the candidates: at most 128, with the counter's next values.
unfoldable pub stage : Target → ℕ → ℕ → ℕ → List Opening → Staged
stage t pid counter zero openings = not_staged
stage t pid counter (suc attempts) [] = not_staged
stage t pid counter (suc attempts) (opened inode ∷ openings) =
    staged (temporary_path t pid counter) inode
stage t pid counter (suc attempts) (already_exists ∷ openings) =
    stage t pid (counter + 1) attempts openings
stage t pid counter (suc attempts) (open_error ∷ openings) = not_staged

-- What was done, and whether it is reported as done.
pub record Replacement : Type 0 where
  pub actions : List Action
  pub success : Bool

-- A failure removes the temporary file, whatever had been done; what that answers is ignored.
abbrev pub failed : Bool → Str → List Action → Replacement
failed removed temporary actions = record {
  actions = if removed then actions ++ remove temporary ∷ [] else actions;
  success = false;
}

-- The calls behind the open temporary file.
unfoldable pub fill : Target → Bytes → ℕ → Str → Calls → List Action → Replacement
fill t contents mode temporary c done = elim c.written [
  | some n ↦ failed c.removed temporary (done ++ append temporary (take n contents) ∷ [])
  | none ↦
      let written = done ++ append temporary contents ∷ [] in
      let permitted = written ++ set_permissions temporary mode ∷ [] in
      let moved = permitted ++ rename temporary (path_of t) ∷ [] in
      if not c.permissions_set
      then failed c.removed temporary written
      else if not c.synced || not c.check || not c.renamed
      then failed c.removed temporary permitted
      else if not c.directory_synced
      then failed c.removed temporary moved
      else record { actions = moved; success = true }
]

unfoldable pub replace : Target → Bytes → ℕ → ℕ → ℕ → Calls → Replacement
unfolding stage fill
replace t contents mode pid counter c = elim (stage t pid counter 128 c.openings) [
  | not_staged ↦ record { actions = []; success = false }
  | staged temporary inode ↦ fill t contents mode temporary c (create temporary inode mode ∷ [])
]
