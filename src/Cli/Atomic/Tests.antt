-- ===== src/Cli/Atomic/Tests.antt =====
-- Replacements that succeed, and one that meets another writer.
use omarchy_presence_unlock.Base.{
  ◌≡◌, ◌⊎◌, refl, true, false, [], ◌∷◌, Option, none, some, Str, Bytes, codes, utf8, str_eq,
  from_utf8, if◌then◌else◌,
}
use omarchy_presence_unlock.Cli.Atomic.{
  Files, act_all, Target, path_of, opened, already_exists, Calls, stage, Replacement, fill, replace,
}
use omarchy_presence_unlock.Cli.Atomic.Replace.{IsReplaced, replace-IsAtomic}
use omarchy_presence_unlock.Cli.Atomic.Update.{
  Snapshot, present, snapshot, is_unchanged, Attempt, replaced, checked, update,
}
use omarchy_presence_unlock.Cli.Atomic.Conflict.{IsCommitted, update-IsCommitted, update_conflict}

abbrev target : Target
target = record { parent = codes "/c/"; name = codes "a" }

abbrev good : Calls
good = record {
  openings = already_exists ∷ opened 7 ∷ [];
  written = none;
  permissions_set = true;
  synced = true;
  check = true;
  renamed = true;
  directory_synced = true;
  removed = true;
}

abbrev holding : Str → Files
holding text at =
    if str_eq at (path_of target)
    then some (record { inode = 3; mode = 0; contents = utf8 text })
    else none

abbrev words : Bytes
words = b'x' ∷ []

replace-IsAtomic_example :
    (replace target words 0 11 0 good ≡ record { actions = []; success = false })
    ⊎ IsReplaced target words 0 11 0 good (holding (codes "o"))
replace-IsAtomic_example = replace-IsAtomic target words 0 11 0 good (holding (codes "o"))

-- The other writer leaves `text` behind the first snapshot.
abbrev meets : Str → Attempt
meets text = record {
  target = target;
  missing_text = [];
  mode = 0;
  pid = 11;
  counter = 0;
  directory_made = true;
  locked = true;
  readable_before = true;
  before = holding (codes "o");
  readable_now = true;
  now = holding text;
  calls = good;
}

abbrev to_x : Str → Option Str
to_x text = some (codes "x")

abbrev seen : Snapshot
seen = present 3 (codes "o")

abbrev done : Str → Replacement
done text = replace target words 0 11 0 (checked (meets text) seen)

snapshot_before : snapshot true (holding (codes "o") (path_of target)) ≡ some seen
unfolding snapshot from_utf8 utf8 str_eq
snapshot_before = refl

reaches : (text : Str) → update to_x (meets text) ≡ replaced (done text)
unfolding update snapshot from_utf8 utf8 str_eq
reaches text = refl

success : (done (codes "o")).success ≡ true
unfolding replace stage fill snapshot from_utf8 utf8 str_eq
success = refl

update-IsCommitted_example : IsCommitted to_x (meets (codes "o")) (done (codes "o"))
update-IsCommitted_example =
    update-IsCommitted to_x (meets (codes "o")) (done (codes "o")) (reaches (codes "o")) success

differs : is_unchanged (snapshot true (holding (codes "p") (path_of target))) seen ≡ false
unfolding snapshot from_utf8 utf8 str_eq
differs = refl

update_conflict_example :
    ((done (codes "p")).success ≡ false)
    × (act_all (holding (codes "p")) (done (codes "p")).actions (path_of target)
        ≡ holding (codes "p") (path_of target))
update_conflict_example =
    update_conflict to_x (meets (codes "p")) (done (codes "p")) seen (holding (codes "p"))
      (reaches (codes "p")) snapshot_before differs
