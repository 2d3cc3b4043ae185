-- ===== src/Cli/Setup/Parts.antt =====
-- crates/cli/src/setup/lock.rs and binding.rs: how a step of setup ends, and what it leaves: of the
-- lock plugin's place, and of a text that is edited in place.
use omarchy_presence_unlock.Base.{
  ◌≡◌, ◌⊎◌, refl, ap, ◌∙◌, inl, inr, Bool, true, false, Option, none, some, Str, str_eq,
  str_eq_sound, if◌then◌else◌, if_cases, arith,
}

-- What is at the place of the lock plugin: nothing, a directory that the user made, or the clone that
-- setup generated.
pub data Plugin : Type 0 where
  absent foreign generated : Plugin

-- `is_generated`
abbrev pub is_generated : Plugin → Bool
is_generated absent = false
is_generated foreign = false
is_generated generated = true

-- A step on the lock plugin: whether its place can be named, how its commands end, and what they leave
-- if they fail.
pub record LockCall : Type 0 where
  pub named : Bool
  pub ok : Bool
  pub residue : Plugin

-- `lock::install`: `claim_target` refuses the user's own directory, and leaves it.
abbrev pub install_lock : LockCall → Plugin → Plugin × Bool
install_lock c foreign = (foreign, false)
install_lock c absent = if c.ok then (generated, true) else (c.residue, false)
install_lock c generated = if c.ok then (generated, true) else (c.residue, false)

-- `lock::remove`: what is not there, or not generated, is left as it is, and that is a success; of a
-- generated one, `omarchy plugin remove` deletes the directory if it succeeds.
abbrev pub remove_plugin : LockCall → Plugin → Plugin × Bool
remove_plugin c absent = (absent, true)
remove_plugin c foreign = (foreign, true)
remove_plugin c generated = if c.ok then (absent, true) else (c.residue, false)

abbrev pub remove_lock : LockCall → Plugin → Plugin × Bool
remove_lock c p = if c.named then remove_plugin c p else (p, false)

-- How one `update_atomic` of a file ends: before it has read the text, or at the writing, which can
-- fail with the old text in place, or only at the sync of the directory.
pub data Write : Type 0 where
  unread unwritten unsynced written : Write

abbrev pub write : Write → Str → Str → Str × Bool
write unread text out = (text, false)
write unwritten text out = (text, false)
write unsynced text out = (out, false)
write written text out = (out, true)

-- A text that the edit refuses stays; one that it does not change is not written.
abbrev pub write_edit : Write → Str → Option Str → Str × Bool
write_edit w text none = (text, false)
write_edit w text (some out) = if str_eq out text then (text, true) else write w text out

abbrev pub edit_file : (Str → Option Str) → Write → Str → Str × Bool
edit_file edit unread text = (text, false)
edit_file edit unwritten text = write_edit unwritten text (edit text)
edit_file edit unsynced text = write_edit unsynced text (edit text)
edit_file edit written text = write_edit written text (edit text)

-- The text is as it was, or what the edit makes of it.
abbrev pub IsEdited : (Str → Option Str) → Str → Str → Type 0
IsEdited edit was now = (now ≡ was) ⊎ (edit was ≡ some now)

-- What an edit of a file leaves, and what a success of it means.
pub record IsWritten (edit : Str → Option Str) (was : Str) (r : Str × Bool) : Type 0 where
  pub left : IsEdited edit was r.0
  pub success : r.1 ≡ true → edit was ≡ some r.0

unchanged-IsWritten : (edit : Str → Option Str) (text : Str) → IsWritten edit text (text, false)
unchanged-IsWritten edit text = record { left = inl refl; success = λ e. absurd (cc e) }

write-IsWritten :
    (edit : Str → Option Str) (w : Write) (text out : Str)
    → edit text ≡ some out
    → IsWritten edit text (write w text out)
write-IsWritten edit unread text out h = unchanged-IsWritten edit text
write-IsWritten edit unwritten text out h = unchanged-IsWritten edit text
write-IsWritten edit unsynced text out h = record { left = inr h; success = λ e. absurd (cc e) }
write-IsWritten edit written text out h = record { left = inr h; success = λ e. h }

write_edit-IsWritten :
    (edit : Str → Option Str) (w : Write) (text : Str) (o : Option Str)
    → edit text ≡ o
    → IsWritten edit text (write_edit w text o)
write_edit-IsWritten edit w text none h = unchanged-IsWritten edit text
write_edit-IsWritten edit w text (some out) h =
    if_cases (IsWritten edit text) (str_eq out text) _ _
      (λ same. record { left = inl refl; success = λ e. h ∙ ap some (str_eq_sound out text same) })
      (λ differs. write-IsWritten edit w text out h)

pub edit_file-IsWritten :
    (edit : Str → Option Str) (w : Write) (text : Str) → IsWritten edit text (edit_file edit w text)
edit_file-IsWritten edit unread text = unchanged-IsWritten edit text
edit_file-IsWritten edit unwritten text = write_edit-IsWritten edit unwritten text (edit text) refl
edit_file-IsWritten edit unsynced text = write_edit-IsWritten edit unsynced text (edit text) refl
edit_file-IsWritten edit written text = write_edit-IsWritten edit written text (edit text) refl

-- An edit that succeeds leaves what it makes of the text.
pub edit_file_made :
    (edit : Str → Option Str) (w : Write) (text : Str)
    → (edit_file edit w text).1 ≡ true
    → edit text ≡ some (edit_file edit w text).0
edit_file_made edit w text h = (edit_file-IsWritten edit w text).success h

pub remove_lock-absent :
    (c : LockCall) (p : Plugin)
    → p ≡ generated
    → (remove_lock c p).1 ≡ true
    → (remove_lock c p).0 ≡ absent
remove_lock-absent c absent e h = absurd (cc e)
remove_lock-absent c foreign e h = absurd (cc e)
remove_lock-absent c generated e h = ground arith
