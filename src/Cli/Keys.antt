-- ===== src/Cli/Keys.antt =====
-- crates/cli/src/keys.rs: the keys that end a long operation. What each poll and read brings is an
-- argument; the end of the list is the end of the time. The terminal's settings are put back on every
-- way out, which is not modelled.
pub mod Split
mod Tests
use omarchy_presence_unlock.Base.{
  ℕ, ◌-◌, Bool, true, false, not, ◌||◌, List, [], ◌∷◌, ◌++◌, Bytes, take, ◌==◌, if◌then◌else◌,
}

abbrev pub esc : ℕ
esc = 0x1b

abbrev pub ctrl_c : ℕ
ctrl_c = 0x03

pub data Verdict : Type 0 where
  cancel quit idle undecided : Verdict

abbrev pub begins_sequence : ℕ → Bool
begins_sequence b = b == b'[' || b == b'O'

-- The loop of `verdict`; the byte behind an Esc is looked at, and then judged in its turn.
unfoldable pub verdict : Bytes → Verdict
verdict [] = idle
verdict (a ∷ []) = if a == ctrl_c then quit else if a == esc then undecided else idle
verdict (a ∷ b ∷ bytes) =
    let rest = verdict (b ∷ bytes) in
    if a == ctrl_c
    then quit
    else if a == esc
    then (if begins_sequence b then rest else cancel)
    else rest

pub data Press : Type 0 where
  idle pressed cancel quit : Press

-- What a round of waiting brings: nothing in its time, a signal, an error, a hangup, or bytes.
pub data KeyEvent : Type 0 where
  nothing interrupted poll_error hangup : KeyEvent
  bytes : Bytes → KeyEvent

abbrev pub buffer_length : ℕ
buffer_length = 32

-- Nothing came: a held Esc was pressed on its own.
abbrev pub alone : Bool → Press
alone held = if held then Press.cancel else Press.idle

-- What was held back, before the bytes of the next read.
abbrev pub carry : Bool → Bytes
carry true = esc ∷ []
carry false = []

abbrev pub room : Bool → ℕ
room true = buffer_length - 1
room false = buffer_length

abbrev pub judge : Verdict → Press → Press
judge Verdict.cancel later = Press.cancel
judge Verdict.quit later = Press.quit
judge Verdict.idle later = pressed
judge undecided later = later

abbrev pub is_nonempty : Bytes → Bool
is_nonempty [] = false
is_nonempty (b ∷ more) = true

-- The loop of `wait_for_press`, with whether an Esc is held back.
unfoldable pub wait : Bool → List KeyEvent → Press
unfolding verdict
wait held [] = alone held
wait held (nothing ∷ events) = alone held
wait held (interrupted ∷ events) = wait held events
wait held (poll_error ∷ events) = Press.idle
wait held (hangup ∷ events) = Press.idle
wait held (bytes chunk ∷ events) =
    let read = take (room held) chunk in
    let later = wait true events in
    if is_nonempty read then judge (verdict (carry held ++ read)) later else Press.idle

unfoldable pub wait_for_press : Bool → Bool → List KeyEvent → Press
unfolding wait
wait_for_press is_terminal is_raw events =
    if not is_terminal || not is_raw then Press.idle else wait false events
