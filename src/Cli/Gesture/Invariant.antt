-- ===== src/Cli/Gesture/Invariant.antt =====
-- What holds of the gesture between two events.
use omarchy_presence_unlock.Base.{◌≡◌, ◌⊎◌, true, false, ◌&&◌, List, [], ◌∷◌, arith}
use omarchy_presence_unlock.Cli.Gesture.{
  Gesture, Moment, initial, holding_text, checking_text, retry_text, step, run,
}

-- The timer and an attempt never run together, and while one of them does, the screen says so.
pub record Inv (g : Gesture) : Type 0 where
  pub exclusive : (g.holding && g.authenticating) ≡ false
  pub says_holding : g.holding ≡ true → (g.message ≡ holding_text) ⊎ (g.message ≡ retry_text)
  pub says_checking : g.authenticating ≡ true → g.message ≡ checking_text

initial-Inv : Inv initial
initial-Inv = ground arith

pub step-Inv : (g : Gesture) (m : Moment) → Inv g → Inv (step g m).gesture
unfolding step
step-Inv g m h = ground arith

-- Whatever happens on the lock screen, in whatever order, the timer and an attempt at PAM never run
-- together; during the attempt the hint says `checking`, and while the timer runs it says `holding`,
-- or `retry` after the error of an earlier attempt.
pub run-Inv : (ms : List Moment) → Inv (run ms)
unfolding run
run-Inv [] = initial-Inv
run-Inv (m ∷ ms) = step-Inv (run ms) m (run-Inv ms)
