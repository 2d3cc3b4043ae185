-- ===== src/Cli/Gesture.antt =====
-- crates/cli/src/setup/lock.rs: the presence block that setup writes into the lock screen. What the
-- stock lock says of itself, whether PAM is active and whether it starts are not this code's, and
-- come with each event; so does the expiry of the timer, which QML sends only while it runs.
pub mod Invariant
pub mod Earned
mod Tests
use omarchy_presence_unlock.Base.{
  Bool, true, false, not, ◌&&◌, ◌||◌, List, [], ◌∷◌, ◌++◌, if◌then◌else◌,
}

-- `lockRequested`, `sessionLock.secure` and `authenticatingPassword` of the stock lock.
pub record Stock : Type 0 where
  pub lock_requested : Bool
  pub secure : Bool
  pub authenticating_password : Bool

pub data Message : Type 0 where
  idle_text holding_text checking_text retry_text cancelled_text : Message

-- The properties of the block; `holding` is `presenceHoldTimer.running`.
pub record Gesture : Type 0 where
  pub message : Message
  pub authenticating : Bool
  pub configured : Bool
  pub holding : Bool

abbrev pub initial : Gesture
initial = record {
  message = idle_text;
  authenticating = false;
  configured = false;
  holding = false;
}

-- What the block asks of PAM and of the stock lock.
pub data Effect : Type 0 where
  abort_pam start_pam finish_unlock wake : Effect

pub data Event : Type 0 where
  -- `hold()`, with `presencePam.active`
  hold : Bool → Event
  -- `release()`
  release : Event
  -- `onTriggered`, with `presencePam.active` and with what `presencePam.start()` returns
  triggered : Bool → Bool → Event
  -- `onCompleted`, with whether the result is a success
  completed : Bool → Event
  -- `onError`
  pam_error : Event
  -- the stock functions that the block is patched into, with `presencePam.active`
  reset_authentication : Bool → Event
  submit_password : Bool → Bool → Event
  -- the policy file
  loaded : Event
  load_failed : Bool → Event

pub record Moment : Type 0 where
  pub stock : Stock
  pub event : Event

pub record Outcome : Type 0 where
  pub gesture : Gesture
  pub effects : List Effect

abbrev pub silent : Gesture → Outcome
silent g = record { gesture = g; effects = [] }

-- Locked, secure, and no password in flight.
abbrev pub is_waiting : Stock → Bool
is_waiting s = s.lock_requested && s.secure && not s.authenticating_password

unfoldable pub cancel_presence : Bool → Gesture → Outcome
cancel_presence active g = record {
  gesture = record g { holding = false; authenticating = false; message = idle_text };
  effects = if active then abort_pam ∷ [] else [];
}

unfoldable pub hold_presence : Stock → Bool → Gesture → Outcome
hold_presence s active g =
    if not s.lock_requested || not s.secure
    then silent g
    else if s.authenticating_password || g.authenticating || active || g.holding
    then silent g
    else if not g.configured
    then silent (record g { message = retry_text })
    else record {
      gesture = record g { message = holding_text; holding = true };
      effects = wake ∷ [];
    }

unfoldable pub release_presence : Gesture → Outcome
release_presence g =
    if g.holding then silent (record g { holding = false; message = cancelled_text }) else silent g

-- `onTriggered` of the timer, which is one-shot: it no longer runs.
unfoldable pub trigger : Stock → Bool → Bool → Gesture → Outcome
unfolding cancel_presence
trigger s active started g =
    if not s.lock_requested || not s.secure || s.authenticating_password
    then cancel_presence active (record g { holding = false })
    else record {
      gesture =
          if started
          then record g { holding = false; message = checking_text; authenticating = true }
          else record g { holding = false; message = retry_text; authenticating = false };
      effects = start_pam ∷ [];
    }

unfoldable pub complete : Stock → Bool → Gesture → Outcome
complete s success g =
    if not g.authenticating
    then silent g
    else if not s.lock_requested || not s.secure || s.authenticating_password
    then silent (record g { authenticating = false })
    else if success
    then record { gesture = record g { authenticating = false }; effects = finish_unlock ∷ [] }
    else silent (record g { authenticating = false; message = retry_text })

unfoldable pub fail : Stock → Gesture → Outcome
fail s g = silent (record g {
  authenticating = false;
  message = if s.lock_requested then retry_text else g.message;
})

-- The submission is cancelled before the password is checked, behind the stock function's guard:
-- the second argument says whether the password is empty.
unfoldable pub submit : Stock → Bool → Bool → Gesture → Outcome
submit s active empty g =
    if not s.lock_requested || s.authenticating_password || empty
    then silent g
    else cancel_presence active g

unfoldable pub unload : Bool → Gesture → Outcome
unfolding cancel_presence
unload active g = cancel_presence active (record g { configured = false })

unfoldable pub step : Gesture → Moment → Outcome
unfolding cancel_presence hold_presence release_presence trigger complete fail submit unload
step g m = elim m.event [
  | hold active ↦ hold_presence m.stock active g
  | release ↦ release_presence g
  | triggered active started ↦ if g.holding then trigger m.stock active started g else silent g
  | completed success ↦ complete m.stock success g
  | pam_error ↦ fail m.stock g
  | reset_authentication active ↦ cancel_presence active g
  | submit_password active empty ↦ submit m.stock active empty g
  | loaded ↦ silent (record g { configured = true })
  | load_failed active ↦ unload active g
]

-- The gesture after the moments, newest first.
unfoldable pub run : List Moment → Gesture
unfolding step
run [] = initial
run (m ∷ ms) = (step (run ms) m).gesture
