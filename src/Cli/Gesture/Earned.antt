-- ===== src/Cli/Gesture/Earned.antt =====
-- What an unlock rests on: a hold that was admitted, kept and then tried.
use omarchy_presence_unlock.Base.{
  ◌≡◌, ◌⊎◌, refl, ap, Bool, true, false, ◌||◌, not, List, [], ◌∷◌, ◌++◌, All, arith, inl, inr,
}
use omarchy_presence_unlock.Cli.Gesture.{
  Stock, Gesture, Moment, Event, Effect, is_waiting, hold, release, triggered, completed, pam_error,
  reset_authentication, submit_password, loaded, load_failed, finish_unlock, step, run,
}

-- Between the press and the expiry of the timer: no release, and nothing that cancels.
abbrev keeps_hold : Stock → Event → Bool
keeps_hold s (hold active) = true
keeps_hold s release = false
keeps_hold s (triggered active started) = false
keeps_hold s (completed success) = true
keeps_hold s pam_error = true
keeps_hold s (reset_authentication active) = false
keeps_hold s (submit_password active empty) =
    not s.lock_requested || s.authenticating_password || empty
keeps_hold s loaded = true
keeps_hold s (load_failed active) = false

-- Between the start of the attempt and its result: no earlier result, and nothing that cancels. The
-- key may be released.
abbrev keeps_attempt : Stock → Event → Bool
keeps_attempt s (hold active) = true
keeps_attempt s release = true
keeps_attempt s (triggered active started) = true
keeps_attempt s (completed success) = false
keeps_attempt s pam_error = false
keeps_attempt s (reset_authentication active) = false
keeps_attempt s (submit_password active empty) =
    not s.lock_requested || s.authenticating_password || empty
keeps_attempt s loaded = true
keeps_attempt s (load_failed active) = false

abbrev pub KeepsHold : Moment → Type 0
KeepsHold m = keeps_hold m.stock m.event ≡ true

abbrev pub KeepsAttempt : Moment → Type 0
KeepsAttempt m = keeps_attempt m.stock m.event ≡ true

abbrev is_press : Event → Bool
is_press (hold active) = not active
is_press other = false

-- The press of the key in a lock that waits, while PAM is idle.
abbrev pub IsPress : Moment → Type 0
IsPress m = (is_press m.event ≡ true) × (is_waiting m.stock ≡ true)

abbrev is_start : Event → Bool
is_start (triggered active started) = started
is_start other = false

-- The expiry of the timer in a lock that waits, with PAM started.
abbrev pub IsStart : Moment → Type 0
IsStart m = (is_start m.event ≡ true) × (is_waiting m.stock ≡ true)

-- The key is held: it was pressed with the policy in place, and nothing ended the hold since.
pub record Held (ms : List Moment) : Type 0 where
  pub since : List Moment
  pub press : Moment
  pub before : List Moment
  pub history : ms ≡ since ++ press ∷ before
  pub kept : All KeepsHold since
  pub pressed : IsPress press
  pub allowed : (run before).configured ≡ true

-- An attempt is under way: a held key let the timer expire, and nothing ended the attempt since.
pub record Tried (ms : List Moment) : Type 0 where
  pub since : List Moment
  pub start : Moment
  pub before : List Moment
  pub history : ms ≡ since ++ start ∷ before
  pub kept : All KeepsAttempt since
  pub started : IsStart start
  pub held : Held before

grow-Held : (m : Moment) (ms : List Moment) → KeepsHold m → Held ms → Held (m ∷ ms)
grow-Held m ms keeps h = record {
  since = m ∷ h.since;
  press = h.press;
  before = h.before;
  history = ap (◌∷◌ m) h.history;
  kept = (keeps, h.kept);
  pressed = h.pressed;
  allowed = h.allowed;
}

grow-Tried : (m : Moment) (ms : List Moment) → KeepsAttempt m → Tried ms → Tried (m ∷ ms)
grow-Tried m ms keeps h = record {
  since = m ∷ h.since;
  start = h.start;
  before = h.before;
  history = ap (◌∷◌ m) h.history;
  kept = (keeps, h.kept);
  started = h.started;
  held = h.held;
}

-- A step holds the key afterwards only if it goes on holding it, or presses it.
holding_cases :
    (g : Gesture) (m : Moment)
    → (step g m).gesture.holding ≡ true
    → ((g.holding ≡ true) × KeepsHold m) ⊎ (IsPress m × (g.configured ≡ true))
unfolding step
holding_cases g m h = ground arith

attempt_cases :
    (g : Gesture) (m : Moment)
    → (step g m).gesture.authenticating ≡ true
    → ((g.authenticating ≡ true) × KeepsAttempt m) ⊎ (IsStart m × (g.holding ≡ true))
unfolding step
attempt_cases g m h = ground arith

run-Held : (ms : List Moment) → (run ms).holding ≡ true → Held ms
unfolding run
run-Held [] h = absurd (cc h)
run-Held (m ∷ ms) h = elim (holding_cases (run ms) m h) [
  | inl (held, keeps) ↦ grow-Held m ms keeps (run-Held ms held)
  | inr (pressed, configured) ↦ record {
    since = [];
    press = m;
    before = ms;
    history = refl;
    kept = tt;
    pressed = pressed;
    allowed = configured;
  }
]

run-Tried : (ms : List Moment) → (run ms).authenticating ≡ true → Tried ms
unfolding run
run-Tried [] h = absurd (cc h)
run-Tried (m ∷ ms) h = elim (attempt_cases (run ms) m h) [
  | inl (trying, keeps) ↦ grow-Tried m ms keeps (run-Tried ms trying)
  | inr (started, holding) ↦ record {
    since = [];
    start = m;
    before = ms;
    history = refl;
    kept = tt;
    started = started;
    held = run-Held ms holding;
  }
]

abbrev is_unlock : Effect → Bool
is_unlock finish_unlock = true
is_unlock other = false

-- The step unlocks.
abbrev pub Unlocks : Gesture → Moment → Type 0
Unlocks g m = (step g m).effects ≡ finish_unlock ∷ []

unlock_cases :
    (g : Gesture) (m : Moment)
    → Unlocks g m
    → (m.event ≡ completed true) × (is_waiting m.stock ≡ true) × (g.authenticating ≡ true)
unfolding step
unlock_cases g m h = ground arith

-- The presence block unlocks the screen only at a success of PAM, in a lock that still waits and has no
-- password in flight, of an attempt that no event ended since it started; and the attempt started at
-- the expiry of the timer in a lock that waited, after the key was pressed with the policy in place and
-- not released, nor the hold cancelled, until the expiry.
pub step-Tried :
    (m : Moment) (ms : List Moment)
    → Unlocks (run ms) m
    → (m.event ≡ completed true) × (is_waiting m.stock ≡ true) × Tried ms
step-Tried m ms h =
    let (success, waiting, trying) = unlock_cases (run ms) m h in
    (success, waiting, run-Tried ms trying)
