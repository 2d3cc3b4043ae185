-- ===== src/Cli/Gesture/Tests.antt =====
-- The gesture at one press that is kept.
use omarchy_presence_unlock.Base.{◌≡◌, refl, true, false, List, [], ◌∷◌}
use omarchy_presence_unlock.Cli.Gesture.{
  Stock, Moment, Event, is_waiting, hold, release, triggered, completed, loaded, step, run,
  hold_presence, trigger, complete, release_presence,
}
use omarchy_presence_unlock.Cli.Gesture.Earned.{Unlocks, Tried, step-Tried}

abbrev locked : Stock
locked = record { lock_requested = true; secure = true; authenticating_password = false }

abbrev at : Event → Moment
at event = record { stock = locked; event = event }

-- Newest first: the policy, the press, the expiry, the release.
abbrev history : List Moment
history = at release ∷ at (triggered false true) ∷ at (hold false) ∷ at loaded ∷ []

success-Unlocks : Unlocks (run history) (at (completed true))
unfolding step run hold_presence trigger complete release_presence
success-Unlocks = refl

step-Tried_example : (completed true ≡ completed true) × (is_waiting locked ≡ true) × Tried history
step-Tried_example = step-Tried (at (completed true)) history success-Unlocks
