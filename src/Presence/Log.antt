-- ===== src/Presence/Log.antt =====
-- What a device's evidence means, independently of how `Eligibility` stores it: the log of all
-- its matched advertisements, newest first, and what is counted of it when nothing is pruned.
use omarchy_presence_unlock.Base.{
  ℕ, ◌-◌, ◌≤◌, Bool, true, not, List, [], ◌∷◌, Option, none, some, length, retain, ltb, leb,
  is_some_and, if◌then◌else◌,
}
use omarchy_presence_unlock.Base.Int.{ℤ, ltb_ℤ}
use omarchy_presence_unlock.Wire.{
  deny_no_device, deny_stale, deny_insufficient_samples, deny_device_locked,
}
use omarchy_presence_unlock.Presence.{
  Policy, Decision, allow, deny, Observation, qualify, revoke, ignore, Eligibility,
  default_eligibility, min_sample_spacing_ms, within, observe,
}

pub record Sighting : Type 0 where
  pub now_ms : ℕ
  pub rssi : ℤ
  pub observation : Observation

abbrev pub Log : Type 0
Log = List Sighting

-- The evidence after the log, its oldest sighting observed first.
unfoldable pub run : Policy → Log → Eligibility
run policy [] = default_eligibility
run policy (s ∷ log) = observe (run policy log) s.now_ms s.rssi s.observation policy

abbrev pub newest : Log → ℕ
newest [] = 0
newest (s ∷ log) = s.now_ms

-- The clock of the log never goes back.
abbrev pub IsOrdered : Log → Type 0
IsOrdered [] = Unit
IsOrdered (s ∷ log) = (newest log ≤ s.now_ms) × IsOrdered log

abbrev pub is_strong : Policy → Sighting → Bool
is_strong policy s = not (ltb_ℤ s.rssi policy.threshold_dbm)

-- The sample is not the duplicate delivery of the last counted one.
abbrev pub is_spaced : ℕ → List ℕ → Bool
is_spaced now [] = true
is_spaced now (last ∷ older) = leb min_sample_spacing_ms (now - last)

abbrev pub note : Policy → Sighting → Observation → List ℕ → List ℕ
note policy s revoke older = []
note policy s ignore older = older
note policy s qualify older =
    if is_strong policy s
    then (if is_spaced s.now_ms older then s.now_ms ∷ older else older)
    else older

-- The instants that count, newest first, with none ever dropped for its age.
unfoldable pub counted : Policy → Log → List ℕ
counted policy [] = []
counted policy (s ∷ log) = note policy s s.observation (counted policy log)

abbrev pub lock_after : Sighting → Observation → Option ℕ → Option ℕ
lock_after s revoke earlier = some s.now_ms
lock_after s ignore earlier = earlier
lock_after s qualify earlier = none

-- The instant of the newest statement, if that was a revocation.
unfoldable pub locked_at : Log → Option ℕ
locked_at [] = none
locked_at (s ∷ log) = lock_after s s.observation (locked_at log)

-- How many samples are still in the window.
abbrev pub tally : ℕ → ℕ → List ℕ → ℕ
tally window now samples = length (retain (within window now) samples)

-- The decision by the whole log.
unfoldable pub judge : Policy → Log → ℕ → Decision
judge policy log now = elim (counted policy log) [
  | [] ↦
      if is_some_and (locked_at log) (λ last. leb (now - last) policy.freshness_ms)
      then deny deny_device_locked
      else deny deny_no_device
  | last ∷ older ↦
      if ltb policy.freshness_ms (now - last)
      then deny deny_stale
      else if ltb (tally policy.sample_window_ms now (last ∷ older)) policy.minimum_samples
      then deny deny_insufficient_samples
      else allow
]
