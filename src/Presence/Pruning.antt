-- ===== src/Presence/Pruning.antt =====
-- The pruned vector of `Eligibility` decides as the whole log does.
use omarchy_presence_unlock.Base.{
  ℕ, ◌≤◌, ◌≡◌, refl, List, [], ◌∷◌, ◌++◌, Option, none, some, retain, arith,
}
use omarchy_presence_unlock.Base.Int.{ℤ}
use omarchy_presence_unlock.Presence.{
  Policy, Observation, qualify, revoke, ignore, Eligibility, within, count_sample, observe, check,
}
use omarchy_presence_unlock.Presence.Log.{
  Log, run, newest, IsOrdered, counted, locked_at, tally, judge,
}

abbrev newest_counted : List ℕ → Option ℕ
newest_counted [] = none
newest_counted (last ∷ older) = some last

-- Dropping what is too old at `now` loses nothing for a later tally.
tally-retain :
    (w now t : ℕ) (xs : List ℕ) → now ≤ t → tally w t (retain (within w now) xs) ≡ tally w t xs
tally-retain w now t [] h = refl
tally-retain w now t (x ∷ xs) h = ground (arith, tally-retain w now t xs h)

tally-snoc : (w t x : ℕ) (xs : List ℕ) → tally w t (xs ++ x ∷ []) ≡ tally w t (x ∷ xs)
tally-snoc w t x [] = refl
tally-snoc w t x (y ∷ xs) = ground (arith, tally-snoc w t x xs)

record Agrees (policy : Policy) (log : Log) (e : Eligibility) : Type 0 where
  last : e.last_qualifying_ms ≡ newest_counted (counted policy log)
  lock : e.last_revocation_ms ≡ locked_at log
  samples :
      (t : ℕ)
      → newest log ≤ t
      → tally policy.sample_window_ms t e.qualifying_samples
        ≡ tally policy.sample_window_ms t (counted policy log)

observe-Agrees :
    (policy : Policy) (log : Log) (now : ℕ) (rssi : ℤ) (o : Observation) (e : Eligibility)
    → newest log ≤ now
    → Agrees policy log e
    → Agrees policy
        (record { now_ms = now; rssi = rssi; observation = o } ∷ log)
        (observe e now rssi o policy)
unfolding observe count_sample counted locked_at
observe-Agrees policy log now rssi revoke e h a = record {
  last = refl;
  lock = refl;
  samples = λ t le. refl;
}
observe-Agrees policy log now rssi ignore e h a = record {
  last = a.last;
  lock = a.lock;
  samples = λ t le. a.samples t (omega arith);
}
observe-Agrees policy log now rssi qualify e h a = record {
  last = ground arith;
  lock = ground arith;
  samples = λ t le. ground (
    arith,
    a.samples t (omega arith),
    tally-snoc policy.sample_window_ms t now
        (retain (within policy.sample_window_ms now) e.qualifying_samples),
    tally-retain policy.sample_window_ms now t e.qualifying_samples le,
  );
}

run-Agrees : (policy : Policy) (log : Log) → IsOrdered log → Agrees policy log (run policy log)
unfolding run
run-Agrees policy [] h =
    unfold counted locked_at in record { last = refl; lock = refl; samples = λ t le. refl }
run-Agrees policy (s ∷ log) (le, h) =
    observe-Agrees policy log s.now_ms s.rssi s.observation (run policy log) le
      (run-Agrees policy log h)

-- For every log whose clock never goes back and every later instant, `check` on the pruned
-- evidence is the decision by the whole log: no pruning, reset or early return of `observe` changes
-- a decision.
pub check-run :
    (policy : Policy) (log : Log) (now : ℕ)
    → IsOrdered log
    → newest log ≤ now
    → check (run policy log) now policy ≡ judge policy log now
unfolding check judge
check-run policy log now ordered le =
    let a = run-Agrees policy log ordered in ground (arith, a.samples now le, a.last, a.lock)
