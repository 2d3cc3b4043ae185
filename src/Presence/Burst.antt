-- ===== src/Presence/Burst.antt =====
-- Completeness of the evidence: a burst of good advertisements is enough.
use omarchy_presence_unlock.Base.{
  ℕ, ◌+◌, ◌≤◌, ◌≡◌, refl, ◌∙◌, List, [], ◌∷◌, ◌++◌, true, arith, All, All-map, length, map,
}
use omarchy_presence_unlock.Base.Int.{◌≤ℤ◌}
use omarchy_presence_unlock.Presence.{
  Policy, allow, Observation, qualify, revoke, ignore, min_sample_spacing_ms, check,
}
use omarchy_presence_unlock.Presence.Log.{
  Sighting, Log, run, newest, IsOrdered, is_strong, is_spaced, note, counted, tally, judge,
}
use omarchy_presence_unlock.Presence.Pruning.{check-run}

-- The sighting comes at least the minimal spacing after the newest one of the log, if it has one.
abbrev pub Gap : Sighting → Log → Type 0
Gap s [] = Unit
Gap s (o ∷ log) = o.now_ms + min_sample_spacing_ms ≤ s.now_ms

-- Qualifying, strong sightings on top of the log, each a gap after the one before.
abbrev pub IsBurst : Policy → Log → Log → Type 0
IsBurst policy [] log = Unit
IsBurst policy (s ∷ burst) log =
    (s.observation ≡ qualify)
    × (policy.threshold_dbm ≤ℤ s.rssi)
    × Gap s (burst ++ log)
    × IsBurst policy burst log

abbrev AtMost : ℕ → List ℕ → Type 0
AtMost n = All (λ t. t ≤ n)

note-AtMost :
    (policy : Policy) (s : Sighting) (o : Observation) (older : List ℕ)
    → AtMost s.now_ms older
    → AtMost s.now_ms (note policy s o older)
note-AtMost policy s revoke older h = tt
note-AtMost policy s ignore older h = h
note-AtMost policy s qualify older h = ground arith

counted-AtMost :
    (policy : Policy) (log : Log) → IsOrdered log → AtMost (newest log) (counted policy log)
unfolding counted
counted-AtMost policy [] h = tt
counted-AtMost policy (s ∷ log) (le, h) =
    note-AtMost policy s s.observation (counted policy log)
      (All-map _ _ (counted policy log) (λ t lt. omega arith) (counted-AtMost policy log h))

Gap-is_spaced :
    (policy : Policy) (s : Sighting) (log : Log)
    → IsOrdered log
    → Gap s log
    → is_spaced s.now_ms (counted policy log) ≡ true
Gap-is_spaced policy s [] h g = unfold counted in refl
Gap-is_spaced policy s (o ∷ log) h g =
    spaced (counted policy (o ∷ log)) (counted-AtMost policy (o ∷ log) h)
  where
    spaced : (xs : List ℕ) → AtMost o.now_ms xs → is_spaced s.now_ms xs ≡ true
    spaced [] a = refl
    spaced (x ∷ xs) (le, a) = ground arith

IsOrdered-burst :
    (policy : Policy) (burst log : Log)
    → IsOrdered log
    → IsBurst policy burst log
    → IsOrdered (burst ++ log)
IsOrdered-burst policy [] log h b = h
IsOrdered-burst policy (s ∷ burst) log h (q, strong, gap, b) =
    (Gap-le (burst ++ log) gap, IsOrdered-burst policy burst log h b)
  where
    Gap-le : (l : Log) → Gap s l → newest l ≤ s.now_ms
    Gap-le [] g = omega arith
    Gap-le (o ∷ l) g = omega arith

is_strong_of_le :
    (policy : Policy) (s : Sighting) → policy.threshold_dbm ≤ℤ s.rssi → is_strong policy s ≡ true
is_strong_of_le policy s h = ground arith

counted-burst :
    (policy : Policy) (burst log : Log)
    → IsOrdered log
    → IsBurst policy burst log
    → counted policy (burst ++ log) ≡ map (λ (s : Sighting). s.now_ms) burst ++ counted policy log
unfolding counted
counted-burst policy [] log h b = refl
counted-burst policy (s ∷ burst) log h (q, strong, gap, b) =
    let spaced = Gap-is_spaced policy s (burst ++ log) (IsOrdered-burst policy burst log h b) gap in
    ground (arith, q, is_strong_of_le policy s strong, spaced, counted-burst policy burst log h b)

tally-burst :
    (w now : ℕ) (burst : Log) (xs : List ℕ)
    → All (λ (s : Sighting). now ≤ s.now_ms + w) burst
    → length burst ≤ tally w now (map (λ (s : Sighting). s.now_ms) burst ++ xs)
tally-burst w now [] xs h = omega arith
tally-burst w now (s ∷ burst) xs (le, h) = ground (arith, tally-burst w now burst xs h)

-- However a device behaved before, a burst is enough: for every log whose clock never goes back,
-- further qualifying advertisements at or above the threshold, each at least 50 ms after the one
-- before, at least one and at least `minimum_samples` of them, make `check` allow at every later
-- instant at which they are all in the window and the newest is within the freshness limit.
pub check-burst :
    (policy : Policy) (s : Sighting) (burst log : Log) (now : ℕ)
    → IsOrdered log
    → IsBurst policy (s ∷ burst) log
    → policy.minimum_samples ≤ length (s ∷ burst)
    → s.now_ms ≤ now
    → now ≤ s.now_ms + policy.freshness_ms
    → All (λ (o : Sighting). now ≤ o.now_ms + policy.sample_window_ms) (s ∷ burst)
    → check (run policy ((s ∷ burst) ++ log)) now policy ≡ allow
unfolding judge
check-burst policy s burst log now h b enough le fresh in_window =
    check-run policy ((s ∷ burst) ++ log) now (IsOrdered-burst policy (s ∷ burst) log h b) le
    ∙ judge-burst
  where
    judge-burst : judge policy ((s ∷ burst) ++ log) now ≡ allow
    judge-burst =
        rw (counted-burst policy (s ∷ burst) log h b, judge)
          (ground (
            arith,
            tally-burst policy.sample_window_ms now (s ∷ burst) (counted policy log) in_window,
          ))
