-- ===== src/Presence/Tests.antt =====
-- The theorems on a device's evidence at small logs.
use omarchy_presence_unlock.Base.{ℕ, ◌+◌, ◌/◌, ◌≤◌, ◌≡◌, refl, List, [], ◌∷◌, ◌++◌, length, arith}
use omarchy_presence_unlock.Base.Int.{negsuc}
use omarchy_presence_unlock.Presence.{default_policy, qualify, allow, check, observe}
use omarchy_presence_unlock.Presence.Log.{Sighting, Log, run, judge}
use omarchy_presence_unlock.Presence.Pruning.{check-run}
use omarchy_presence_unlock.Presence.Evidence.{Evidence, check-Evidence}
use omarchy_presence_unlock.Presence.Burst.{check-burst}
use omarchy_presence_unlock.Presence.Bound.{length-run-le}

-- A strong sighting at -50 dBm.
abbrev near : ℕ → Sighting
near now = record { now_ms = now; rssi = negsuc 49; observation = qualify }

abbrev two : Log
two = near 1000 ∷ near 900 ∷ []

check-run_example :
    check (run default_policy two) 1100 default_policy ≡ judge default_policy two 1100
check-run_example = check-run default_policy two 1100 (omega arith, (omega arith, tt)) (omega arith)

check-Evidence_example : (samples : List ℕ) × Evidence default_policy two 1100 samples
unfolding check run observe
check-Evidence_example =
    check-Evidence default_policy two 1100 (omega arith, (omega arith, tt)) (omega arith) refl

check-burst_example : check (run default_policy (two ++ [])) 1100 default_policy ≡ allow
check-burst_example =
    check-burst default_policy (near 1000) (near 900 ∷ []) [] 1100 tt
      (refl, omega arith, omega arith, (refl, omega arith, tt, tt)) (omega arith) (omega arith)
      (omega arith) (omega arith, (omega arith, tt))

length-run-le_example : length (run default_policy two).qualifying_samples ≤ 3000 / 50 + 1
length-run-le_example = length-run-le default_policy two
