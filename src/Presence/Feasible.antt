-- ===== src/Presence/Feasible.antt =====
-- A policy whose samples fit into its window can be met.
use mathlib.Core.Path.{subst}
use omarchy_presence_unlock.Base.{
  ℕ, zero, suc, ◌+◌, ◌*◌, ◌/◌, ◌≤◌, ◌≡◌, refl, [], ◌∷◌, append-nil, arith, All, length,
}
use omarchy_presence_unlock.Presence.{Policy, allow, qualify, min_sample_spacing_ms, check}
use omarchy_presence_unlock.Presence.Log.{Sighting, Log, run}
use omarchy_presence_unlock.Presence.Burst.{IsBurst, check-burst}

-- An advertisement every 50 ms, at the threshold, from the instant 0 on, newest first.
abbrev beat : Policy → ℕ → Sighting
beat policy i = record {
  now_ms = min_sample_spacing_ms * i;
  rssi = policy.threshold_dbm;
  observation = qualify;
}

unfoldable pub beats : Policy → ℕ → Log
beats policy zero = []
beats policy (suc n) = beat policy n ∷ beats policy n

beats-IsBurst : (policy : Policy) (n : ℕ) → IsBurst policy (beats policy n) []
unfolding beats
beats-IsBurst policy zero = tt
beats-IsBurst policy (suc zero) = (refl, omega arith, tt, tt)
beats-IsBurst policy (suc (suc n)) = (refl, omega arith, omega arith, beats-IsBurst policy (suc n))

length-beats : (policy : Policy) (n : ℕ) → length (beats policy n) ≡ n
unfolding beats
length-beats policy zero = refl
length-beats policy (suc n) = omega (arith, length-beats policy n)

beats_in_window :
    (policy : Policy) (n now : ℕ)
    → now ≤ policy.sample_window_ms
    → All (λ (o : Sighting). now ≤ o.now_ms + policy.sample_window_ms) (beats policy n)
unfolding beats
beats_in_window policy zero now h = tt
beats_in_window policy (suc n) now h = (omega arith, beats_in_window policy n now h)

-- Every policy whose samples fit into its window is met by some device: after as many advertisements
-- as it asks for, one every 50 ms, `check` allows.
pub check-beats :
    (policy : Policy) (n : ℕ)
    → policy.minimum_samples ≡ suc n
    → policy.minimum_samples ≤ policy.sample_window_ms / min_sample_spacing_ms + 1
    → check (run policy (beats policy (suc n))) (min_sample_spacing_ms * n) policy ≡ allow
unfolding beats
check-beats policy n e fits =
    subst (λ l. check (run policy l) (min_sample_spacing_ms * n) policy ≡ allow)
      (append-nil (beats policy (suc n)))
      (check-burst policy (beat policy n) (beats policy n) [] (min_sample_spacing_ms * n) tt
        (beats-IsBurst policy (suc n)) (omega (arith, length-beats policy n)) (omega arith)
        (omega arith) (beats_in_window policy (suc n) (min_sample_spacing_ms * n) (omega arith)))
