-- ===== src/Config/Policy.antt =====
-- The policy of an entry: its overrides, and the bounds that they must keep.
use mathlib.Core.Path.{subst}
use omarchy_presence_unlock.Base.{
  ℕ, ◌+◌, ◌/◌, ◌≤◌, ◌≡◌, ◌↔◌, not, ◌&&◌, ◌++◌, Str, codes, leb, ltb, ◌==◌, unwrap_or, if◌then◌else◌,
  arith,
}
use omarchy_presence_unlock.Base.Int.{◌≤ℤ◌, leb_ℤ}
use omarchy_presence_unlock.Numbers.{decimal, print_i16}
use omarchy_presence_unlock.Presence.{
  Policy, default_policy, min_threshold_dbm, max_threshold_dbm, max_sample_window_ms,
  max_freshness_ms, min_sample_spacing_ms,
}
use omarchy_presence_unlock.Config.{DeviceEntry, ConfigError, Result, ok, err, ◌>>=◌, >>=-eq-ok}

unfoldable pub requested_policy : DeviceEntry → Policy
requested_policy e = record {
  threshold_dbm = unwrap_or e.threshold_dbm default_policy.threshold_dbm;
  minimum_samples = unwrap_or e.minimum_samples default_policy.minimum_samples;
  sample_window_ms = unwrap_or e.sample_window_ms default_policy.sample_window_ms;
  freshness_ms = unwrap_or e.freshness_ms default_policy.freshness_ms;
}

-- The text `1..={max}`.
range_to : ℕ → Str
range_to max = codes "1..=" ++ decimal max

unfoldable pub validate_policy : DeviceEntry → Policy → Result (Unit {0})
unfolding range_to
validate_policy e p =
    let maximum_samples = p.sample_window_ms / min_sample_spacing_ms + 1 in
    if not (leb_ℤ min_threshold_dbm p.threshold_dbm && leb_ℤ p.threshold_dbm max_threshold_dbm)
    then err (
        ConfigError.policy e.id (codes "threshold_dbm") (print_i16 p.threshold_dbm)
          (print_i16 min_threshold_dbm ++ (codes "..=" ++ print_i16 max_threshold_dbm)))
    else if p.minimum_samples == 0
    then err (ConfigError.policy e.id (codes "minimum_samples") (codes "0") (codes "1..=255"))
    else if not (leb 1 p.sample_window_ms && leb p.sample_window_ms max_sample_window_ms)
    then err (
        ConfigError.policy e.id (codes "sample_window_ms") (decimal p.sample_window_ms)
          (range_to max_sample_window_ms))
    else if not (leb 1 p.freshness_ms && leb p.freshness_ms max_freshness_ms)
    then err (
        ConfigError.policy e.id (codes "freshness_ms") (decimal p.freshness_ms)
          (range_to max_freshness_ms))
    else if ltb maximum_samples p.minimum_samples
    then err (
        ConfigError.policy e.id (codes "minimum_samples") (decimal p.minimum_samples) (
          range_to maximum_samples
          ++ (codes " for sample_window_ms = "
              ++ (decimal p.sample_window_ms
                  ++ (codes " with " ++ (decimal min_sample_spacing_ms ++ codes "ms spacing"))))))
    else ok tt

-- `DeviceEntry::policy`
unfoldable pub entry_policy : DeviceEntry → Result Policy
entry_policy e = validate_policy e (requested_policy e) >>= λ _. ok (requested_policy e)

-- The bounds of a policy that the daemon may run on.
pub record IsSafe (p : Policy) : Type 0 where
  pub threshold_low : min_threshold_dbm ≤ℤ p.threshold_dbm
  pub threshold_high : p.threshold_dbm ≤ℤ max_threshold_dbm
  pub some_sample : 1 ≤ p.minimum_samples
  pub window_low : 1 ≤ p.sample_window_ms
  pub window_high : p.sample_window_ms ≤ max_sample_window_ms
  pub freshness_low : 1 ≤ p.freshness_ms
  pub freshness_high : p.freshness_ms ≤ max_freshness_ms
  pub samples_fit : p.minimum_samples ≤ p.sample_window_ms / min_sample_spacing_ms + 1

-- A policy is accepted exactly when it keeps every bound.
pub validate_policy-IsSafe :
    (e : DeviceEntry) (p : Policy) → (validate_policy e p ≡ ok tt) ↔ IsSafe p
unfolding validate_policy
validate_policy-IsSafe e p = (λ h. ground arith, λ h. ground arith)

-- What an accepted policy of an entry keeps.
pub entry_policy-IsSafe : (e : DeviceEntry) (p : Policy) → entry_policy e ≡ ok p → IsSafe p
unfolding entry_policy
entry_policy-IsSafe e p h =
    let (unit, checked, same) = >>=-eq-ok (validate_policy e (requested_policy e)) _ h in
    let same' : requested_policy e ≡ p = cc same in
    subst IsSafe same' ((validate_policy-IsSafe e (requested_policy e)).0 checked)
