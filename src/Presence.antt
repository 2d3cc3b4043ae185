-- ===== src/Presence.antt =====
-- crates/protocol/src/presence.rs, first half: the policy, the decision, and the evidence that one
-- device has given. Instants are milliseconds in ℕ, where `-` is `u64::saturating_sub`.
pub mod Log
pub mod Pruning
pub mod Evidence
pub mod Burst
pub mod Bound
pub mod Feasible
mod Tests
use omarchy_presence_unlock.Base.{
  ℕ, ◌-◌, Bool, true, false, List, [], ◌∷◌, ◌++◌, Option, none, some, Str, str_eq, length, retain,
  ltb, leb, is_some_and, if◌then◌else◌,
}
use omarchy_presence_unlock.Base.Int.{ℤ, pos, negsuc, ltb_ℤ}
use omarchy_presence_unlock.Wire.{
  deny_no_device, deny_stale, deny_insufficient_samples, deny_device_locked,
}

pub record Policy : Type 0 where
  pub threshold_dbm : ℤ
  pub minimum_samples : ℕ
  pub sample_window_ms : ℕ
  pub freshness_ms : ℕ

-- `Policy::default`; `negsuc 74` is -75.
abbrev pub default_policy : Policy
default_policy = record {
  threshold_dbm = negsuc 74;
  minimum_samples = 2;
  sample_window_ms = 3000;
  freshness_ms = 2500;
}

-- -127
abbrev pub min_threshold_dbm : ℤ
min_threshold_dbm = negsuc 126

abbrev pub max_threshold_dbm : ℤ
max_threshold_dbm = pos 20

abbrev pub max_sample_window_ms : ℕ
max_sample_window_ms = 30000

abbrev pub max_freshness_ms : ℕ
max_freshness_ms = 10000

abbrev pub min_sample_spacing_ms : ℕ
min_sample_spacing_ms = 50

pub data Decision : Type 0 where
  allow : Decision
  deny : Str → Decision

abbrev pub is_allow : Decision → Bool
is_allow allow = true
is_allow (deny reason) = false

-- How close a decision is to authorising, lowest first.
unfoldable pub rank : Decision → ℕ
rank allow = 0
rank (deny reason) =
    if str_eq reason deny_insufficient_samples
    then 1
    else if str_eq reason deny_stale
    then 2
    else if str_eq reason deny_device_locked
    then 3
    else 4

-- A profile's reading of one advertisement (crates/protocol/src/profile/mod.rs).
pub data Observation : Type 0 where
  qualify revoke ignore : Observation

pub record Eligibility : Type 0 where
  pub qualifying_samples : List ℕ
  pub last_qualifying_ms : Option ℕ
  pub last_revocation_ms : Option ℕ
  pub last_rssi : Option ℤ

abbrev pub default_eligibility : Eligibility
default_eligibility = record {
  qualifying_samples = [];
  last_qualifying_ms = none;
  last_revocation_ms = none;
  last_rssi = none;
}

unfoldable pub invalidate_evidence : Eligibility → Eligibility
invalidate_evidence e = record e { qualifying_samples = []; last_qualifying_ms = none }

unfoldable pub invalidate : Eligibility → Eligibility
unfolding invalidate_evidence
invalidate e = record (invalidate_evidence e) { last_revocation_ms = none; last_rssi = none }

-- The test of both filters: the sample is at most `window` old at `now`.
abbrev pub within : ℕ → ℕ → ℕ → Bool
within window now sample = leb (now - sample) window

-- The part of `observe` behind its match: prune, then count the sample unless it is weak or comes
-- too soon after the last counted one.
unfoldable pub count_sample : Eligibility → ℕ → ℤ → Policy → Eligibility
count_sample e now rssi policy =
    let kept = retain (within policy.sample_window_ms now) e.qualifying_samples in
    let pruned : Eligibility = record e { qualifying_samples = kept } in
    if ltb_ℤ rssi policy.threshold_dbm
    then pruned
    else if is_some_and e.last_qualifying_ms (λ last. ltb (now - last) min_sample_spacing_ms)
    then pruned
    else record pruned { qualifying_samples = kept ++ now ∷ []; last_qualifying_ms = some now }

unfoldable pub observe : Eligibility → ℕ → ℤ → Observation → Policy → Eligibility
unfolding count_sample invalidate_evidence
observe e now rssi revoke policy =
    record (invalidate_evidence (record e { last_rssi = some rssi })) {
      last_revocation_ms = some now;
    }
observe e now rssi ignore policy = record e { last_rssi = some rssi }
observe e now rssi qualify policy =
    count_sample (record e { last_rssi = some rssi; last_revocation_ms = none }) now rssi policy

unfoldable pub check : Eligibility → ℕ → Policy → Decision
check e now policy = elim e.last_qualifying_ms [
  | none ↦
      if is_some_and e.last_revocation_ms (λ last. leb (now - last) policy.freshness_ms)
      then deny deny_device_locked
      else deny deny_no_device
  | some last ↦
      if ltb policy.freshness_ms (now - last)
      then deny deny_stale
      else if ltb (length (retain (within policy.sample_window_ms now) e.qualifying_samples))
          policy.minimum_samples
      then deny deny_insufficient_samples
      else allow
]
