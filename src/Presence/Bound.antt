-- ===== src/Presence/Bound.antt =====
-- The size of the sample vector, and policies that no device can meet.
use omarchy_presence_unlock.Base.{
  ℕ, ◌+◌, ◌-◌, ◌*◌, ◌/◌, ◌≤◌, ◌<◌, ◌≡◌, ◌≢◌, refl, List, [], ◌∷◌, ◌++◌, Option, none, some, Bool,
  arith, All, All-map, All-append, All-retain, retain-All, length, length-retain-le, retain,
  Bool-cases, Option-cases, inl, inr, true, false, ltb, is_some_and,
}
use omarchy_presence_unlock.Base.Int.{ℤ, ltb_ℤ}
use omarchy_presence_unlock.Presence.{
  Policy, allow, Observation, qualify, revoke, ignore, Eligibility, min_sample_spacing_ms, within,
  observe, count_sample, check,
}
use omarchy_presence_unlock.Presence.Log.{Log, run}

-- Oldest first, any two at least the minimal spacing apart.
abbrev Rising : List ℕ → Type 0
Rising [] = Unit
Rising (x ∷ xs) = All (λ y. x + min_sample_spacing_ms ≤ y) xs × Rising xs

Rising-retain : (p : ℕ → Bool) (xs : List ℕ) → Rising xs → Rising (retain p xs)
Rising-retain p [] h = tt
Rising-retain p (x ∷ xs) (far, h) = elim (Bool-cases (p x)) [
  | inl e ↦ rw e (All-retain _ p xs far, Rising-retain p xs h)
  | inr e ↦ rw e (Rising-retain p xs h)
]

Rising-snoc :
    (xs : List ℕ) (now : ℕ)
    → All (λ x. x + min_sample_spacing_ms ≤ now) xs
    → Rising xs
    → Rising (xs ++ now ∷ [])
Rising-snoc [] now a h = (tt, tt)
Rising-snoc (x ∷ xs) now (le, a) (far, h) =
    (All-append _ xs (now ∷ []) far (le, tt), Rising-snoc xs now a h)

-- The samples lie in the window that ends at the last of them.
abbrev InWindow : ℕ → Option ℕ → List ℕ → Type 0
InWindow w none xs = xs ≡ []
InWindow w (some last) xs = All (λ x. (x ≤ last) × (last ≤ x + w)) xs

record IsBounded (w : ℕ) (e : Eligibility) : Type 0 where
  rising : Rising e.qualifying_samples
  window : InWindow w e.last_qualifying_ms e.qualifying_samples

length_between :
    (lo last : ℕ) (xs : List ℕ)
    → lo ≤ last + min_sample_spacing_ms
    → Rising xs
    → All (λ x. (lo ≤ x) × (x ≤ last)) xs
    → min_sample_spacing_ms * length xs + lo ≤ last + min_sample_spacing_ms
length_between lo last [] h r a = omega arith
length_between lo last (x ∷ xs) h (far, r) ((ge, le), a) = omega (
  arith,
  length_between (x + min_sample_spacing_ms) last xs (omega arith) r
      (both (x + min_sample_spacing_ms) xs far a),
)
  where
    both :
        (bound : ℕ) (ys : List ℕ)
        → All (λ y. bound ≤ y) ys
        → All (λ y. (lo ≤ y) × (y ≤ last)) ys
        → All (λ y. (bound ≤ y) × (y ≤ last)) ys
    both bound [] f g = tt
    both bound (y ∷ ys) (p, f) ((q, r'), g) = ((p, r'), both bound ys f g)

length_of_IsBounded :
    (w : ℕ) (e : Eligibility)
    → IsBounded w e
    → length e.qualifying_samples ≤ w / min_sample_spacing_ms + 1
length_of_IsBounded w e b = by_last e.last_qualifying_ms b.window
  where
    by_last :
        (o : Option ℕ)
        → InWindow w o e.qualifying_samples
        → length e.qualifying_samples ≤ w / min_sample_spacing_ms + 1
    by_last none h = rw h (omega arith)
    by_last (some last) h = omega (
      arith,
      length_between (last - w) last e.qualifying_samples (omega arith) b.rising
          (All-map _ _ e.qualifying_samples (λ x (le, near). (omega arith, le)) h),
    )

pruned-IsBounded :
    (w now : ℕ) (e : Eligibility)
    → IsBounded w e
    → InWindow w e.last_qualifying_ms (retain (within w now) e.qualifying_samples)
pruned-IsBounded w now e b = by_last e.last_qualifying_ms b.window
  where
    by_last :
        (o : Option ℕ)
        → InWindow w o e.qualifying_samples
        → InWindow w o (retain (within w now) e.qualifying_samples)
    by_last none h = rw h
    by_last (some last) h = All-retain _ (within w now) e.qualifying_samples h

abbrev is_duplicate : ℕ → Option ℕ → Bool
is_duplicate now last = is_some_and last (λ last. ltb (now - last) min_sample_spacing_ms)

-- A sample that is no duplicate comes the minimal spacing after every kept one.
kept_before :
    (w now : ℕ) (last : Option ℕ) (xs : List ℕ)
    → is_duplicate now last ≡ false
    → InWindow w last xs
    → All (λ x. x + min_sample_spacing_ms ≤ now) (retain (within w now) xs)
kept_before w now none xs d h = rw h tt
kept_before w now (some last) xs d h =
    let gap : last + min_sample_spacing_ms ≤ now = ground arith in
    All-map _ _ (retain (within w now) xs) (λ x (le, near). omega arith)
      (All-retain _ (within w now) xs h)

in_window_of_kept :
    (w now : ℕ) (xs : List ℕ)
    → All (λ x. x + min_sample_spacing_ms ≤ now) xs
    → All (λ x. within w now x ≡ true) xs
    → All (λ x. (x ≤ now) × (now ≤ x + w)) xs
in_window_of_kept w now [] h k = tt
in_window_of_kept w now (x ∷ xs) (le, h) (near, k) =
    ((omega arith, ground arith), in_window_of_kept w now xs h k)

module _ (policy : Policy) (now : ℕ) (rssi : ℤ) where
  open policy use {sample_window_ms as w, threshold_dbm}

  count_sample-IsBounded :
      (e : Eligibility) → IsBounded w e → IsBounded w (count_sample e now rssi policy)
  unfolding count_sample
  count_sample-IsBounded e b =
      let kept = retain (within w now) e.qualifying_samples in
      let pruned : IsBounded w (record e { qualifying_samples = kept }) = record {
        rising = Rising-retain (within w now) e.qualifying_samples b.rising;
        window = pruned-IsBounded w now e b;
      } in
      elim (Bool-cases (ltb_ℤ rssi threshold_dbm)) [
        | inl weak ↦ rw weak pruned
        | inr strong ↦ elim (Bool-cases (is_duplicate now e.last_qualifying_ms)) [
          | inl again ↦ rw (strong, again) pruned
          | inr fresh ↦
              let before =
                kept_before w now e.last_qualifying_ms e.qualifying_samples fresh b.window in
              rw (strong, fresh)
                (record {
                  rising = Rising-snoc kept now before pruned.rising;
                  window =
                      All-append _ kept (now ∷ [])
                        (in_window_of_kept w now kept before
                          (retain-All (within w now) e.qualifying_samples))
                        (omega arith);
                })
        ]
      ]

  observe-IsBounded :
      (o : Observation) (e : Eligibility)
      → IsBounded w e
      → IsBounded w (observe e now rssi o policy)
  unfolding observe
  observe-IsBounded revoke e b = record { rising = tt; window = refl }
  observe-IsBounded ignore e b = record { rising = b.rising; window = b.window }
  observe-IsBounded qualify e b =
      count_sample-IsBounded _ (record { rising = b.rising; window = b.window })

run-IsBounded : (policy : Policy) (log : Log) → IsBounded policy.sample_window_ms (run policy log)
unfolding run
run-IsBounded policy [] = record { rising = tt; window = refl }
run-IsBounded policy (s ∷ log) =
    observe-IsBounded policy s.now_ms s.rssi s.observation (run policy log)
      (run-IsBounded policy log)

-- The sample vector never holds more than window / 50 + 1 instants, whatever is observed, even if
-- the clock goes back.
pub length-run-le :
    (policy : Policy) (log : Log)
    → length (run policy log).qualifying_samples
      ≤ policy.sample_window_ms / min_sample_spacing_ms + 1
length-run-le policy log =
    length_of_IsBounded policy.sample_window_ms (run policy log) (run-IsBounded policy log)

-- A policy that asks for more samples than fit into its window never allows: not after any log, at
-- any instant.
pub check-ne-allow :
    (policy : Policy) (log : Log) (now : ℕ)
    → policy.sample_window_ms / min_sample_spacing_ms + 1 < policy.minimum_samples
    → check (run policy log) now policy ≢ allow
unfolding check
check-ne-allow policy log now h =
    let e = run policy log in
    elim (Option-cases e.last_qualifying_ms) [
      | inl never ↦ rw never (ground arith)
      | inr (last, at_last) ↦ rw at_last (
          ground (
            arith,
            length-run-le policy log,
            length-retain-le (within policy.sample_window_ms now) e.qualifying_samples,
          ))
    ]
