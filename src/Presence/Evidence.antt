-- ===== src/Presence/Evidence.antt =====
-- Soundness of the evidence: what an Allow rests on.
use omarchy_presence_unlock.Base.{
  ℕ, ◌+◌, ◌≤◌, ◌≡◌, refl, inl, inr, List, [], ◌∷◌, true, arith, All, Any, All-map, All-retain,
  retain-All, length, retain, Bool, false, Bool-cases, sym, ◌∙◌,
}
use omarchy_presence_unlock.Base.Int.{◌≤ℤ◌}
use omarchy_presence_unlock.Presence.{
  Policy, allow, Observation, qualify, revoke, ignore, min_sample_spacing_ms, within, check,
}
use omarchy_presence_unlock.Presence.Log.{
  Sighting, Log, run, newest, IsOrdered, is_strong, is_spaced, note, counted, judge,
}
use omarchy_presence_unlock.Presence.Pruning.{check-run}

abbrev unless_revoked : Sighting → Observation → Log → Log
unless_revoked s revoke later = []
unless_revoked s ignore later = s ∷ later
unless_revoked s qualify later = s ∷ later

-- The sightings since the newest revocation, newest first.
abbrev pub since_revocation : Log → Log
since_revocation [] = []
since_revocation (s ∷ log) = unless_revoked s s.observation (since_revocation log)

-- The sighting is a qualifying advertisement at instant `t`, strong enough for the policy.
abbrev pub Supports : Policy → ℕ → Sighting → Type 0
Supports policy t s = (s.observation ≡ qualify) × (policy.threshold_dbm ≤ℤ s.rssi) × (s.now_ms ≡ t)

-- Newest first, any two at least the minimal spacing apart.
abbrev pub Spaced : List ℕ → Type 0
Spaced [] = Unit
Spaced (t ∷ older) = All (λ o. o + min_sample_spacing_ms ≤ t) older × Spaced older

-- The samples of a decision at `now`, after the whole log: of the instants counted since the newest
-- revocation, the newest first, those that lie in the window.
pub record Evidence (policy : Policy) (log : Log) (now : ℕ) (samples : List ℕ) : Type 0 where
  pub last : ℕ
  pub older : List ℕ
  pub all_counted : counted policy log ≡ last ∷ older
  pub retained : samples ≡ retain (within policy.sample_window_ms now) (last ∷ older)
  pub supported : All (λ t. Any (Supports policy t) (since_revocation log)) samples
  pub spaced : Spaced samples
  pub enough : policy.minimum_samples ≤ length samples
  pub in_window : All (λ t. now ≤ t + policy.sample_window_ms) samples
  pub fresh : Any (Supports policy last) (since_revocation log) × (now ≤ last + policy.freshness_ms)
  -- The fresh instant is the newest sample, unless the policy asks for none.
  pub leads : 1 ≤ policy.minimum_samples → (rest : List ℕ) × (samples ≡ last ∷ rest)

abbrev Supported : Policy → Log → List ℕ → Type 0
Supported policy log = All (λ t. Any (Supports policy t) (since_revocation log))

-- One more sighting that does not revoke keeps what is supported.
Supported-cons :
    (policy : Policy) (s : Sighting) (log later : Log) (xs : List ℕ)
    → All (λ t. Any (Supports policy t) later) xs
    → All (λ t. Any (Supports policy t) (s ∷ later)) xs
Supported-cons policy s log later xs h =
    All-map (λ t. Any (Supports policy t) later) (λ t. Any (Supports policy t) (s ∷ later)) xs
      (λ t. inr) h

is_strong→le :
    (policy : Policy) (s : Sighting) → is_strong policy s ≡ true → policy.threshold_dbm ≤ℤ s.rssi
is_strong→le policy s h = ground arith

note-Supported :
    (policy : Policy) (s : Sighting) (o : Observation) (later : Log) (older : List ℕ)
    → s.observation ≡ o
    → All (λ t. Any (Supports policy t) later) older
    → All (λ t. Any (Supports policy t) (unless_revoked s o later)) (note policy s o older)
note-Supported policy s revoke later older e h = tt
note-Supported policy s ignore later older e h = Supported-cons policy s later later older h
note-Supported policy s qualify later older e h = elim (Bool-cases (is_strong policy s)) [
  | inl strong ↦ elim (Bool-cases (is_spaced s.now_ms older)) [
    | inl spaced ↦
        rw (strong, spaced)
          (inl (e, is_strong→le policy s strong, refl), Supported-cons policy s later later older h)
    | inr near ↦ rw (strong, near) (Supported-cons policy s later later older h)
  ]
  | inr weak ↦ rw weak (Supported-cons policy s later later older h)
]

counted-Supported : (policy : Policy) (log : Log) → Supported policy log (counted policy log)
unfolding counted
counted-Supported policy [] = tt
counted-Supported policy (s ∷ log) =
    note-Supported policy s s.observation (since_revocation log) (counted policy log) refl
      (counted-Supported policy log)

Spaced-cons :
    (now : ℕ) (older : List ℕ) → is_spaced now older ≡ true → Spaced older → Spaced (now ∷ older)
Spaced-cons now [] e h = (tt, tt)
Spaced-cons now (last ∷ older) e (far, h) =
    let gap : last + min_sample_spacing_ms ≤ now = ground arith in
    ((gap, All-map _ _ older (λ o le. omega arith) far), (far, h))

note-Spaced :
    (policy : Policy) (s : Sighting) (o : Observation) (older : List ℕ)
    → Spaced older
    → Spaced (note policy s o older)
note-Spaced policy s revoke older h = tt
note-Spaced policy s ignore older h = h
note-Spaced policy s qualify older h = elim (Bool-cases (is_strong policy s)) [
  | inl strong ↦ elim (Bool-cases (is_spaced s.now_ms older)) [
    | inl spaced ↦ rw (strong, spaced) (Spaced-cons s.now_ms older spaced h)
    | inr near ↦ rw (strong, near) h
  ]
  | inr weak ↦ rw weak h
]

counted-Spaced : (policy : Policy) (log : Log) → Spaced (counted policy log)
unfolding counted
counted-Spaced policy [] = tt
counted-Spaced policy (s ∷ log) =
    note-Spaced policy s s.observation (counted policy log) (counted-Spaced policy log)

Spaced-retain : (p : ℕ → Bool) (xs : List ℕ) → Spaced xs → Spaced (retain p xs)
Spaced-retain p [] h = tt
Spaced-retain p (x ∷ xs) (far, h) = elim (Bool-cases (p x)) [
  | inl e ↦ rw e (All-retain _ p xs far, Spaced-retain p xs h)
  | inr e ↦ rw e (Spaced-retain p xs h)
]

-- Behind an instant that is out of the window, so is every older one.
retain-none :
    (window now last : ℕ) (older : List ℕ)
    → within window now last ≡ false
    → All (λ o. o + min_sample_spacing_ms ≤ last) older
    → retain (within window now) older ≡ []
retain-none window now last [] out far = refl
retain-none window now last (o ∷ older) out (gap, far) =
    let gone : within window now o ≡ false = ground arith in
    rw gone (retain-none window now last older out far)

-- If any instant is retained, the newest one is.
retain-leads :
    (window now last : ℕ) (older : List ℕ)
    → Spaced (last ∷ older)
    → 1 ≤ length (retain (within window now) (last ∷ older))
    → (rest : List ℕ) × (retain (within window now) (last ∷ older) ≡ last ∷ rest)
retain-leads window now last older (far, h) some_left = elim (Bool-cases (within window now last)) [
  | inl e ↦ (retain (within window now) older, rw e refl)
  | inr e ↦ absurd (ground (arith, some_left, e, retain-none window now last older e far))
]

judge-Evidence :
    (policy : Policy) (log : Log) (now : ℕ) (samples : List ℕ)
    → counted policy log ≡ samples
    → judge policy log now ≡ allow
    → Evidence policy log now (retain (within policy.sample_window_ms now) samples)
unfolding judge
judge-Evidence policy log now [] e h = absurd (ground arith)
judge-Evidence policy log now (last ∷ older) e h =
    let supported : Supported policy log (last ∷ older) = rw e at (counted-Supported policy log) in
    let spaced : Spaced (last ∷ older) = rw e at (counted-Spaced policy log) in
    let p = within policy.sample_window_ms now in
    let enough : policy.minimum_samples ≤ length (retain p (last ∷ older)) = ground arith in
    record {
      last = last;
      older = older;
      all_counted = e;
      retained = refl;
      supported = All-retain _ p (last ∷ older) supported;
      spaced = Spaced-retain p (last ∷ older) spaced;
      enough = enough;
      in_window =
          All-map _ _ (retain p (last ∷ older)) (λ t le. ground arith)
            (retain-All p (last ∷ older));
      fresh = (supported.0, ground arith);
      leads = λ one.
          retain-leads policy.sample_window_ms now last older spaced (omega (arith, one, enough));
    }

-- An Allow rests on evidence, whatever the device sent before: for every log whose clock never goes
-- back, if `check` allows at a later instant, then the instants counted since the newest revocation
-- that lie in the window are at least `minimum_samples`, each of a qualifying advertisement that is at
-- or above the threshold and newer than that revocation, any two of them at least 50 ms apart; and the
-- newest instant counted, which is the newest of those if the policy asks for one at all, is within
-- the freshness limit. An advertisement nearer than 50 ms to the last one counted is not counted.
pub check-Evidence :
    (policy : Policy) (log : Log) (now : ℕ)
    → IsOrdered log
    → newest log ≤ now
    → check (run policy log) now policy ≡ allow
    → (samples : List ℕ) × Evidence policy log now samples
check-Evidence policy log now ordered le h = (
  retain (within policy.sample_window_ms now) (counted policy log),
  judge-Evidence policy log now (counted policy log) refl
      (sym (check-run policy log now ordered le) ∙ h),
)
