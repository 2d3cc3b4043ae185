-- ===== src/Cli/Capture/Restore.antt =====
-- The settings of the adapter that an enrollment overrides, and puts back.
use omarchy_presence_unlock.Base.{
  ℕ, zero, suc, ◌+◌, ◌-◌, ◌^◌, ◌<◌, ◌≤◌, ◌≡◌, ◌≢◌, refl, sym, ap, ◌∙◌, inl, inr, Bool, true, false,
  not, ◌&&◌, ltb, if◌then◌else◌, if_cases, Bool-cases, arith,
}

pub record Settings : Type 0 where
  pub pairable : Bool
  pub timeout : ℕ

-- How the two writes of an attempt end: of the timeout, and of the pairability.
pub record Writes : Type 0 where
  pub timeout : Bool
  pub pairable : Bool

abbrev pub write_timeout : Bool → ℕ → Settings → Settings
write_timeout ok timeout s = if ok then record s { timeout = timeout } else s

abbrev pub write_pairable : Bool → Bool → Settings → Settings
write_pairable ok pairable s = if ok then record s { pairable = pairable } else s

abbrev pub restore_attempts : ℕ
restore_attempts = 10

-- Both writes of an attempt are made, whether or not the first one succeeds.
abbrev pub attempted : Settings → Writes → Settings → Settings
attempted before w s =
    write_pairable w.pairable before.pairable (write_timeout w.timeout before.timeout s)

-- The loop of `restore_pairability`, with how many attempts are left, and how attempt after attempt ends.
unfoldable pub restore : Settings → (ℕ → Writes) → ℕ → ℕ → Settings → Settings × Bool
restore before writes attempt zero s = (s, false)
restore before writes attempt (suc left) s =
    let w = writes attempt in
    let t = attempted before w s in
    let rest = restore before writes (suc attempt) left t in
    if w.timeout && w.pairable then (t, true) else rest

abbrev pub u32_max : ℕ
u32_max = 2 ^ 32 - 1

abbrev pub u64_max : ℕ
u64_max = 2 ^ 64 - 1

-- `u32::try_from(timeout_secs.saturating_add(60)).unwrap_or(u32::MAX)`
abbrev pub saturated : ℕ → ℕ → ℕ
saturated max n = if ltb max n then max else n

unfoldable pub pairing_window : ℕ → ℕ
pairing_window timeout_secs = saturated u32_max (saturated u64_max (timeout_secs + 60))

-- How the writes in front of the capture end: the window, the pairability, and the timeout that is put
-- back if the pairability is refused.
pub record Opening : Type 0 where
  pub window : Bool
  pub pairable : Bool
  pub rollback : Bool

-- The settings around the capture: before it, if it starts, and at the end, with whether it started
-- and whether they are reported as restored.
pub record Window : Type 0 where
  pub during : Settings
  pub after : Settings
  pub started : Bool
  pub restored : Bool

unfoldable pub pairing : ℕ → Opening → (ℕ → Writes) → Settings → Window
unfolding restore pairing_window
pairing timeout_secs o writes before =
    let timed = record before { timeout = pairing_window timeout_secs } in
    let opened = record timed { pairable = true } in
    let end = restore before writes 0 restore_attempts opened in
    if not o.window
    then record { during = before; after = before; started = false; restored = true }
    else if not o.pairable
    then record {
      during = timed;
      after = write_timeout o.rollback before.timeout timed;
      started = false;
      restored = o.rollback;
    }
    else record { during = opened; after = end.0; started = true; restored = end.1 }

restored-eq :
    (before : Settings) (writes : ℕ → Writes) (attempt left : ℕ) (s : Settings)
    → (restore before writes attempt left s).1 ≡ true
    → (restore before writes attempt left s).0 ≡ before
unfolding restore
restored-eq before writes attempt zero s h = absurd (cc h)
restored-eq before writes attempt (suc left) s h =
    elim (Bool-cases ((writes attempt).timeout && (writes attempt).pairable)) [
      | inr refused ↦ rw refused (restored-eq before writes (suc attempt) left _ (rw refused at h))
      | inl done ↦
          let timed : (writes attempt).timeout ≡ true = ground (arith, done) in
          let paired : (writes attempt).pairable ≡ true = ground (arith, done) in
          rw (timed, paired) refl
    ]

restore-success :
    (before : Settings) (writes : ℕ → Writes) (attempt left : ℕ) (s : Settings) (k : ℕ)
    → attempt ≤ k
    → k < attempt + left
    → ((writes k).timeout && (writes k).pairable) ≡ true
    → (restore before writes attempt left s).1 ≡ true
unfolding restore
restore-success before writes attempt zero s k above below h = absurd (omega (arith, above, below))
restore-success before writes attempt (suc left) s k above below h =
    if_cases (λ (r : Settings × Bool). r.1 ≡ true)
      ((writes attempt).timeout && (writes attempt).pairable) _ _ (λ done. refl)
      (λ refused.
        restore-success before writes (suc attempt) left (attempted before (writes attempt) s) k
          (later refused) (omega (arith, below)) h)
  where
    later : ((writes attempt).timeout && (writes attempt).pairable) ≡ false → suc attempt ≤ k
    later refused =
        let apart : k ≢ attempt = λ e.
          absurd
            (cc (sym refused ∙ ap (λ n. (writes n).timeout && (writes n).pairable) (sym e) ∙ h)) in
        omega (arith, apart, above)

-- What a run does to the adapter.
pub record IsRestored (timeout_secs : ℕ) (before : Settings) (w : Window) : Type 0 where
  -- settings that are reported as restored are what they were
  pub same : w.restored ≡ true → w.after ≡ before
  -- while the computer can be paired with, the adapter itself ends that at a time
  pub bounded :
      w.started ≡ true
      → (w.during.pairable ≡ true)
        × (60 ≤ w.during.timeout)
        × (w.during.timeout ≤ timeout_secs + 60)
        × (w.during.timeout ≤ u32_max)

window_bounds :
    (t : ℕ) → (60 ≤ pairing_window t) × (pairing_window t ≤ t + 60) × (pairing_window t ≤ u32_max)
unfolding pairing_window
window_bounds t = (ground arith, ground arith, ground arith)

pairing-IsRestored :
    (timeout_secs : ℕ) (o : Opening) (writes : ℕ → Writes) (before : Settings)
    → IsRestored timeout_secs before (pairing timeout_secs o writes before)
unfolding pairing
pairing-IsRestored timeout_secs o writes before = ends o.window o.pairable
  where
    back :
        (b : Bool)
        → b ≡ true
        → write_timeout b before.timeout (record before { timeout = pairing_window timeout_secs })
          ≡ before
    back true h = refl
    back false h = absurd (cc h)

    ends :
        (window pairable : Bool)
        → IsRestored timeout_secs before
            (pairing timeout_secs (record o { window = window; pairable = pairable }) writes before)
    ends false pairable = record { same = λ h. refl; bounded = λ h. absurd (cc h) }
    ends true false = record { same = back o.rollback; bounded = λ h. absurd (cc h) }
    ends true true = record {
      same =
          restored-eq before writes 0 restore_attempts
            (record { pairable = true; timeout = pairing_window timeout_secs });
      bounded =
          λ h. let (least, most, max) = window_bounds timeout_secs in (refl, least, most, max);
    }

-- Whatever BlueZ answers, settings that are reported as restored are the ones before the enrollment;
-- while the computer can be paired with, the adapter's own timeout is at least 60 seconds, at most 60
-- more than was asked for, and never the 0 that stands for no end; and an enrollment that started has
-- restored them if any of ten attempts could write both.
pub pairing_restored :
    (timeout_secs : ℕ) (o : Opening) (writes : ℕ → Writes) (before : Settings) (k : ℕ)
    → (pairing timeout_secs o writes before).started ≡ true
    → k < restore_attempts
    → ((writes k).timeout && (writes k).pairable) ≡ true
    → IsRestored timeout_secs before (pairing timeout_secs o writes before)
      × ((pairing timeout_secs o writes before).restored ≡ true)
      × ((pairing timeout_secs o writes before).after ≡ before)
unfolding pairing
pairing_restored timeout_secs o writes before k started within both =
    let whole = pairing-IsRestored timeout_secs o writes before in
    let done = starts o.window o.pairable started in (whole, done, whole.same done)
  where
    starts :
        (window pairable : Bool)
        → (pairing timeout_secs
            (record o { window = window; pairable = pairable })
            writes
            before).started
          ≡ true
        → (pairing timeout_secs
            (record o { window = window; pairable = pairable })
            writes
            before).restored
          ≡ true
    starts false pairable h = absurd (cc h)
    starts true false h = absurd (cc h)
    starts true true h =
        restore-success before writes 0 restore_attempts
          (record { pairable = true; timeout = pairing_window timeout_secs }) k (omega arith)
          (omega (arith, within)) both
