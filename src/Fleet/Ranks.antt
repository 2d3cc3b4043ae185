-- ===== src/Fleet/Ranks.antt =====
-- What the survey of a fleet keeps: how close the closest denial is, and whose it is.
use omarchy_presence_unlock.Base.{
  ℕ, ◌≤◌, ◌≡◌, refl, sym, ◌∙◌, ap, ◌⊎◌, inl, inr, List, [], ◌∷◌, All, Any, Str, str_eq, arith,
}
use omarchy_presence_unlock.Wire.{
  deny_no_device, deny_stale, deny_insufficient_samples, deny_device_locked,
}
use omarchy_presence_unlock.Presence
use omarchy_presence_unlock.Presence.{Decision, allow, deny, rank, Policy, Eligibility}
use omarchy_presence_unlock.Fleet.{
  Device, check_device, MultiDeviceAuth, any_device, all_devices, at_least, required, Survey,
  survey_step, survey, start,
}

-- The reasons that one device can give.
abbrev pub IsDeviceReason : Str → Type 0
IsDeviceReason r =
    (r ≡ deny_no_device)
    ⊎ (r ≡ deny_device_locked)
    ⊎ (r ≡ deny_stale)
    ⊎ (r ≡ deny_insufficient_samples)

pub check-IsDeviceReason :
    (e : Eligibility) (now : ℕ) (policy : Policy) (r : Str)
    → Presence.check e now policy ≡ deny r
    → IsDeviceReason r
unfolding Presence.check
check-IsDeviceReason e now policy r h = ground arith

pub device_reason :
    (d : Device) (now : ℕ) (r : Str) → check_device d now ≡ deny r → IsDeviceReason r
unfolding check_device
device_reason d now r h = check-IsDeviceReason d.eligibility now d.spec.policy r h

-- A reason that is no nearer than absence is absence.
pub absence_of_rank : (r : Str) → IsDeviceReason r → 4 ≤ rank (deny r) → r ≡ deny_no_device
unfolding rank str_eq
absence_of_rank r (inl e) h = e
absence_of_rank r (inr (inl e)) h = absurd (omega (arith, rw e at h))
absence_of_rank r (inr (inr (inl e))) h = absurd (omega (arith, rw e at h))
absence_of_rank r (inr (inr (inr e))) h = absurd (omega (arith, rw e at h))

pub rank-le-absence : (r : Str) → rank (deny r) ≤ 4
unfolding rank
rank-le-absence r = ground arith

pub rank-start : start.closest_rank ≡ 4
unfolding rank str_eq
rank-start = refl

-- The decision is an Allow, or a denial no closer than the rank.
abbrev pub NoCloser : ℕ → Decision → Type 0
NoCloser k allow = Unit
NoCloser k (deny r) = k ≤ rank (deny r)

-- The reason is the initial one, or some device's.
abbrev pub Origin : ℕ → Survey → Survey → List Device → Type 0
Origin now s out ds =
    (out.closest_deny ≡ s.closest_deny) ⊎ Any (λ d. check_device d now ≡ deny out.closest_deny) ds

pub record Surveyed (now : ℕ) (s : Survey) (ds : List Device) (out : Survey) : Type 0 where
  pub lower : out.closest_rank ≤ s.closest_rank
  pub least : All (λ d. NoCloser out.closest_rank (check_device d now)) ds
  pub origin : Origin now s out ds
  pub ranked : out.closest_rank ≡ rank (deny out.closest_deny)

pub step_ranked :
    (s : Survey) (c : Decision)
    → s.closest_rank ≡ rank (deny s.closest_deny)
    → (survey_step s c).closest_rank ≡ rank (deny (survey_step s c).closest_deny)
unfolding survey_step
step_ranked s allow h = h
step_ranked s (deny r) h = ground arith

pub step_lower : (s : Survey) (c : Decision) → (survey_step s c).closest_rank ≤ s.closest_rank
unfolding survey_step
step_lower s allow = omega arith
step_lower s (deny r) = ground arith

pub step_least : (s : Survey) (c : Decision) → NoCloser (survey_step s c).closest_rank c
unfolding survey_step
step_least s allow = tt
step_least s (deny r) = ground arith

pub step_origin :
    (s : Survey) (c : Decision)
    → ((survey_step s c).closest_deny ≡ s.closest_deny) ⊎ (c ≡ deny (survey_step s c).closest_deny)
unfolding survey_step
step_origin s allow = inl refl
step_origin s (deny r) = ground arith

pub NoCloser-le : (j k : ℕ) (c : Decision) → j ≤ k → NoCloser k c → NoCloser j c
NoCloser-le j k allow le h = tt
NoCloser-le j k (deny r) le h = omega arith

pub survey-Surveyed :
    (now : ℕ) (ds : List Device) (s : Survey)
    → s.closest_rank ≡ rank (deny s.closest_deny)
    → Surveyed now s ds (survey now s ds)
unfolding survey
survey-Surveyed now [] s h = record {
  lower = omega arith;
  least = tt;
  origin = inl refl;
  ranked = h;
}
survey-Surveyed now (d ∷ ds) s h =
    let c = check_device d now in
    let rest = survey-Surveyed now ds (survey_step s c) (step_ranked s c h) in
    record {
      lower = omega (arith, rest.lower, step_lower s c);
      least =
          (NoCloser-le _ (survey_step s c).closest_rank c rest.lower (step_least s c), rest.least);
      origin = elim rest.origin [
        | inl same ↦ elim (step_origin s c) [
          | inl kept ↦ inl (same ∙ kept)
          | inr taken ↦ inr (inl (taken ∙ ap deny (sym same)))
        ]
        | inr later ↦ inr (inr later)
      ];
      ranked = rest.ranked;
    }

pub required_pos : (rule : MultiDeviceAuth) (total : ℕ) → 1 ≤ total → 1 ≤ required rule total
unfolding required
required_pos any_device total h = omega arith
required_pos all_devices total h = h
required_pos (at_least n) total h = ground arith
