-- ===== src/Fleet/Rule.antt =====
-- The multi-device rule: when the fleet allows.
use omarchy_presence_unlock.Base.{
  ℕ, ◌+◌, ◌≤◌, ◌≡◌, ◌≢◌, refl, ◌↔◌, inl, inr, true, List, [], ◌∷◌, All, Any, length, retain,
  length-retain-le, arith, Bool-cases,
}
use omarchy_presence_unlock.Ble.{Needs}
use omarchy_presence_unlock.Presence.{Decision, allow, deny, is_allow}
use omarchy_presence_unlock.Fleet.{
  Device, check_device, MultiDeviceAuth, any_device, all_devices, at_least, required, Fleet, Survey,
  survey_step, survey, start, conclude, check,
}

-- The device is eligible at the instant.
abbrev pub IsAllowed : ℕ → Device → Type 0
IsAllowed now d = check_device d now ≡ allow

-- How many devices are eligible.
abbrev pub eligible : ℕ → List Device → ℕ
eligible now ds = length (retain (λ d. is_allow (check_device d now)) ds)

-- What the rule asks of the devices.
abbrev pub Meets : MultiDeviceAuth → ℕ → List Device → Type 0
Meets any_device now ds = Any (IsAllowed now) ds
Meets all_devices now ds = (ds ≢ []) × All (IsAllowed now) ds
Meets (at_least n) now ds = (1 ≤ eligible now ds) × (n ≤ eligible now ds)

pub survey_allowed :
    (now : ℕ) (ds : List Device) (s : Survey)
    → (survey now s ds).allowed ≡ s.allowed + eligible now ds
unfolding survey survey_step
survey_allowed now [] s = omega arith
survey_allowed now (d ∷ ds) s =
    ground (arith, survey_allowed now ds (survey_step s (check_device d now)))

is_allow_iff : (c : Decision) → (is_allow c ≡ true) ↔ (c ≡ allow)
is_allow_iff allow = (λ h. refl, λ h. refl)
is_allow_iff (deny r) = (λ h. cc, λ h. cc)

Any-eligible : (now : ℕ) (ds : List Device) → Any (IsAllowed now) ds ↔ (1 ≤ eligible now ds)
Any-eligible now [] = (λ h. absurd h, λ h. elim h [ ])
Any-eligible now (d ∷ ds) = elim (Bool-cases (is_allow (check_device d now))) [
  | inl e ↦ (λ h. rw e (omega arith), λ h. inl ((is_allow_iff _).0 e))
  | inr n ↦
      let (f, g) = Any-eligible now ds in
      (
        λ h. rw n (elim h [ inl e ↦ absurd (ground arith) | inr later ↦ f later ]),
        λ h. inr (g (rw n at h)),
      )
]

All-eligible : (now : ℕ) (ds : List Device) → All (IsAllowed now) ds ↔ (length ds ≤ eligible now ds)
All-eligible now [] = (λ h. omega arith, λ h. tt)
All-eligible now (d ∷ ds) = elim (Bool-cases (is_allow (check_device d now))) [
  | inl e ↦
      let (f, g) = All-eligible now ds in
      (λ h. rw e (omega (arith, f h.1)), λ h. ((is_allow_iff _).0 e, g (ground arith)))
  | inr n ↦ (
    λ h. absurd (ground arith),
    λ h. absurd (ground (arith, length-retain-le (λ d'. is_allow (check_device d' now)) ds)),
  )
]

conclude_iff : (needed : ℕ) (s : Survey) → (conclude needed s ≡ allow) ↔ (needed ≤ s.allowed)
unfolding conclude
conclude_iff needed s = (λ h. ground arith, λ h. ground arith)

-- A fleet with devices allows when enough of them are eligible.
check_cons :
    (rule : MultiDeviceAuth) (needs : Needs) (now : ℕ) (d : Device) (ds : List Device)
    → (check (record { devices = d ∷ ds; multi_device_auth = rule; needs = needs }) now ≡ allow)
      ↔ (required rule (length (d ∷ ds)) ≤ eligible now (d ∷ ds))
unfolding check
check_cons rule needs now d ds =
    let (f, g) = conclude_iff (required rule (length (d ∷ ds))) (survey now start (d ∷ ds)) in
    (
      λ h. omega (arith, f h, survey_allowed now (d ∷ ds) start),
      λ h. g (omega (arith, survey_allowed now (d ∷ ds) start)),
    )

required-Meets :
    (rule : MultiDeviceAuth) (now : ℕ) (d : Device) (ds : List Device)
    → (required rule (length (d ∷ ds)) ≤ eligible now (d ∷ ds)) ↔ Meets rule now (d ∷ ds)
unfolding required
required-Meets any_device now d ds = let (f, g) = Any-eligible now (d ∷ ds) in (g, f)
required-Meets all_devices now d ds =
    let (f, g) = All-eligible now (d ∷ ds) in (λ h. (cc, g h), λ h. f h.1)
required-Meets (at_least n) now d ds = (λ h. ground arith, λ h. ground arith)

not_empty : (rule : MultiDeviceAuth) (now : ℕ) → ¬ Meets rule now []
not_empty any_device now h = h
not_empty all_devices now h = h.0 refl
not_empty (at_least n) now h = omega arith

check_by_devices :
    (rule : MultiDeviceAuth) (needs : Needs) (now : ℕ) (ds : List Device)
    → (check (record { devices = ds; multi_device_auth = rule; needs = needs }) now ≡ allow)
      ↔ Meets rule now ds
check_by_devices rule needs now [] =
    (λ h. absurd (unfold check in cc h), λ h. absurd (not_empty rule now h))
check_by_devices rule needs now (d ∷ ds) =
    let (f, g) = check_cons rule needs now d ds in
    let (f', g') = required-Meets rule now d ds in (λ h. f' (f h), λ h. g (g' h))

-- The fleet allows exactly when its rule is met: under `any` some device is eligible; under `all`
-- there is a device and each one is eligible; under `at-least:n` at least one and at least n are.
pub check-Meets :
    (f : Fleet) (now : ℕ) → (check f now ≡ allow) ↔ Meets f.multi_device_auth now f.devices
check-Meets f now = check_by_devices f.multi_device_auth f.needs now f.devices

required_by :
    (rule : MultiDeviceAuth) (needs : Needs) (now : ℕ) (ds : List Device)
    → check (record { devices = ds; multi_device_auth = rule; needs = needs }) now ≡ allow
    → required rule (length ds) ≤ eligible now ds
required_by rule needs now [] h = absurd (unfold check in cc h)
required_by rule needs now (d ∷ ds) h = (check_cons rule needs now d ds).0 h

-- An Allow has the required number of eligible devices.
pub required_of_allow :
    (f : Fleet) (now : ℕ)
    → check f now ≡ allow
    → required f.multi_device_auth (length f.devices) ≤ eligible now f.devices
required_of_allow f now = required_by f.multi_device_auth f.needs now f.devices
