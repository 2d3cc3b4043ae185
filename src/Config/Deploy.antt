-- ===== src/Config/Deploy.antt =====
-- What the daemon starts with: the fleet of the settings, as `main` makes it.
use mathlib.Core.Path.{subst}
use omarchy_presence_unlock.Base.{ℕ, zero, suc, ◌-◌, ◌*◌, ◌≡◌, refl, sym, All, All-map, arith}
use omarchy_presence_unlock.Presence.{Policy, allow, min_sample_spacing_ms, check}
use omarchy_presence_unlock.Presence.Log.{run}
use omarchy_presence_unlock.Presence.Feasible.{beats, check-beats}
use omarchy_presence_unlock.Fleet.{DeviceSpec, Fleet, new}
use omarchy_presence_unlock.Fleet.Fields.{IsCovered, new-IsCovered}
use omarchy_presence_unlock.Config.{ConfigFile, Settings, ok}
use omarchy_presence_unlock.Config.Policy.{IsSafe}
use omarchy_presence_unlock.Config.Device.{Crates}
use omarchy_presence_unlock.Config.Resolve.{resolve}
use omarchy_presence_unlock.Config.Usable.{IsUsable}
use omarchy_presence_unlock.Config.Sound.{resolve-IsSound}

-- `Fleet::new(settings.devices, settings.multi_device_auth)`
unfoldable pub deploy : Settings → Fleet
deploy s = new s.devices s.multi_device_auth

-- The needs of a deployed fleet serve every one of its devices.
pub resolve-IsCovered :
    (c : Crates) (file : ConfigFile) (s : Settings) → resolve c file ≡ ok s → IsCovered (deploy s)
unfolding deploy
resolve-IsCovered c file s h =
    new-IsCovered s.devices s.multi_device_auth
      (All-map IsUsable _ s.devices (λ spec u. u.registered) (resolve-IsSound c file s h).usable)

-- Sightings of full strength, one each 50 ms, as many as the policy asks for, allow.
abbrev pub IsFeasible : Policy → Type 0
IsFeasible p =
    check (run p (beats p p.minimum_samples)) (min_sample_spacing_ms * (p.minimum_samples - 1)) p
    ≡ allow

safe-IsFeasible : (p : Policy) (n : ℕ) → p.minimum_samples ≡ n → IsSafe p → IsFeasible p
safe-IsFeasible p zero e safe = absurd (omega (arith, safe.some_sample))
safe-IsFeasible p (suc n) e safe =
    let last : n ≡ suc n - 1 = omega arith in
    subst (λ m. check (run p (beats p m)) (min_sample_spacing_ms * (m - 1)) p ≡ allow) (sym e)
      (subst (λ k. check (run p (beats p (suc n))) (min_sample_spacing_ms * k) p ≡ allow) last
        (check-beats p n e safe.samples_fit))

-- Every device of accepted settings can be allowed: enough strong sightings, one each 50 ms, do it.
pub resolve-IsFeasible :
    (c : Crates) (file : ConfigFile) (s : Settings)
    → resolve c file ≡ ok s
    → All (λ (spec : DeviceSpec). IsFeasible spec.policy) s.devices
resolve-IsFeasible c file s h =
    All-map IsUsable _ s.devices
      (λ spec u. safe-IsFeasible spec.policy spec.policy.minimum_samples refl u.safe)
      (resolve-IsSound c file s h).usable
