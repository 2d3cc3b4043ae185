-- ===== src/Fleet/Fields.antt =====
-- The fields that the scanner does not fetch are those that no device reads.
use omarchy_presence_unlock.Base.{
  ℕ, ◌≡◌, refl, ◌⊎◌, inl, inr, false, not, ◌&&◌, List, [], ◌∷◌, none, map, All, arith,
  if◌then◌else◌,
}
use omarchy_presence_unlock.Ble.{Advertisement, Needs, nothing, union, manufacturer}
use omarchy_presence_unlock.Identity
use omarchy_presence_unlock.Identity.{Identity, verdict, payload_matches, matches}
use omarchy_presence_unlock.Profile.{
  Profile, apple_continuity, presence, evaluate_apple_continuity, evaluate_presence,
}
use omarchy_presence_unlock.Apple.{company_id}
use omarchy_presence_unlock.Fleet.{
  DeviceSpec, Device, new_device, MultiDeviceAuth, Fleet, collect_needs, new, observe_device,
  observe,
}

-- The advertisement with the fields that are not needed left out.
abbrev pub restrict : Needs → Advertisement → Advertisement
restrict n ad = record ad {
  name = if n.name then ad.name else none;
  manufacturer_data = if n.manufacturer_data then ad.manufacturer_data else none;
  service_data = if n.service_data then ad.service_data else none;
  service_uuids = if n.service_uuids then ad.service_uuids else none;
}

-- Every field of the second is a field of the first.
pub record Covers (n m : Needs) : Type 0 where
  pub manufacturer_covered : (m.manufacturer_data && not n.manufacturer_data) ≡ false
  pub service_covered : (m.service_data && not n.service_data) ≡ false
  pub uuids_covered : (m.service_uuids && not n.service_uuids) ≡ false
  pub name_covered : (m.name && not n.name) ≡ false

-- The profile is one of the registry.
abbrev pub IsRegistered : Profile → Type 0
IsRegistered p = (p ≡ apple_continuity) ⊎ (p ≡ presence)

abbrev pub IsServed : Needs → DeviceSpec → Type 0
IsServed n spec =
    IsRegistered spec.profile
    × Covers n (Identity.needs spec.identity)
    × Covers n spec.profile.needs

-- The fleet's needs serve each of its devices.
abbrev pub IsCovered : Fleet → Type 0
IsCovered f = All (λ (d : Device). IsServed f.needs d.spec) f.devices

matches-restrict :
    (n : Needs) (i : Identity) (ad : Advertisement)
    → Covers n (Identity.needs i)
    → matches i (restrict n ad) ≡ matches i ad
unfolding matches payload_matches Identity.needs
matches-restrict n i ad c = ground arith

manufacturer-restrict :
    (n : Needs) (ad : Advertisement) (company : ℕ)
    → not n.manufacturer_data ≡ false
    → manufacturer (restrict n ad) company ≡ manufacturer ad company
unfolding manufacturer
manufacturer-restrict n ad company h = ground arith

evaluate_apple-restrict :
    (n : Needs) (ad : Advertisement)
    → Covers n apple_continuity.needs
    → evaluate_apple_continuity (restrict n ad) ≡ evaluate_apple_continuity ad
unfolding evaluate_apple_continuity
evaluate_apple-restrict n ad c =
    rw (manufacturer-restrict n ad company_id c.manufacturer_covered, evaluate_apple_continuity)

evaluate-restrict :
    (n : Needs) (p : Profile) (ad : Advertisement)
    → IsRegistered p
    → Covers n p.needs
    → p.evaluate (restrict n ad) ≡ p.evaluate ad
evaluate-restrict n p ad (inl e) c = rw e (evaluate_apple-restrict n ad (rw e at c))
evaluate-restrict n p ad (inr e) c = rw e (unfold evaluate_presence in refl)

observe_device-restrict :
    (n : Needs) (now : ℕ) (ad : Advertisement) (d : Device)
    → IsServed n d.spec
    → observe_device now (restrict n ad) d ≡ observe_device now ad d
unfolding observe_device
observe_device-restrict n now ad d (registered, identity, profile) = rw (
  matches-restrict n d.spec.identity ad identity,
  evaluate-restrict n d.spec.profile ad registered profile,
)

map-restrict :
    (n : Needs) (now : ℕ) (ad : Advertisement) (ds : List Device)
    → All (λ (d : Device). IsServed n d.spec) ds
    → map (observe_device now (restrict n ad)) ds ≡ map (observe_device now ad) ds
map-restrict n now ad [] h = refl
map-restrict n now ad (d ∷ ds) (s, h) =
    cc (observe_device-restrict n now ad d s, map-restrict n now ad ds h)

-- A fleet whose needs serve its devices does not notice what was not fetched: folding an
-- advertisement with every unneeded field left out gives the same fleet as folding it whole.
pub observe-restrict :
    (f : Fleet) (now : ℕ) (ad : Advertisement)
    → IsCovered f
    → observe f now (restrict f.needs ad) ≡ observe f now ad
unfolding observe
observe-restrict f now ad h = rw (map-restrict f.needs now ad f.devices h)

Covers-trans : (n m k : Needs) → Covers n m → Covers m k → Covers n k
Covers-trans n m k a b = ground arith

Covers-union : (n a b : Needs) → Covers n (union a b) → Covers n a × Covers n b
Covers-union n a b h = (ground arith, ground arith)

Covers-refl : (n : Needs) → Covers n n
Covers-refl n = ground arith

collect_needs-grows : (n : Needs) (specs : List DeviceSpec) → Covers (collect_needs n specs) n
unfolding collect_needs
collect_needs-grows n [] = Covers-refl n
collect_needs-grows n (spec ∷ specs) =
    let a = union n (Identity.needs spec.identity) in
    let grown = collect_needs-grows (union a spec.profile.needs) specs in
    (Covers-union _ n _ (Covers-union _ a _ grown).0).0

collect_needs-serves :
    (n : Needs) (specs : List DeviceSpec)
    → All (λ (s : DeviceSpec). IsRegistered s.profile) specs
    → All (IsServed (collect_needs n specs)) specs
unfolding collect_needs
collect_needs-serves n [] h = tt
collect_needs-serves n (spec ∷ specs) (registered, h) =
    let a = union n (Identity.needs spec.identity) in
    let grown = Covers-union _ a _ (collect_needs-grows (union a spec.profile.needs) specs) in
    (
      (registered, (Covers-union _ n _ grown.0).1, grown.1),
      collect_needs-serves (union a spec.profile.needs) specs h,
    )

IsServed-devices :
    (n : Needs) (specs : List DeviceSpec)
    → All (IsServed n) specs
    → All (λ (d : Device). IsServed n d.spec) (map new_device specs)
unfolding new_device
IsServed-devices n [] h = tt
IsServed-devices n (spec ∷ specs) (s, h) = (s, IsServed-devices n specs h)

-- `Fleet::new` collects needs that serve every device, for profiles of the registry.
pub new-IsCovered :
    (specs : List DeviceSpec) (rule : MultiDeviceAuth)
    → All (λ (s : DeviceSpec). IsRegistered s.profile) specs
    → IsCovered (new specs rule)
unfolding new
new-IsCovered specs rule h =
    IsServed-devices (collect_needs nothing specs) specs (collect_needs-serves nothing specs h)

observed_spec :
    (now : ℕ) (ad : Advertisement) (d : Device) → (observe_device now ad d).spec ≡ d.spec
unfolding observe_device
observed_spec now ad d = ground arith

IsServed-observed :
    (n : Needs) (now : ℕ) (ad : Advertisement) (ds : List Device)
    → All (λ (d : Device). IsServed n d.spec) ds
    → All (λ (d : Device). IsServed n d.spec) (map (observe_device now ad) ds)
IsServed-observed n now ad [] h = tt
IsServed-observed n now ad (d ∷ ds) (s, h) =
    (rw (observed_spec now ad d) s, IsServed-observed n now ad ds h)

-- Folding an advertisement keeps the fleet's needs enough.
pub observe-IsCovered :
    (f : Fleet) (now : ℕ) (ad : Advertisement) → IsCovered f → IsCovered (observe f now ad)
unfolding observe
observe-IsCovered f now ad h = IsServed-observed f.needs now ad f.devices h
