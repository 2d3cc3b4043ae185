-- ===== src/Fleet/Log.antt =====
-- The fleet as one log for each device: what the enrolled devices have shown after any sequence of
-- advertisements.
use omarchy_presence_unlock.Base.{
  ℕ, ◌≡◌, refl, ◌≤◌, ◌∷◌, [], List, map, ap, ◌∙◌, All, arith, length, Bool-cases, if◌then◌else◌,
  inl, inr, suc,
}
use omarchy_presence_unlock.Ble.{Advertisement}
use omarchy_presence_unlock.Identity.{matches}
use omarchy_presence_unlock.Presence.{Decision, allow, deny}
use omarchy_presence_unlock.Presence.Log.{Sighting, Log, run, newest, IsOrdered}
use omarchy_presence_unlock.Presence.Evidence.{Evidence, check-Evidence}
use omarchy_presence_unlock.Fleet.{
  DeviceSpec, Device, new_device, check_device, MultiDeviceAuth, required, Fleet, new,
  observe_device, observe, check,
}
use omarchy_presence_unlock.Fleet.Rule.{eligible, required_of_allow}

-- An advertisement with the instant at which the scanner folds it.
pub record Delivery : Type 0 where
  pub at_ms : ℕ
  pub advertisement : Advertisement

-- The fleet after the deliveries, newest first.
unfoldable pub feed : Fleet → List Delivery → Fleet
feed f [] = f
feed f (d ∷ ds) = observe (feed f ds) d.at_ms d.advertisement

abbrev pub sighting : DeviceSpec → Delivery → Sighting
sighting spec d = record {
  now_ms = d.at_ms;
  rssi = d.advertisement.rssi;
  observation = spec.profile.evaluate d.advertisement;
}

-- The log of the device: the deliveries that match its identity, as its profile reads them.
abbrev pub sightings : DeviceSpec → List Delivery → Log
sightings spec [] = []
sightings spec (d ∷ ds) =
    let rest = sightings spec ds in
    if matches spec.identity d.advertisement then sighting spec d ∷ rest else rest

abbrev pub device_after : List Delivery → DeviceSpec → Device
device_after ds spec = record { spec = spec; eligibility = run spec.policy (sightings spec ds) }

observe-device_after :
    (d : Delivery) (ds : List Delivery) (spec : DeviceSpec)
    → observe_device d.at_ms d.advertisement (device_after ds spec) ≡ device_after (d ∷ ds) spec
unfolding observe_device run
observe-device_after d ds spec = elim (Bool-cases (matches spec.identity d.advertisement)) [
  | inl e ↦ rw e refl
  | inr e ↦ rw e refl
]

map-device_after :
    (d : Delivery) (ds : List Delivery) (specs : List DeviceSpec)
    → map (observe_device d.at_ms d.advertisement) (map (device_after ds) specs)
      ≡ map (device_after (d ∷ ds)) specs
map-device_after d ds [] = refl
map-device_after d ds (spec ∷ specs) =
    cc (observe-device_after d ds spec, map-device_after d ds specs)

map-new_device : (specs : List DeviceSpec) → map new_device specs ≡ map (device_after []) specs
unfolding new_device run
map-new_device [] = refl
map-new_device (spec ∷ specs) = ap (◌∷◌ (device_after [] spec)) (map-new_device specs)

-- A fleet that has folded any sequence of advertisements holds, for each enrolled device in order,
-- exactly the evidence of that device's own log: those advertisements that match its identity, as
-- its profile reads them.
pub feed_devices :
    (specs : List DeviceSpec) (rule : MultiDeviceAuth) (ds : List Delivery)
    → (feed (new specs rule) ds).devices ≡ map (device_after ds) specs
unfolding feed observe
feed_devices specs rule [] = unfold new in map-new_device specs
feed_devices specs rule (d ∷ ds) =
    ap (map (observe_device d.at_ms d.advertisement)) (feed_devices specs rule ds)
    ∙ map-device_after d ds specs

feed_rule : (f : Fleet) (ds : List Delivery) → (feed f ds).multi_device_auth ≡ f.multi_device_auth
unfolding feed observe
feed_rule f [] = refl
feed_rule f (d ∷ ds) = feed_rule f ds

abbrev pub latest : List Delivery → ℕ
latest [] = 0
latest (d ∷ ds) = d.at_ms

-- The scanner's clock never goes back.
abbrev pub IsChronological : List Delivery → Type 0
IsChronological [] = Unit
IsChronological (d ∷ ds) = (latest ds ≤ d.at_ms) × IsChronological ds

newest-sightings-le :
    (spec : DeviceSpec) (ds : List Delivery)
    → IsChronological ds
    → newest (sightings spec ds) ≤ latest ds
newest-sightings-le spec [] h = omega arith
newest-sightings-le spec (d ∷ ds) (le, h) = ground (arith, newest-sightings-le spec ds h)

sightings-IsOrdered :
    (spec : DeviceSpec) (ds : List Delivery) → IsChronological ds → IsOrdered (sightings spec ds)
sightings-IsOrdered spec [] h = tt
sightings-IsOrdered spec (d ∷ ds) (le, h) =
    elim (Bool-cases (matches spec.identity d.advertisement)) [
      | inl e ↦ rw e (omega (arith, newest-sightings-le spec ds h), sightings-IsOrdered spec ds h)
      | inr e ↦ rw e (sightings-IsOrdered spec ds h)
    ]

-- The device's log holds evidence that its policy accepts at the instant.
abbrev pub Attested : ℕ → List Delivery → DeviceSpec → Type 0
Attested now ds spec = (samples : List ℕ) × Evidence spec.policy (sightings spec ds) now samples

Attested-device :
    (now : ℕ) (ds : List Delivery) (spec : DeviceSpec)
    → IsChronological ds
    → latest ds ≤ now
    → check_device (device_after ds spec) now ≡ allow
    → Attested now ds spec
unfolding check_device
Attested-device now ds spec h le =
    check-Evidence spec.policy (sightings spec ds) now (sightings-IsOrdered spec ds h)
      (omega (arith, newest-sightings-le spec ds h))

-- `Picks chosen all`: the chosen ones, in order, with the others left out.
pub data Picks : List DeviceSpec → List DeviceSpec → Type 0 where
  done : Picks [] []
  take : {xs ys : List DeviceSpec} (x : DeviceSpec) → Picks xs ys → Picks (x ∷ xs) (x ∷ ys)
  skip : {xs ys : List DeviceSpec} (x : DeviceSpec) → Picks xs ys → Picks xs (x ∷ ys)

pick_eligible :
    (now : ℕ) (ds : List Delivery) (specs : List DeviceSpec)
    → IsChronological ds
    → latest ds ≤ now
    → (chosen : List DeviceSpec) × Picks chosen specs
      × (length chosen ≡ eligible now (map (device_after ds) specs))
      × All (Attested now ds) chosen
pick_eligible now ds [] h le = ([], done, refl, tt)
pick_eligible now ds (spec ∷ specs) h le =
    let (chosen, picks, count, attested) = pick_eligible now ds specs h le in
    by_decision (check_device (device_after ds spec) now) refl chosen picks count attested
  where
    by_decision :
        (c : Decision)
        → check_device (device_after ds spec) now ≡ c
        → (chosen : List DeviceSpec) → Picks chosen specs
        → length chosen ≡ eligible now (map (device_after ds) specs)
        → All (Attested now ds) chosen
        → (chosen : List DeviceSpec) × Picks chosen (spec ∷ specs)
          × (length chosen ≡ eligible now (map (device_after ds) (spec ∷ specs)))
          × All (Attested now ds) chosen
    by_decision allow e chosen picks count attested = (
      spec ∷ chosen,
      take spec picks,
      rw e (ap suc count),
      (Attested-device now ds spec h le e, attested),
    )
    by_decision (deny r) e chosen picks count attested =
        (chosen, skip spec picks, rw e count, attested)

length-map :
    (ds : List Delivery) (specs : List DeviceSpec)
    → length (map (device_after ds) specs) ≡ length specs
length-map ds [] = refl
length-map ds (spec ∷ specs) = ap suc (length-map ds specs)

-- When a fleet that has folded any chronological sequence of advertisements allows, at an instant
-- not before the newest, then there are at least as many enrolled devices as the rule requires (one,
-- all, or max(n, 1) of them) each of which has given its own evidence: enough strong, qualifying
-- advertisements that match its identity, spaced, in the window, fresh, and after its last
-- revocation.
pub check-Attested :
    (specs : List DeviceSpec) (rule : MultiDeviceAuth) (ds : List Delivery) (now : ℕ)
    → IsChronological ds
    → latest ds ≤ now
    → check (feed (new specs rule) ds) now ≡ allow
    → (chosen : List DeviceSpec) × Picks chosen specs
      × (required rule (length specs) ≤ length chosen)
      × All (Attested now ds) chosen
unfolding new
check-Attested specs rule ds now h le allowed =
    let f = feed (new specs rule) ds in
    let (chosen, picks, count, attested) = pick_eligible now ds specs h le in
    let enough : required rule (length specs) ≤ eligible now (map (device_after ds) specs) =
      rw (feed_devices specs rule ds, feed_rule (new specs rule) ds, length-map ds specs) at
        (required_of_allow f now allowed) in
    (chosen, picks, omega arith, attested)
