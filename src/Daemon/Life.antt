-- ===== src/Daemon/Life.antt =====
-- crates/daemon/src/main.rs: the loop that scans, and starts the evidence anew when a scan is over.
use mathlib.Core.Path.{subst}
use omarchy_presence_unlock.Base.{
  ℕ, ◌≤◌, ◌≡◌, refl, ap, ◌∙◌, Bool, List, [], ◌∷◌, Option, none, some, map, any, All, length, arith,
  if◌then◌else◌, Bool-cases, inl, inr,
}
use omarchy_presence_unlock.Base.Int.{ℤ}
use omarchy_presence_unlock.Ble.{Address, Advertisement, Needs}
use omarchy_presence_unlock.Presence.{allow}
use omarchy_presence_unlock.Fleet.{
  DeviceSpec, Device, MultiDeviceAuth, Fleet, required, new, is_interested, observe_device, observe,
  invalidate, check,
}
use omarchy_presence_unlock.Fleet.Log.{
  Delivery, feed, Picks, Attested, IsChronological, latest, check-Attested,
}
use omarchy_presence_unlock.Fleet.Restart.{invalidate-feed}
use omarchy_presence_unlock.Daemon.Scan.{
  Peer, Event, device_added, other_event, Progress, scanning, scan_error, live_rssi,
  read_properties, fold_advertisement, read_live, read_peer, scan_step,
}

-- What the loop meets: an event of the running scan, with its instant, or the end of the scan.
pub data LifeEvent : Type 0 where
  heard : ℕ → Event → LifeEvent
  stopped : LifeEvent

-- The fleet behind one round of the scan: an error ends the scan.
abbrev pub after_round : Fleet → Progress → Fleet
after_round f (scanning g) = g
after_round f scan_error = invalidate f

unfoldable pub life_step : Fleet → LifeEvent → Fleet
life_step f (heard now event) = after_round f (scan_step f now event)
life_step f stopped = invalidate f

-- The fleet of a daemon after the events, newest first.
unfoldable pub live : Fleet → List LifeEvent → Fleet
live f [] = f
live f (e ∷ es) = life_step (live f es) e

-- What the round delivers to the fleet, if anything.
abbrev pub delivered : ℕ → Option Advertisement → List Delivery → List Delivery
delivered now none ds = ds
delivered now (some ad) ds = record { at_ms = now; advertisement = ad } ∷ ds

abbrev pub live_delivery : Needs → ℕ → Address → Peer → Option ℤ → List Delivery → List Delivery
live_delivery n now address peer none ds = ds
live_delivery n now address peer (some rssi) ds =
    delivered now (read_properties address rssi n peer) ds

abbrev pub peer_delivery : Needs → ℕ → Address → Option Peer → List Delivery → List Delivery
peer_delivery n now address none ds = []
peer_delivery n now address (some peer) ds =
    live_delivery n now address peer (live_rssi peer.rssi) ds

abbrev pub event_delivery : Fleet → ℕ → Event → List Delivery → List Delivery
event_delivery f now other_event ds = ds
event_delivery f now (device_added address peer) ds =
    if is_interested f address then peer_delivery f.needs now address peer ds else ds

-- What was read from the addresses of interest since the last scan began.
unfoldable pub since_start : Fleet → List LifeEvent → List Delivery
since_start f [] = []
since_start f (stopped ∷ es) = []
since_start f (heard now event ∷ es) = event_delivery f now event (since_start f es)

any-observe :
    (p : DeviceSpec → Bool) (now : ℕ) (ad : Advertisement) (devices : List Device)
    → any (λ (d : Device). p d.spec) (map (observe_device now ad) devices)
      ≡ any (λ (d : Device). p d.spec) devices
unfolding observe_device
any-observe p now ad [] = refl
any-observe p now ad (d ∷ devices) = ground (arith, any-observe p now ad devices)

-- Interest and needs stay as they are.
is_interested-feed :
    (f : Fleet) (ds : List Delivery) (address : Address)
    → is_interested (feed f ds) address ≡ is_interested f address
unfolding feed is_interested observe
is_interested-feed f [] address = refl
is_interested-feed f (d ∷ ds) address =
    any-observe _ d.at_ms d.advertisement (feed f ds).devices ∙ is_interested-feed f ds address

needs-feed : (f : Fleet) (ds : List Delivery) → (feed f ds).needs ≡ f.needs
unfolding feed observe
needs-feed f [] = refl
needs-feed f (d ∷ ds) = needs-feed f ds

fold_advertisement-feed :
    (f : Fleet) (ds : List Delivery) (now : ℕ) (ad : Option Advertisement)
    → fold_advertisement (feed f ds) now ad ≡ feed f (delivered now ad ds)
unfolding feed
fold_advertisement-feed f ds now none = refl
fold_advertisement-feed f ds now (some ad) = refl

read_live-feed :
    (f : Fleet) (ds : List Delivery) (now : ℕ) (address : Address) (peer : Peer) (rssi : Option ℤ)
    → read_live (feed f ds) now address peer rssi
      ≡ feed f (live_delivery f.needs now address peer rssi ds)
read_live-feed f ds now address peer none = refl
read_live-feed f ds now address peer (some rssi) =
    ap (λ n. fold_advertisement (feed f ds) now (read_properties address rssi n peer))
      (needs-feed f ds)
    ∙ fold_advertisement-feed f ds now (read_properties address rssi f.needs peer)

read_peer-feed :
    (specs : List DeviceSpec) (rule : MultiDeviceAuth) (ds : List Delivery) (now : ℕ)
    (address : Address) (peer : Option Peer)
    → after_round (feed (new specs rule) ds) (read_peer (feed (new specs rule) ds) now address peer)
      ≡ feed (new specs rule) (peer_delivery (new specs rule).needs now address peer ds)
unfolding feed
read_peer-feed specs rule ds now address none = invalidate-feed specs rule ds
read_peer-feed specs rule ds now address (some peer) =
    read_live-feed (new specs rule) ds now address peer (live_rssi peer.rssi)

round-feed :
    (specs : List DeviceSpec) (rule : MultiDeviceAuth) (ds : List Delivery) (now : ℕ)
    (event : Event)
    → after_round (feed (new specs rule) ds) (scan_step (feed (new specs rule) ds) now event)
      ≡ feed (new specs rule) (event_delivery (new specs rule) now event ds)
unfolding scan_step
round-feed specs rule ds now other_event = refl
round-feed specs rule ds now (device_added address peer) =
    elim (Bool-cases (is_interested (new specs rule) address)) [
      | inl cared ↦
          rw (is_interested-feed (new specs rule) ds address, cared)
            (read_peer-feed specs rule ds now address peer)
      | inr stranger ↦ rw (is_interested-feed (new specs rule) ds address, stranger) refl
    ]

-- Whatever the daemon has met, its fleet is the new fleet fed with what was read, from addresses of
-- interest, since the last scan began: nothing of a scan that is over counts.
pub live-feed :
    (specs : List DeviceSpec) (rule : MultiDeviceAuth) (es : List LifeEvent)
    → live (new specs rule) es ≡ feed (new specs rule) (since_start (new specs rule) es)
unfolding live life_step since_start
live-feed specs rule [] = unfold feed in refl
live-feed specs rule (stopped ∷ es) =
    ap invalidate (live-feed specs rule es)
    ∙ (invalidate-feed specs rule (since_start (new specs rule) es) ∙ unfold feed in refl)
live-feed specs rule (heard now event ∷ es) =
    ap (λ f. after_round f (scan_step f now event)) (live-feed specs rule es)
    ∙ round-feed specs rule (since_start (new specs rule) es) now event

-- If a daemon, whose clock never went back in the running scan, allows at an instant not before its
-- last reading, then as many enrolled devices as the rule requires each have evidence, read since the
-- last scan began, that supports it.
pub live-Attested :
    (specs : List DeviceSpec) (rule : MultiDeviceAuth) (es : List LifeEvent) (now : ℕ)
    → IsChronological (since_start (new specs rule) es)
    → latest (since_start (new specs rule) es) ≤ now
    → check (live (new specs rule) es) now ≡ allow
    → (chosen : List DeviceSpec) × Picks chosen specs
      × (required rule (length specs) ≤ length chosen)
      × All (Attested now (since_start (new specs rule) es)) chosen
live-Attested specs rule es now h le allowed =
    check-Attested specs rule (since_start (new specs rule) es) now h le
      (subst (λ f. check f now ≡ allow) (live-feed specs rule es) allowed)
