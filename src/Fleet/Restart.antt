-- ===== src/Fleet/Restart.antt =====
-- A dead scan starts the evidence anew.
use omarchy_presence_unlock.Base.{◌≡◌, refl, ap, ◌∙◌, List, [], ◌∷◌, map}
use omarchy_presence_unlock.Presence
use omarchy_presence_unlock.Presence.{Eligibility, default_eligibility}
use omarchy_presence_unlock.Fleet.{
  DeviceSpec, new_device, MultiDeviceAuth, Fleet, new, observe, invalidate_device, invalidate,
}
use omarchy_presence_unlock.Fleet.Log.{Delivery, feed, device_after, feed_devices}

-- `Eligibility::invalidate` leaves nothing behind.
forgotten : (e : Eligibility) → Presence.invalidate e ≡ default_eligibility
unfolding Presence.invalidate
forgotten e = refl

renewed :
    (ds : List Delivery) (specs : List DeviceSpec)
    → map invalidate_device (map (device_after ds) specs) ≡ map new_device specs
unfolding invalidate_device new_device
renewed ds [] = refl
renewed ds (spec ∷ specs) = cc (renewed ds specs, forgotten (device_after ds spec).eligibility)

feed_rest :
    (f : Fleet) (ds : List Delivery)
    → feed f ds ≡ record {
      devices = (feed f ds).devices;
      multi_device_auth = f.multi_device_auth;
      needs = f.needs;
    }
unfolding feed observe
feed_rest f [] = refl
feed_rest f (d ∷ ds) = ap (λ g. observe g d.at_ms d.advertisement) (feed_rest f ds)

-- When a scan dies, the fleet becomes the one that was enrolled: after any sequence of advertisements
-- an invalidated fleet is exactly `Fleet::new` of the same devices and rule.
pub invalidate-feed :
    (specs : List DeviceSpec) (rule : MultiDeviceAuth) (ds : List Delivery)
    → invalidate (feed (new specs rule) ds) ≡ new specs rule
unfolding invalidate new
invalidate-feed specs rule ds =
    ap invalidate (feed_rest (new specs rule) ds)
    ∙ ap (λ l. record (new specs rule) { devices = l })
        (ap (map invalidate_device) (feed_devices specs rule ds) ∙ renewed ds specs)
