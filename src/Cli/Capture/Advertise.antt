-- ===== src/Cli/Capture/Advertise.antt =====
-- `active_capture`, `save_capture` and `advertise_flow`.
use omarchy_presence_unlock.Base.{
  ℕ, Bool, true, not, ◌||◌, List, [], ◌∷◌, ◌++◌, Option, none, some, Str, Bytes, codes, str_eq,
  strip_prefix, any, if◌then◌else◌,
}
use omarchy_presence_unlock.Ble.{Address}
use omarchy_presence_unlock.Numbers.{parse_unsigned}
use omarchy_presence_unlock.Cli.Monitor.{CapturedIrk}
use omarchy_presence_unlock.Cli.Capture.{
  adapter_ready, monitor_ready, advertising, connected, bonded, identity_received, verified,
  Progress, phase, device_removed, settings_restored, enrolled, Await, gives, fails, Flow, ◌>>=◌,
  say,
}
use omarchy_presence_unlock.Cli.Capture.Peer.{
  Checked, resolved, not_applicable, refused, self_check, capture_peer_irk, reported_name, or_else,
  resolve_peer_name,
}

-- A peer that connects: its address on the air, its alias, and its identity behind the bond.
pub record Peer : Type 0 where
  pub observed : Address
  pub alias : Option Str
  pub identity : Option Address

-- What the waits of one run give, and what the caller asked for.
pub record Attempt : Type 0 where
  pub adapter_name : Str
  pub advertised_name : Str
  pub monitor : Await (Unit {0})
  pub agent : Await (Unit {0})
  pub application : Await (Unit {0})
  pub advertisement : Await (Unit {0})
  pub connection : Await Peer
  pub security : Await (Unit {0})
  pub captures : List CapturedIrk
  -- whether a cancel, and not an error or the timeout, ends the wait for more of them
  pub capture_cancelled : Bool
  pub names : Await (List (Option Str × Option Str))
  -- what `enroll_irk` returns: the id, or an error
  pub enroll : CapturedIrk → Option Str → Option Str
  pub fallback : Str
  pub save : Bool

abbrev pub to_await {ℓ} : {A : Type ℓ} → Option A → Await A
to_await none = fails
to_await (some a) = gives a

abbrev pub parsed_index : Option Str → Option ℕ
parsed_index none = none
parsed_index (some text) = parse_unsigned 10 65535 text

-- `strip_prefix("hci")` and the number behind it.
unfoldable pub adapter_index : Str → Option ℕ
adapter_index name = parsed_index (strip_prefix (codes "hci") name)

abbrev pub passed : Checked → Await (Unit {0})
passed resolved = gives tt
passed not_applicable = gives tt
passed refused = fails

-- The key is committed, with nothing to wait for up to the end.
abbrev pub committed : List CapturedIrk → Flow
committed keys = record { said = phase verified ∷ []; keys = keys; saved = true; result = gives tt }

-- `save_capture`, and what follows it.
unfoldable pub save_capture : Attempt → CapturedIrk → Option Str → Flow
save_capture a c peer_name =
    if not a.save
    then committed []
    else to_await (a.enroll c (or_else peer_name (some a.fallback))) >>= λ id.
        say (enrolled id peer_name) (committed (c ∷ []))

module _ (aes : Bytes → Bytes → Bytes) (a : Attempt) where
  unfoldable pub after_bond : Peer → Flow
  unfolding capture_peer_irk self_check resolve_peer_name save_capture
  after_bond peer = do
    c ← capture_peer_irk peer.observed peer.identity a.captures a.capture_cancelled
    checked ← passed (self_check aes c.key peer.observed)
    say (phase identity_received) (a.names >>= λ names. save_capture a c (resolve_peer_name names))

  unfoldable pub active_capture : Flow
  unfolding after_bond adapter_index reported_name
  active_capture = do
    index ← to_await (adapter_index a.adapter_name)
    monitor ← a.monitor
    say (phase monitor_ready) (do
      agent ← a.agent
      application ← a.application
      advertisement ← a.advertisement
      say (phase (advertising a.advertised_name)) (do
        peer ← a.connection
        say (phase (connected (reported_name peer.alias)))
            (do security ← a.security; say (phase bonded) (after_bond peer))))

-- A device of the adapter at the end: its address, whether it is there, connected and paired, and
-- whether it could be removed.
pub record Left : Type 0 where
  pub address : Address
  pub there : Bool
  pub connected : Bool
  pub paired : Bool
  pub removal : Bool

abbrev pub contains : List Address → Address → Bool
contains addresses address = any (λ known. str_eq known address) addresses

-- `cleanup_new_capture_devices`, over the addresses that the adapter lists.
unfoldable pub cleanup_new : List Address → List Left → List Progress
cleanup_new established [] = []
cleanup_new established (d ∷ devices) =
    let rest = cleanup_new established devices in
    if contains established d.address || not d.there
    then rest
    else if d.connected || d.paired
    then device_removed d.address d.removal ∷ rest
    else rest

-- `advertise_flow`, once the adapter is pairable: the capture unless a cancel wins, the cleanup and
-- the settings.
unfoldable pub advertise_flow :
    (Bytes → Bytes → Bytes) → Attempt → List Address → List Left → Bool → Flow
unfolding active_capture cleanup_new
advertise_flow aes a established devices restored =
    let capture = active_capture aes a in
    let cleanup = cleanup_new established devices ++ settings_restored restored ∷ [] in
    record capture {
      said = phase adapter_ready ∷ (capture.said ++ cleanup);
      result = if capture.saved then gives tt else capture.result;
    }
