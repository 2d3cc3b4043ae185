-- ===== src/Cli/Capture/Earned.antt =====
-- Which key is enrolled.
use omarchy_presence_unlock.Base.{
  ◌≡◌, ◌≢◌, inl, inr, refl, sym, ap, ◌∙◌, Bool, true, false, not, List, [], ◌∷◌, Option, some, Str,
  Bytes, All, if_cases, Bool-cases, arith,
}
use omarchy_presence_unlock.Ble.{Address}
use omarchy_presence_unlock.Cli.Monitor.{CapturedIrk}
use omarchy_presence_unlock.Cli.Capture.{Await, gives, fails, cancelled, Flow, ◌>>=◌}
use omarchy_presence_unlock.Cli.Capture.Peer.{
  Checked, resolved, not_applicable, refused, self_check, belongs_to_peer, capture_peer_irk,
  resolve_peer_name, or_else,
}
use omarchy_presence_unlock.Cli.Capture.Advertise.{
  Peer, Attempt, to_await, adapter_index, passed, save_capture, after_bond, active_capture, Left,
  advertise_flow,
}

-- A key that was captured for the peer that connected, and that is not refused by the check against
-- the address which that peer used.
pub record IsEarned (aes : Bytes → Bytes → Bytes) (a : Attempt) (c : CapturedIrk) : Type 0 where
  pub peer : Peer
  pub answered : a.connection ≡ gives peer
  pub secured : a.security ≡ gives tt
  pub belongs : belongs_to_peer c peer.observed peer.identity ≡ true
  pub checked : self_check aes c.key peer.observed ≢ refused
  pub asked : a.save ≡ true

module _ (P : CapturedIrk → Type 0) where
  wait-Keys :
      {A : Type 0} (o : Await A) (next : A → Flow)
      → ((v : A) → o ≡ gives v → All P (next v).keys)
      → All P (o >>= next).keys
  wait-Keys (gives v) next h = h v refl
  wait-Keys fails next h = tt
  wait-Keys cancelled next h = tt

captured :
    (observed : Address) (identity : Option Address) (captures : List CapturedIrk) (cancel : Bool)
    (c : CapturedIrk)
    → capture_peer_irk observed identity captures cancel ≡ gives c
    → belongs_to_peer c observed identity ≡ true
unfolding capture_peer_irk
captured observed identity [] true c h = absurd (cc h)
captured observed identity [] false c h = absurd (cc h)
captured observed identity (d ∷ captures) cancel c h =
    elim (Bool-cases (belongs_to_peer d observed identity)) [
      | inl mine ↦
          let same : d ≡ c = cc (rw mine at h) in
          ap (λ e. belongs_to_peer e observed identity) (sym same) ∙ mine
      | inr other ↦ captured observed identity captures cancel c (rw other at h)
    ]

passed-gives : (c : Checked) (u : Unit {0}) → passed c ≡ gives u → c ≢ refused
passed-gives resolved u h = λ e. absurd (cc e)
passed-gives not_applicable u h = λ e. absurd (cc e)
passed-gives refused u h = absurd (cc h)

module _ (aes : Bytes → Bytes → Bytes) (a : Attempt) where
  Earned : CapturedIrk → Type 0
  Earned = IsEarned aes a

  saved-Keys :
      (c : CapturedIrk) (name : Option Str)
      → (a.save ≡ true → Earned c)
      → All Earned (save_capture a c name).keys
  unfolding save_capture
  saved-Keys c name earned =
      if_cases (λ (f : Flow). All Earned f.keys) (not a.save) _ _ (λ e. tt)
        (λ e.
          wait-Keys Earned (to_await (a.enroll c (or_else name (some a.fallback)))) _
            (λ id e'. (earned (ground (arith, e)), tt)))

  bonded-Keys :
      (peer : Peer)
      → a.connection ≡ gives peer
      → a.security ≡ gives tt
      → All Earned (after_bond aes a peer).keys
  unfolding after_bond Earned
  bonded-Keys peer answered secured =
      wait-Keys Earned (capture_peer_irk peer.observed peer.identity a.captures a.capture_cancelled)
        _
        (λ c got. wait-Keys Earned (passed (self_check aes c.key peer.observed)) _ (λ u checked.
          wait-Keys Earned a.names _ (λ names got_names.
            saved-Keys c (resolve_peer_name names) (λ asked. record {
              peer = peer;
              answered = answered;
              secured = secured;
              belongs = captured peer.observed peer.identity a.captures a.capture_cancelled c got;
              checked = passed-gives (self_check aes c.key peer.observed) u checked;
              asked = asked;
            }))))

  active-Keys : All Earned (active_capture aes a).keys
  unfolding active_capture
  active-Keys = wait-Keys Earned (to_await (adapter_index a.adapter_name)) _ (λ index e1.
      wait-Keys Earned a.monitor _ (λ monitor e2. wait-Keys Earned a.agent _ (λ agent e3.
        wait-Keys Earned a.application _ (λ application e4.
          wait-Keys Earned a.advertisement _ (λ advertisement e5.
            wait-Keys Earned a.connection _ (λ peer answered.
              wait-Keys Earned a.security _
                (λ security secured. bonded-Keys peer answered secured)))))))

-- Every key that an enrollment commits is the key of a peer that connected and was secured during
-- this run: the kernel reported it on the address of that peer or for its identity, the check against that
-- address does not refuse it, and the caller asked for it to be saved.
pub advertise_flow-IsEarned :
    (aes : Bytes → Bytes → Bytes) (a : Attempt) (established : List Address) (devices : List Left)
    (restored : Bool)
    → All (IsEarned aes a) (advertise_flow aes a established devices restored).keys
unfolding advertise_flow Earned
advertise_flow-IsEarned aes a established devices restored = active-Keys aes a
