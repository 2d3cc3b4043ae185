-- ===== src/Cli/Capture.antt =====
-- crates/cli/src/pairing.rs and enrollment/mod.rs: the enrollment of a peer that pairs with this
-- computer. What BlueZ and the user answer comes with each run, with the waits that a cancel can end.
pub mod Peer
pub mod Advertise
pub mod Phases
pub mod Earned
pub mod Restore
pub mod Daemon
mod Tests
use omarchy_presence_unlock.Base.{
  ℕ, suc, ◌+◌, Bool, true, false, not, ◌&&◌, ◌||◌, List, [], ◌∷◌, ◌++◌, Option, none, some, Str,
  Bytes,
}
use omarchy_presence_unlock.Cli.Monitor.{CapturedIrk}

pub data Phase : Type 0 where
  adapter_ready monitor_ready : Phase
  advertising : Str → Phase
  connected : Option Str → Phase
  bonded identity_received verified : Phase

unfoldable pub rank : Phase → ℕ
rank adapter_ready = 0
rank monitor_ready = 1
rank (advertising name) = 2
rank (connected name) = 3
rank bonded = 4
rank identity_received = 5
rank verified = 6

pub data Progress : Type 0 where
  phase : Phase → Progress
  -- `Cleanup`: the device that was removed, or the settings of the adapter, with its `ok`
  device_removed : Bytes → Bool → Progress
  settings_restored : Bool → Progress
  enrolled : Str → Option Str → Progress

-- How a wait ends: with a value, with an error or a timeout, or because a cancel came first.
pub data Await {ℓ} (A : Type ℓ) : Type ℓ where
  gives : A → Await A
  fails cancelled : Await A

-- What was reported, what was enrolled, whether it is committed, and how it ended.
pub record Flow : Type 0 where
  pub said : List Progress
  pub keys : List CapturedIrk
  pub saved : Bool
  pub result : Await (Unit {0})

abbrev pub ended : Await (Unit {0}) → Flow
ended result = record { said = []; keys = []; saved = false; result = result }

-- `?`, at a wait.
infixl 5 ◌>>=◌
abbrev pub ◌>>=◌ {ℓ} : {A : Type ℓ} → Await A → (A → Flow) → Flow
gives a >>= next = next a
fails >>= next = ended fails
cancelled >>= next = ended cancelled

abbrev pub say : Progress → Flow → Flow
say p flow = record flow { said = p ∷ flow.said }
