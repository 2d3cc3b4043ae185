-- ===== src/Cli/Capture/Phases.antt =====
-- The phases that a capture reports.
use omarchy_presence_unlock.Base.{
  ℕ, zero, suc, ◌+◌, ◌≡◌, Bool, true, List, [], ◌∷◌, length, ◌&&◌, if◌then◌else◌,
}
use omarchy_presence_unlock.Cli.Capture.{
  rank, Progress, phase, device_removed, settings_restored, enrolled, gives, Flow,
}
use omarchy_presence_unlock.Cli.Capture.Advertise.{Peer}

-- The ranks of the phases among what is said.
unfoldable pub ranks : List Progress → List ℕ
unfolding rank
ranks [] = []
ranks (phase p ∷ said) = rank p ∷ ranks said
ranks (device_removed address ok ∷ said) = ranks said
ranks (settings_restored ok ∷ said) = ranks said
ranks (enrolled id name ∷ said) = ranks said

-- `count` numbers in a row.
unfoldable pub up_from : ℕ → ℕ → List ℕ
up_from first zero = []
up_from first (suc count) = first ∷ up_from (suc first) count

-- A flow that goes on from a phase: the next phases in their order, without a gap, and up to the last
-- one if it runs to its end; it is a success only then. It commits one key if it runs to its end and
-- saving is asked for, and none otherwise.
pub record InOrder (save : Bool) (first : ℕ) (f : Flow) : Type 0 where
  pub count : ℕ
  pub in_order : ranks f.said ≡ up_from first count
  pub last : f.saved ≡ true → first + count ≡ 7
  pub saved : f.result ≡ gives tt → f.saved ≡ true
  pub keys : length f.keys ≡ (if save && f.saved then 1 else 0)
