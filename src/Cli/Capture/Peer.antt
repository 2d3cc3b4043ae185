-- ===== src/Cli/Capture/Peer.antt =====
-- Which key belongs to the peer that bonded, whether it is the right one, and what the peer is called.
use omarchy_presence_unlock.Base.{
  ◌/◌, ◌^◌, Bool, true, false, not, ◌&&◌, ◌||◌, List, [], ◌∷◌, Option, none, some, Str, Bytes,
  str_eq, trim, if◌then◌else◌, ◌==◌, is_some_and,
}
use mathlib.Core.List.{reverse}
use omarchy_presence_unlock.Ble.{Address}
use omarchy_presence_unlock.Ble.Text.{parse_address}
use omarchy_presence_unlock.Irk.{first_byte, new_matcher, resolves}
use omarchy_presence_unlock.Cli.Monitor.{CapturedIrk}
use omarchy_presence_unlock.Cli.Devices.{looks_like_address}
use omarchy_presence_unlock.Cli.Capture.{Await, gives, fails, cancelled}

pub data Checked : Type 0 where
  resolved not_applicable refused : Checked

-- `self_check`, over the block cipher.
unfoldable pub self_check : (Bytes → Bytes → Bytes) → Bytes → Address → Checked
self_check aes irk scanned =
    if not (first_byte scanned / 2 ^ 6 == 1)
    then not_applicable
    else if resolves (new_matcher aes (reverse irk)) scanned
    then resolved
    else refused

abbrev pub is_address : Address → Str → Bool
is_address address text = is_some_and (parse_address text) (λ parsed. str_eq parsed address)

-- `belongs_to_peer`
unfoldable pub belongs_to_peer : CapturedIrk → Address → Option Address → Bool
belongs_to_peer c observed identity =
    is_address observed c.random_address
    || is_some_and identity (λ address. is_address address c.identity_address)

-- `capture_peer_irk`: what the monitor gives, until an error or the timeout, or a cancel.
unfoldable pub capture_peer_irk :
    Address → Option Address → List CapturedIrk → Bool → Await CapturedIrk
unfolding belongs_to_peer
capture_peer_irk observed identity [] cancel = if cancel then cancelled else fails
capture_peer_irk observed identity (c ∷ captures) cancel =
    let rest = capture_peer_irk observed identity captures cancel in
    if belongs_to_peer c observed identity then gives c else rest

abbrev pub nonempty : Str → Bool
nonempty [] = false
nonempty (c ∷ s) = true

abbrev pub name_of : Str → Option Str
name_of trimmed =
    if nonempty trimmed && not (looks_like_address trimmed) then some trimmed else none

unfoldable pub reported_name : Option Str → Option Str
unfolding looks_like_address trim
reported_name none = none
reported_name (some candidate) = name_of (trim candidate)

abbrev pub or_else : Option Str → Option Str → Option Str
or_else none other = other
or_else (some s) other = some s

-- `resolve_peer_name`: the device's name and its alias at each round until the deadline.
unfoldable pub resolve_peer_name : List (Option Str × Option Str) → Option Str
unfolding reported_name
resolve_peer_name [] = none
resolve_peer_name ((name, alias) ∷ rounds) =
    or_else (reported_name name) (or_else (reported_name alias) (resolve_peer_name rounds))
