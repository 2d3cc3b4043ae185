-- ===== src/Daemon/Control.antt =====
-- crates/daemon/src/control.rs: the control socket. The instant that `boottime_ms` reads and what the
-- kernel says of the peer, the endpoint and the stream are arguments.
use omarchy_presence_unlock.Base.{
  ℕ, Bool, true, false, not, List, [], ◌∷◌, ◌++◌, Option, none, some, Str, Bytes, str_eq, take,
  length, ltb, ◌==◌, if◌then◌else◌, from_utf8, utf8,
}
use omarchy_presence_unlock.Presence
use omarchy_presence_unlock.Presence.{Decision}
use omarchy_presence_unlock.Wire.{req_check, req_status, resp_allow, resp_end, deny, deny_protocol}
use omarchy_presence_unlock.Wire.Row.{device_status}
use omarchy_presence_unlock.Wire.RoundTrip.{decision_text}
use omarchy_presence_unlock.Fleet.{Fleet, DeviceStatus, check, report}

abbrev pub max_request_bytes : ℕ
max_request_bytes = 64

abbrev pub max_concurrent_clients : ℕ
max_concurrent_clients = 8

unfoldable pub render : Decision → Str
unfolding deny
render Presence.allow = resp_allow
render (Presence.deny reason) = deny reason

-- The loop of `status` over the report.
unfoldable pub status_rows : List DeviceStatus → Str
status_rows [] = []
status_rows (row ∷ rows) =
    device_status row.id row.profile.id (decision_text row.decision) row.rssi ++ status_rows rows

-- A row for each device, the aggregate, and the end.
unfoldable pub status : Fleet → ℕ → Str
unfolding status_rows
status f now = status_rows (report f now) ++ (render (check f now) ++ resp_end)

unfoldable pub respond : Str → Fleet → ℕ → Str
respond request f now =
    if str_eq request req_check
    then render (check f now)
    else if str_eq request req_status
    then status f now
    else deny deny_protocol

-- What arrives on a connection within the timeout, and whether the client closed its side.
pub record Incoming : Type 0 where
  pub bytes : Bytes
  pub closed : Bool

pub data AnswerError : Type 0 where
  permission_denied timed_out invalid_data : AnswerError

pub data Answer : Type 0 where
  written : Bytes → Answer
  failed : AnswerError → Answer

-- `read_line`: up to and with the first newline.
unfoldable pub first_line : Bytes → Bytes
first_line [] = []
first_line (b ∷ bytes) = let rest = first_line bytes in if b == 10 then b ∷ [] else b ∷ rest

unfoldable pub has_newline : Bytes → Bool
has_newline [] = false
has_newline (b ∷ bytes) = let rest = has_newline bytes in if b == 10 then true else rest

-- The bounded read ends at a newline, at the limit or at the end of the stream; otherwise the timeout
-- ends it.
unfoldable pub is_complete : Incoming → Bool
unfolding has_newline
is_complete i =
    if has_newline (take max_request_bytes i.bytes)
    then true
    else if ltb (length i.bytes) max_request_bytes
    then i.closed
    else true

abbrev pub answer_line : Option Str → Fleet → ℕ → Answer
answer_line none f now = failed invalid_data
answer_line (some line) f now = written (utf8 (respond line f now))

-- `answer`, for a peer and a daemon of these user ids.
unfoldable pub answer : ℕ → ℕ → Incoming → Fleet → ℕ → Answer
unfolding first_line is_complete
answer peer daemon i f now =
    if not (peer == daemon)
    then failed permission_denied
    else if not (is_complete i)
    then failed timed_out
    else answer_line (from_utf8 (first_line (take max_request_bytes i.bytes))) f now
