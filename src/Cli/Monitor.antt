-- ===== src/Cli/Monitor.antt =====
-- crates/cli/src/enrollment/mgmt.rs: the privileged helper that prints the keys the kernel reports, and
-- the reading of what it prints. How an address is printed is another crate's: its text is in the event.
pub mod RoundTrip
mod Tests
use omarchy_presence_unlock.Base.{
  ℕ, zero, suc, ◌+◌, ◌-◌, ◌/◌, ◌%◌, Bool, true, false, not, ◌&&◌, ◌||◌, List, [], ◌∷◌, ◌++◌, Option,
  none, some, Str, Bytes, codes, str_eq, length, ltb, if◌then◌else◌, ◌==◌, is_whitespace, field,
  utf8, from_utf8,
}
use omarchy_presence_unlock.Irk.BondFile.{octet_of}

pub record CapturedIrk : Type 0 where
  pub random_address : Str
  pub identity_address : Str
  pub key : Bytes

-- `split_whitespace`, with the field read so far.
unfoldable pub fields_from : Str → Str → List Str
fields_from cur [] = field cur
fields_from cur (c ∷ s) =
    let next = fields_from [] s in
    let more = fields_from (cur ++ c ∷ []) s in if is_whitespace c then field cur ++ next else more

abbrev pub add_octet : Option ℕ → Option Bytes → Option Bytes
add_octet none rest = none
add_octet (some b) none = none
add_octet (some b) (some rest) = some (b ∷ rest)

-- The loop over the chunks of two bytes.
unfoldable pub read_octets : Bytes → Option Bytes
read_octets [] = some []
read_octets (a ∷ []) = some []
read_octets (a ∷ b ∷ bytes) = add_octet (octet_of (from_utf8 (a ∷ b ∷ []))) (read_octets bytes)

abbrev pub with_key : Str → Str → Option Bytes → Option CapturedIrk
with_key random identity none = none
with_key random identity (some key) =
    some (record { random_address = random; identity_address = identity; key = key })

-- The fields of a line: the tag, the two addresses, the key and nothing else.
abbrev pub capture_of : List Str → Option CapturedIrk
capture_of [] = none
capture_of (tag ∷ []) = none
capture_of (tag ∷ random ∷ []) = none
capture_of (tag ∷ random ∷ identity ∷ []) = none
capture_of (tag ∷ random ∷ identity ∷ hex ∷ []) =
    if not (str_eq tag (codes "IRK")) || not (length (utf8 hex) == 32)
    then none
    else with_key random identity (read_octets (utf8 hex))
capture_of (tag ∷ random ∷ identity ∷ hex ∷ more ∷ fields) = none

unfoldable pub parse_capture : Str → Option CapturedIrk
unfolding fields_from read_octets
parse_capture line = capture_of (fields_from [] line)

-- `{octet:02x}`
abbrev pub hex_digit : ℕ → ℕ
hex_digit d = if ltb d 10 then b'0' + d else b'a' + (d - 10)

unfoldable pub encode_hex : Bytes → Str
encode_hex [] = []
encode_hex (b ∷ bytes) = hex_digit (b / 16) ∷ hex_digit (b % 16) ∷ encode_hex bytes

unfoldable pub capture_line : CapturedIrk → Str
unfolding encode_hex
capture_line c =
    codes "IRK " ++ (c.random_address ++ (32 ∷ (c.identity_address ++ (32 ∷ encode_hex c.key))))

-- An event of the management socket, with the index of its controller.
pub data Event : Type 0 where
  new_irk : CapturedIrk → Event
  other_event : Event

-- The lines that `run_helper` prints for the events.
unfoldable pub helper_events : ℕ → List (ℕ × Event) → List Str
unfolding capture_line
helper_events adapter [] = []
helper_events adapter ((index, other_event) ∷ events) = helper_events adapter events
helper_events adapter ((index, new_irk c) ∷ events) =
    let rest = helper_events adapter events in
    if index == adapter then capture_line c ∷ rest else rest

abbrev pub run_helper : ℕ → List (ℕ × Event) → List Str
run_helper adapter events = codes "READY" ∷ helper_events adapter events

-- `Monitor::start`: what is left of the lines if the first one says that the helper is ready.
unfoldable pub start : List Str → Option (List Str)
start [] = none
start (status ∷ lines) = if str_eq status (codes "READY") then some lines else none

abbrev pub or_next :
    Option CapturedIrk
    → List Str
    → Option (CapturedIrk × List Str)
    → Option (CapturedIrk × List Str)
or_next none lines rest = rest
or_next (some c) lines rest = some (c, lines)

-- `next_irk`: the first line that is a capture, and the lines behind it; the end of the lines is an error.
unfoldable pub next_irk : List Str → Option (CapturedIrk × List Str)
unfolding parse_capture
next_irk [] = none
next_irk (line ∷ lines) = or_next (parse_capture line) lines (next_irk lines)
