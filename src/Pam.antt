-- ===== src/Pam.antt =====
-- crates/pam/src/lib.rs: the PAM module. This file has the exchange with the daemon: what the kernel
-- answers to each poll, read and write is an argument, and the deadline shows as the poll that fails.
-- The children have the account check, the whole authentication, and the proofs.
pub mod Lines
pub mod Account
pub mod Authenticate
pub mod Granted
pub mod Verdict
mod Tests
use omarchy_presence_unlock.Base.{
  ℕ, ◌+◌, ◌-◌, ◌%◌, ◌^◌, bit_and, Bool, true, false, not, ◌&&◌, ◌||◌, List, [], ◌∷◌, ◌++◌, Option,
  none, some, Bytes, Str, codes, str_eq, strip_prefix, strip_newline, split, take, drop, length,
  all, leb, ltb, ◌==◌, if◌then◌else◌, from_utf8, is_some,
}
use omarchy_presence_unlock.Numbers.{parse_u32}
use omarchy_presence_unlock.Wire.{req_check, resp_allow}

abbrev pub max_reply_bytes : ℕ
max_reply_bytes = 64

pub data Reply : Type 0 where
  allow deny : Reply

pub data PamReturnCode : Type 0 where
  success auth_err authinfo_unavail service_err : PamReturnCode

-- `u8::is_ascii_graphic`
abbrev pub is_graphic : ℕ → Bool
is_graphic b = leb 33 b && leb b 126

abbrev pub is_nonempty : Bytes → Bool
is_nonempty [] = false
is_nonempty (b ∷ bytes) = true

-- `strip_suffix(b"\n")`
unfoldable pub strip_line_end : Bytes → Option Bytes
strip_line_end [] = none
strip_line_end (b ∷ []) = if b == 10 then some [] else none
strip_line_end (b ∷ c ∷ bytes) = elim (strip_line_end (c ∷ bytes)) [
  | none ↦ none
  | some rest ↦ some (b ∷ rest)
]

abbrev pub deny_reason : Option Bytes → Option Bytes
deny_reason none = none
deny_reason (some rest) = strip_line_end rest

abbrev pub graphic_reply : Option Bytes → Option Reply
graphic_reply none = none
graphic_reply (some reason) =
    if is_nonempty reason && all is_graphic reason then some deny else none

unfoldable pub parse_reply : Bytes → Option Reply
unfolding strip_line_end
parse_reply reply =
    if str_eq reply resp_allow
    then some allow
    else graphic_reply (deny_reason (strip_prefix (codes "DENY ") reply))

unfoldable pub reply_result : Reply → PamReturnCode
reply_result allow = success
reply_result deny = auth_err

-- What one round of waiting and reading meets.
pub data ReadEvent : Type 0 where
  not_ready would_block end_of_file read_error : ReadEvent
  chunk : Bytes → ReadEvent

abbrev pub next_position : Option ℕ → Option ℕ
next_position none = none
next_position (some i) = some (i + 1)

-- `iter().position` of the newline.
unfoldable pub position : Bytes → Option ℕ
position [] = none
position (b ∷ bytes) = let rest = next_position (position bytes) in if b == 10 then some 0 else rest

-- What follows a read that brought bytes, as the match on the newline decides.
abbrev pub after_read : Option ℕ → Bytes → Option Reply → Option Reply
after_read (some newline) reply more =
    if newline + 1 == length reply then parse_reply reply else none
after_read none reply more = if length reply == max_reply_bytes then none else more

-- The loop of `read_reply_until_deadline`, with the bytes used of the buffer.
unfoldable pub read_reply : Bytes → List ReadEvent → Option Reply
unfolding position
read_reply used [] = none
read_reply used (not_ready ∷ events) = none
read_reply used (would_block ∷ events) = read_reply used events
read_reply used (end_of_file ∷ events) = none
read_reply used (read_error ∷ events) = none
read_reply used (chunk bytes ∷ events) =
    let got = take (max_reply_bytes - length used) bytes in
    let reply = used ++ got in
    let more = read_reply reply events in
    if is_nonempty got then after_read (position reply) reply more else none

-- What one round of waiting and writing meets.
pub data WriteEvent : Type 0 where
  not_ready would_block write_error : WriteEvent
  wrote : ℕ → WriteEvent

-- `write_until_deadline`: whether every byte was written.
unfoldable pub write_all : Bytes → List WriteEvent → Bool
write_all [] events = true
write_all (b ∷ bytes) [] = false
write_all (b ∷ bytes) (WriteEvent.not_ready ∷ events) = false
write_all (b ∷ bytes) (WriteEvent.would_block ∷ events) = write_all (b ∷ bytes) events
write_all (b ∷ bytes) (WriteEvent.write_error ∷ events) = false
write_all (b ∷ bytes) (WriteEvent.wrote n ∷ events) =
    let rest = write_all (drop n (b ∷ bytes)) events in if n == 0 then false else rest

-- `exchange`: connecting, writing the request and reading the reply under one deadline.
pub record Connection : Type 0 where
  pub writes : List WriteEvent
  pub reads : List ReadEvent

unfoldable pub exchange : Option Connection → Option Reply
exchange none = none
exchange (some c) = if write_all req_check c.writes then read_reply [] c.reads else none
