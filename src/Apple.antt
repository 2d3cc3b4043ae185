-- ===== src/Apple.antt =====
-- crates/protocol/src/apple.rs: decoding of Apple Continuity advertisements. The loop's state is the
-- slice from `offset` on; it shrinks by at least the two header bytes in each round, and recurs on
-- that. `start.checked_add(length)` cannot fail: a slice has at most `isize::MAX` bytes.
pub mod Tlv
pub mod Flags
mod Tests
use mathlib.Core.WellFounded.{Acc, WellFounded}
use omarchy_presence_unlock.Base.{
  ℕ, zero, suc, ◌≤◌, ◌<◌, Bool, not, List, [], ◌∷◌, Option, none, some, Bytes, bit_and, take, drop,
  length, ltb, ◌==◌, is_some, if◌then◌else◌, arith,
}

abbrev pub company_id : ℕ
company_id = 0x004c

abbrev pub nearby_info_type : ℕ
nearby_info_type = 0x10

abbrev pub watch_auto_unlock_enabled : ℕ
watch_auto_unlock_enabled = 0x40

abbrev pub watch_locked : ℕ
watch_locked = 0x20

abbrev pub auto_unlock_enabled : ℕ
auto_unlock_enabled = 0x80

pub record NearbyInfo : Type 0 where
  pub is_watch_locked : Bool
  pub is_watch_auto_unlock_enabled : Bool
  pub is_auto_unlock_enabled : Bool

pub data ParseError : Type 0 where
  truncated missing_nearby_info short_nearby_info duplicate_nearby_info : ParseError

pub data ParseResult : Type 0 where
  ok : NearbyInfo → ParseResult
  err : ParseError → ParseResult

-- `flags & mask != 0`
abbrev pub has_flag : ℕ → ℕ → Bool
has_flag flags mask = not (bit_and flags mask == 0)

unfoldable pub read_flags : ℕ → NearbyInfo
read_flags flags = record {
  is_watch_locked = has_flag flags watch_locked;
  is_watch_auto_unlock_enabled = has_flag flags watch_auto_unlock_enabled;
  is_auto_unlock_enabled = has_flag flags auto_unlock_enabled;
}

-- `payload[1]`, read only where the payload has three bytes.
abbrev pub second_byte : Bytes → ℕ
second_byte [] = 0
second_byte (b ∷ []) = 0
second_byte (b ∷ c ∷ rest) = c

abbrev pub Shorter : Bytes → Bytes → Type 0
Shorter xs ys = length xs < length ys

Shorter-below : (k : ℕ) (xs : Bytes) → length xs < k → Acc Shorter xs
Shorter-below zero xs h = absurd (omega arith)
Shorter-below (suc k) xs h = Acc.intro xs λ ys lt. Shorter-below k ys (omega arith)

Shorter_wf : WellFounded Shorter
unfolding Shorter-below
Shorter_wf = record { apply = λ xs. Shorter-below (suc (length xs)) xs (omega arith) }

length-drop-le : (n : ℕ) (xs : Bytes) → length (drop n xs) ≤ length xs
length-drop-le zero xs = omega arith
length-drop-le (suc n) [] = omega arith
length-drop-le (suc n) (x ∷ xs) = omega (arith, length-drop-le n xs)

pub drop-Shorter : (kind n : ℕ) (more : Bytes) → Shorter (drop n more) (kind ∷ n ∷ more)
drop-Shorter kind n more = omega (arith, length-drop-le n more)

abbrev pub finish : Option NearbyInfo → ParseResult
finish none = err missing_nearby_info
finish (some info) = ok info

-- One round of the `while` loop, at a slice that has its two header bytes; `next` is the loop from
-- the end of the payload on.
abbrev pub tlv_round :
    ℕ → ℕ → Bytes → Option NearbyInfo → (Option NearbyInfo → ParseResult) → ParseResult
tlv_round kind n more result next =
    let payload = take n more in
    if ltb (length more) n
    then err truncated
    else if kind == nearby_info_type
    then (if ltb (length payload) 3
        then err short_nearby_info
        else if is_some result
        then err duplicate_nearby_info
        else next (some (read_flags (second_byte payload))))
    else next result

-- The loop from an offset on, with the result so far.
tlv_loop : (rest : Bytes) → Acc Shorter rest → Option NearbyInfo → ParseResult
tlv_loop [] w result = finish result
tlv_loop (kind ∷ []) w result = err truncated
tlv_loop (kind ∷ n ∷ more) (Acc.intro _ smaller) result =
    tlv_round kind n more result
      (λ r. tlv_loop (drop n more) (smaller (drop n more) (drop-Shorter kind n more)) r)

unfoldable pub parse_from : Bytes → Option NearbyInfo → ParseResult
unfolding tlv_loop Shorter_wf
parse_from rest = tlv_loop rest (Shorter_wf.apply rest)

unfoldable pub parse_nearby_info : Bytes → ParseResult
unfolding parse_from
parse_nearby_info bytes = parse_from bytes none
