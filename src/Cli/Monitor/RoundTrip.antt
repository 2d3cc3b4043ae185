-- ===== src/Cli/Monitor/RoundTrip.antt =====
-- What the helper prints is what the monitor reads.
use omarchy_presence_unlock.Base.{
  ℕ, ◌*◌, ◌/◌, ◌%◌, ◌<◌, ◌≡◌, ◌≢◌, refl, sym, ap, ◌∙◌, inl, inr, Bool, true, false, not, ◌&&◌, List,
  [], ◌∷◌, ◌++◌, append_assoc, append-nil, Option, none, some, Str, Bytes, codes, All, length,
  if◌then◌else◌, ◌==◌, ==_iff, ltb, str_eq, is_whitespace, utf8, utf8_of_ascii, IsAscii, from_utf8,
  every_below, every_below_sound, Bool-cases, arith,
}
use omarchy_presence_unlock.Numbers.{parse_hex_u8, digits}
use omarchy_presence_unlock.Irk.BondFile.{octet_of}
use omarchy_presence_unlock.Cli.Monitor.{
  CapturedIrk, fields_from, add_octet, read_octets, capture_of, parse_capture, hex_digit,
  encode_hex, capture_line, Event, new_irk, other_event, helper_events, run_helper, start, next_irk,
}

-- A field: not empty, with no white space.
pub record IsField (s : Str) : Type 0 where
  pub nonempty : s ≢ []
  pub solid : All (λ c. is_whitespace c ≡ false) s

fields_from-append :
    (cur w rest : Str)
    → All (λ c. is_whitespace c ≡ false) w
    → fields_from cur (w ++ rest) ≡ fields_from (cur ++ w) rest
unfolding fields_from
fields_from-append cur [] rest h = rw append-nil
fields_from-append cur (c ∷ w) rest (solid, h) =
    rw solid (fields_from-append (cur ++ c ∷ []) w rest h ∙ rw append_assoc)

fields_space :
    (w rest : Str) → IsField w → fields_from [] (w ++ (32 ∷ rest)) ≡ w ∷ fields_from [] rest
unfolding fields_from
fields_space [] rest h = absurd (h.nonempty refl)
fields_space (c ∷ w) rest h = fields_from-append [] (c ∷ w) (32 ∷ rest) h.solid ∙ refl

fields_end : (w : Str) → IsField w → fields_from [] w ≡ w ∷ []
unfolding fields_from
fields_end [] h = absurd (h.nonempty refl)
fields_end (c ∷ w) h =
    ap (fields_from []) (sym (append-nil (c ∷ w))) ∙ fields_from-append [] (c ∷ w) [] h.solid ∙ refl

abbrev pub IsBytes : Bytes → Type 0
IsBytes = All (λ b. b < 256)

abbrev is_plain : ℕ → Bool
is_plain d = not (is_whitespace (hex_digit d)) && ltb (hex_digit d) 0x80

plain_table : every_below is_plain 16 ≡ true
unfolding every_below
plain_table = refl

-- A digit is one byte, and no white space.
digit_plain : (d : ℕ) → d < 16 → (is_whitespace (hex_digit d) ≡ false) × (hex_digit d < 0x80)
digit_plain d h =
    let plain : is_plain d ≡ true = every_below_sound is_plain 16 plain_table d h in
    elim (Bool-cases (is_whitespace (hex_digit d))) [
      | inl space ↦ absurd (cc (rw space at plain))
      | inr solid ↦
          let low : ltb (hex_digit d) 0x80 ≡ true = rw solid at plain in (solid, lt_of_ltb low)
    ]
  where
    lt_of_ltb : {m n : ℕ} → ltb m n ≡ true → m < n
    lt_of_ltb h = ground arith

abbrev is_just : Option ℕ → ℕ → Bool
is_just none b = false
is_just (some a) b = a == b

is_just_sound : (o : Option ℕ) (b : ℕ) → is_just o b ≡ true → o ≡ some b
is_just_sound none b h = absurd (cc h)
is_just_sound (some a) b h = ap some ((==_iff a b).0 h)

abbrev digits_read : ℕ → Option ℕ
digits_read b = octet_of (from_utf8 (hex_digit (b / 16) ∷ hex_digit (b % 16) ∷ []))

octet_table : every_below (λ b. is_just (digits_read b) b) 256 ≡ true
unfolding every_below from_utf8 parse_hex_u8 digits
octet_table = refl

digits_read_lem : (b : ℕ) → b < 256 → digits_read b ≡ some b
digits_read_lem b h =
    is_just_sound (digits_read b) b
      (every_below_sound (λ b. is_just (digits_read b) b) 256 octet_table b h)

pub read_octets-encode_hex : (key : Bytes) → IsBytes key → read_octets (encode_hex key) ≡ some key
unfolding read_octets encode_hex
read_octets-encode_hex [] h = refl
read_octets-encode_hex (b ∷ key) (lt, h) =
    ap (λ o. add_octet o (read_octets (encode_hex key))) (digits_read_lem b lt)
    ∙ ap (add_octet (some b)) (read_octets-encode_hex key h)

encode_hex-IsAscii : (key : Bytes) → IsBytes key → IsAscii (encode_hex key)
unfolding encode_hex
encode_hex-IsAscii [] h = tt
encode_hex-IsAscii (b ∷ key) (lt, h) = (
  (digit_plain (b / 16) (omega (arith, lt))).1,
  ((digit_plain (b % 16) (omega arith)).1, encode_hex-IsAscii key h),
)

encode_hex-solid : (key : Bytes) → IsBytes key → All (λ c. is_whitespace c ≡ false) (encode_hex key)
unfolding encode_hex
encode_hex-solid [] h = tt
encode_hex-solid (b ∷ key) (lt, h) = (
  (digit_plain (b / 16) (omega (arith, lt))).0,
  ((digit_plain (b % 16) (omega arith)).0, encode_hex-solid key h),
)

length-encode_hex : (key : Bytes) → length (encode_hex key) ≡ 2 * length key
unfolding encode_hex
length-encode_hex [] = refl
length-encode_hex (b ∷ key) = omega (arith, length-encode_hex key)

-- A capture as the kernel reports it: printed addresses that are fields, and a key of 16 bytes.
pub record IsReported (c : CapturedIrk) : Type 0 where
  pub random : IsField c.random_address
  pub identity : IsField c.identity_address
  pub bytes : IsBytes c.key
  pub size : length c.key ≡ 16

hex-IsField : (key : Bytes) → IsBytes key → length key ≡ 16 → IsField (encode_hex key)
unfolding encode_hex
hex-IsField [] h size = absurd (omega (arith, size))
hex-IsField (b ∷ key) h size = record {
  nonempty = λ e. absurd (cc e);
  solid = encode_hex-solid (b ∷ key) h;
}

-- The line of a capture is read back as the capture.
pub parse_capture-capture_line :
    (c : CapturedIrk) → IsReported c → parse_capture (capture_line c) ≡ some c
unfolding parse_capture capture_line str_eq
parse_capture-capture_line c r =
    let hex = encode_hex c.key in
    let fields : fields_from [] (capture_line c)
        ≡ codes "IRK" ∷ c.random_address ∷ c.identity_address ∷ hex ∷ [] =
      fields_space (codes "IRK") (c.random_address ++ (32 ∷ (c.identity_address ++ (32 ∷ hex)))) tag
      ∙ ap (◌∷◌ (codes "IRK")) (
          fields_space c.random_address (c.identity_address ++ (32 ∷ hex)) r.random
          ∙ ap (◌∷◌ c.random_address) (
              fields_space c.identity_address hex r.identity
              ∙ ap (◌∷◌ c.identity_address) (fields_end hex (hex-IsField c.key r.bytes r.size)))) in
    let same : utf8 hex ≡ hex = utf8_of_ascii hex (encode_hex-IsAscii c.key r.bytes) in
    let size : length hex ≡ 32 = omega (arith, length-encode_hex c.key, r.size) in
    ap capture_of fields ∙ rw (same, size, read_octets-encode_hex c.key r.bytes) refl
  where
    tag : IsField (codes "IRK")
    tag = record { nonempty = λ e. absurd (cc e); solid = (refl, (refl, (refl, tt))) }

-- The first key that is reported on a controller.
unfoldable pub first_irk : ℕ → List (ℕ × Event) → Option CapturedIrk
first_irk adapter [] = none
first_irk adapter ((index, other_event) ∷ events) = first_irk adapter events
first_irk adapter ((index, new_irk c) ∷ events) =
    let rest = first_irk adapter events in if index == adapter then some c else rest

abbrev pub AllReported : List (ℕ × Event) → Type 0
AllReported [] = Unit
AllReported ((index, other_event) ∷ events) = AllReported events
AllReported ((index, new_irk c) ∷ events) = IsReported c × AllReported events

abbrev pub capture_next : Option (CapturedIrk × List Str) → Option CapturedIrk
capture_next none = none
capture_next (some (c, lines)) = some c

next_irk-helper_events :
    (adapter : ℕ) (events : List (ℕ × Event))
    → AllReported events
    → capture_next (next_irk (helper_events adapter events)) ≡ first_irk adapter events
unfolding next_irk helper_events first_irk
next_irk-helper_events adapter [] h = refl
next_irk-helper_events adapter ((index, other_event) ∷ events) h =
    next_irk-helper_events adapter events h
next_irk-helper_events adapter ((index, new_irk c) ∷ events) (r, h) =
    elim (Bool-cases (index == adapter)) [
      | inr other ↦ rw other (next_irk-helper_events adapter events h)
      | inl this ↦ rw (this, parse_capture-capture_line c r) refl
    ]

abbrev pub started_next : Option (List Str) → Option CapturedIrk
started_next none = none
started_next (some lines) = capture_next (next_irk lines)

-- The monitor, started on what the helper prints for a controller, reads the first key that the kernel
-- reports on that controller, whatever is reported on the others, if the printed addresses are fields and
-- the keys have 16 bytes.
pub monitor_round_trip :
    (adapter : ℕ) (events : List (ℕ × Event))
    → AllReported events
    → started_next (start (run_helper adapter events)) ≡ first_irk adapter events
unfolding start str_eq
monitor_round_trip adapter events h = next_irk-helper_events adapter events h
