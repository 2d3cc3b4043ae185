-- ===== src/Pam/Lines.antt =====
-- The reply loop: every chunking of a line is read as the line, and nothing else is read.
use omarchy_presence_unlock.Base.{
  ℕ, zero, suc, ◌+◌, ◌-◌, ◌≤◌, ◌≡◌, ◌≢◌, refl, sym, ap, ◌∙◌, List, [], ◌∷◌, ◌++◌, append_assoc,
  append-nil, Option, none, some, Bytes, All, take, length, length-append, arith,
}
use omarchy_presence_unlock.Pam.{
  Reply, max_reply_bytes, parse_reply, ReadEvent, would_block, chunk, position, after_read,
  read_reply,
}

abbrev pub LacksNewline : Bytes → Type 0
LacksNewline = All (λ b. b ≢ 10)

-- The events bring exactly the bytes, in chunks of any sizes with waits between them; what comes
-- after them does not matter.
pub data Delivers : List ReadEvent → Bytes → Type 0 where
  finished : {events : List ReadEvent} → Delivers events []
  wait :
      {events : List ReadEvent} {bytes : Bytes}
      → Delivers events bytes
      → Delivers (would_block ∷ events) bytes
  part :
      {events : List ReadEvent} {rest whole : Bytes} (b : ℕ) (bytes : Bytes)
      → whole ≡ (b ∷ bytes) ++ rest
      → Delivers events rest
      → Delivers (chunk (b ∷ bytes) ∷ events) whole

take_all : (n : ℕ) (xs : Bytes) → length xs ≤ n → take n xs ≡ xs
take_all zero [] h = refl
take_all zero (x ∷ xs) h = elim h [ ]
take_all (suc n) [] h = refl
take_all (suc n) (x ∷ xs) h = ap (◌∷◌ x) (take_all n xs (omega arith))

position_end : (body : Bytes) → LacksNewline body → position (body ++ 10 ∷ []) ≡ some (length body)
unfolding position
position_end [] h = refl
position_end (b ∷ body) (nb, h) = ground (arith, position_end body h)

-- What comes before the rest of a line holds no newline.
position_before :
    (xs body : Bytes) (y : ℕ) (ys : Bytes)
    → LacksNewline body
    → xs ++ (y ∷ ys) ≡ body ++ 10 ∷ []
    → position xs ≡ none
unfolding position
position_before [] body y ys h e = refl
position_before (x ∷ xs) [] y ys h e = absurd (nil_of xs (cc))
  where
    nil_of : (zs : Bytes) → zs ++ (y ∷ ys) ≡ [] → ⊥
    nil_of [] q = cc
    nil_of (z ∷ zs) q = cc
position_before (x ∷ xs) (b ∷ body) y ys (nb, h) e =
    ground (arith, position_before xs body y ys h (cc))

-- One chunk that fits the buffer: the loop looks for the newline in all that has come.
read_reply_chunk :
    (used : Bytes) (b : ℕ) (bytes : Bytes) (events : List ReadEvent)
    → length used + length (b ∷ bytes) ≤ max_reply_bytes
    → read_reply used (chunk (b ∷ bytes) ∷ events)
      ≡ after_read
          (position (used ++ (b ∷ bytes)))
          (used ++ (b ∷ bytes))
          (read_reply (used ++ (b ∷ bytes)) events)
unfolding read_reply
read_reply_chunk used b bytes events h =
    rw (take_all (max_reply_bytes - length used) (b ∷ bytes) (omega arith))

after_line :
    (body : Bytes) (more : Option Reply)
    → LacksNewline body
    → after_read (position (body ++ 10 ∷ [])) (body ++ 10 ∷ []) more ≡ parse_reply (body ++ 10 ∷ [])
after_line body more h = rw (position_end body h) (ground (arith, length-append body (10 ∷ [])))

after_part :
    (xs body : Bytes) (y : ℕ) (ys : Bytes) (more : Option Reply)
    → LacksNewline body
    → length (body ++ 10 ∷ []) ≤ max_reply_bytes
    → xs ++ (y ∷ ys) ≡ body ++ 10 ∷ []
    → after_read (position xs) xs more ≡ more
after_part xs body y ys more h le e =
    rw (position_before xs body y ys h e) (ground (arith, length-append xs (y ∷ ys), ap length e))

line_nonempty : (body : Bytes) → body ++ 10 ∷ [] ≢ []
line_nonempty [] e = cc
line_nonempty (b ∷ body) e = cc

read_reply_wait :
    (used : Bytes) (events : List ReadEvent)
    → read_reply used (would_block ∷ events) ≡ read_reply used events
unfolding read_reply
read_reply_wait used events = refl

-- The loop in the middle of a line.
read_rest :
    {events : List ReadEvent} {bytes : Bytes} (used body : Bytes)
    → Delivers events bytes
    → bytes ≢ []
    → LacksNewline body
    → length (body ++ 10 ∷ []) ≤ max_reply_bytes
    → used ++ bytes ≡ body ++ 10 ∷ []
    → read_reply used events ≡ parse_reply (body ++ 10 ∷ [])
read_rest used body finished ne h le e = absurd (ne refl)
read_rest used body (wait {events = es} d) ne h le e =
    read_reply_wait used es ∙ read_rest used body d ne h le e
read_rest used body (part {events = es} {rest = []} b bytes split d) ne h le e =
    let all_come : used ++ (b ∷ bytes) ≡ body ++ 10 ∷ [] =
      ap (◌++◌ used) (sym (split ∙ append-nil (b ∷ bytes))) ∙ e in
    read_reply_chunk used b bytes es
      (omega (arith, length-append used (b ∷ bytes), ap length all_come))
    ∙ rw all_come (after_line body _ h)
read_rest used body (part {events = es} {rest = y ∷ ys} b bytes split d) ne h le e =
    let come = used ++ (b ∷ bytes) in
    let whole : come ++ (y ∷ ys) ≡ body ++ 10 ∷ [] =
      append_assoc used (b ∷ bytes) (y ∷ ys) ∙ ap (◌++◌ used) (sym split) ∙ e in
    read_reply_chunk used b bytes es
      (omega (arith, length-append used (b ∷ bytes), length-append come (y ∷ ys), ap length whole))
    ∙ after_part come body y ys _ h le whole
    ∙ read_rest come body d (cc) h le whole

-- However the kernel cuts it into reads and wherever it makes the client wait, a reply of one line
-- that fits the buffer is read as that line.
pub read_reply-line :
    {events : List ReadEvent} (body : Bytes)
    → Delivers events (body ++ 10 ∷ [])
    → LacksNewline body
    → length (body ++ 10 ∷ []) ≤ max_reply_bytes
    → read_reply [] events ≡ parse_reply (body ++ 10 ∷ [])
read_reply-line body d h le = read_rest [] body d (line_nonempty body) h le refl
