-- ===== src/Cli/Keys/Split.antt =====
-- A sequence of keys that the terminal delivers in two pieces.
use omarchy_presence_unlock.Base.{
  ℕ, zero, suc, ◌+◌, ◌≤◌, ◌≡◌, refl, sym, ap, ◌∙◌, Bool, true, false, List, [], ◌∷◌, ◌++◌, Bytes,
  take, length, length-append, arith,
}
use omarchy_presence_unlock.Cli.Keys.{
  esc, undecided, verdict, KeyEvent, bytes, buffer_length, room, carry, judge, is_nonempty, wait,
}

-- Every byte before a trailing Esc has been judged: bytes that end undecided, with more behind them, are
-- judged as the Esc with what is behind it.
pub verdict-append :
    (xs ys : Bytes) → verdict xs ≡ undecided → verdict (xs ++ ys) ≡ verdict (esc ∷ ys)
unfolding verdict
verdict-append [] ys h = absurd (cc h)
verdict-append (a ∷ []) ys h = ground arith
verdict-append (a ∷ b ∷ xs) ys h = ground (arith, verdict-append (b ∷ xs) ys)

take_of_le : (n : ℕ) (xs : Bytes) → length xs ≤ n → take n xs ≡ xs
take_of_le zero [] h = refl
take_of_le zero (x ∷ xs) h = absurd (omega arith)
take_of_le (suc n) [] h = refl
take_of_le (suc n) (x ∷ xs) h = ap (◌∷◌ x) (take_of_le n xs (omega arith))

nonempty-append : (xs ys : Bytes) → is_nonempty ys ≡ true → is_nonempty (xs ++ ys) ≡ true
nonempty-append [] ys h = h
nonempty-append (x ∷ xs) ys h = refl

undecided-nonempty : (xs : Bytes) → verdict xs ≡ undecided → is_nonempty xs ≡ true
unfolding verdict
undecided-nonempty [] h = absurd (cc h)
undecided-nonempty (x ∷ xs) h = refl

-- A round that reads what it is given.
wait_bytes :
    (held : Bool) (chunk : Bytes) (events : List KeyEvent)
    → is_nonempty chunk ≡ true
    → length chunk ≤ room held
    → wait held (bytes chunk ∷ events) ≡ judge (verdict (carry held ++ chunk)) (wait true events)
unfolding wait
wait_bytes held chunk events nonempty fits = rw (take_of_le (room held) chunk fits, nonempty) refl

-- Keys that arrive in two reads, the first of which ends in an Esc that its bytes do not decide, are
-- judged as they are in one read, if each fits the buffer and the second brings a byte.
pub wait-bytes :
    (xs ys : Bytes) (events : List KeyEvent)
    → verdict xs ≡ undecided
    → is_nonempty ys ≡ true
    → length xs + length ys ≤ buffer_length
    → wait false (bytes xs ∷ bytes ys ∷ events) ≡ wait false (bytes (xs ++ ys) ∷ events)
wait-bytes xs ys events pending nonempty fits =
    let some_byte : is_nonempty xs ≡ true = undecided-nonempty xs pending in
    let first = wait_bytes false xs (bytes ys ∷ events) some_byte (omega (arith, fits)) in
    let second = wait_bytes true ys events nonempty (short xs ys some_byte fits) in
    let whole =
      wait_bytes false (xs ++ ys) events (nonempty-append xs ys nonempty)
        (omega (arith, fits, length-append xs ys)) in
    let left : wait false (bytes xs ∷ bytes ys ∷ events) ≡ wait true (bytes ys ∷ events) =
      first ∙ ap (λ v. judge v (wait true (bytes ys ∷ events))) pending in
    let joined = ap (λ v. judge v (wait true events)) (verdict-append xs ys pending) in
    left ∙ second ∙ sym joined ∙ sym whole
  where
    short :
        (xs ys : Bytes)
        → is_nonempty xs ≡ true
        → length xs + length ys ≤ buffer_length
        → length ys ≤ room true
    short [] ys h fits = absurd (cc h)
    short (x ∷ xs) ys h fits = omega (arith, fits)
