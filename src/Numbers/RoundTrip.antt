-- ===== src/Numbers/RoundTrip.antt =====
-- Printed numbers are read back.
use mathlib.Core.Logic.{ite, dite, if_pos, if_neg}
use mathlib.Core.WellFounded
use mathlib.Core.WellFounded.{Acc, Acc-prop}
use native.Mathlib.Decide.{dec_lt}
use omarchy_presence_unlock.Base.{
  ℕ, suc, ◌+◌, ◌*◌, ◌/◌, ◌%◌, ◌≤◌, ◌<◌, ◌≡◌, ◌≢◌, refl, sym, ◌∙◌, ap, [], ◌∷◌, some, Str, All,
  arith,
}
use omarchy_presence_unlock.Base.Int.{ℤ, pos, negsuc}
use omarchy_presence_unlock.Numbers.{
  digits, digits_some, parse_i16, print_i16, lt_wf, emit, decimal,
}

emit_step :
    (n : ℕ) (w : Acc ◌<◌ n) (w' : Acc ◌<◌ (n / 10)) (out : Str)
    → emit n w out ≡ ite (dec_lt 9 n) (emit (n / 10) w' ((b'0' + n % 10) ∷ out)) ((b'0' + n) ∷ out)
unfolding emit
emit_step n (Acc.intro _ smaller) w' out = λ i.
    dite (dec_lt 9 n)
      (λ h. emit (n / 10) (Acc-prop (smaller (n / 10) (omega arith)) w' i) ((b'0' + n % 10) ∷ out))
      (λ _. (b'0' + n) ∷ out)

abbrev emitted : ℕ → Str → Str
emitted n = emit n (lt_wf.apply n)

emitted_step :
    (n : ℕ) (out : Str)
    → emitted n out ≡ ite (dec_lt 9 n) (emitted (n / 10) ((b'0' + n % 10) ∷ out)) ((b'0' + n) ∷ out)
emitted_step n = emit_step n (lt_wf.apply n) (lt_wf.apply (n / 10))

-- Reading one printed digit.
digits_digit :
    (acc d : ℕ) (out : Str)
    → d < 10
    → digits 10 acc ((b'0' + d) ∷ out) ≡ digits 10 (acc * 10 + d) out
unfolding digits
digits_digit acc d out h = ground arith

digits-emitted : (n : ℕ) (out : Str) → digits 10 0 (emitted n out) ≡ digits 10 n out
digits-emitted n =
    WellFounded.induction lt_wf
      {C = λ m. (out : Str) → digits 10 0 (emitted m out) ≡ digits 10 m out} n
      λ m ih out. elim (dec_lt 9 m) [
        | yes p ↦
            rw (emitted_step m out, if_pos _ p)
              (ih (m / 10) (omega arith) ((b'0' + m % 10) ∷ out)
                ∙ digits_digit (m / 10) (m % 10) out (omega arith)
                ∙ ap (λ k. digits 10 k out) (omega arith))
        | no p ↦
            rw (emitted_step m out, if_neg _ p)
              (digits_digit 0 m out (omega arith) ∙ ap (λ k. digits 10 k out) (omega arith))
      ]

-- The digits of a number are digits, and there is one.
abbrev pub IsDigit : ℕ → Type 0
IsDigit c = (b'0' ≤ c) × (c ≤ b'9')

emitted-IsDigit :
    (n : ℕ) (out : Str) → All IsDigit out → All IsDigit (emitted n out) × (emitted n out ≢ [])
emitted-IsDigit n =
    WellFounded.induction lt_wf
      {C = λ m. (out : Str) → All IsDigit out → All IsDigit (emitted m out) × (emitted m out ≢ [])}
      n
      λ m ih out h. elim (dec_lt 9 m) [
        | yes p ↦
            rw (emitted_step m out, if_pos _ p)
              (ih (m / 10) (omega arith) ((b'0' + m % 10) ∷ out) (omega arith, h))
        | no p ↦ rw (emitted_step m out, if_neg _ p) ((omega arith, h), cc)
      ]

pub decimal-IsDigit : (n : ℕ) → All IsDigit (decimal n) × (decimal n ≢ [])
unfolding decimal
decimal-IsDigit n = emitted-IsDigit n [] tt

pub digits-decimal : (n : ℕ) → digits 10 0 (decimal n) ≡ some n
unfolding decimal
digits-decimal n = digits-emitted n [] ∙ unfold digits in refl

pub digits_some-decimal : (n : ℕ) → digits_some 10 (decimal n) ≡ some n
digits_some-decimal n = nonempty (decimal n) (decimal-IsDigit n).1 (digits-decimal n)
  where
    nonempty : (s : Str) → s ≢ [] → digits 10 0 s ≡ some n → digits_some 10 s ≡ some n
    nonempty [] h e = absurd (h refl)
    nonempty (c ∷ s) h e = e

-- The range of an `i16`.
abbrev pub IsI16 : ℤ → Type 0
IsI16 (pos n) = n < 32768
IsI16 (negsuc n) = n < 32768

parse_digits :
    (s : Str) (n : ℕ)
    → All IsDigit s × (s ≢ [])
    → digits_some 10 s ≡ some n
    → n < 32768
    → parse_i16 s ≡ some (pos n)
unfolding parse_i16
parse_digits [] n h e lt = absurd (h.1 refl)
parse_digits (c ∷ s) n ((d, ds), ne) e lt = ground arith

-- Every `i16` is read back from its print.
pub parse_i16-print_i16 : (x : ℤ) → IsI16 x → parse_i16 (print_i16 x) ≡ some x
unfolding parse_i16 print_i16
parse_i16-print_i16 (pos n) h =
    parse_digits (decimal n) n (decimal-IsDigit n) (digits_some-decimal n) h
parse_i16-print_i16 (negsuc n) h = ground (arith, digits_some-decimal (suc n))

pub decimal_injective : (m n : ℕ) → decimal m ≡ decimal n → m ≡ n
decimal_injective m n e =
    let same : some m ≡ some n =
      sym (digits_some-decimal m) ∙ (ap (digits_some 10) e ∙ digits_some-decimal n) in
    cc same
