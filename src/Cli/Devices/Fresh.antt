-- ===== src/Cli/Devices/Fresh.antt =====
-- The ids of new devices.
use mathlib.Core.List.{append_cancel_left}
use omarchy_presence_unlock.Base.{
  ℕ, zero, suc, ◌+◌, ◌≤◌, ◌<◌, ◌≡◌, ◌≢◌, sym, ap, ◌∙◌, inl, inr, true, false, not, List, [], ◌∷◌,
  Option, none, some, Str, str_eq, str_eq_sound, length, retain, length-retain-le, ◌==◌, ==_iff,
  Bool-cases, Option-cases, arith,
}
use omarchy_presence_unlock.Numbers.{decimal}
use omarchy_presence_unlock.Numbers.RoundTrip.{decimal_injective}
use omarchy_presence_unlock.Config.{DeviceEntry}
use omarchy_presence_unlock.Cli.Devices.{
  dash, ids, is_taken, suffixed, free_suffix, base_id, unique_id, derive_id, id_for_address,
  and_then,
}

suffixed_injective : (base : Str) (m n : ℕ) → suffixed base m ≡ suffixed base n → m ≡ n
suffixed_injective base m n e = decimal_injective m n (
    append_cancel_left (dash ∷ []) (decimal m) (decimal n)
      (append_cancel_left base (dash ∷ decimal m) (dash ∷ decimal n) e))

-- The ids other than one.
abbrev without : Str → List Str → List Str
without id = retain (λ t. not (str_eq t id))

length-without :
    (id : Str) (taken : List Str)
    → is_taken taken id ≡ true
    → length (without id taken) < length taken
length-without id [] h = absurd (cc h)
length-without id (t ∷ taken) h =
    let shorter = length-retain-le (λ u. not (str_eq u id)) taken in
    ground (arith, length-without id taken)

distinct : (t u : Str) → t ≢ u → str_eq t u ≡ false
distinct t u apart = elim (Bool-cases (str_eq t u)) [
  | inl same ↦ absurd (apart (str_eq_sound t u same))
  | inr differ ↦ differ
]

is_taken-without :
    (id other : Str) (taken : List Str)
    → other ≢ id
    → is_taken taken other ≡ true
    → is_taken (without id taken) other ≡ true
is_taken-without id other [] apart h = h
is_taken-without id other (t ∷ taken) apart h = elim (Bool-cases (str_eq t id)) [
  | inl same ↦
      let differ : str_eq t other ≡ false =
        distinct t other (λ e. apart (sym e ∙ str_eq_sound t id same)) in
      rw same (is_taken-without id other taken apart (ground (arith, differ)))
  | inr differ ↦ rw differ (elim (Bool-cases (str_eq t other)) [
    | inl here ↦ ground (arith, here)
    | inr there ↦ rw there (is_taken-without id other taken apart (rw there at h))
  ])
]

-- As many different ids are taken as the list is long, at most.
pigeonhole :
    (base : Str) (count suffix : ℕ) (taken : List Str)
    → ((k : ℕ) → suffix ≤ k → k < suffix + count → is_taken taken (suffixed base k) ≡ true)
    → count ≤ length taken
pigeonhole base zero suffix taken h = omega arith
pigeonhole base (suc count) suffix taken h =
    let id = suffixed base suffix in
    let fewer : count ≤ length (without id taken) =
      pigeonhole base count (suc suffix) (without id taken) (λ k above below.
        is_taken-without id (suffixed base k) taken
          (λ e. let same = suffixed_injective base k suffix e in omega (arith, same, above))
          (h k (omega (arith, above)) (omega (arith, below)))) in
    let one = length-without id taken (h suffix (omega arith) (omega arith)) in
    omega (arith, fewer, one)

none-all :
    (base : Str) (taken : List Str) (count suffix : ℕ)
    → free_suffix base taken suffix count ≡ none
    → (k : ℕ) → suffix ≤ k
    → k < suffix + count
    → is_taken taken (suffixed base k) ≡ true
unfolding free_suffix
none-all base taken zero suffix h k above below = absurd (omega (arith, above, below))
none-all base taken (suc count) suffix h k above below =
    elim (Bool-cases (is_taken taken (suffixed base suffix))) [
      | inl here ↦ elim (Bool-cases (k == suffix)) [
        | inl first ↦ rw ((==_iff k suffix).0 first) here
        | inr later ↦
            let apart : k ≢ suffix = λ e. absurd (cc (sym ((==_iff k suffix).1 e) ∙ later)) in
            none-all base taken count (suc suffix) (rw here at h) k (omega (arith, apart, above))
              (omega (arith, below))
      ]
      | inr free ↦ absurd (cc (rw free at h))
    ]

some-free :
    (base : Str) (taken : List Str) (count suffix : ℕ) (id : Str)
    → free_suffix base taken suffix count ≡ some id
    → is_taken taken id ≡ false
unfolding free_suffix
some-free base taken zero suffix id h = absurd (cc h)
some-free base taken (suc count) suffix id h =
    elim (Bool-cases (is_taken taken (suffixed base suffix))) [
      | inl here ↦ some-free base taken count (suc suffix) id (rw here at h)
      | inr free ↦
          let same : suffixed base suffix ≡ id = cc (rw free at h) in
          ap (is_taken taken) (sym same) ∙ free
    ]

-- The search always finds a suffix.
pub unique_id-free : (base : Str) (taken : List Str) → is_taken taken (unique_id base taken) ≡ false
unfolding unique_id
unique_id-free base taken = elim (Bool-cases (is_taken taken base)) [
  | inr free ↦ rw free free
  | inl used ↦ rw used (elim (Option-cases (free_suffix base taken 2 (length taken + 1))) [
    | inl nothing ↦
        let many =
          pigeonhole base (length taken + 1) 2 taken
            (none-all base taken (length taken + 1) 2 nothing) in
        absurd (omega (arith, many))
    | inr (id, found) ↦ rw found (some-free base taken (length taken + 1) 2 id found)
  ])
]

-- The id of a device whose address no entry has is the id of no entry, whatever ids there are.
pub derive_id-free :
    (name address : Option Str) (entries : List DeviceEntry)
    → and_then address (λ known. id_for_address known entries) ≡ none
    → is_taken (ids entries) (derive_id name address entries) ≡ false
unfolding derive_id
derive_id-free name address entries new =
    rw new (unique_id-free (base_id name address) (ids entries))
