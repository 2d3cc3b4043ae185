-- ===== src/Apple/Tlv.antt =====
-- The decoder against a description of the framing.
use mathlib.Core.WellFounded.{Acc, Acc-prop}
use omarchy_presence_unlock.Base.{
  ℕ, ◌≡◌, refl, ◌++◌, Bool, List, [], ◌∷◌, Option, none, some, Bytes, take, drop, length, ltb, ◌==◌,
  is_some, if◌then◌else◌, arith, retain, ◌∙◌, ◌||◌, length-append, ap, ◌≤◌, zero, suc, Bool-cases,
  inl, inr,
}
use omarchy_presence_unlock.Apple.{
  NearbyInfo, ParseResult, ok, err, missing_nearby_info, short_nearby_info, duplicate_nearby_info,
  nearby_info_type, second_byte, Shorter, Shorter_wf, drop-Shorter, tlv_loop, tlv_round, parse_from,
  parse_nearby_info, read_flags,
}

tlv_loop_step :
    (kind n : ℕ) (more : Bytes) (result : Option NearbyInfo) (w : Acc Shorter (kind ∷ n ∷ more))
    (w' : Acc Shorter (drop n more))
    → tlv_loop (kind ∷ n ∷ more) w result ≡ tlv_round kind n more result (tlv_loop (drop n more) w')
unfolding tlv_loop
tlv_loop_step kind n more result (Acc.intro _ smaller) w' = λ i. tlv_round kind n more result (λ r.
    tlv_loop (drop n more) (Acc-prop (smaller (drop n more) (drop-Shorter kind n more)) w' i) r)

parse_from_step :
    (kind n : ℕ) (more : Bytes) (result : Option NearbyInfo)
    → parse_from (kind ∷ n ∷ more) result ≡ tlv_round kind n more result (parse_from (drop n more))
unfolding parse_from
parse_from_step kind n more result =
    tlv_loop_step kind n more result (Shorter_wf.apply (kind ∷ n ∷ more))
      (Shorter_wf.apply (drop n more))

-- One type-length-value record, and a sequence of them as bytes.
pub record Tlv : Type 0 where
  pub kind : ℕ
  pub payload : Bytes

abbrev pub encode : List Tlv → Bytes
encode [] = []
encode (t ∷ ts) = t.kind ∷ length t.payload ∷ (t.payload ++ encode ts)

-- The records that claim to be a Nearby Info.
abbrev pub nearby : List Tlv → List Tlv
nearby = retain (λ t. t.kind == nearby_info_type)

abbrev pub is_short : Tlv → Bool
is_short t = ltb (length t.payload) 3

-- What a sequence says: its one Nearby Info. Of two claims the first that is short or the second
-- is the error.
abbrev pub meaning_of : List Tlv → ParseResult
meaning_of [] = err missing_nearby_info
meaning_of (t ∷ []) =
    if is_short t then err short_nearby_info else ok (read_flags (second_byte t.payload))
meaning_of (t ∷ u ∷ ts) =
    if is_short t || is_short u then err short_nearby_info else err duplicate_nearby_info

-- The meaning of the records that follow a first Nearby Info.
abbrev meaning_after : NearbyInfo → List Tlv → ParseResult
meaning_after info [] = ok info
meaning_after info (u ∷ ts) =
    if is_short u then err short_nearby_info else err duplicate_nearby_info

take_of_append : (xs ys : Bytes) → take (length xs) (xs ++ ys) ≡ xs
take_of_append [] ys = refl
take_of_append (x ∷ xs) ys = rw (take_of_append xs ys)

drop_of_append : (xs ys : Bytes) → drop (length xs) (xs ++ ys) ≡ ys
drop_of_append [] ys = refl
drop_of_append (x ∷ xs) ys = drop_of_append xs ys

-- A round at the encoding of a record.
parse_from-encode :
    (t : Tlv) (rest : Bytes) (result : Option NearbyInfo)
    → parse_from (t.kind ∷ length t.payload ∷ (t.payload ++ rest)) result ≡ (
        if t.kind == nearby_info_type
        then (if is_short t
            then err short_nearby_info
            else if is_some result
            then err duplicate_nearby_info
            else parse_from rest (some (read_flags (second_byte t.payload))))
        else parse_from rest result)
parse_from-encode t rest result =
    parse_from_step t.kind (length t.payload) (t.payload ++ rest) result
    ∙ rw (take_of_append t.payload rest, drop_of_append t.payload rest)
        (ground (arith, length-append t.payload rest))

parse_from-some :
    (ts : List Tlv) (info : NearbyInfo)
    → parse_from (encode ts) (some info) ≡ meaning_after info (nearby ts)
parse_from-some [] info = unfold parse_from tlv_loop in refl
parse_from-some (t ∷ ts) info =
    parse_from-encode t (encode ts) (some info) ∙ ground (arith, parse_from-some ts info)

meaning_of-cons :
    (t : Tlv) (us : List Tlv)
    → meaning_of (t ∷ us) ≡ (
        if is_short t
        then err short_nearby_info
        else meaning_after (read_flags (second_byte t.payload)) us)
meaning_of-cons t [] = ground arith
meaning_of-cons t (u ∷ us) = ground arith

parse_from-none : (ts : List Tlv) → parse_from (encode ts) none ≡ meaning_of (nearby ts)
parse_from-none [] = unfold parse_from tlv_loop in refl
parse_from-none (t ∷ ts) =
    parse_from-encode t (encode ts) none
    ∙ ground (
      arith,
      parse_from-none ts,
      parse_from-some ts (read_flags (second_byte t.payload)),
      meaning_of-cons t (nearby ts),
    )

-- The decoder reads every sequence of records as its description says.
pub parse_nearby_info-encode :
    (ts : List Tlv) → parse_nearby_info (encode ts) ≡ meaning_of (nearby ts)
unfolding parse_nearby_info
parse_nearby_info-encode ts = parse_from-none ts

-- The outcomes for which the whole slice was read.
abbrev pub IsDecoded : ParseResult → Type 0
IsDecoded (ok info) = Unit
IsDecoded (err missing_nearby_info) = Unit
IsDecoded (err other) = ⊥

take-append-drop : (n : ℕ) (xs : Bytes) → take n xs ++ drop n xs ≡ xs
take-append-drop zero xs = refl
take-append-drop (suc n) [] = refl
take-append-drop (suc n) (x ∷ xs) = rw (take-append-drop n xs)

length-take : (n : ℕ) (xs : Bytes) → n ≤ length xs → length (take n xs) ≡ n
length-take zero xs h = refl
length-take (suc n) [] h = elim h [ ]
length-take (suc n) (x ∷ xs) h = omega (arith, length-take n xs (omega arith))

-- A round that decodes goes on after its payload, which is all there.
tlv_round-IsDecoded :
    (kind n : ℕ) (more : Bytes) (result : Option NearbyInfo)
    (next : Option NearbyInfo → ParseResult)
    → IsDecoded (tlv_round kind n more result next)
    → (n ≤ length more) × (r : Option NearbyInfo) × IsDecoded (next r)
tlv_round-IsDecoded kind n more result next h = elim (Bool-cases (ltb (length more) n)) [
  | inl short ↦ absurd (rw short at h)
  | inr fits ↦ elim (Bool-cases (kind == nearby_info_type)) [
    | inl is_nearby ↦ elim (Bool-cases (ltb (length (take n more)) 3)) [
      | inl short ↦ absurd (rw (fits, is_nearby, short) at h)
      | inr long ↦ elim (Bool-cases (is_some result)) [
        | inl again ↦ absurd (rw (fits, is_nearby, long, again) at h)
        | inr first ↦ (ground arith, _, rw (fits, is_nearby, long, first) at h)
      ]
    ]
    | inr is_other ↦ (ground arith, _, rw (fits, is_other) at h)
  ]
]

parse_from_framed :
    (k : ℕ) (bytes : Bytes) (result : Option NearbyInfo)
    → length bytes ≤ k
    → IsDecoded (parse_from bytes result)
    → (ts : List Tlv) × (bytes ≡ encode ts)
parse_from_framed k [] result le h = ([], refl)
parse_from_framed k (kind ∷ []) result le h = absurd (unfold parse_from tlv_loop in h)
parse_from_framed zero (kind ∷ n ∷ more) result le h = elim le [ ]
parse_from_framed (suc k) (kind ∷ n ∷ more) result le h =
    let (fits, r, h') =
      tlv_round-IsDecoded kind n more result (parse_from (drop n more)) (rw parse_from_step at h) in
    let (ts, e) =
      parse_from_framed k (drop n more) r (omega (arith, drop-Shorter kind n more)) h' in
    (
      record { kind = kind; payload = take n more } ∷ ts,
      rw (length-take n more fits, ← e) (rw (take-append-drop n more)),
    )

-- A payload from which the decoder reads a Nearby Info, or reads that there is none, is a sequence
-- of whole records, and the outcome is what the sequence says.
pub parse_nearby_info_framed :
    (bytes : Bytes)
    → IsDecoded (parse_nearby_info bytes)
    → (ts : List Tlv) × (bytes ≡ encode ts) × (parse_nearby_info bytes ≡ meaning_of (nearby ts))
unfolding parse_nearby_info
parse_nearby_info_framed bytes h =
    let (ts, e) = parse_from_framed (length bytes) bytes none (omega arith) h in
    (ts, e, ap parse_nearby_info e ∙ parse_nearby_info-encode ts)
