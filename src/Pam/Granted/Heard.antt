-- ===== src/Pam/Granted/Heard.antt =====
-- What a reply says of the bytes that arrived.
use omarchy_presence_unlock.Base.{
  ℕ, zero, suc, ◌-◌, ◌≤◌, ◌<◌, ◌≡◌, ◌≢◌, refl, sym, ap, ◌∙◌, List, [], ◌∷◌, ◌++◌, append_assoc,
  Option, none, some, Bytes, take, drop, length, length-append, arith, Bool-cases, inl, inr, ◌⊎◌,
  codes, str_eq, str_eq_sound, strip_prefix,
}
use mathlib.Core.Path.{subst}
use omarchy_presence_unlock.Wire.{resp_allow}
use omarchy_presence_unlock.Pam.{
  Reply, allow, max_reply_bytes, is_nonempty, parse_reply, graphic_reply, deny_reason, ReadEvent,
  not_ready, would_block, end_of_file, read_error, chunk, position, after_read, read_reply,
}

-- The bytes that arrive before the deadline, the end of the stream or an error.
abbrev pub arrived : List ReadEvent → Bytes
arrived [] = []
arrived (not_ready ∷ events) = []
arrived (would_block ∷ events) = arrived events
arrived (end_of_file ∷ events) = []
arrived (read_error ∷ events) = []
arrived (chunk bytes ∷ events) = bytes ++ arrived events

take-append-drop : (n : ℕ) (xs : Bytes) → take n xs ++ drop n xs ≡ xs
take-append-drop zero xs = refl
take-append-drop (suc n) [] = refl
take-append-drop (suc n) (x ∷ xs) = rw (take-append-drop n xs)

length-take-le : (n : ℕ) (xs : Bytes) → length (take n xs) ≤ n
length-take-le zero xs = omega arith
length-take-le (suc n) [] = omega arith
length-take-le (suc n) (x ∷ xs) = omega (arith, length-take-le n xs)

-- A read that leaves room in the buffer has taken all that there was.
take_of_room : (n : ℕ) (xs : Bytes) → length (take n xs) < n → take n xs ≡ xs
take_of_room zero xs h = absurd (omega arith)
take_of_room (suc n) [] h = refl
take_of_room (suc n) (x ∷ xs) h = ap (◌∷◌ x) (take_of_room n xs (omega arith))

-- A reply that was read is a message of at most 64 bytes at the head of what arrived.
pub record IsHeard (sent : Bytes) (r : Reply) : Type 0 where
  pub message : Bytes
  pub behind : Bytes
  pub at_head : message ++ behind ≡ sent
  pub fits : length message ≤ max_reply_bytes
  pub says : parse_reply message ≡ some r

after_read_cases :
    (at : Option ℕ) (reply : Bytes) (more : Option Reply) {r : Reply}
    → after_read at reply more ≡ some r
    → (parse_reply reply ≡ some r) ⊎ ((length reply ≢ max_reply_bytes) × (more ≡ some r))
after_read_cases none reply more h = inr (ground arith, ground arith)
after_read_cases (some newline) reply more h = inl (ground arith)

read_rest-IsHeard :
    (used : Bytes) (events : List ReadEvent) {r : Reply}
    → length used ≤ max_reply_bytes
    → read_reply used events ≡ some r
    → IsHeard (used ++ arrived events) r
unfolding read_reply
read_rest-IsHeard used [] le h = absurd (cc h)
read_rest-IsHeard used (not_ready ∷ events) le h = absurd (cc h)
read_rest-IsHeard used (would_block ∷ events) le h = read_rest-IsHeard used events le h
read_rest-IsHeard used (end_of_file ∷ events) le h = absurd (cc h)
read_rest-IsHeard used (read_error ∷ events) le h = absurd (cc h)
read_rest-IsHeard used (chunk bytes ∷ events) {r} le h =
    let room = max_reply_bytes - length used in
    let got = take room bytes in
    let reply = used ++ got in
    elim (Bool-cases (is_nonempty got)) [
      | inl some_bytes ↦
          elim (after_read_cases (position reply) reply (read_reply reply events)
            (rw some_bytes at h)) [
              | inl says ↦ record {
                message = reply;
                behind = drop room bytes ++ arrived events;
                at_head =
                    append_assoc used got (drop room bytes ++ arrived events)
                    ∙ ap (◌++◌ used) (
                        sym (append_assoc got (drop room bytes) (arrived events))
                        ∙ ap (λ l. l ++ arrived events) (take-append-drop room bytes));
                fits = omega (arith, length-append used got, length-take-le room bytes);
                says = says;
              }
              | inr (more_room, later) ↦
                  let full : got ≡ bytes =
                    take_of_room room bytes
                      (omega (arith, length-append used got, length-take-le room bytes)) in
                  subst (λ l. IsHeard l r)
                    (append_assoc used got (arrived events)
                      ∙ ap (λ l. used ++ (l ++ arrived events)) full)
                    (read_rest-IsHeard reply events
                      (omega (arith, length-append used got, length-take-le room bytes)) later)
            ]
      | inr no_bytes ↦ absurd (ground arith)
    ]

pub read_reply-IsHeard :
    (events : List ReadEvent) {r : Reply}
    → read_reply [] events ≡ some r
    → IsHeard (arrived events) r
read_reply-IsHeard events h = read_rest-IsHeard [] events (omega arith) h

-- Only the daemon's own line is an Allow.
pub parse_reply-allow : (reply : Bytes) → parse_reply reply ≡ some allow → reply ≡ resp_allow
unfolding parse_reply
parse_reply-allow reply h = elim (Bool-cases (str_eq reply resp_allow)) [
  | inl e ↦ str_eq_sound reply resp_allow e
  | inr n ↦ absurd (graphic-ne-allow (deny_reason (strip_prefix (codes "DENY ") reply)) (rw n at h))
]
  where
    graphic-ne-allow : (o : Option Bytes) → graphic_reply o ≡ some allow → ⊥
    graphic-ne-allow none h = cc
    graphic-ne-allow (some reason) h = ground arith
