-- ===== src/Pam/Verdict.antt =====
-- The daemon's answer, as the PAM module takes it.
use mathlib.Core.Path.{subst}
use omarchy_presence_unlock.Base.{
  ℕ, ◌≡◌, refl, ap, ◌∙◌, inl, inr, List, [], ◌∷◌, ◌++◌, some, Str, codes, str_eq, strip_prefix,
  utf8, length, ◌≤◌, arith,
}
use omarchy_presence_unlock.Presence
use omarchy_presence_unlock.Presence.{Decision}
use omarchy_presence_unlock.Wire.{req_check}
use omarchy_presence_unlock.Fleet.{Fleet, check}
use omarchy_presence_unlock.Fleet.Reason.{IsFleetReason, check-IsFleetReason}
use omarchy_presence_unlock.Daemon.Control.{render, respond}
use omarchy_presence_unlock.Pam.{
  Reply, allow, deny, parse_reply, read_reply, ReadEvent, max_reply_bytes,
}
use omarchy_presence_unlock.Pam.Lines.{Delivers, LacksNewline, read_reply-line}

-- The reply that a decision is meant to be.
abbrev pub reply_of : Decision → Reply
reply_of Presence.allow = allow
reply_of (Presence.deny r) = deny

-- A line without a newline inside, that fits the reply buffer and means the reply.
record IsLine (text : Str) (r : Reply) : Type 0 where
  body : Str
  ends : utf8 text ≡ body ++ 10 ∷ []
  single : LacksNewline body
  fits : length (body ++ 10 ∷ []) ≤ max_reply_bytes
  means : parse_reply (body ++ 10 ∷ []) ≡ some r

program : Unit {0}
unfolding utf8 render parse_reply str_eq strip_prefix
program = tt

allow-IsLine : IsLine (render Presence.allow) allow
unfolding program
allow-IsLine = record {
  body = codes "ALLOW";
  ends = refl;
  single = omega arith;
  fits = omega arith;
  means = refl;
}

deny-IsLine : (r : Str) → IsFleetReason r → IsLine (render (Presence.deny r)) deny
unfolding program
deny-IsLine r (inl e) = rw e (record {
  body = codes "DENY multi-device-auth";
  ends = refl;
  single = omega arith;
  fits = omega arith;
  means = refl;
})
deny-IsLine r (inr (inl e)) = rw e (record {
  body = codes "DENY no-device";
  ends = refl;
  single = omega arith;
  fits = omega arith;
  means = refl;
})
deny-IsLine r (inr (inr (inl e))) = rw e (record {
  body = codes "DENY device-locked";
  ends = refl;
  single = omega arith;
  fits = omega arith;
  means = refl;
})
deny-IsLine r (inr (inr (inr (inl e)))) = rw e (record {
  body = codes "DENY stale";
  ends = refl;
  single = omega arith;
  fits = omega arith;
  means = refl;
})
deny-IsLine r (inr (inr (inr (inr e)))) = rw e (record {
  body = codes "DENY insufficient-samples";
  ends = refl;
  single = omega arith;
  fits = omega arith;
  means = refl;
})

decision-IsLine :
    (f : Fleet) (now : ℕ) (d : Decision) → check f now ≡ d → IsLine (render d) (reply_of d)
decision-IsLine f now Presence.allow e = allow-IsLine
decision-IsLine f now (Presence.deny r) e = deny-IsLine r (check-IsFleetReason f now r e)

respond-check : (f : Fleet) (now : ℕ) → respond req_check f now ≡ render (check f now)
unfolding respond str_eq
respond-check f now = refl

-- The lock screen learns the decision of the policy: for every fleet and instant, and however the
-- kernel cuts the daemon's answer to CHECK into reads, the PAM module reads an Allow if the fleet
-- allows and a Deny if it denies, for whatever reason.
pub read_reply-respond :
    (f : Fleet) (now : ℕ) {events : List ReadEvent}
    → Delivers events (utf8 (respond req_check f now))
    → read_reply [] events ≡ some (reply_of (check f now))
read_reply-respond f now {events} d =
    let line = decision-IsLine f now (check f now) refl in
    let sent : utf8 (respond req_check f now) ≡ line.body ++ 10 ∷ [] =
      ap utf8 (respond-check f now) ∙ line.ends in
    read_reply-line line.body (subst (Delivers events) sent d) line.single line.fits ∙ line.means
