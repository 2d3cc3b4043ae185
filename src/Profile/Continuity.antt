-- ===== src/Profile/Continuity.antt =====
-- What the Apple profile takes for an unlocked device.
use omarchy_presence_unlock.Base.{
  ◌≡◌, refl, sym, ap, ◌∙◌, ◌↔◌, true, false, List, [], ◌∷◌, some, Bytes, arith,
}
use omarchy_presence_unlock.Ble.{Advertisement, manufacturer}
use omarchy_presence_unlock.Presence.{qualify}
use omarchy_presence_unlock.Apple.{
  ParseResult, ok, err, company_id, missing_nearby_info, truncated, short_nearby_info,
  duplicate_nearby_info, has_flag, watch_locked, auto_unlock_enabled, read_flags, second_byte,
  parse_nearby_info,
}
use omarchy_presence_unlock.Apple.Tlv.{
  Tlv, encode, nearby, is_short, meaning_of, IsDecoded, parse_nearby_info-encode,
  parse_nearby_info_framed,
}
use omarchy_presence_unlock.Profile.{read_nearby_info, evaluate_apple_continuity}

-- Records of which exactly one claims to be a Nearby Info; it has a status byte, by which the watch is
-- not locked and unlocking is enabled.
pub record Unlocks (payload : Bytes) : Type 0 where
  pub records : List Tlv
  pub framed : payload ≡ encode records
  pub info : Tlv
  pub only : nearby records ≡ info ∷ []
  pub long_enough : is_short info ≡ false
  pub unlocked : has_flag (second_byte info.payload) watch_locked ≡ false
  pub enabled : has_flag (second_byte info.payload) auto_unlock_enabled ≡ true

IsDecoded-of_qualify : (r : ParseResult) → read_nearby_info r ≡ qualify → IsDecoded r
IsDecoded-of_qualify (ok info) h = tt
IsDecoded-of_qualify (err missing_nearby_info) h = absurd (cc h)
IsDecoded-of_qualify (err truncated) h = absurd (cc h)
IsDecoded-of_qualify (err short_nearby_info) h = absurd (cc h)
IsDecoded-of_qualify (err duplicate_nearby_info) h = absurd (cc h)

meaning_Unlocks :
    (payload : Bytes) (ts claims : List Tlv)
    → payload ≡ encode ts
    → nearby ts ≡ claims
    → read_nearby_info (meaning_of claims) ≡ qualify
    → Unlocks payload
unfolding read_flags
meaning_Unlocks payload ts [] framed only h = absurd (cc h)
meaning_Unlocks payload ts (t ∷ []) framed only h = record {
  records = ts;
  framed = framed;
  info = t;
  only = only;
  long_enough = ground arith;
  unlocked = ground arith;
  enabled = ground arith;
}
meaning_Unlocks payload ts (t ∷ u ∷ more) framed only h = absurd (ground arith)

evaluated :
    (ad : Advertisement) (payload : Bytes)
    → manufacturer ad company_id ≡ some payload
    → evaluate_apple_continuity ad ≡ read_nearby_info (parse_nearby_info payload)
unfolding evaluate_apple_continuity
evaluated ad payload e = rw (evaluate_apple_continuity, e) refl

qualify_of_Unlocks :
    (payload : Bytes) → Unlocks payload → read_nearby_info (parse_nearby_info payload) ≡ qualify
unfolding read_flags
qualify_of_Unlocks payload u =
    rw (u.framed, parse_nearby_info-encode u.records, u.only, u.long_enough, u.unlocked, u.enabled)
      refl

-- The profile qualifies an advertisement with Apple's manufacturer data exactly when the data is a
-- sequence of records of which one is a Nearby Info, that is long enough, and by whose status byte
-- the watch is not locked and unlocking is enabled.
pub evaluate_apple_continuity-Unlocks :
    (ad : Advertisement) (payload : Bytes)
    → manufacturer ad company_id ≡ some payload
    → (evaluate_apple_continuity ad ≡ qualify) ↔ Unlocks payload
evaluate_apple_continuity-Unlocks ad payload e = (
  λ h.
      let read = sym (evaluated ad payload e) ∙ h in
      let (ts, framed, means) =
        parse_nearby_info_framed payload (IsDecoded-of_qualify (parse_nearby_info payload) read) in
      meaning_Unlocks payload ts (nearby ts) framed refl (ap read_nearby_info (sym means) ∙ read),
  λ u. evaluated ad payload e ∙ qualify_of_Unlocks payload u,
)
