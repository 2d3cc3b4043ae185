-- ===== src/Apple/Tests.antt =====
-- The decoder's theorems at small payloads.
use omarchy_presence_unlock.Base.{◌≡◌, List, [], ◌∷◌, Bytes}
use omarchy_presence_unlock.Apple.{parse_nearby_info}
use omarchy_presence_unlock.Apple.Tlv.{Tlv, encode, nearby, meaning_of, parse_nearby_info-encode}

-- A record of another kind, and a Nearby Info of an unlocked watch.
abbrev payload : List Tlv
payload =
    record { kind = 12; payload = 1 ∷ [] } ∷ record { kind = 16; payload = 5 ∷ 128 ∷ 0 ∷ [] } ∷ []

parse_nearby_info-encode_example : parse_nearby_info (encode payload) ≡ meaning_of (nearby payload)
parse_nearby_info-encode_example = parse_nearby_info-encode payload

abbrev raw : Bytes
raw = 16 ∷ 3 ∷ 5 ∷ 128 ∷ 0 ∷ []

abbrev raw_framed : List Tlv
raw_framed = record { kind = 16; payload = 5 ∷ 128 ∷ 0 ∷ [] } ∷ []

raw_parsed : parse_nearby_info raw ≡ meaning_of (nearby raw_framed)
raw_parsed = parse_nearby_info-encode raw_framed
