-- ===== src/Cli/Capture/Daemon.antt =====
-- From the check of a captured key to the daemon that looks for it.
use omarchy_presence_unlock.Base.{
  ◌≡◌, refl, ap, inl, inr, Bool, true, false, not, none, some, Str, Bytes, length, trim, ◌/◌, ◌^◌,
  ◌==◌, Bool-cases,
}
use mathlib.Core.List.{reverse}
use omarchy_presence_unlock.Ble.{Address, Advertisement}
use omarchy_presence_unlock.Irk.{first_byte, new_matcher, resolves}
use omarchy_presence_unlock.Identity.{
  Identity, is_empty, from_irk, Verdict, reject, match, undecided, verdict, payload_matches,
  matches,
}
use omarchy_presence_unlock.Config.{DeviceEntry, ok}
use omarchy_presence_unlock.Config.Device.{Crates, decode_irk, entry_identity}
use omarchy_presence_unlock.Cli.Capture.Peer.{resolved, self_check}

-- What base64 promises of a key: its text, with white space cut off, is decoded to it.
abbrev pub DecodesKey : Crates → (Bytes → Str) → Bytes → Type 0
DecodesKey c encode64 key = c.decode64 (trim (encode64 key)) ≡ some key

-- The entry that an enrollment of a key makes: the key and no other criterion.
abbrev pub key_entry : Str → Str → Str → DeviceEntry
key_entry id profile irk = record {
  id = id;
  profile = profile;
  irk_base64 = some irk;
  address = none;
  service_uuid = none;
  name_prefix = none;
  threshold_dbm = none;
  minimum_samples = none;
  sample_window_ms = none;
  freshness_ms = none;
}

resolved-resolves :
    (aes : Bytes → Bytes → Bytes) (key : Bytes) (observed : Address)
    → self_check aes key observed ≡ resolved
    → resolves (new_matcher aes (reverse key)) observed ≡ true
unfolding self_check
resolved-resolves aes key observed h = elim (Bool-cases (not (first_byte observed / 2 ^ 6 == 1))) [
  | inl fixed ↦ absurd (cc (rw fixed at h))
  | inr random ↦ elim (Bool-cases (resolves (new_matcher aes (reverse key)) observed)) [
    | inl yes_it_does ↦ yes_it_does
    | inr no_it_does_not ↦ absurd (cc (rw (random, no_it_does_not) at h))
  ]
]

decoded :
    (c : Crates) (encode64 : Bytes → Str) (id : Str) (key : Bytes)
    → DecodesKey c encode64 key
    → length key ≡ 16
    → decode_irk c id (encode64 key) ≡ ok (reverse key)
unfolding decode_irk
decoded c encode64 id key law size = rw (law, size) refl

key_identity :
    (c : Crates) (encode64 : Bytes → Str) (id profile : Str) (key : Bytes)
    → DecodesKey c encode64 key
    → length key ≡ 16
    → entry_identity c (key_entry id profile (encode64 key)) ≡ ok (from_irk c.aes (reverse key))
unfolding entry_identity from_irk is_empty
key_identity c encode64 id profile key law size = rw (decoded c encode64 id key law size) refl

verdict-match :
    (aes : Bytes → Bytes → Bytes) (irk : Bytes) (a : Address)
    → resolves (new_matcher aes irk) a ≡ true
    → verdict (from_irk aes irk) a ≡ match
unfolding verdict is_empty from_irk
verdict-match aes irk a h = rw h refl

matches-verdict :
    (i : Identity) (ad : Advertisement) → verdict i ad.address ≡ match → matches i ad ≡ true
unfolding matches
matches-verdict i ad h = ap decided h
  where
    decided : Verdict → Bool
    decided reject = false
    decided match = true
    decided undecided = payload_matches i ad

-- A key of 16 bytes that the check at enrollment resolved an address with is a key by which the
-- daemon recognises the device: the entry that holds its base64 text has an identity, and every
-- advertisement from that address matches it, if base64 decodes what it encodes.
pub enrolled_key-matches :
    (c : Crates) (encode64 : Bytes → Str) (id profile : Str) (key : Bytes) (ad : Advertisement)
    → DecodesKey c encode64 key
    → length key ≡ 16
    → self_check c.aes key ad.address ≡ resolved
    → (i : Identity) × (entry_identity c (key_entry id profile (encode64 key)) ≡ ok i)
      × (matches i ad ≡ true)
enrolled_key-matches c encode64 id profile key ad law size checked = (
  from_irk c.aes (reverse key),
  key_identity c encode64 id profile key law size,
  matches-verdict (from_irk c.aes (reverse key)) ad (
      verdict-match c.aes (reverse key) ad.address
        (resolved-resolves c.aes key ad.address checked)),
)
