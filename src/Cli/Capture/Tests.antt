-- ===== src/Cli/Capture/Tests.antt =====
-- An enrollment that succeeds, with a cipher that returns its block.
use omarchy_presence_unlock.Base.{
  ℕ, ◌≡◌, refl, true, false, List, [], ◌∷◌, none, some, Str, Bytes, codes, All, arith, leb, ◌==◌,
  ◌||◌, str_eq,
}
use omarchy_presence_unlock.Base.Int.{pos}
use omarchy_presence_unlock.Ble.{Address, Advertisement, new_advertisement}
use omarchy_presence_unlock.Identity.{Identity, matches}
use omarchy_presence_unlock.Irk.{new_matcher, resolves}
use omarchy_presence_unlock.Config.{ok}
use omarchy_presence_unlock.Config.Device.{Crates, entry_identity}
use omarchy_presence_unlock.Cli.Monitor.{CapturedIrk}
use omarchy_presence_unlock.Cli.Capture.{gives}
use omarchy_presence_unlock.Cli.Capture.Peer.{resolved, self_check}
use omarchy_presence_unlock.Cli.Capture.Advertise.{Peer, Attempt, Left, advertise_flow}
use omarchy_presence_unlock.Cli.Capture.Earned.{IsEarned, advertise_flow-IsEarned}
use omarchy_presence_unlock.Cli.Capture.Restore.{
  Settings, Writes, Opening, IsRestored, pairing, pairing_restored,
}
use omarchy_presence_unlock.Cli.Capture.Daemon.{key_entry, enrolled_key-matches}

abbrev key : Bytes
key = 1 ∷ 2 ∷ 3 ∷ 4 ∷ 5 ∷ 6 ∷ 7 ∷ 8 ∷ 9 ∷ 10 ∷ 11 ∷ 12 ∷ 13 ∷ 14 ∷ 15 ∷ 16 ∷ []

-- The hash of the first three bytes is their copy.
abbrev address : Address
address = 0x40 ∷ 1 ∷ 2 ∷ 0x40 ∷ 1 ∷ 2 ∷ []

abbrev cipher : Bytes → Bytes → Bytes
cipher irk block = block

abbrev peer : Peer
peer = record { observed = address; alias = some (codes "Watch"); identity = some address }

abbrev captured : CapturedIrk
captured = record {
  random_address = codes "40:01:02:40:01:02";
  identity_address = codes "40:01:02:40:01:02";
  key = key;
}

abbrev attempt : Attempt
attempt = record {
  adapter_name = codes "hci0";
  advertised_name = codes "PC";
  monitor = gives tt;
  agent = gives tt;
  application = gives tt;
  advertisement = gives tt;
  connection = gives peer;
  security = gives tt;
  captures = captured ∷ [];
  capture_cancelled = false;
  names = gives [];
  enroll = λ c name. some (codes "watch");
  fallback = codes "watch";
  save = true;
}

abbrev nobody : List Address
nobody = []

abbrev nothing_left : List Left
nothing_left = []

advertise_flow-IsEarned_example :
    All (IsEarned cipher attempt) (advertise_flow cipher attempt nobody nothing_left true).keys
advertise_flow-IsEarned_example = advertise_flow-IsEarned cipher attempt nobody nothing_left true

-- The settings are busy twice.
abbrev writes : ℕ → Writes
writes n = record { timeout = leb 2 n || n == 0; pairable = leb 1 n }

abbrev opening : Opening
opening = record { window = true; pairable = true; rollback = false }

abbrev before : Settings
before = record { pairable = false; timeout = 180 }

started : (pairing 120 opening writes before).started ≡ true
unfolding pairing
started = refl

pairing_restored_example :
    IsRestored 120 before (pairing 120 opening writes before)
    × ((pairing 120 opening writes before).restored ≡ true)
    × ((pairing 120 opening writes before).after ≡ before)
pairing_restored_example = pairing_restored 120 opening writes before 2 started (omega arith) refl

-- A base64 by which every text is this key.
abbrev crates : Crates
crates = record { decode64 = λ text. some key; parse_uuid = λ text. none; aes = cipher }

abbrev no_text : Bytes → Str
no_text bytes = []

abbrev ad : Advertisement
unfolding new_advertisement
ad = new_advertisement address (pos 0)

resolving : self_check cipher key ad.address ≡ resolved
unfolding ad self_check resolves new_advertisement str_eq new_matcher
resolving = refl

enrolled_key-matches_example :
    (i : Identity) × (entry_identity crates (key_entry (codes "w") (codes "presence") (no_text key))
      ≡ ok i)
    × (matches i ad ≡ true)
enrolled_key-matches_example =
    enrolled_key-matches crates no_text (codes "w") (codes "presence") key ad refl refl resolving
