-- ===== src/Pam/Tests.antt =====
-- The module's theorems at a user who is let in.
use omarchy_presence_unlock.Base.{◌≡◌, refl, List, [], ◌∷◌, ◌++◌, some, Bytes, codes, str_eq, utf8}
use omarchy_presence_unlock.Wire.{req_check}
use omarchy_presence_unlock.Fleet.{Fleet, any_device, new, check}
use omarchy_presence_unlock.Daemon.Control.{respond}
use omarchy_presence_unlock.Pam.{
  ReadEvent, would_block, chunk, success, wrote, parse_reply, read_reply,
}
use omarchy_presence_unlock.Pam.Account.{regular, socket}
use omarchy_presence_unlock.Pam.Authenticate.{World, authenticate}
use omarchy_presence_unlock.Pam.Lines.{Delivers}
use omarchy_presence_unlock.Pam.Granted.{Granted, authenticate-Granted}
use omarchy_presence_unlock.Base.{split, from_utf8}
use omarchy_presence_unlock.Numbers.{parse_u32, digits}
use omarchy_presence_unlock.Pam.{exchange, write_all, reply_result}
use omarchy_presence_unlock.Pam.Account.{
  local_account_matches_euid, passwd_metadata_is_safe, account_uid, socket_metadata_is_safe,
}
use omarchy_presence_unlock.Daemon.Control.{render}
use omarchy_presence_unlock.Pam.Verdict.{reply_of, read_reply-respond}

-- `ALLOW`, in two chunks with a wait between them.
abbrev pieces : List ReadEvent
pieces = chunk (codes "ALL") ∷ would_block ∷ chunk (codes "OW" ++ 10 ∷ []) ∷ []

abbrev world : World
world = record {
  user = some (codes "ann");
  euid = 1000;
  passwd = some (record {
    metadata = some (record { kind = regular; uid = 0; mode = 0o644 });
    content = some (codes "ann:x:1000:1000:Ann:/home/ann:/bin/bash" ++ 10 ∷ []);
  });
  socket_metadata = some (record { kind = socket; uid = 1000; mode = 0o600 });
  connection = some (record { writes = wrote 8 ∷ []; reads = pieces });
}

ann_allowed : authenticate world ≡ success
unfolding authenticate local_account_matches_euid passwd_metadata_is_safe account_uid split
    from_utf8 parse_u32 digits str_eq socket_metadata_is_safe exchange write_all read_reply
    parse_reply reply_result
ann_allowed = refl

authenticate-Granted_example : Granted world
authenticate-Granted_example = authenticate-Granted world ann_allowed

abbrev idle : Fleet
idle = new [] any_device

abbrev answer_bytes : Bytes
answer_bytes = codes "DENY no-device" ++ 10 ∷ []

idle_answer : utf8 (respond req_check idle 5) ≡ answer_bytes
unfolding respond utf8 str_eq render check new
idle_answer = refl

idle-Delivers : Delivers (chunk answer_bytes ∷ []) (utf8 (respond req_check idle 5))
idle-Delivers =
    rw idle_answer (Delivers.part 68 (codes "ENY no-device" ++ 10 ∷ []) refl Delivers.finished)

read_reply-respond_example :
    read_reply [] (chunk answer_bytes ∷ []) ≡ some (reply_of (check idle 5))
read_reply-respond_example = read_reply-respond idle 5 idle-Delivers
