-- ===== src/Pam/Granted.antt =====
-- What a success of the PAM module rests on, and what the daemon's answer makes of it.
pub mod Heard
use omarchy_presence_unlock.Base.{
  ℕ, ◌≡◌, ◌≢◌, refl, sym, ap, ◌∙◌, Bool, true, false, not, List, [], ◌++◌, codes, Option, none,
  some, Bytes, ◌%◌, ◌^◌, arith, bit_and, Option-cases, inl, inr, Bool-cases,
}
use omarchy_presence_unlock.Wire.{req_check, resp_allow}
use omarchy_presence_unlock.Pam.{
  Reply, allow, deny, success, Connection, write_all, read_reply, exchange, reply_result, ReadEvent,
}
use omarchy_presence_unlock.Pam.Account.{
  PasswdFile, Metadata, regular, socket, account_uid, passwd_metadata_is_safe,
  socket_metadata_is_safe, local_account_matches_euid, content_matches, file_matches,
}
use omarchy_presence_unlock.Pam.Authenticate.{
  World, authenticate, authenticate_user, authenticate_socket, exchange_result,
}
use omarchy_presence_unlock.Pam.Granted.Heard.{
  arrived, read_reply-IsHeard, parse_reply-allow, IsHeard,
}

-- The account file that was read: a regular file of root that no one else may write, in which the
-- user has exactly this user id.
pub record AccountIs (user : Bytes) (uid : ℕ) (file : PasswdFile) : Type 0 where
  pub metadata : Metadata
  pub content : Bytes
  pub found : file.metadata ≡ some metadata
  pub is_regular : metadata.kind ≡ regular
  pub of_root : metadata.uid ≡ 0
  pub unwritable : bit_and metadata.mode 0o022 ≡ 0
  pub read : file.content ≡ some content
  pub uid_of_user : account_uid content user ≡ some uid

safe_passwd :
    (m : Metadata)
    → passwd_metadata_is_safe m ≡ true
    → (m.kind ≡ regular) × (m.uid ≡ 0) × (bit_and m.mode 0o022 ≡ 0)
unfolding passwd_metadata_is_safe
safe_passwd m h = (ground arith, ground arith, ground arith)

safe_socket :
    (m : Metadata) (uid : ℕ)
    → socket_metadata_is_safe m uid ≡ true
    → (m.kind ≡ socket) × (m.uid ≡ uid) × (m.mode % 2 ^ 6 ≡ 0)
unfolding socket_metadata_is_safe
safe_socket m uid h = (ground arith, ground arith, ground arith)

content_AccountIs :
    (user : Bytes) (euid : ℕ) (content : Option Bytes)
    → content_matches user euid content ≡ true
    → (passwd : Bytes) × (content ≡ some passwd) × (account_uid passwd user ≡ some euid)
content_AccountIs user euid none h = cc
content_AccountIs user euid (some passwd) h = elim (Option-cases (account_uid passwd user)) [
  | inl e ↦ absurd (ground arith)
  | inr (uid, e) ↦ (passwd, refl, ground arith)
]

file_AccountIs :
    (user : Bytes) (euid : ℕ) (file : PasswdFile) (m : Option Metadata)
    → file.metadata ≡ m
    → file_matches user euid file m ≡ true
    → AccountIs user euid file
file_AccountIs user euid file none e h = absurd (cc h)
file_AccountIs user euid file (some m) e h =
    let safe : passwd_metadata_is_safe m ≡ true = ground arith in
    let (kind, root, mode) = safe_passwd m safe in
    let (passwd, read, uid) = content_AccountIs user euid file.content (ground arith) in
    record {
      metadata = m;
      content = passwd;
      found = e;
      is_regular = kind;
      of_root = root;
      unwritable = mode;
      read = read;
      uid_of_user = uid;
    }

local_AccountIs :
    (user : Bytes) (euid : ℕ) (passwd : Option PasswdFile)
    → local_account_matches_euid user euid passwd ≡ true
    → (euid ≢ 0) × (file : PasswdFile) × (passwd ≡ some file) × AccountIs user euid file
unfolding local_account_matches_euid
local_AccountIs user euid none h = absurd (cc h)
local_AccountIs user euid (some file) h =
    (ground arith, file, refl, file_AccountIs user euid file file.metadata refl (ground arith))

-- Everything that a success rests on.
pub record Granted (w : World) : Type 0 where
  pub user : Bytes
  pub of_user : w.user ≡ some user
  pub not_root : w.euid ≢ 0
  pub file : PasswdFile
  pub opened : w.passwd ≡ some file
  pub account : AccountIs user w.euid file
  pub endpoint : Metadata
  pub probed : w.socket_metadata ≡ some endpoint
  pub is_socket : endpoint.kind ≡ socket
  pub own_socket : endpoint.uid ≡ w.euid
  pub private_socket : endpoint.mode % 2 ^ 6 ≡ 0
  pub connection : Connection
  pub connected : w.connection ≡ some connection
  pub asked : write_all req_check connection.writes ≡ true
  pub behind : Bytes
  pub answered : resp_allow ++ behind ≡ arrived connection.reads

exchange_allow :
    (c : Option Connection)
    → exchange_result (exchange c) ≡ success
    → (connection : Connection) × (c ≡ some connection)
      × (write_all req_check connection.writes ≡ true)
      × (read_reply [] connection.reads ≡ some allow)
unfolding exchange reply_result
exchange_allow none h = absurd (cc h)
exchange_allow (some c) h = (c, refl, ground arith, ground arith)

socket_granted :
    (w : World) (m : Option Metadata)
    → w.socket_metadata ≡ m
    → authenticate_socket w m ≡ success
    → (endpoint : Metadata) × (m ≡ some endpoint)
      × (socket_metadata_is_safe endpoint w.euid ≡ true)
      × (exchange_result (exchange w.connection) ≡ success)
socket_granted w none e h = absurd (cc h)
socket_granted w (some m) e h = (m, refl, ground arith, ground arith)

user_granted :
    (w : World) (u : Option Bytes)
    → w.user ≡ u
    → authenticate_user w u ≡ success
    → (user : Bytes) × (u ≡ some user)
      × (local_account_matches_euid user w.euid w.passwd ≡ true)
      × (authenticate_socket w w.socket_metadata ≡ success)
user_granted w none e h = absurd (cc h)
user_granted w (some user) e h = (user, refl, ground arith, ground arith)

-- PAM succeeds only for a non-root user to whose name the root-owned, unwritable account file gives
-- exactly the effective user id, over a socket that this user owns and no one else can use, after
-- the whole request was written, and when what arrived before the deadline begins with the daemon's
-- exact Allow line.
pub authenticate-Granted : (w : World) → authenticate w ≡ success → Granted w
unfolding authenticate
authenticate-Granted w h =
    let (user, of_user, matched, h1) = user_granted w w.user refl h in
    let (not_root, file, opened, account) = local_AccountIs user w.euid w.passwd matched in
    let (endpoint, probed, safe, h2) = socket_granted w w.socket_metadata refl h1 in
    let (kind, own, private) = safe_socket endpoint w.euid safe in
    let (connection, connected, asked, reply) = exchange_allow w.connection h2 in
    let heard = read_reply-IsHeard connection.reads reply in
    record {
      user = user;
      of_user = of_user;
      not_root = not_root;
      file = file;
      opened = opened;
      account = account;
      endpoint = endpoint;
      probed = probed;
      is_socket = kind;
      own_socket = own;
      private_socket = private;
      connection = connection;
      connected = connected;
      asked = asked;
      behind = heard.behind;
      answered =
          ap (λ l. l ++ heard.behind) (sym (parse_reply-allow heard.message heard.says))
          ∙ heard.at_head;
    }
