-- ===== src/Pam/Account.antt =====
-- crates/pam/src/lib.rs: the account database, read without NSS, and the metadata tests.
use omarchy_presence_unlock.Base.{
  ℕ, ◌%◌, ◌^◌, bit_and, Bool, true, false, not, ◌&&◌, List, [], ◌∷◌, Option, none, some, Bytes, Str,
  str_eq, split, ◌==◌, if◌then◌else◌, from_utf8, is_some,
}
use omarchy_presence_unlock.Numbers.{parse_u32}
use omarchy_presence_unlock.Pam.{is_nonempty}

-- `line.split(b':')` is taken apart: seven fields exactly, the first not empty.
pub record Record : Type 0 where
  pub name : Bytes
  pub uid : Bytes

unfoldable pub seven_fields : List Bytes → Option Record
seven_fields (name ∷ password ∷ uid ∷ gid ∷ gecos ∷ home ∷ shell ∷ []) =
    if is_nonempty name then some (record { name = name; uid = uid }) else none
seven_fields other = none

abbrev pub parse_uid : Option Str → Option ℕ
parse_uid none = none
parse_uid (some text) = parse_u32 text

-- The body of the loop of `account_uid` behind the fields: `none` ends the function with `None`.
abbrev pub account_found : Bytes → Record → Option ℕ → Option ℕ → Option (Option ℕ)
account_found user r none result = none
account_found user r (some uid) result =
    if str_eq r.name user then (if is_some result then none else some (some uid)) else some result

abbrev pub account_record : Bytes → Option Record → Option ℕ → Option (Option ℕ)
account_record user none result = none
account_record user (some r) result = account_found user r (parse_uid (from_utf8 r.uid)) result

unfoldable pub account_line : Bytes → Bytes → Option ℕ → Option (Option ℕ)
unfolding seven_fields
account_line user [] result = some result
account_line user (b ∷ line) result =
    account_record user (seven_fields (split b':' (b ∷ line))) result

-- The loop over the lines, with the result so far.
unfoldable pub account_lines : Bytes → List Bytes → Option ℕ → Option ℕ
unfolding account_line
account_lines user [] result = result
account_lines user (line ∷ lines) result = elim (account_line user line result) [
  | none ↦ none
  | some result' ↦ account_lines user lines result'
]

unfoldable pub account_uid : Bytes → Bytes → Option ℕ
unfolding account_lines
account_uid passwd user = account_lines user (split 10 passwd) none

-- What `metadata` tells of a file: its kind, owner and mode bits.
pub data FileKind : Type 0 where
  regular socket other_kind : FileKind

pub record Metadata : Type 0 where
  pub kind : FileKind
  pub uid : ℕ
  pub mode : ℕ

abbrev pub is_file : FileKind → Bool
is_file regular = true
is_file socket = false
is_file other_kind = false

abbrev pub is_socket : FileKind → Bool
is_socket regular = false
is_socket socket = true
is_socket other_kind = false

-- `mode & 0o022 == 0`: neither the group nor others may write.
unfoldable pub passwd_metadata_is_safe : Metadata → Bool
passwd_metadata_is_safe m = is_file m.kind && m.uid == 0 && bit_and m.mode 0o022 == 0

-- `mode.trailing_zeros() >= 6`: the six low bits are clear.
unfoldable pub socket_metadata_is_safe : Metadata → ℕ → Bool
socket_metadata_is_safe m uid = is_socket m.kind && m.uid == uid && m.mode % 2 ^ 6 == 0

-- The local account file as the module finds it: it may fail to open, to be examined or to be read.
pub record PasswdFile : Type 0 where
  pub metadata : Option Metadata
  pub content : Option Bytes

abbrev pub uid_matches : Option ℕ → ℕ → Bool
uid_matches none euid = false
uid_matches (some uid) euid = uid == euid

abbrev pub content_matches : Bytes → ℕ → Option Bytes → Bool
content_matches user euid none = false
content_matches user euid (some passwd) = uid_matches (account_uid passwd user) euid

abbrev pub file_matches : Bytes → ℕ → PasswdFile → Option Metadata → Bool
file_matches user euid file none = false
file_matches user euid file (some m) =
    if not (passwd_metadata_is_safe m) then false else content_matches user euid file.content

unfoldable pub local_account_matches_euid : Bytes → ℕ → Option PasswdFile → Bool
local_account_matches_euid user euid none = false
local_account_matches_euid user euid (some file) =
    if euid == 0 then false else file_matches user euid file file.metadata
