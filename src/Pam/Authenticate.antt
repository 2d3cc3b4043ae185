-- ===== src/Pam/Authenticate.antt =====
-- crates/pam/src/lib.rs: `authenticate`, over everything that it meets.
use omarchy_presence_unlock.Base.{ℕ, not, Option, none, some, Bytes, if◌then◌else◌}
use omarchy_presence_unlock.Pam.{
  Reply, PamReturnCode, authinfo_unavail, service_err, reply_result, Connection, exchange,
}
use omarchy_presence_unlock.Pam.Account.{
  PasswdFile, Metadata, local_account_matches_euid, socket_metadata_is_safe,
}

-- Everything that `authenticate` meets.
pub record World : Type 0 where
  pub user : Option Bytes
  pub euid : ℕ
  pub passwd : Option PasswdFile
  pub socket_metadata : Option Metadata
  pub connection : Option Connection

abbrev pub exchange_result : Option Reply → PamReturnCode
exchange_result none = authinfo_unavail
exchange_result (some reply) = reply_result reply

abbrev pub authenticate_socket : World → Option Metadata → PamReturnCode
authenticate_socket w none = authinfo_unavail
authenticate_socket w (some m) =
    if not (socket_metadata_is_safe m w.euid)
    then authinfo_unavail
    else exchange_result (exchange w.connection)

abbrev pub authenticate_user : World → Option Bytes → PamReturnCode
authenticate_user w none = service_err
authenticate_user w (some user) =
    if not (local_account_matches_euid user w.euid w.passwd)
    then service_err
    else authenticate_socket w w.socket_metadata

unfoldable pub authenticate : World → PamReturnCode
authenticate w = authenticate_user w w.user
