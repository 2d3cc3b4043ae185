-- ===== src/Wire.antt =====
-- crates/protocol/src/wire.rs: the control-socket protocol. This file has the constants that the
-- daemon, the command line and the PAM module share; the children have the rows and the parsers.
pub mod Row
pub mod RoundTrip
use omarchy_presence_unlock.Base.{Str, codes, ◌++◌, ◌∷◌, []}

abbrev pub newline : Str
newline = 10 ∷ []

abbrev pub req_check : Str
req_check = codes "CHECK 1" ++ newline

abbrev pub req_status : Str
req_status = codes "STATUS 1" ++ newline

abbrev pub resp_allow : Str
resp_allow = codes "ALLOW" ++ newline

abbrev pub resp_end : Str
resp_end = codes "END" ++ newline

abbrev pub deny_protocol : Str
deny_protocol = codes "protocol"

abbrev pub deny_no_device : Str
deny_no_device = codes "no-device"

abbrev pub deny_stale : Str
deny_stale = codes "stale"

abbrev pub deny_insufficient_samples : Str
deny_insufficient_samples = codes "insufficient-samples"

abbrev pub deny_device_locked : Str
deny_device_locked = codes "device-locked"

abbrev pub deny_multi_device_auth : Str
deny_multi_device_auth = codes "multi-device-auth"

-- `deny`: renders a refusal.
unfoldable pub deny : Str → Str
deny reason = codes "DENY " ++ (reason ++ newline)
