-- ===== src/Paths.antt =====
-- crates/protocol/src/paths.rs: the socket of a user and the files of the configuration and of BlueZ.
-- `current_socket_dir` and `current_socket_path` take the user id from the kernel; here it is the
-- argument of `socket_dir` and `socket_path`. The environment is an argument.
pub mod Socket
use omarchy_presence_unlock.Base.{
  ℕ, zero, suc, ◌≡◌, refl, sym, ap, ◌∙◌, Bool, true, false, List, [], ◌∷◌, ◌++◌, Option, none, some,
  Str, codes, ◌==◌, if◌then◌else◌, strip_prefix, strip_prefix-append, length, length-append, arith,
}
use omarchy_presence_unlock.Numbers.{decimal}

-- `Path::join` of a base that is not empty: an absolute part takes its place, and a separator is put
-- in unless the base ends with one.
abbrev pub is_absolute : Str → Bool
is_absolute [] = false
is_absolute (c ∷ s) = c == b'/'

unfoldable pub with_separator : Str → Str
with_separator [] = []
with_separator (c ∷ []) = if c == b'/' then c ∷ [] else c ∷ b'/' ∷ []
with_separator (c ∷ d ∷ s) = c ∷ with_separator (d ∷ s)

unfoldable pub join : Str → Str → Str
unfolding with_separator
join base part = if is_absolute part then part else with_separator base ++ part

unfoldable pub socket_dir : ℕ → Str
socket_dir uid = codes "/run/user/" ++ (decimal uid ++ codes "/omarchy-presence-unlock")

unfoldable pub socket_path : ℕ → Str
unfolding socket_dir
socket_path uid = join (socket_dir uid) (codes "control.sock")

-- The base of `config_dir`: `$XDG_CONFIG_HOME`, or `.config` in `$HOME`.
abbrev pub config_base : Option Str → Option Str → Option Str
config_base (some base) home = some base
config_base none none = none
config_base none (some home) = some (join home (codes ".config"))

abbrev pub join_some : Option Str → Str → Option Str
join_some none part = none
join_some (some base) part = some (join base part)

unfoldable pub config_dir : Option Str → Option Str → Option Str
config_dir xdg_config_home home =
    join_some (config_base xdg_config_home home) (codes "omarchy-presence-unlock")

unfoldable pub config_path : Option Str → Option Str → Option Str
unfolding config_dir
config_path xdg_config_home home = join_some (config_dir xdg_config_home home) (codes "config.toml")

abbrev pub bluez_storage_dir : Str
bluez_storage_dir = codes "/var/lib/bluetooth"

unfoldable pub bluez_adapter_dir : Str → Bool → Str
bluez_adapter_dir adapter adapter_is_random =
    join bluez_storage_dir (if adapter_is_random then codes "static-" ++ adapter else adapter)

unfoldable pub bluez_device_info : Str → Bool → Str → Str
unfolding bluez_adapter_dir
bluez_device_info adapter adapter_is_random device =
    join (join (bluez_adapter_dir adapter adapter_is_random) device) (codes "info")
