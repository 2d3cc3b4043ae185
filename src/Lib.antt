-- ===== src/Lib.antt =====
-- Proximity unlock: a daemon watches Bluetooth advertisements of enrolled devices, and a PAM module
-- asks it over a socket whether the user is present.
--
-- The parts and the files that model them:
--   * crates/protocol/src/presence.rs: `Presence` has `Policy`, `Decision` and `Eligibility` with
--     `observe`, `check` and `invalidate`; `Fleet` has the devices and the multi-device rule.
--   * crates/protocol/src/identity.rs and irk.rs: `Identity` and `Irk`, the matching of a device.
--   * crates/protocol/src/ble.rs: `Ble`, the advertisement and the text form of an address.
--   * crates/protocol/src/apple.rs and profile/: `Apple`, the decoder; `Profile`, the registry.
--   * crates/protocol/src/wire.rs: `Wire`, the lines of the control socket.
--   * crates/protocol/src/config.rs: `Config`, from the entries of the file to settings.
--   * crates/protocol/src/paths.rs: `Paths`, where the socket and the files are.
--   * crates/daemon/src/control.rs, scan.rs and main.rs: `Daemon`, with the answers in `Control`, the
--     start and the clients in `Serve`, the rounds of the scanner in `Scan`, the scans that end in
--     `Life`.
--   * crates/pam/src/lib.rs: `Pam`, the account check, the exchange with the daemon, the result.
--   * crates/cli/src/atomic.rs: `Cli.Atomic`, the replacement of a file and the update around it.
--   * crates/cli/src/devices.rs: `Cli.Devices`, the ids of devices and the edits of the configuration.
--   * crates/cli/src/client.rs: `Cli.Client`, the reading of the daemon's answer.
--   * crates/cli/src/keys.rs: `Cli.Keys`, the keys that end a long operation.
--   * crates/cli/src/pairing.rs and enrollment/: `Cli.Capture`, the enrollment of a peer that pairs;
--     `Cli.Monitor`, the helper that prints its key and the reading of what it prints; `Cli.Bonds`, what
--     is printed of bond records.
--   * crates/cli/src/setup/: `Cli.Gesture`, the code written into the lock screen; `Cli.Setup`, the key
--     binding, the patched lock plugin, its directory, the rows of the menu, what a step leaves of
--     the plugin and of a text, and the order of setup and of its removal.
--   * `Base` and `Numbers` model what is used of the standard library: slices, texts, UTF-8, and the
--     parsing and printing of numbers.
--
-- A function of the source has a definition of its name. `&mut self` is the state before as an
-- argument and the state after as the result. The scanner calls `Fleet.observe` for what it reads,
-- the control socket calls `Fleet.check` and `Fleet.report`, and the PAM module reads the answer.
-- The lock around the fleet makes each of these one step. The commands of the CLI edit the file that
-- `Config.resolve` reads through `Cli.Atomic.Update.update`, and commit a key through `Cli.Devices`.
-- What a system call, a command or BlueZ answers is an argument of the definition that asks.
--
-- Numbers: instants, counts and unsigned values are natural numbers, signal strengths integers.
-- `u64::saturating_sub` is subtraction on the natural numbers. No definition runs on fuel: the
-- decoder recurs on the bytes that are left, and the loops of the PAM module and of the keys on what
-- the kernel answers. Three loops of the CLI count their tries, and have the bound of the source: 128
-- names of a temporary file, ten attempts to restore the adapter, and one more suffix of an id than
-- there are ids.
--
-- Not modelled: the crates that are only called (AES, base64 and UUIDs are parameters, as are the
-- tables of toml_edit with their laws; TOML, JSON, BlueZ, tokio and PAM itself show in what they
-- answer), the scan, the dialogue, the diagnosis and most printing of the CLI, the texts
-- of its errors, the mode of the socket, the end of the process when its server ends, and the packaging.
pub mod Base
pub mod Ble
pub mod Wire
pub mod Presence
pub mod Numbers
pub mod Irk
pub mod Identity
pub mod Apple
pub mod Profile
pub mod Fleet
pub mod Config
pub mod Daemon
pub mod Paths
pub mod Pam
pub mod Cli
