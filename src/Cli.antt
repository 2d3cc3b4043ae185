-- ===== src/Cli.antt =====
-- crates/cli: the command line, what it installs and what it edits.
pub mod Gesture
pub mod Atomic
pub mod Keys
pub mod Devices
pub mod Setup
pub mod Monitor
pub mod Capture
pub mod Client
pub mod Bonds
