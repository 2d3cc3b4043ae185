-- ===== src/Cli/Setup.antt =====
-- crates/cli/src/setup: what setup installs for the user, and takes back.
pub mod Markers
pub mod Binding
pub mod Undo
pub mod Lock
pub mod Swap
pub mod Menu
pub mod Parts
pub mod Order
pub mod Teardown
mod Tests
