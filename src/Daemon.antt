-- ===== src/Daemon.antt =====
-- crates/daemon: the control socket and the scanner.
pub mod Control
pub mod Scan
pub mod Life
pub mod Serve
mod Tests
