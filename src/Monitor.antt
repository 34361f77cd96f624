-- ===== src/Monitor.antt =====
-- src/monitor.rs and src/monitor/*: the programs that measure the machine's load, one for Linux
-- with `radeontop` and one for macOS with `powermetrics`.
pub mod Nom
pub mod Data
pub mod Parse
pub mod Report
pub mod Radeon
pub mod Apple
pub mod Windows
