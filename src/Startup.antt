-- ===== src/Startup.antt =====
-- config.c and sprinkler.c: the configuration, the start and the end of the daemon.
pub mod Options
pub mod Settings
pub mod Pins
pub mod Shutdown
pub mod Bounds
pub mod Inputs
pub mod Triggers
pub mod Main
pub mod Planned
pub mod SetUp
pub mod Begun
