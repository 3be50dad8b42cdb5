-- ===== src/State.antt =====
-- config.h and zone_ctrl.h: `_sdconfig_`, the daemon's one state, and the runs of its functions.
mod Defs
mod Config
mod Outcome
unfoldable pub use Defs.*
unfoldable pub use Config.*
unfoldable pub use Outcome.*
