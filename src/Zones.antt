-- ===== src/Zones.antt =====
-- zone_ctrl.c: turning zones and the master valve on and off, the run of all zones in turn, the check
-- that ends a zone whose time is up, and the requests. `time` reads the state's clock.
pub mod Pins
pub mod Cycle
pub mod Requests
pub mod Panel
pub mod Switches
pub mod Progress
pub mod Advance
pub mod Safety
pub mod Check
pub mod AllOff
pub mod OnOff
pub mod CycleAll
pub mod Zone
pub mod Invariant
pub mod Faults
pub mod Halting
pub mod Termination
pub mod Ending
