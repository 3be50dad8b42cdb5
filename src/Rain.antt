-- ===== src/Rain.antt =====
-- sd_cron.c: the calendar switch, the 24h rain delay and the rain sensors. The delay ends at
-- `delay24h_time`; while it is on, cron requests are held back and no zone that cron started runs.
pub mod Defs
pub mod Delay
pub mod Sensors
pub mod Faults
