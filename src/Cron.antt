-- ===== src/Cron.antt =====
-- sd_cron.c: the cron file, which is written a while after the last change of the calendar.
pub mod Defs
pub mod Safety
pub mod Read
pub mod Plan
