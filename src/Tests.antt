-- ===== src/Tests.antt =====
-- The model run on a small garden, and the theorems applied to it.
mod Plant
mod Garden
mod Zones
mod Rain
mod Web
mod Network
mod Startup
mod Daemon
mod Domoticz
mod Launch
mod Cron
mod Utils
