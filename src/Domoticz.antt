-- ===== src/Domoticz.antt =====
-- net_services.c: the cache of the values that Domoticz was last sent, and its requests.
pub mod Defs
pub mod Cache
pub mod Map
pub mod Parse
pub mod Safety
pub mod RoundTrip
