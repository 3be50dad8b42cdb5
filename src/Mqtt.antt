-- ===== src/Mqtt.antt =====
-- net_services.c: the MQTT connection, what is published on it and what its messages ask for.
pub mod Defs
pub mod Lifecycle
pub mod Broadcast
pub mod Topics
pub mod Hassio
pub mod Events
pub mod Published
pub mod Safety
pub mod Handler
pub mod Laws
pub mod Mild
pub mod Reading
pub mod Cleared
