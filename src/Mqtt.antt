-- ===== src/Mqtt.antt =====
-- The MQTT endpoint: mqtt-endpoint/src/service and the part of mqtt-common/src/mqtt.rs that hands
-- the messages of a connection to its session.
pub mod Topics
pub mod Dialect
pub mod Delivery
pub mod Publishing
pub mod Errors
pub mod Cache
pub mod Disconnect
pub mod Session
pub mod Authenticator
pub mod App
pub mod Control
pub mod Tests
