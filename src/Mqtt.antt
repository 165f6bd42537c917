-- ===== src/Mqtt.antt =====
-- The MQTT client of uiot/mqtt: one child module for each part.
pub mod Bytes
pub mod RemLen
pub mod Header
pub mod Serialize
pub mod Deserialize
pub mod Topic
pub mod State
pub mod Act
pub mod Pending
pub mod Net
pub mod Handlers
pub mod Connect
pub mod Requests
pub mod Session
pub mod Construct
