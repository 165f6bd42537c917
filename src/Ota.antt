-- ===== src/Ota.antt =====
-- The over-the-air update of uiot/ota.
pub mod State
pub mod Ensures
pub mod Message
pub mod Report
pub mod Fetch
pub mod Download
pub mod Callback
pub mod Init
pub mod Destroy
