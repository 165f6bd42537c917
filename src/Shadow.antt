-- ===== src/Shadow.antt =====
-- The device shadow of uiot/shadow.
pub mod Document
pub mod State
pub mod Client
pub mod Receive
pub mod Api
pub mod Values
