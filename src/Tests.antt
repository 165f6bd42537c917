-- ===== src/Tests.antt =====
-- Runs of the model and instances of its theorems: uiot/mqtt/src at concrete packets and clients.
mod Codec
mod Client
mod Construct
mod Utils
mod Ota
mod Json
mod Shadow
