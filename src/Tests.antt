-- ===== src/Tests.antt =====
-- Runs on concrete inputs, and the theorems at inputs that meet their hypotheses.
mod Zrle
mod Client
mod Handshake
mod Messages
mod Session
mod Tight
mod Decoders
mod Pixels
mod Lifecycle
mod Batch
mod Flexzlib
