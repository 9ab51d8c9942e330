-- ===== src/Gymvnc.antt =====
-- Package gymvnc: sessions with two screens over a VNC connection.
pub mod Screen
pub mod Config
pub mod Session
pub mod Events
pub mod Connect
pub mod Lifecycle
pub mod Batch
