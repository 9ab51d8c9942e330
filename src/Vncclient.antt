-- ===== src/Vncclient.antt =====
-- Package vncclient: the client's side of the RFB protocol.
pub mod Color
pub mod QuickBuf
pub mod Fill
pub mod Zrle
pub mod Wire
pub mod PixelFormat
pub mod Encoding
pub mod Client
pub mod ClientAuth
pub mod Handshake
pub mod RawEncoding
pub mod Tight
pub mod Decoders
pub mod ServerMessages
