-- ===== src/Vncclient/Tight.antt =====
-- `TightEncoding` of vncclient/encoding.go. The zlib of the standard library and the JPEG decoder
-- are the parameters of Tight/Streams and Tight/Read.
pub mod Streams
pub mod Read
pub mod Length
pub mod Pixels
pub mod Readers
pub mod Rectangles
pub mod Ending
pub mod Termination
