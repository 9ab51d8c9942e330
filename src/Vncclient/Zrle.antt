-- ===== src/Vncclient/Zrle.antt =====
-- `ZRLEEncoding` of vncclient/encoding.go: a rectangle as tiles of 64 by 64 pixels. The format in
-- RFC 6143's own terms is Zrle/Format; the laws are in the other children.
pub mod Tile
pub mod Format
pub mod Parse
pub mod Runs
pub mod RoundTrip
pub mod Loops
pub mod Termination
pub mod PaletteRuns
