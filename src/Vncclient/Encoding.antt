-- ===== src/Vncclient/Encoding.antt =====
-- `Encoding` and `Rectangle` of vncclient/encoding.go and vncclient/server_messages.go. An int32
-- is its bit pattern, a number below 2 ^ 32.
use go_vncdriver.Common.{ℕ, ◌+◌, ◌*◌, ◌<◌, List, length, arith}
use go_vncdriver.Common.Bytes.{u32}
use go_vncdriver.Vncclient.Color.{Color}

-- The values that implement the interface. A level is the uint32 (for `jpeg_quality` the uint8)
-- that it converts from. The decoder state of a `TightEncoding` is not part of the value.
pub data Encoding : Type 0 where
  quality_level compress_level fine_quality_level subsample_level jpeg_quality : ℕ → Encoding
  raw : List Color → Encoding
  zrle : List Color → ℕ → Encoding
  tight : List Color → ℕ → Encoding

-- `Type() int32`
unfoldable pub type_of : Encoding → ℕ
type_of (quality_level f) = u32 (4294967264 + f)
type_of (compress_level l) = u32 (4294967040 + l)
type_of (fine_quality_level f) = u32 (4294966784 + f)
type_of (subsample_level s) = u32 (4294966528 + s)
type_of (jpeg_quality j) = u32 (4294967264 + j)
type_of (raw colors) = 0
type_of (zrle colors size) = 16
type_of (tight colors size) = 7

pub type_of-u32 : (e : Encoding) → type_of e < 4294967296
unfolding type_of
type_of-u32 (quality_level f) = omega arith
type_of-u32 (compress_level f) = omega arith
type_of-u32 (fine_quality_level f) = omega arith
type_of-u32 (subsample_level f) = omega arith
type_of-u32 (jpeg_quality f) = omega arith
type_of-u32 (raw colors) = omega arith
type_of-u32 (zrle colors size) = omega arith
type_of-u32 (tight colors size) = omega arith

-- `Size() int`
unfoldable pub size_of : Encoding → ℕ
size_of (raw colors) = length colors * 3
size_of (zrle colors size) = size
size_of (tight colors size) = size
size_of (quality_level f) = 0
size_of (compress_level l) = 0
size_of (fine_quality_level f) = 0
size_of (subsample_level s) = 0
size_of (jpeg_quality j) = 0

-- The geometry of a rectangle: four uint16.
pub record Rectangle : Type 0 where
  pub x : ℕ
  pub y : ℕ
  pub width : ℕ
  pub height : ℕ

-- A rectangle with the pixels that were read for it.
pub record DecodedRectangle : Type 0 where
  pub rect : Rectangle
  pub enc : Encoding

unfoldable pub area : Rectangle → ℕ
area r = r.width * r.height

-- `FramebufferUpdateMessage`: its rectangles.
abbrev pub FramebufferUpdate : Type 0
FramebufferUpdate = List DecodedRectangle
