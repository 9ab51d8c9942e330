-- ===== src/Vncclient/RawEncoding.antt =====
-- `RawEncoding` of vncclient/encoding.go: the pixels of a rectangle in the connection's format.
use go_vncdriver.Common.{
  ℕ, zero, suc, ◌+◌, ◌*◌, ◌/◌, ◌^◌, ◌||◌, List, [], ◌∷◌, ◌==◌, if◌then◌else◌, take, drop, index,
  bit_and,
}
use go_vncdriver.Common.Bytes.{u8, of_be}
use go_vncdriver.Common.Exec.{Exec, Result, ok, pure, lift, bind, ◌>>=◌}
use go_vncdriver.Vncclient.Color.{Color}
use go_vncdriver.Vncclient.PixelFormat.{PixelFormat}
use go_vncdriver.Vncclient.Encoding.{Encoding, raw, Rectangle, area}
use go_vncdriver.Vncclient.Client.{ClientConn, on_input}
use go_vncdriver.Vncclient.Wire.{read_full}

abbrev pub of_le : List ℕ → ℕ
of_le [] = 0
of_le (b ∷ bs) = b + 256 * of_le bs

-- `byteOrder.Uint16` and `byteOrder.Uint32`
abbrev pub ordered : PixelFormat → List ℕ → ℕ
ordered pf bs = if pf.big_endian then of_be 0 bs else of_le bs

-- `rawPixel`: 0 where the pixels have another size than 8, 16 and 32 bits.
unfoldable pub raw_pixel : PixelFormat → List ℕ → Result ℕ
raw_pixel pf bs =
    if pf.bpp == 8
    then index bs 0
    else if pf.bpp == 16 || pf.bpp == 32
    then ok (ordered pf bs)
    else ok 0

-- `uint8((rawPixel >> shift) & uint32(max))`
unfoldable pub channel : (pixel shift max : ℕ) → ℕ
channel pixel shift max = u8 (bit_and (pixel / 2 ^ shift) max)

unfoldable pub pixel_color : PixelFormat → List Color → ℕ → Result Color
unfolding channel
pixel_color pf color_map pixel =
    if pf.true_color
    then ok (record {
      r = channel pixel pf.red_shift pf.red_max;
      g = channel pixel pf.green_shift pf.green_max;
      b = channel pixel pf.blue_shift pf.blue_max;
    })
    else index color_map pixel

-- The two loops visit the colours one after the other; `k` are left, and `bs` is the rest of the
-- buffer.
unfoldable pub raw_colors : PixelFormat → List Color → ℕ → List ℕ → Result (List Color)
raw_colors pf color_map zero bs = ok []
raw_colors pf color_map (suc k) bs = bind (raw_pixel pf (take (pf.bpp / 8) bs)) λ pixel.
    bind (pixel_color pf color_map pixel)
      λ c. bind (raw_colors pf color_map k (drop (pf.bpp / 8) bs)) λ cs. ok (c ∷ cs)

unfoldable pub raw_read : {I : Type 0} → Rectangle → Exec (ClientConn I) Encoding
raw_read rect c =
    (do
      buf ← on_input (read_full (area rect * (c.pixel_format.bpp / 8)))
      colors ← lift (raw_colors c.pixel_format c.color_map (area rect) buf)
      pure (raw colors))
      c
