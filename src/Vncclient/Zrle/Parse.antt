-- ===== src/Vncclient/Zrle/Parse.antt =====
-- `parse` and `Read` of `ZRLEEncoding`: the tiles of a rectangle, left to right and downwards.
-- The counters are uint16, and wrap.
use go_vncdriver.Common.{
  ℕ, zero, suc, ◌+◌, ◌-◌, ◌*◌, ◌/◌, List, ltb, ◌==◌, if◌then◌else◌, length, replicate,
}
use go_vncdriver.Common.Exec.{
  Exec, Result, ok, err, panic, stuck, negative_make, slice_out_of_range, bits_per_pixel,
  unread_bytes, pure, lift, bind, ◌>>=◌, ◌>>◌,
}
use go_vncdriver.Common.Bytes.{u16}
use go_vncdriver.Vncclient.Color.{Color, black}
use go_vncdriver.Vncclient.QuickBuf.{QuickBuf, new_quick_buf, len}
use go_vncdriver.Vncclient.Encoding.{Encoding, zrle, Rectangle, area}
use go_vncdriver.Vncclient.Client.{ClientConn, on_input, on_inflator}
use go_vncdriver.Vncclient.Wire.{read_full, read_number}
use go_vncdriver.Vncclient.Zrle.Tile.{parse_tile}

-- `min(x, y uint16)`
unfoldable pub min16 : ℕ → ℕ → ℕ
min16 x y = if ltb y x then y else x

-- `scratch[:n]`
abbrev pub scratch_room : List Color → ℕ → Result (Unit {0})
scratch_room mem n = if ltb (length mem) n then panic slice_out_of_range else ok tt

-- The rectangle's colours and the scratch memory.
abbrev pub Canvas : Type 0
Canvas = List Color × List Color

-- `for tileX := uint16(0); tileX < rect.Width; tileX += 64`
unfoldable pub parse_row : ℕ → (w ty th tx : ℕ) → Canvas → Exec QuickBuf Canvas
parse_row zero w ty th tx canvas = lift stuck
parse_row (suc fuel) w ty th tx (colors, mem) =
    let tw = min16 64 (w - tx) in
    let round = do
      lift (scratch_room mem (th * tw))
      canvas' ← parse_tile w tx ty tw th colors mem
      parse_row fuel w ty th (u16 (tx + 64)) canvas'
    in if ltb tx w then round else pure (colors, mem)

-- `for tileY := uint16(0); tileY < rect.Height; tileY += 64`
unfoldable pub parse_rows : ℕ → (w h ty : ℕ) → Canvas → Exec QuickBuf Canvas
parse_rows zero w h ty canvas = lift stuck
parse_rows (suc fuel) w h ty canvas =
    let round = do
      canvas' ← parse_row (suc (w / 64 + 1)) w ty (min16 64 (h - ty)) 0 canvas
      parse_rows fuel w h (u16 (ty + 64)) canvas'
    in if ltb ty h then round else pure canvas

unfoldable pub parse : Rectangle → Exec QuickBuf (List Color)
parse rect = do
  (colors, _) ←
      parse_rows (suc (rect.height / 64 + 1)) rect.width rect.height 0
        (replicate (area rect) black, replicate 4096 black)
  pure colors

-- What `Read` does with the inflated bytes.
unfoldable pub read_inflated : ℕ → Rectangle → List ℕ → Result (List Color)
read_inflated bpp rect inflated =
    let (r, q) = parse rect (new_quick_buf inflated) in
    if ltb bpp 24
    then err bits_per_pixel
    else bind r λ colors. if len q == 0 then ok colors else err unread_bytes

-- `inflate` is that of package flexzlib, with its state.
module _ {I : Type 0} (inflate : List ℕ → Exec I (List ℕ)) where
  -- `length` is an int32, so from 2 ^ 31 on it is negative.
  unfoldable pub zrle_read : Rectangle → Exec (ClientConn I) Encoding
  zrle_read rect = do
    length ← on_input (read_number 4)
    lift (if ltb length 2147483648 then ok tt else panic negative_make)
    compressed ← on_input (read_full length)
    inflated ← on_inflator (inflate compressed)
    colors ← (λ c. (read_inflated c.pixel_format.bpp rect inflated, c))
    pure (zrle colors length)
