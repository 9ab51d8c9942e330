-- ===== src/Vncclient/Zrle/Termination.antt =====
-- The ZRLE decoder ends, whatever a server sends.
use go_vncdriver.Common.{
  ℕ, zero, suc, ◌+◌, ◌-◌, ◌*◌, ◌/◌, ◌≤◌, ◌<◌, Bool, not, ◌&&◌, List, arith, length, ltb, ltb→lt,
  Bool-cases, inl, inr, index, get_elem?, copy_at, ◌==◌, bit_and, replicate, take, drop,
}
use go_vncdriver.Common.Bytes.{u8, u16}
use go_vncdriver.Common.Exec.{pure, lift}
use go_vncdriver.Common.Total.{
  IsFinished, IsTotal, IsTotal-bind, IsTotal-pure, IsTotal-lift, IsTotal-if, element-IsFinished,
}
use go_vncdriver.Vncclient.Color.{Color, black}
use go_vncdriver.Vncclient.QuickBuf.{QuickBuf, read_byte, read_colors}
use go_vncdriver.Vncclient.Encoding.{Rectangle, area}
use go_vncdriver.Vncclient.Fill.{fill_run}
use go_vncdriver.Vncclient.Zrle.Loops.{
  read_byte-IsTotal, read_colors-IsTotal, plain_runs-IsTotal, palette_runs-IsTotal,
  fill_run-IsFinished,
}
use go_vncdriver.Vncclient.Zrle.Tile.{
  plain_runs, palette_runs, palette_index, bits_per_packed_pixel, store, refill, packed_columns,
  packed_rows, tile_pixels, decode_tile, blit_rows, parse_tile,
}
use go_vncdriver.Vncclient.Zrle.Parse.{Canvas, scratch_room, min16, parse_row, parse_rows, parse}

store-IsFinished : (n : ℕ) (mem : List Color) (i : ℕ) (v : Color) → IsFinished (store n mem i v)
unfolding store
store-IsFinished n mem i v = elim (Bool-cases (ltb i n)) [ inl e ↦ rw e tt | inr e ↦ rw e tt ]

refill-IsTotal : (b nbits : ℕ) → IsTotal (refill b nbits)
unfolding refill
refill-IsTotal b nbits =
    IsTotal-if (nbits == 0) _ (pure (b, nbits))
      (IsTotal-bind read_byte _ read_byte-IsTotal (λ x. IsTotal-pure (x, 8)))
      (IsTotal-pure (b, nbits))

module _ (tw n bits : ℕ) (palette : List Color) where
  packed_columns-IsTotal :
      (k i j b nbits : ℕ) (mem : List Color)
      → IsTotal (packed_columns tw n bits palette k i j b nbits mem)
  unfolding packed_columns
  packed_columns-IsTotal zero i j b nbits mem = IsTotal-pure mem
  packed_columns-IsTotal (suc k) i j b nbits mem =
      IsTotal-bind (refill b nbits) _ (refill-IsTotal b nbits) λ x.
        IsTotal-bind (lift (index palette (palette_index x.0 (u8 (x.1 + 256 - bits)) bits))) _
          (IsTotal-lift _ (
            element-IsFinished
              (get_elem? palette (palette_index x.0 (u8 (x.1 + 256 - bits)) bits))))
          λ v.
            IsTotal-bind (lift (store n mem (u16 (u16 (j * tw) + i)) v)) _
              (IsTotal-lift _ (store-IsFinished n mem (u16 (u16 (j * tw) + i)) v))
              λ mem'. packed_columns-IsTotal k (i + 1) j x.0 (u8 (x.1 + 256 - bits)) mem'

  packed_rows-IsTotal :
      (k j : ℕ) (mem : List Color) → IsTotal (packed_rows tw n bits palette k j mem)
  unfolding packed_rows
  packed_rows-IsTotal zero j mem = IsTotal-pure mem
  packed_rows-IsTotal (suc k) j mem =
      IsTotal-bind (packed_columns tw n bits palette tw 0 j 0 0 mem) _
        (packed_columns-IsTotal tw 0 j 0 0 mem) (packed_rows-IsTotal k (j + 1))

tile_pixels-IsTotal :
    (rle : Bool) (size : ℕ) (palette : List Color) (tw th : ℕ) (mem : List Color)
    → IsTotal (tile_pixels rle size palette tw th mem)
unfolding tile_pixels
tile_pixels-IsTotal rle size palette tw th mem =
    IsTotal-if (size == 0 && not rle) _ _
      (IsTotal-bind (read_colors n) _ (read_colors-IsTotal n) (λ cs. IsTotal-pure _))
      (IsTotal-if (size == 1 && not rle) _ _
        (IsTotal-bind (lift (index palette 0)) _
          (IsTotal-lift _ (element-IsFinished (get_elem? palette 0)))
          (λ v.
            IsTotal-bind (lift (fill_run mem 0 n v)) _
              (IsTotal-lift _ (fill_run-IsFinished mem 0 n v)) (λ mem'. IsTotal-pure _)))
        (IsTotal-if (not rle) _ _
          (IsTotal-bind (packed_rows tw n (bits_per_packed_pixel size) palette th 0 mem) _
            (packed_rows-IsTotal tw n (bits_per_packed_pixel size) palette th 0 mem)
            (λ mem'. IsTotal-pure _))
          (IsTotal-if (size == 0) _ _
            (IsTotal-bind (plain_runs (suc n) n 0 mem) _
              (plain_runs-IsTotal (suc n) n 0 mem (omega arith)) (λ mem'. IsTotal-pure _))
            (IsTotal-if (ltb 1 size) _ _
              (IsTotal-bind (palette_runs palette (suc n) n 0 mem) _
                (palette_runs-IsTotal palette (suc n) n 0 mem (omega arith))
                (λ mem'. IsTotal-pure _))
              (record { finished = λ q. tt })))))
  where
    n : ℕ
    n = th * tw

pub decode_tile-IsTotal : (tw th : ℕ) (mem : List Color) → IsTotal (decode_tile tw th mem)
unfolding decode_tile
decode_tile-IsTotal tw th mem = IsTotal-bind read_byte _ read_byte-IsTotal λ b.
    IsTotal-bind (read_colors (bit_and b 127)) _ (read_colors-IsTotal (bit_and b 127))
      λ palette. tile_pixels-IsTotal (not (bit_and b 128 == 0)) (bit_and b 127) palette tw th mem

blit_rows-IsFinished :
    (k j w tx ty tw : ℕ) (pixels colors : List Color)
    → IsFinished (blit_rows k j w tx ty tw pixels colors)
unfolding blit_rows
blit_rows-IsFinished zero j w tx ty tw pixels colors = tt
blit_rows-IsFinished (suc k) j w tx ty tw pixels colors =
    elim (Bool-cases (ltb (length colors) (j * w + (ty * w + tx) + tw))) [
      | inl e ↦ rw e tt
      | inr e ↦ rw e (elim (Bool-cases (ltb (length pixels) (j * tw))) [
        | inl e' ↦ rw e' tt
        | inr e' ↦ rw e' (
            blit_rows-IsFinished k (j + 1) w tx ty tw pixels
              (copy_at colors (j * w + (ty * w + tx)) (take tw (drop (j * tw) pixels))))
      ])
    ]

parse_tile-IsTotal :
    (w tx ty tw th : ℕ) (colors mem : List Color) → IsTotal (parse_tile w tx ty tw th colors mem)
unfolding parse_tile
parse_tile-IsTotal w tx ty tw th colors mem =
    IsTotal-bind (decode_tile tw th mem) _ (decode_tile-IsTotal tw th mem) λ x.
      IsTotal-bind (lift (blit_rows th 0 w tx ty tw x.0 colors)) _
        (IsTotal-lift _ (blit_rows-IsFinished th 0 w tx ty tw x.0 colors)) λ colors'. IsTotal-pure _

scratch_room-IsFinished : (mem : List Color) (n : ℕ) → IsFinished (scratch_room mem n)
scratch_room-IsFinished mem n = elim (Bool-cases (ltb (length mem) n)) [
  | inl e ↦ rw e tt
  | inr e ↦ rw e tt
]

-- The next tile's position does not wrap around, and a round of fuel is left for it.
next_tile :
    (fuel size at : ℕ)
    → size ≤ 65472
    → at < size
    → size - at + 64 ≤ 64 * (fuel + 1)
    → size - u16 (at + 64) + 64 ≤ 64 * fuel
next_tile fuel size at h lt room = omega arith

parse_row-IsTotal :
    (fuel w ty th tx : ℕ) (canvas : Canvas)
    → w ≤ 65472
    → w - tx + 64 ≤ 64 * fuel
    → IsTotal (parse_row fuel w ty th tx canvas)
unfolding parse_row
parse_row-IsTotal zero w ty th tx canvas h room = absurd (omega arith)
parse_row-IsTotal (suc fuel) w ty th tx (colors, mem) h room = elim (Bool-cases (ltb tx w)) [
  | inl more ↦ rw more (
      IsTotal-bind (lift (scratch_room mem (th * min16 64 (w - tx)))) _
        (IsTotal-lift _ (scratch_room-IsFinished mem (th * min16 64 (w - tx))))
        λ _.
          IsTotal-bind (parse_tile w tx ty (min16 64 (w - tx)) th colors mem) _
            (parse_tile-IsTotal w tx ty (min16 64 (w - tx)) th colors mem)
            λ canvas'.
              parse_row-IsTotal fuel w ty th (u16 (tx + 64)) canvas' h
                (next_tile fuel w tx h (ltb→lt tx w more) (omega arith)))
  | inr done ↦ rw done (IsTotal-pure (colors, mem))
]

parse_rows-IsTotal :
    (fuel w h ty : ℕ) (canvas : Canvas)
    → w ≤ 65472
    → h ≤ 65472
    → h - ty + 64 ≤ 64 * fuel
    → IsTotal (parse_rows fuel w h ty canvas)
unfolding parse_rows
parse_rows-IsTotal zero w h ty canvas hw hh room = absurd (omega arith)
parse_rows-IsTotal (suc fuel) w h ty canvas hw hh room = elim (Bool-cases (ltb ty h)) [
  | inl more ↦ rw more (
      IsTotal-bind (parse_row (suc (w / 64 + 1)) w ty (min16 64 (h - ty)) 0 canvas) _
        (parse_row-IsTotal (suc (w / 64 + 1)) w ty (min16 64 (h - ty)) 0 canvas hw (omega arith))
        λ canvas'.
          parse_rows-IsTotal fuel w h (u16 (ty + 64)) canvas' hw hh
            (next_tile fuel h ty hh (ltb→lt ty h more) (omega arith)))
  | inr done ↦ rw done (IsTotal-pure canvas)
]

-- The ZRLE decoder ends on every input, with colours, an error or a fault, as long as the sides of
-- the rectangle are at most 65472, where the uint16 counters of the tiles do not wrap around.
pub parse_finishes :
    (rect : Rectangle) (q : QuickBuf)
    → rect.width ≤ 65472
    → rect.height ≤ 65472
    → IsFinished (parse rect q).0
unfolding parse
parse_finishes rect q hw hh = decoded.finished q
  where
    decoded : IsTotal (parse rect)
    decoded =
        IsTotal-bind
          (parse_rows (suc (rect.height / 64 + 1)) rect.width rect.height 0
            (replicate (area rect) black, replicate 4096 black))
          _
          (parse_rows-IsTotal (suc (rect.height / 64 + 1)) rect.width rect.height 0
            (replicate (area rect) black, replicate 4096 black) hw hh (omega arith))
          λ canvas. IsTotal-pure canvas.0
