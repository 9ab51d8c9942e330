-- ===== src/Vncclient/Zrle/Tile.antt =====
-- `parseTile`: one tile from the inflated bytes. `mem` is the backing array of the scratch slice
-- (4096 colours), of which the tile uses the first `n = tileHeight * tileWidth`.
use go_vncdriver.Common.{
  ℕ, zero, suc, ◌+◌, ◌-◌, ◌*◌, ◌/◌, ◌^◌, Bool, not, ◌&&◌, List, [], ◌∷◌, ltb, ◌==◌, if◌then◌else◌,
  length, take, drop, copy_at, index, bit_and,
}
use go_vncdriver.Common.Exec.{
  Exec, Result, ok, panic, stuck, slice_out_of_range, index_out_of_range, unhandled_subencoding,
  pure, raise, lift, ◌>>=◌,
}
use go_vncdriver.Common.Bytes.{u8, u16}
use go_vncdriver.Vncclient.Color.{Color}
use go_vncdriver.Vncclient.QuickBuf.{QuickBuf, read_byte, read_color, read_colors}
use go_vncdriver.Vncclient.Fill.{fill_run, fill_run2}

-- `bitsPerPackedPixel`
unfoldable pub bits_per_packed_pixel : ℕ → ℕ
bits_per_packed_pixel palette_size =
    if ltb 16 palette_size
    then 8
    else if ltb 4 palette_size
    then 4
    else if ltb 2 palette_size
    then 2
    else 1

-- `(b >> nbits) & ((1 << bitsPerPackedPixel) - 1) & 127`, in uint8 (so `1 << 8` is 0).
unfoldable pub palette_index : ℕ → ℕ → ℕ → ℕ
palette_index b nbits bits = bit_and (bit_and (b / 2 ^ nbits) (u8 (u8 (2 ^ bits) + 255))) 127

-- `scratch[i] = v`
unfoldable pub store : ℕ → List Color → ℕ → Color → Result (List Color)
store n mem i v = if ltb i n then ok (copy_at mem i (v ∷ [])) else panic index_out_of_range

-- `if nbits == 0 { b = ReadByte(); nbits = 8 }`
unfoldable pub refill : ℕ → ℕ → Exec QuickBuf (ℕ × ℕ)
refill b nbits = if nbits == 0 then (do x ← read_byte; pure (x, 8)) else pure (b, nbits)

module _ (tw n bits : ℕ) (palette : List Color) where
  -- The inner loop of the packed palette: `k` columns are left, `i` is the current one.
  unfoldable pub packed_columns : ℕ → ℕ → ℕ → ℕ → ℕ → List Color → Exec QuickBuf (List Color)
  unfolding refill store
  packed_columns zero i j b nbits mem = pure mem
  packed_columns (suc k) i j b nbits mem = do
    (b', have) ← refill b nbits
    let nbits' = u8 (have + 256 - bits)
    v ← lift (index palette (palette_index b' nbits' bits))
    mem' ← lift (store n mem (u16 (u16 (j * tw) + i)) v)
    packed_columns k (i + 1) j b' nbits' mem'

  -- The outer loop: every row starts on a new byte.
  unfoldable pub packed_rows : ℕ → ℕ → List Color → Exec QuickBuf (List Color)
  packed_rows zero j mem = pure mem
  packed_rows (suc k) j mem = do mem' ← packed_columns tw 0 j 0 0 mem; packed_rows k (j + 1) mem'

-- `for b := uint8(255); b == 255; { b = ReadByte(); count += int(b) }`
unfoldable pub run_length : ℕ → ℕ → Exec QuickBuf ℕ
run_length zero count = lift stuck
run_length (suc fuel) count = do
  b ← read_byte
  if b == 255 then run_length fuel (count + b) else pure (count + b)

-- A run takes a byte at least for every round of `run_length`.
unfoldable pub read_run_length : Exec QuickBuf ℕ
read_run_length q = run_length (suc (length q.buf)) 1 q

-- Plain RLE: runs until the tile is full.
unfoldable pub plain_runs : ℕ → ℕ → ℕ → List Color → Exec QuickBuf (List Color)
plain_runs zero n pos mem = lift stuck
plain_runs (suc fuel) n pos mem =
    let round = do
      v ← read_color
      count ← read_run_length
      mem' ← lift (fill_run2 mem pos count v)
      plain_runs fuel n (pos + count) mem'
    in if ltb pos n then round else pure mem

unfoldable pub palette_run : ℕ → Exec QuickBuf ℕ
palette_run idx = if bit_and idx 128 == 0 then pure 1 else read_run_length

-- Palette RLE: a run of one is a bare index.
unfoldable pub palette_runs : List Color → ℕ → ℕ → ℕ → List Color → Exec QuickBuf (List Color)
unfolding palette_run
palette_runs palette zero n pos mem = lift stuck
palette_runs palette (suc fuel) n pos mem =
    let round = do
      idx ← read_byte
      count ← palette_run idx
      v ← lift (index palette (bit_and idx 127))
      mem' ← lift (fill_run mem pos count v)
      palette_runs palette fuel n (pos + count) mem'
    in if ltb pos n then round else pure mem

-- The chain of subencodings. The pixels of the tile, and the scratch memory as it is left.
unfoldable pub tile_pixels :
    Bool → ℕ → List Color → (tw th : ℕ) → List Color → Exec QuickBuf (List Color × List Color)
tile_pixels rle palette_size palette tw th mem =
    let n = th * tw in
    let used = λ (mem' : List Color). pure (take n mem', mem') in
    if palette_size == 0 && not rle
    then (do colors ← read_colors n; pure (colors, mem))
    else if palette_size == 1 && not rle
    then (do v ← lift (index palette 0); mem' ← lift (fill_run mem 0 n v); used mem')
    else if not rle
    then (do
      mem' ← packed_rows tw n (bits_per_packed_pixel palette_size) palette th 0 mem
      used mem')
    else if palette_size == 0
    then (do mem' ← plain_runs (suc n) n 0 mem; used mem')
    else if ltb 1 palette_size
    then (do mem' ← palette_runs palette (suc n) n 0 mem; used mem')
    else raise unhandled_subencoding

unfoldable pub decode_tile : (tw th : ℕ) → List Color → Exec QuickBuf (List Color × List Color)
unfolding tile_pixels
decode_tile tw th mem = do
  subencoding ← read_byte
  let rle = not (bit_and subencoding 128 == 0)
  let palette_size = bit_and subencoding 127
  palette ← read_colors palette_size
  tile_pixels rle palette_size palette tw th mem

-- The last loop: the rows of the tile go to their places in the rectangle of width `w`.
unfoldable pub blit_rows : ℕ → ℕ → (w tx ty tw : ℕ) → List Color → List Color → Result (List Color)
blit_rows zero j w tx ty tw pixels colors = ok colors
blit_rows (suc k) j w tx ty tw pixels colors =
    let start = j * w + (ty * w + tx) in
    let row = take tw (drop (j * tw) pixels) in
    let rest = blit_rows k (j + 1) w tx ty tw pixels (copy_at colors start row) in
    if ltb (length colors) (start + tw)
    then panic slice_out_of_range
    else if ltb (length pixels) (j * tw)
    then panic slice_out_of_range
    else rest

-- The rectangle's colours and the scratch memory, after one tile.
unfoldable pub parse_tile :
    (w tx ty tw th : ℕ) → List Color → List Color → Exec QuickBuf (List Color × List Color)
unfolding decode_tile blit_rows
parse_tile w tx ty tw th colors mem = do
  (pixels, mem') ← decode_tile tw th mem
  colors' ← lift (blit_rows th 0 w tx ty tw pixels colors)
  pure (colors', mem')
