-- ===== src/Vncclient/Tight/Read.antt =====
-- `Read` of `TightEncoding` and `readBasicCompression`.
use go_vncdriver.Common.{
  ℕ, zero, suc, ◌+◌, ◌-◌, ◌*◌, ◌/◌, ◌%◌, ◌^◌, List, [], ◌∷◌, ◌++◌, Option, none, some, Bool, true,
  false, ◌&&◌, ◌||◌, ltb, leb, ◌==◌, if◌then◌else◌, length, take, drop, replicate, index, bit_and,
  bit_or,
}
use go_vncdriver.Common.Bytes.{u8}
use go_vncdriver.Common.Exec.{
  Exec, Result, ok, err, bad_jpeg, rectangle_too_wide, unsupported_format, bad_control,
  bad_palette_index, bad_filter, pure, raise, lift, gets, modify, guard, bind, ◌>>=◌, ◌>>◌,
}
use go_vncdriver.Vncclient.Color.{Color, black}
use go_vncdriver.Vncclient.QuickBuf.{new_quick_buf, read_colors}
use go_vncdriver.Vncclient.PixelFormat.{PixelFormat}
use go_vncdriver.Vncclient.Encoding.{Encoding, tight, Rectangle, area}
use go_vncdriver.Vncclient.Tight.Streams.{
  Zlib, Tight, direct, count_bytes, reset_buf, next_byte, read_compact_length,
  basic_compression_reader, read_to_buf, read_tpixels,
}

-- `c.PixelFormat` is the only format that is accepted.
unfoldable pub is_supported : PixelFormat → Bool
is_supported f =
    f.bpp == 32
    && (f.depth == 24
        && (f.true_color && (f.red_max == 255 && (f.green_max == 255 && f.blue_max == 255))))

-- The loop over a palette of two: `i` is the position of the pixel, `at` that of the byte behind
-- the current one, and `k` pixels are left.
unfoldable pub mono_pixels :
    (width : ℕ)
    → (palette : List Color) → (buf : List ℕ) → (k i at offset : ℕ) → Result (List Color)
mono_pixels width palette buf zero i at offset = ok []
mono_pixels width palette buf (suc k) i at offset =
    let fresh = offset == 0 || i % width == 0 in
    let at' = if fresh then at + 1 else at in
    let offset' = (if fresh then 8 else offset) - 1 in
    bind (index buf (at' - 1)) λ b.
      bind (index palette (bit_and (b / 2 ^ offset') 1))
        λ c. bind (mono_pixels width palette buf k (i + 1) at' offset') λ cs. ok (c ∷ cs)

-- The loop over a larger palette: `k` pixels are left.
unfoldable pub indexed_pixels : List Color → List ℕ → ℕ → Result (List Color)
indexed_pixels palette buf zero = ok []
indexed_pixels palette buf (suc k) = bind (index buf 0) λ b.
    bind (if leb (length palette) b then err bad_palette_index else index palette b)
      λ c. bind (indexed_pixels palette (drop 1 buf) k) λ cs. ok (c ∷ cs)

-- `component`, whose argument is a copy.
abbrev pub component : Color → ℕ → ℕ
component c zero = c.r
component c (suc zero) = c.g
component c (suc (suc k)) = c.b

-- `cr.at(y-1, x-1, c)`
unfoldable pub gradient_at : (width : ℕ) → List Color → (y x c : ℕ) → Result ℕ
gradient_at width colors y x c =
    if y == 0 || x == 0
    then ok 0
    else bind (index colors ((y - 1) * width + (x - 1))) λ color. ok (component color c)

abbrev pub with_component : Color → ℕ → ℕ → Color
with_component c zero v = record c { r = v }
with_component c (suc zero) v = record c { g = v }
with_component c (suc (suc k)) v = record c { b = v }

-- `*component(colors[i], c) = v`: the colours, and the copy of `colors[i]` that `component` was given,
-- to which the address belongs.
abbrev pub store_component : List Color → (copy : Color) → (c v : ℕ) → List Color × Color
store_component colors copy c v = (colors, with_component copy c v)

-- The two tests on the uint8 `p`.
abbrev pub clamped : ℕ → ℕ
clamped p = let low = if ltb p 0 then 0 else p in if ltb 255 low then 255 else low

-- The body of the loops of the gradient filter, on uint8; what comes of `colors`.
unfoldable pub gradient_step :
    (width : ℕ) → (colors diffs : List Color) → (i j c : ℕ) → Result (List Color)
gradient_step width colors diffs i j c = bind (gradient_at width colors i (j + 1) c) λ above.
    bind (gradient_at width colors (i + 1) j c) λ left.
      bind (gradient_at width colors i j c) λ corner.
        let p = clamped (u8 (above + left + (256 - corner))) in
        bind (index colors i) λ copy.
          bind (index diffs i)
            λ diff. ok (store_component colors copy c (u8 (component diff c + p))).0

unfoldable pub gradient_row :
    (width : ℕ) → (colors diffs : List Color) → (i k j : ℕ) → Result (List Color)
gradient_row width colors diffs i zero j = ok colors
gradient_row width colors diffs i (suc k) j = bind (gradient_step width colors diffs i j 0) λ reds.
    bind (gradient_step width reds diffs i j 1) λ greens.
      bind (gradient_step width greens diffs i j 2)
        λ blues. gradient_row width blues diffs i k (j + 1)

-- `k` rows are left, and `i` is the current one.
unfoldable pub gradient_rows :
    (width : ℕ) → (colors diffs : List Color) → (k i : ℕ) → Result (List Color)
gradient_rows width colors diffs zero i = ok colors
gradient_rows width colors diffs (suc k) i =
    bind (gradient_row width colors diffs i width 0)
      λ rows. gradient_rows width rows diffs k (i + 1)

module _ {Z : Type 0} (zlib : Zlib Z) where
  -- `TightEncoding{Colors: colors, size: t.size}`
  abbrev pub encoded : List Color → Exec (Tight Z) Encoding
  encoded colors = gets (λ t. tight colors t.size)

  unfoldable pub copy_filter : Rectangle → ℕ → Exec (Tight Z) Encoding
  copy_filter rect stream = do
    src ← basic_compression_reader zlib (area rect * 3) stream
    reset_buf
    colors ← read_tpixels zlib src (area rect)
    encoded colors

  -- The bytes of the pixels: with a palette of two, a bit for each, in whole bytes for a row.
  unfoldable pub palette_bytes : ℕ → Rectangle → ℕ
  palette_bytes palette_size rect =
      if palette_size == 2 then (rect.width + 7) / 8 * rect.height else area rect

  unfoldable pub palette_filter : Rectangle → ℕ → Exec (Tight Z) Encoding
  palette_filter rect stream = do
    p ← next_byte
    reset_buf
    palette ← read_tpixels zlib (direct ((p + 1) * 3)) (p + 1)
    src ← basic_compression_reader zlib (palette_bytes (p + 1) rect) stream
    read_to_buf zlib src (palette_bytes (p + 1) rect)
    buf ← gets (λ t. t.buf)
    colors ← lift (
        if p + 1 == 2
        then mono_pixels rect.width palette buf (area rect) 0 0 8
        else indexed_pixels palette buf (area rect))
    encoded colors

  unfoldable pub gradient_filter : PixelFormat → Rectangle → ℕ → Exec (Tight Z) Encoding
  gradient_filter format rect stream = do
    guard (format.bpp == 16 || format.bpp == 32) unsupported_format
    src ← basic_compression_reader zlib (area rect * 3) stream
    reset_buf
    diffs ← read_tpixels zlib src (area rect * 3)
    colors ← lift (gradient_rows rect.width (replicate (area rect) black) diffs rect.height 0)
    encoded colors

  abbrev pub filter : ℕ → PixelFormat → Rectangle → ℕ → Exec (Tight Z) Encoding
  filter filter_id format rect stream =
      if filter_id == 0
      then copy_filter rect stream
      else if filter_id == 1
      then palette_filter rect stream
      else if filter_id == 2
      then gradient_filter format rect stream
      else raise bad_filter

  abbrev pub read_filter_id : Bool → Exec (Tight Z) ℕ
  read_filter_id true = do filter_id ← next_byte; count_bytes 1; pure filter_id
  read_filter_id false = pure 0

  unfoldable pub read_basic_compression :
      PixelFormat → Rectangle → Bool → ℕ → Exec (Tight Z) Encoding
  read_basic_compression format rect has_filter stream = do
    filter_id ← read_filter_id has_filter
    filter filter_id format rect stream

  unfoldable pub read_fill : Rectangle → Exec (Tight Z) Encoding
  read_fill rect = do
    reset_buf
    fill ← read_tpixels zlib (direct 3) 1
    color ← lift (index fill 0)
    encoded (replicate (area rect) color)

  -- `decode` is `jpeg.DecodeIntoRGB` on the bytes that its reader is limited to: the pixels, or no
  -- image, and the bytes that it has not taken.
  module _ (decode : Exec (List ℕ) (Option (List ℕ))) where
    abbrev pub pixels_of : Option (List ℕ) → Result (List ℕ)
    pixels_of none = err bad_jpeg
    pixels_of (some pixels) = ok pixels

    unfoldable pub read_jpeg : Rectangle → Exec (Tight Z) Encoding
    read_jpeg rect = do
      length ← read_compact_length
      image ← (λ t.
          let (r, left) = decode (take length t.input) in
          (r, record t { input = left ++ drop length t.input }))
      pixels ← lift (pixels_of image)
      count_bytes length
      colors ← lift (read_colors (area rect) (new_quick_buf pixels)).0
      encoded colors

    -- The compression method is in the four high bits of the control byte.
    abbrev pub read_method : ℕ → PixelFormat → Rectangle → Exec (Tight Z) Encoding
    read_method control format rect =
        if control / 128 == 0
        then read_basic_compression format rect (control / 64 == 1) (control / 16 % 4)
        else if control / 16 == 8
        then read_fill rect
        else if control / 16 == 9
        then read_jpeg rect
        else raise bad_control

    unfoldable pub tight_read : PixelFormat → Rectangle → Exec (Tight Z) Encoding
    tight_read format rect = do
      modify (λ t. record t { size = 0 })
      lift (if ltb 2048 rect.width then err rectangle_too_wide else ok tt)
      guard (is_supported format) unsupported_format
      control ← next_byte
      count_bytes 1
      modify (λ t. record t { reset = bit_or t.reset (control % 16) })
      read_method control format rect
