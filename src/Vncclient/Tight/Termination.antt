-- ===== src/Vncclient/Tight/Termination.antt =====
-- `Read` of `TightEncoding` always ends.
use go_vncdriver.Common.{
  ℕ, zero, suc, ◌+◌, ◌-◌, ◌*◌, ◌/◌, ◌%◌, Bool, true, false, ◌||◌, List, Option, none, some, ltb,
  leb, ◌==◌, if◌then◌else◌, length, take, drop, index, get_elem?, replicate, bit_or,
}
use go_vncdriver.Common.Exec.{
  Exec, Error, ok, err, panic, raise, lift, gets, modify, guard, unread_buffer, bad_palette_index,
  rectangle_too_wide, unsupported_format, bad_control,
}
use go_vncdriver.Common.Total.{
  IsFinished, IsTotal, IsFinished-bind, IsTotal-bind, IsTotal-pure, IsTotal-lift, IsTotal-if,
  element-IsFinished,
}
use go_vncdriver.Vncclient.Color.{Color, black}
use go_vncdriver.Vncclient.PixelFormat.{PixelFormat}
use go_vncdriver.Vncclient.QuickBuf.{new_quick_buf, read_colors}
use go_vncdriver.Vncclient.Encoding.{Encoding, Rectangle, area}
use go_vncdriver.Vncclient.ServerMessages.Total.{IsFinished-if}
use go_vncdriver.Vncclient.Tight.Streams.{
  Zlib, Tight, Source, direct, next_byte, read_compact_length, basic_compression_reader,
  read_to_buf, read_tpixels, count_bytes, reset_buf,
}
use go_vncdriver.Vncclient.Tight.Read.{
  is_supported, mono_pixels, indexed_pixels, gradient_at, gradient_step, gradient_row,
  gradient_rows, encoded, copy_filter, palette_bytes, palette_filter, gradient_filter,
  read_filter_id, read_basic_compression, read_fill, pixels_of, read_jpeg, tight_read,
}
use go_vncdriver.Vncclient.Zrle.Loops.{read_colors-IsTotal}
use go_vncdriver.Vncclient.Tight.Ending.{
  IsEnding, next_byte-IsTotal, step-IsTotal, gets-IsTotal, read_compact_length-IsTotal,
  basic_compression_reader-IsTotal, read_to_buf-IsTotal,
}

read_colors-IsFinished : (n : ℕ) (bs : List ℕ) → IsFinished (read_colors n (new_quick_buf bs)).0
read_colors-IsFinished n bs = (read_colors-IsTotal n).finished (new_quick_buf bs)

mono_pixels-IsFinished :
    (width : ℕ) (palette : List Color) (buf : List ℕ) (k i at offset : ℕ)
    → IsFinished (mono_pixels width palette buf k i at offset)
unfolding mono_pixels
mono_pixels-IsFinished width palette buf zero i at offset = tt
mono_pixels-IsFinished width palette buf (suc k) i at offset =
    IsFinished-bind (index buf _) _ (element-IsFinished (get_elem? buf _)) λ b.
      IsFinished-bind (index palette _) _ (element-IsFinished (get_elem? palette _)) λ c.
        IsFinished-bind (mono_pixels width palette buf k (i + 1) _ _) _
          (mono_pixels-IsFinished width palette buf k (i + 1) _ _) λ cs. tt

indexed_pixels-IsFinished :
    (palette : List Color) (buf : List ℕ) (k : ℕ) → IsFinished (indexed_pixels palette buf k)
unfolding indexed_pixels
indexed_pixels-IsFinished palette buf zero = tt
indexed_pixels-IsFinished palette buf (suc k) =
    IsFinished-bind (index buf 0) _ (element-IsFinished (get_elem? buf 0)) λ b.
      IsFinished-bind (if leb (length palette) b then err bad_palette_index else index palette b) _
        (IsFinished-if (leb (length palette) b) _ _ tt (element-IsFinished (get_elem? palette b)))
        λ c.
          IsFinished-bind (indexed_pixels palette (drop 1 buf) k) _
            (indexed_pixels-IsFinished palette (drop 1 buf) k) λ cs. tt

gradient_at-IsFinished :
    (width : ℕ) (colors : List Color) (y x c : ℕ) → IsFinished (gradient_at width colors y x c)
unfolding gradient_at
gradient_at-IsFinished width colors y x c = IsFinished-if (y == 0 || x == 0) _ _ tt (
    IsFinished-bind (index colors ((y - 1) * width + (x - 1))) _
      (element-IsFinished (get_elem? colors ((y - 1) * width + (x - 1)))) λ d. tt)

gradient_step-IsFinished :
    (width : ℕ) (colors diffs : List Color) (i j c : ℕ)
    → IsFinished (gradient_step width colors diffs i j c)
unfolding gradient_step
gradient_step-IsFinished width colors diffs i j c =
    IsFinished-bind (gradient_at width colors i (j + 1) c) _
      (gradient_at-IsFinished width colors i (j + 1) c)
      λ a.
        IsFinished-bind (gradient_at width colors (i + 1) j c) _
          (gradient_at-IsFinished width colors (i + 1) j c)
          λ l.
            IsFinished-bind (gradient_at width colors i j c) _
              (gradient_at-IsFinished width colors i j c)
              λ k. IsFinished-bind (index colors i) _ (element-IsFinished (get_elem? colors i)) λ t.
                IsFinished-bind (index diffs i) _ (element-IsFinished (get_elem? diffs i)) λ d. tt

gradient_row-IsFinished :
    (width : ℕ) (colors diffs : List Color) (i k j : ℕ)
    → IsFinished (gradient_row width colors diffs i k j)
unfolding gradient_row
gradient_row-IsFinished width colors diffs i zero j = tt
gradient_row-IsFinished width colors diffs i (suc k) j =
    IsFinished-bind (gradient_step width colors diffs i j 0) _
      (gradient_step-IsFinished width colors diffs i j 0)
      λ reds.
        IsFinished-bind (gradient_step width reds diffs i j 1) _
          (gradient_step-IsFinished width reds diffs i j 1)
          λ greens.
            IsFinished-bind (gradient_step width greens diffs i j 2) _
              (gradient_step-IsFinished width greens diffs i j 2)
              λ blues. gradient_row-IsFinished width blues diffs i k (j + 1)

gradient_rows-IsFinished :
    (width : ℕ) (colors diffs : List Color) (k i : ℕ)
    → IsFinished (gradient_rows width colors diffs k i)
unfolding gradient_rows
gradient_rows-IsFinished width colors diffs zero i = tt
gradient_rows-IsFinished width colors diffs (suc k) i =
    IsFinished-bind (gradient_row width colors diffs i width 0) _
      (gradient_row-IsFinished width colors diffs i width 0)
      λ rows. gradient_rows-IsFinished width rows diffs k (i + 1)

pixels_of-IsFinished :
    {Z : Type 0} (zlib : Zlib Z) (decode : Exec (List ℕ) (Option (List ℕ))) (o : Option (List ℕ))
    → IsFinished (pixels_of zlib decode o)
pixels_of-IsFinished zlib decode none = tt
pixels_of-IsFinished zlib decode (some p) = tt

module _ {Z : Type 0} (zlib : Zlib Z) (fine : IsEnding zlib) where
  guard-IsTotal : (b : Bool) (e : Error) → IsTotal (guard {S = Tight Z} b e)
  guard-IsTotal true e = record { finished = λ t. tt }
  guard-IsTotal false e = record { finished = λ t. tt }

  raise-IsTotal : (e : Error) → IsTotal (raise {S = Tight Z} {A = Encoding} e)
  raise-IsTotal e = record { finished = λ t. tt }

  read_tpixels-IsTotal : (src : Source) (n : ℕ) → IsTotal (read_tpixels zlib src n)
  unfolding read_tpixels
  read_tpixels-IsTotal src n =
      IsTotal-bind (gets (λ t. length t.buf)) _ (gets-IsTotal (λ t. length t.buf)) λ left.
        IsTotal-bind (lift (if left == 0 then ok tt else panic unread_buffer)) _
          (IsTotal-lift _ (IsFinished-if (left == 0) _ _ tt tt))
          λ _.
            IsTotal-bind (read_to_buf zlib src (n * 3)) _
              (read_to_buf-IsTotal zlib fine src (n * 3))
              λ _. IsTotal-bind (count_bytes (n * 3)) _ (step-IsTotal _) λ _.
                IsTotal-bind (gets (λ t. take (n * 3) t.buf)) _
                  (gets-IsTotal (λ t. take (n * 3) t.buf))
                  λ bytes.
                    IsTotal-bind (modify (λ t. record t { buf = drop (n * 3) t.buf })) _
                      (step-IsTotal _) λ _. IsTotal-lift _ (read_colors-IsFinished n bytes)

  encoded-IsTotal : (colors : List Color) → IsTotal (encoded zlib colors)
  encoded-IsTotal colors = record { finished = λ t. tt }

  copy_filter-IsTotal : (rect : Rectangle) (i : ℕ) → IsTotal (copy_filter zlib rect i)
  unfolding copy_filter
  copy_filter-IsTotal rect i =
      IsTotal-bind (basic_compression_reader zlib (area rect * 3) i) _
        (basic_compression_reader-IsTotal zlib fine (area rect * 3) i)
        λ src. IsTotal-bind reset_buf _ (step-IsTotal _) λ _.
          IsTotal-bind (read_tpixels zlib src (area rect)) _ (read_tpixels-IsTotal src (area rect))
            λ colors. encoded-IsTotal colors

  palette_filter-IsTotal : (rect : Rectangle) (i : ℕ) → IsTotal (palette_filter zlib rect i)
  unfolding palette_filter
  palette_filter-IsTotal rect i = IsTotal-bind next_byte _ next_byte-IsTotal λ p.
      IsTotal-bind reset_buf _ (step-IsTotal _) λ _.
        IsTotal-bind (read_tpixels zlib (direct ((p + 1) * 3)) (p + 1)) _
          (read_tpixels-IsTotal (direct ((p + 1) * 3)) (p + 1))
          λ palette.
            IsTotal-bind (basic_compression_reader zlib (palette_bytes zlib (p + 1) rect) i) _
              (basic_compression_reader-IsTotal zlib fine (palette_bytes zlib (p + 1) rect) i)
              λ src.
                IsTotal-bind (read_to_buf zlib src (palette_bytes zlib (p + 1) rect)) _
                  (read_to_buf-IsTotal zlib fine src (palette_bytes zlib (p + 1) rect))
                  λ _. IsTotal-bind (gets (λ t. t.buf)) _ (gets-IsTotal (λ t. t.buf)) λ buf.
                    IsTotal-bind
                      (lift (
                        if p + 1 == 2
                        then mono_pixels rect.width palette buf (area rect) 0 0 8
                        else indexed_pixels palette buf (area rect)))
                      _
                      (IsTotal-lift _ (
                        IsFinished-if (p + 1 == 2) _ _
                          (mono_pixels-IsFinished rect.width palette buf (area rect) 0 0 8)
                          (indexed_pixels-IsFinished palette buf (area rect))))
                      λ colors. encoded-IsTotal colors

  gradient_filter-IsTotal :
      (format : PixelFormat) (rect : Rectangle) (i : ℕ)
      → IsTotal (gradient_filter zlib format rect i)
  unfolding gradient_filter
  gradient_filter-IsTotal format rect i =
      IsTotal-bind (guard (format.bpp == 16 || format.bpp == 32) unsupported_format) _
        (guard-IsTotal _ _)
        λ _.
          IsTotal-bind (basic_compression_reader zlib (area rect * 3) i) _
            (basic_compression_reader-IsTotal zlib fine (area rect * 3) i)
            λ src. IsTotal-bind reset_buf _ (step-IsTotal _) λ _.
              IsTotal-bind (read_tpixels zlib src (area rect * 3)) _
                (read_tpixels-IsTotal src (area rect * 3))
                λ diffs.
                  IsTotal-bind
                    (lift
                      (gradient_rows rect.width (replicate (area rect) black) diffs rect.height 0))
                    _
                    (IsTotal-lift _ (
                      gradient_rows-IsFinished rect.width (replicate (area rect) black) diffs
                        rect.height 0))
                    λ colors. encoded-IsTotal colors

  read_filter_id-IsTotal : (b : Bool) → IsTotal (read_filter_id zlib b)
  read_filter_id-IsTotal true =
      IsTotal-bind next_byte _ next_byte-IsTotal
        λ f. IsTotal-bind (count_bytes 1) _ (step-IsTotal _) λ _. IsTotal-pure f
  read_filter_id-IsTotal false = IsTotal-pure 0

  read_basic_compression-IsTotal :
      (format : PixelFormat) (rect : Rectangle) (has_filter : Bool) (i : ℕ)
      → IsTotal (read_basic_compression zlib format rect has_filter i)
  unfolding read_basic_compression
  read_basic_compression-IsTotal format rect has_filter i =
      IsTotal-bind (read_filter_id zlib has_filter) _ (read_filter_id-IsTotal has_filter) λ f.
        IsTotal-if (f == 0) _ _ (copy_filter-IsTotal rect i) (
          IsTotal-if (f == 1) _ _ (palette_filter-IsTotal rect i) (
            IsTotal-if (f == 2) _ _ (gradient_filter-IsTotal format rect i)
              (record { finished = λ t. tt })))

  read_fill-IsTotal : (rect : Rectangle) → IsTotal (read_fill zlib rect)
  unfolding read_fill
  read_fill-IsTotal rect = IsTotal-bind reset_buf _ (step-IsTotal _) λ _.
      IsTotal-bind (read_tpixels zlib (direct 3) 1) _ (read_tpixels-IsTotal (direct 3) 1) λ fill.
        IsTotal-bind (lift (index fill 0)) _
          (IsTotal-lift _ (element-IsFinished (get_elem? fill 0)))
          λ color. encoded-IsTotal (replicate (area rect) color)

  module _ (decode : Exec (List ℕ) (Option (List ℕ))) (decodes : IsTotal decode) where
    read_jpeg-IsTotal : (rect : Rectangle) → IsTotal (read_jpeg zlib decode rect)
    unfolding read_jpeg
    read_jpeg-IsTotal rect = IsTotal-bind read_compact_length _ read_compact_length-IsTotal λ n.
        IsTotal-bind _ _ (record { finished = λ t. decodes.finished (take n t.input) })
          λ image.
            IsTotal-bind (lift (pixels_of zlib decode image)) _
              (IsTotal-lift _ (pixels_of-IsFinished zlib decode image))
              λ pixels. IsTotal-bind (count_bytes n) _ (step-IsTotal _) λ _.
                IsTotal-bind (lift (read_colors (area rect) (new_quick_buf pixels)).0) _
                  (IsTotal-lift _ (read_colors-IsFinished (area rect) pixels))
                  λ colors. encoded-IsTotal colors

    -- A Tight rectangle ends on every input, with an encoding, an error or a fault, where the zlib reader
    -- and the JPEG decoder end.
    pub tight_read-IsTotal :
        (format : PixelFormat) (rect : Rectangle) → IsTotal (tight_read zlib decode format rect)
    unfolding tight_read
    tight_read-IsTotal format rect =
        IsTotal-bind (modify (λ t. record t { size = 0 })) _ (step-IsTotal _) λ _.
          IsTotal-bind (lift (if ltb 2048 rect.width then err rectangle_too_wide else ok tt)) _
            (IsTotal-lift _ (IsFinished-if (ltb 2048 rect.width) _ _ tt tt))
            λ _.
              IsTotal-bind (guard (is_supported format) unsupported_format) _ (guard-IsTotal _ _)
                λ _. IsTotal-bind next_byte _ next_byte-IsTotal λ control.
                  IsTotal-bind (count_bytes 1) _ (step-IsTotal _) λ _.
                    IsTotal-bind (modify (λ t. record t { reset = bit_or t.reset (control % 16) }))
                      _ (step-IsTotal _)
                      λ _.
                        IsTotal-if (control / 128 == 0) _ _
                          (read_basic_compression-IsTotal format rect (control / 64 == 1)
                            (control / 16 % 4))
                          (IsTotal-if (control / 16 == 8) _ _ (read_fill-IsTotal rect) (
                            IsTotal-if (control / 16 == 9) _ _ (read_jpeg-IsTotal rect)
                              (raise-IsTotal bad_control)))
