-- ===== src/Vncclient/ServerMessages/Rounds.antt =====
-- A round of `mainLoop` of vncclient/client.go ends where what the server sends comes to an end.
use go_vncdriver.Common.{
  ℕ, zero, suc, ◌*◌, ◌/◌, ◌≤◌, ◌≡◌, false, ◌||◌, List, Option, none, some, ltb, ◌==◌, if◌then◌else◌,
  arith, take, drop, get_elem?,
}
use go_vncdriver.Common.Exec.{
  Exec, Result, stuck, closed_connection, ok, err, panic, pure, lift, ◌>>=◌, excessive_rectangle,
  excessive_rectangle_count, negative_make,
}
use go_vncdriver.Common.Ensures.{Ensures-check}
use go_vncdriver.Common.Total.{
  IsFinished, IsTotal, IsFinished-bind, IsTotal-bind, IsTotal-bind_known, IsTotal-pure,
  IsTotal-lift, IsTotal-if, element-IsFinished,
}
use go_vncdriver.Vncclient.Color.{Color}
use go_vncdriver.Vncclient.PixelFormat.{PixelFormat}
use go_vncdriver.Vncclient.QuickBuf.{new_quick_buf, len}
use go_vncdriver.Vncclient.Wire.{read_full, read_number, read_u8, read_u16, read_u32}
use go_vncdriver.Vncclient.Encoding.{
  Encoding, raw, zrle, tight, Rectangle, area, quality_level, compress_level, fine_quality_level,
  subsample_level, jpeg_quality,
}
use go_vncdriver.Vncclient.RawEncoding.{raw_read, raw_colors, raw_pixel, pixel_color}
use go_vncdriver.Vncclient.Zrle.Parse.{parse, read_inflated, zrle_read}
use go_vncdriver.Vncclient.Zrle.Termination.{parse_finishes}
use go_vncdriver.Vncclient.Client.{ClientConn, on_input, on_inflator}
use go_vncdriver.Vncclient.ServerMessages.{
  supported, encoding_read, encoding_of, is_excessive, read_rectangle, read_rectangles,
  framebuffer_update_read, read_message, ServerMessage,
}
use go_vncdriver.Vncclient.ServerMessages.Total.{
  IsFinished-if, bytes-IsTotal, number-IsTotal, set_color_map_entries_read-IsTotal,
  server_cut_text_read-IsTotal,
}

raw_pixel-IsFinished : (pf : PixelFormat) (bs : List ℕ) → IsFinished (raw_pixel pf bs)
unfolding raw_pixel
raw_pixel-IsFinished pf bs =
    IsFinished-if (pf.bpp == 8) _ _ (element-IsFinished (get_elem? bs 0))
      (IsFinished-if (pf.bpp == 16 || pf.bpp == 32) _ _ tt tt)

pixel_color-IsFinished :
    (pf : PixelFormat) (color_map : List Color) (pixel : ℕ)
    → IsFinished (pixel_color pf color_map pixel)
unfolding pixel_color
pixel_color-IsFinished pf color_map pixel =
    IsFinished-if pf.true_color _ _ tt (element-IsFinished (get_elem? color_map pixel))

raw_colors-IsFinished :
    (pf : PixelFormat) (color_map : List Color) (k : ℕ) (bs : List ℕ)
    → IsFinished (raw_colors pf color_map k bs)
unfolding raw_colors
raw_colors-IsFinished pf color_map zero bs = tt
raw_colors-IsFinished pf color_map (suc k) bs =
    IsFinished-bind (raw_pixel pf (take (pf.bpp / 8) bs)) _
      (raw_pixel-IsFinished pf (take (pf.bpp / 8) bs))
      λ p.
        IsFinished-bind (pixel_color pf color_map p) _ (pixel_color-IsFinished pf color_map p) λ c.
          IsFinished-bind (raw_colors pf color_map k (drop (pf.bpp / 8) bs)) _
            (raw_colors-IsFinished pf color_map k (drop (pf.bpp / 8) bs)) λ cs. tt

raw_read-IsTotal : {I : Type 0} (rect : Rectangle) → IsTotal (raw_read {I = I} rect)
unfolding raw_read
raw_read-IsTotal {I} rect = record { finished = λ c. (ends c).finished c }
  where
    ends :
        (c : ClientConn I)
        → IsTotal (λ (d : ClientConn I).
          (on_input (read_full (area rect * (c.pixel_format.bpp / 8))) >>= λ buf.
          lift (raw_colors c.pixel_format c.color_map (area rect) buf) >>= λ colors.
          pure (raw colors))
            d)
    ends c =
        IsTotal-bind (on_input (read_full (area rect * (c.pixel_format.bpp / 8)))) _
          (bytes-IsTotal _)
          λ buf.
            IsTotal-bind (lift (raw_colors c.pixel_format c.color_map (area rect) buf)) _
              (IsTotal-lift _ (raw_colors-IsFinished c.pixel_format c.color_map (area rect) buf))
              λ cs. IsTotal-pure _

read_inflated-IsFinished :
    (bpp : ℕ) (rect : Rectangle) (bs : List ℕ)
    → rect.width ≤ 65472
    → rect.height ≤ 65472
    → IsFinished (read_inflated bpp rect bs)
unfolding read_inflated
read_inflated-IsFinished bpp rect bs hw hh = IsFinished-if (ltb bpp 24) _ _ tt (
    IsFinished-bind (parse rect (new_quick_buf bs)).0 _
      (parse_finishes rect (new_quick_buf bs) hw hh)
      λ cs. IsFinished-if (len (parse rect (new_quick_buf bs)).1 == 0) _ _ tt tt)

module _ {I : Type 0} (inflate : List ℕ → Exec I (List ℕ))
    (tight_read : Rectangle → Exec (ClientConn I) Encoding)
    (inflates : (p : List ℕ) → IsTotal (inflate p))
    (reads : (rect : Rectangle) → IsTotal (tight_read rect)) where
  zrle_read-IsTotal :
      (rect : Rectangle)
      → rect.width ≤ 65472
      → rect.height ≤ 65472
      → IsTotal (zrle_read inflate rect)
  unfolding zrle_read
  zrle_read-IsTotal rect hw hh = IsTotal-bind (on_input (read_number 4)) _ (number-IsTotal 4) λ n.
      IsTotal-bind (lift (if ltb n 2147483648 then ok tt else panic negative_make)) _
        (IsTotal-lift _ (IsFinished-if (ltb n 2147483648) _ _ tt tt))
        λ _. IsTotal-bind (on_input (read_full n)) _ (bytes-IsTotal n) λ compressed.
          IsTotal-bind (on_inflator (inflate compressed)) _
            (record { finished = λ c. (inflates compressed).finished c.inflator })
            λ inflated.
              IsTotal-bind (λ c. (read_inflated c.pixel_format.bpp rect inflated, c)) _
                (record {
                  finished = λ c. read_inflated-IsFinished c.pixel_format.bpp rect inflated hw hh;
                })
                λ cs. IsTotal-pure _

  encoding_read-IsTotal :
      (e : Encoding) (rect : Rectangle)
      → rect.width ≤ 65472
      → rect.height ≤ 65472
      → IsTotal (encoding_read inflate tight_read e rect)
  unfolding encoding_read
  encoding_read-IsTotal (raw colors) rect hw hh = raw_read-IsTotal rect
  encoding_read-IsTotal (zrle colors size) rect hw hh = zrle_read-IsTotal rect hw hh
  encoding_read-IsTotal (tight colors size) rect hw hh = reads rect
  encoding_read-IsTotal (quality_level f) rect hw hh = record { finished = λ c. tt }
  encoding_read-IsTotal (compress_level f) rect hw hh = record { finished = λ c. tt }
  encoding_read-IsTotal (fine_quality_level f) rect hw hh = record { finished = λ c. tt }
  encoding_read-IsTotal (subsample_level f) rect hw hh = record { finished = λ c. tt }
  encoding_read-IsTotal (jpeg_quality f) rect hw hh = record { finished = λ c. tt }

  encoding_of-IsTotal :
      (o : Option Encoding) (rect : Rectangle)
      → rect.width ≤ 65472
      → rect.height ≤ 65472
      → IsTotal (encoding_of inflate tight_read o rect)
  encoding_of-IsTotal none rect hw hh = record { finished = λ c. tt }
  encoding_of-IsTotal (some e) rect hw hh = encoding_read-IsTotal e rect hw hh

  small_sides :
      (rect : Rectangle)
      → is_excessive inflate tight_read rect ≡ false
      → (rect.width ≤ 65472) × (rect.height ≤ 65472)
  small_sides rect h = (ground arith, ground arith)

  read_rectangle-IsTotal : IsTotal (read_rectangle inflate tight_read)
  unfolding read_rectangle
  read_rectangle-IsTotal = IsTotal-bind (on_input read_u16) _ (number-IsTotal 2) λ x.
      IsTotal-bind (on_input read_u16) _ (number-IsTotal 2) λ y.
        IsTotal-bind (on_input read_u16) _ (number-IsTotal 2) λ width.
          IsTotal-bind (on_input read_u16) _ (number-IsTotal 2) λ height.
            IsTotal-bind (on_input read_u32) _ (number-IsTotal 4) λ t.
              let rect : Rectangle = record { x = x; y = y; width = width; height = height } in
              IsTotal-bind_known
                (lift
                  (if is_excessive inflate tight_read rect then err excessive_rectangle else ok tt))
                _ (IsTotal-lift _ (IsFinished-if (is_excessive inflate tight_read rect) _ _ tt tt))
                (Ensures-check (is_excessive inflate tight_read rect) excessive_rectangle)
                λ _ small.
                  let (hw, hh) = small_sides rect small in
                  IsTotal-bind (λ c. encoding_of inflate tight_read (supported c.encs t) rect c) _
                    (record {
                      finished =
                          λ c. (encoding_of-IsTotal (supported c.encs t) rect hw hh).finished c;
                    })
                    λ enc. IsTotal-pure _

  read_rectangles-IsTotal : (k : ℕ) → IsTotal (read_rectangles inflate tight_read k)
  unfolding read_rectangles
  read_rectangles-IsTotal zero = IsTotal-pure _
  read_rectangles-IsTotal (suc k) =
      IsTotal-bind (read_rectangle inflate tight_read) _ read_rectangle-IsTotal λ r.
        IsTotal-bind (read_rectangles inflate tight_read k) _ (read_rectangles-IsTotal k)
          λ rs. IsTotal-pure _

  framebuffer_update_read-IsTotal : IsTotal (framebuffer_update_read inflate tight_read)
  unfolding framebuffer_update_read
  framebuffer_update_read-IsTotal = IsTotal-bind (on_input (read_full 1)) _ (bytes-IsTotal 1) λ _.
      IsTotal-bind (on_input read_u16) _ (number-IsTotal 2) λ count.
        IsTotal-bind (lift (if ltb 1000 count then err excessive_rectangle_count else ok tt)) _
          (IsTotal-lift _ (IsFinished-if (ltb 1000 count) _ _ tt tt))
          λ _.
            IsTotal-bind (read_rectangles inflate tight_read count) _
              (read_rectangles-IsTotal count) λ rs. IsTotal-pure _

  -- A round of `mainLoop` ends on every input, with a message, an error or a fault, where the inflator
  -- and the Tight decoder end.
  pub read_message-IsTotal : IsTotal (read_message inflate tight_read)
  unfolding read_message
  read_message-IsTotal = IsTotal-bind (on_input read_u8) _ (number-IsTotal 1) λ t.
      IsTotal-if (t == 0) _ _ framebuffer_update_read-IsTotal (
        IsTotal-if (t == 1) _ _ set_color_map_entries_read-IsTotal (
          IsTotal-if (t == 2) _ _ (IsTotal-pure _)
            (IsTotal-if (t == 3) _ _ server_cut_text_read-IsTotal (record { finished = λ c. tt }))))

  -- With a message, or with an error or a fault and the connection closed.
  abbrev pub IsRound : Result ServerMessage → ClientConn I → Type 0
  IsRound (ok m) c = Unit
  IsRound (err e) c = c.broken ≡ some closed_connection
  IsRound (panic x) c = c.broken ≡ some closed_connection
  IsRound stuck c = ⊥
