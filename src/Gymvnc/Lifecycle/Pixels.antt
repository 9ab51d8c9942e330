-- ===== src/Gymvnc/Lifecycle/Pixels.antt =====
-- Raw pixels in the format that every session sets, through `Read` of vncclient/encoding.go.
use go_vncdriver.Common.{
  ℕ, ◌*◌, ◌/◌, ◌%◌, ◌^◌, ◌≡◌, refl, sym, ◌∙◌, List, [], ◌∷◌, ◌++◌, map, All, arith, length,
}
use go_vncdriver.Common.Bytes.{IsByte}
use go_vncdriver.Common.Exec.{ok}
use go_vncdriver.Common.Masks.{bit_and-255}
use go_vncdriver.Vncclient.Color.{Color}
use go_vncdriver.Vncclient.Client.{ClientConn}
use go_vncdriver.Vncclient.Encoding.{Rectangle, area, raw}
use go_vncdriver.Vncclient.RawEncoding.{
  of_le, raw_pixel, pixel_color, channel, raw_colors, raw_read,
}
use go_vncdriver.Vncclient.Wire.{read_full}
use go_vncdriver.Vncclient.Wire.Laws.{read_full-append}
use go_vncdriver.Gymvnc.Lifecycle.{rgb_format}

-- A colour and the byte that fills its pixel up.
abbrev pub Pixel : Type 0
Pixel = Color × ℕ

abbrev pub IsPixel : Pixel → Type 0
IsPixel p = IsByte p.0.r × IsByte p.0.g × IsByte p.0.b × IsByte p.1

abbrev pub pixel_bytes : List Pixel → List ℕ
pixel_bytes [] = []
pixel_bytes ((c, padding) ∷ ps) = c.r ∷ c.g ∷ c.b ∷ padding ∷ pixel_bytes ps

length-pixel_bytes : (ps : List Pixel) → length (pixel_bytes ps) ≡ length ps * 4
length-pixel_bytes [] = refl
length-pixel_bytes (p ∷ ps) = omega (arith, length-pixel_bytes ps)

channel-255 : (pixel shift : ℕ) → channel pixel shift 255 ≡ pixel / 2 ^ shift % 256
unfolding channel
channel-255 pixel shift = rw (bit_and-255 (pixel / 2 ^ shift)) (omega arith)

pixel_color-of_le :
    (color_map : List Color) (c : Color) (padding : ℕ)
    → IsPixel (c, padding)
    → pixel_color rgb_format color_map (of_le (c.r ∷ c.g ∷ c.b ∷ padding ∷ [])) ≡ ok c
unfolding pixel_color
pixel_color-of_le color_map c padding h =
    let pixel : ℕ = of_le (c.r ∷ c.g ∷ c.b ∷ padding ∷ []) in
    let red : channel pixel 0 255 ≡ c.r = channel-255 pixel 0 ∙ omega arith in
    let green : channel pixel 8 255 ≡ c.g = channel-255 pixel 8 ∙ omega arith in
    let blue : channel pixel 16 255 ≡ c.b = channel-255 pixel 16 ∙ omega arith in
    rw (red, green, blue) refl

raw_colors-pixel_bytes :
    (color_map : List Color) (ps : List Pixel)
    → All IsPixel ps
    → raw_colors rgb_format color_map (length ps) (pixel_bytes ps) ≡ ok (map (λ p. p.0) ps)
unfolding raw_colors raw_pixel
raw_colors-pixel_bytes color_map [] h = refl
raw_colors-pixel_bytes color_map ((c, padding) ∷ ps) (h, hs) =
    rw (pixel_color-of_le color_map c padding h) (rw (raw_colors-pixel_bytes color_map ps hs) refl)

read_full-pixel_bytes :
    (ps : List Pixel) (rest : List ℕ)
    → read_full (length ps * 4) (pixel_bytes ps ++ rest) ≡ (ok (pixel_bytes ps), rest)
unfolding read_full
read_full-pixel_bytes [] rest = refl
read_full-pixel_bytes (p ∷ ps) rest =
    rw (sym (length-pixel_bytes (p ∷ ps)))
      (read_full-append (pixel_bytes (p ∷ ps)) rest (omega arith))

-- In the pixel format that every session sets, `Read` of the raw encoding gives back the colour of
-- every pixel of a rectangle of any size, whatever the fourth byte of a pixel holds, and leaves what
-- follows the rectangle.
pub raw_read-pixel_bytes :
    {I : Type 0} (c : ClientConn I) (rect : Rectangle) (ps : List Pixel) (rest : List ℕ)
    → c.pixel_format ≡ rgb_format
    → All IsPixel ps
    → area rect ≡ length ps
    → c.input ≡ pixel_bytes ps ++ rest
    → raw_read rect c ≡ (ok (raw (map (λ p. p.0) ps)), record c { input = rest })
unfolding raw_read
raw_read-pixel_bytes c rect ps rest format bytes size sent =
    rw (format, size, sent)
      (rw (read_full-pixel_bytes ps rest) (rw (raw_colors-pixel_bytes c.color_map ps bytes) refl))
