-- ===== src/Gymvnc/Screen.antt =====
-- gymvnc/screen.go, and the drawing of updates on a screen: `applyRect` and the loop of
-- `applyUpdate` of gymvnc/gymvnc.go. Positions are uint32, with the wrap-around written out.
pub mod Replay
pub mod Place
use go_vncdriver.Common.{
  ℕ, zero, suc, ◌+◌, ◌-◌, ◌*◌, Bool, List, [], ◌∷◌, ltb, ◌||◌, if◌then◌else◌, length, take, drop,
  copy_at, replicate,
}
use go_vncdriver.Common.Bytes.{u32}
use go_vncdriver.Common.Exec.{
  Exec, Result, ok, err, panic, slice_out_of_range, unsupported_encoding, pure, raise, ignoring,
  ◌>>=◌, ◌>>◌,
}
use go_vncdriver.Vncclient.Color.{Color, black}
use go_vncdriver.Vncclient.Encoding.{
  Encoding, raw, zrle, tight, Rectangle, DecodedRectangle, FramebufferUpdate,
}

pub record Screen : Type 0 where
  pub pixels : List Color
  pub width : ℕ
  pub height : ℕ

unfoldable pub new_screen : (width height : ℕ) → Screen
new_screen width height = record {
  pixels = replicate (u32 (width * height)) black;
  width = width;
  height = height;
}

-- The bounds of `data[start:end]` and `colors[encStart:encEnd]` that Go checks. It checks them against
-- the capacity: the screen's is its length, since `make` made it, and a decoder gives the colours of
-- the whole rectangle, which end behind every `encEnd` that does not wrap around.
abbrev pub row_faults : (size colors start end enc_start enc_end : ℕ) → Bool
row_faults size colors start end enc_start enc_end =
    (ltb size end || ltb end start) || (ltb colors enc_end || ltb enc_end enc_start)

-- `copy(backScreen.Data[start:end], colors[encStart:encEnd])`
unfoldable pub copy_row :
    (start end enc_start enc_end : ℕ) → List Color → Exec (List Color) (Unit {0})
copy_row start end enc_start enc_end colors pixels =
    if row_faults (length pixels) (length colors) start end enc_start enc_end
    then (panic slice_out_of_range, pixels)
    else (ok tt, copy_at pixels start (take (enc_end - enc_start) (drop enc_start colors)))

-- `applyRect` on a framebuffer of width `fw`: `k` rows are left, and `y` is the current one.
unfoldable pub apply_rows : (fw : ℕ) → Rectangle → List Color → ℕ → ℕ → Exec (List Color) (Unit {0})
apply_rows fw rect colors zero y = pure tt
apply_rows fw rect colors (suc k) y =
    let enc_start = u32 (rect.width * y) in
    let start = u32 (u32 (fw * u32 (rect.y + y)) + rect.x) in
    copy_row start (u32 (start + rect.width)) enc_start (u32 (enc_start + rect.width)) colors
    >> apply_rows fw rect colors k (y + 1)

unfoldable pub apply_rect : (fw : ℕ) → Rectangle → List Color → Exec (List Color) (Unit {0})
apply_rect fw rect colors = apply_rows fw rect colors rect.height 0

-- The type switch of `applyUpdate`.
unfoldable pub apply_encoding : (fw : ℕ) → Rectangle → Encoding → Exec (List Color) (Unit {0})
apply_encoding fw rect (raw colors) = apply_rect fw rect colors
apply_encoding fw rect (zrle colors size) = apply_rect fw rect colors
apply_encoding fw rect (tight colors size) = apply_rect fw rect colors
apply_encoding fw rect _ = raise unsupported_encoding

unfoldable pub draw : (fw : ℕ) → FramebufferUpdate → Exec (List Color) (Unit {0})
draw fw [] = pure tt
draw fw (r ∷ rs) = apply_encoding fw r.rect r.enc >> draw fw rs

-- The loop of `applyDeferred`, which drops the result of every `applyUpdate`.
unfoldable pub draw_all : (fw : ℕ) → List FramebufferUpdate → Exec (List Color) (Unit {0})
draw_all fw [] = pure tt
draw_all fw (u ∷ us) = ignoring (draw fw u) >> draw_all fw us
