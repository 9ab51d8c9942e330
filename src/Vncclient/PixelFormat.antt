-- ===== src/Vncclient/PixelFormat.antt =====
-- vncclient/pixel_format.go.
pub mod RoundTrip
use go_vncdriver.Common.{
  ℕ, Bool, true, false, not, List, [], ◌∷◌, ◌++◌, ◌==◌, if◌then◌else◌, length,
}
use go_vncdriver.Common.Bytes.{be16, IsByte, IsU16}
use go_vncdriver.Common.Exec.{Exec, Result, ok, pure, lift, ◌>>=◌}
use go_vncdriver.Vncclient.Wire.{read_full, read_number, read_u8, read_u16, reslice}

pub record PixelFormat : Type 0 where
  pub bpp : ℕ
  pub depth : ℕ
  pub big_endian : Bool
  pub true_color : Bool
  pub red_max : ℕ
  pub green_max : ℕ
  pub blue_max : ℕ
  pub red_shift : ℕ
  pub green_shift : ℕ
  pub blue_shift : ℕ

-- The zero value.
abbrev pub no_format : PixelFormat
no_format = record {
  bpp = 0;
  depth = 0;
  big_endian = false;
  true_color = false;
  red_max = 0;
  green_max = 0;
  blue_max = 0;
  red_shift = 0;
  green_shift = 0;
  blue_shift = 0;
}

-- The colour masks and shifts, read only in true colour.
unfoldable pub read_masks : PixelFormat → Exec (List ℕ) PixelFormat
read_masks pf = do
  red_max ← read_u16
  green_max ← read_u16
  blue_max ← read_u16
  red_shift ← read_u8
  green_shift ← read_u8
  blue_shift ← read_u8
  pure (record pf {
    red_max = red_max;
    green_max = green_max;
    blue_max = blue_max;
    red_shift = red_shift;
    green_shift = green_shift;
    blue_shift = blue_shift;
  })

-- The two flags of `result` are set, and never cleared.
unfoldable pub read_fields : PixelFormat → Exec (List ℕ) PixelFormat
read_fields result = do
  bpp ← read_u8
  depth ← read_u8
  big ← read_u8
  true_byte ← read_u8
  let pf = record result {
    bpp = bpp;
    depth = depth;
    big_endian = if big == 0 then result.big_endian else true;
  }
  if true_byte == 0 then pure pf else read_masks (record pf { true_color = true })

-- `ReadPixelFormat(r, result)`: sixteen bytes are taken from `r` whatever they say.
unfoldable pub read_pixel_format : PixelFormat → Exec (List ℕ) PixelFormat
read_pixel_format result = do raw ← read_full 16; lift (read_fields result raw).0

abbrev pub bool_byte : Bool → ℕ
bool_byte true = 1
bool_byte false = 0

unfoldable pub mask_bytes : PixelFormat → List ℕ
mask_bytes pf =
    be16 pf.red_max
    ++ (be16 pf.green_max
        ++ (be16 pf.blue_max ++ (pf.red_shift ∷ pf.green_shift ∷ pf.blue_shift ∷ [])))

-- What `WritePixelFormat` puts into its buffer.
unfoldable pub format_bytes : PixelFormat → List ℕ
format_bytes pf =
    pf.bpp
    ∷ pf.depth
    ∷ bool_byte pf.big_endian
    ∷ bool_byte pf.true_color
    ∷ (if pf.true_color then mask_bytes pf else [])

-- `capacity n` is the capacity of a `bytes.Buffer` into which `n` bytes were written.
unfoldable pub write_pixel_format : (ℕ → ℕ) → PixelFormat → Result (List ℕ)
write_pixel_format capacity pf =
    let written = format_bytes pf in reslice (capacity (length written)) written 16

-- The fields fit their Go types.
abbrev pub IsPixelFormat : PixelFormat → Type 0
IsPixelFormat pf =
    IsByte pf.bpp
    × IsByte pf.depth
    × IsU16 pf.red_max
    × IsU16 pf.green_max
    × IsU16 pf.blue_max
    × IsByte pf.red_shift
    × IsByte pf.green_shift
    × IsByte pf.blue_shift
