-- ===== src/Vncclient/PixelFormat/RoundTrip.antt =====
-- `ReadPixelFormat` after `WritePixelFormat`.
use go_vncdriver.Common.{
  ℕ, ◌≤◌, ◌≡◌, refl, ap, ◌==◌, Bool-cases, inl, inr, Bool, true, false, List, ◌++◌, arith, length,
  replicate, if◌then◌else◌,
}
use go_vncdriver.Common.Exec.{ok}
use go_vncdriver.Vncclient.Wire.Laws.{reslice_padded, read_full-append, read_u8-cons, read_u16-be16}
use go_vncdriver.Vncclient.PixelFormat.{
  PixelFormat, no_format, IsPixelFormat, read_pixel_format, write_pixel_format, read_fields,
  read_masks, mask_bytes, format_bytes, bool_byte,
}

-- What the wire carries of a format: the masks and shifts go only in true colour.
abbrev pub on_wire : PixelFormat → PixelFormat
on_wire pf =
    if pf.true_color
    then pf
    else record no_format { bpp = pf.bpp; depth = pf.depth; big_endian = pf.big_endian }

abbrev pub padding : PixelFormat → List ℕ
padding pf = if pf.true_color then replicate 3 0 else replicate 12 0

pub write_pixel_format_lem :
    (capacity : ℕ → ℕ) (pf : PixelFormat)
    → ((n : ℕ) → n ≤ 16 → 16 ≤ capacity n)
    → write_pixel_format capacity pf ≡ ok (format_bytes pf ++ padding pf)
unfolding write_pixel_format format_bytes mask_bytes
write_pixel_format_lem capacity pf room = elim (Bool-cases pf.true_color) [
  | inl yes' ↦ rw yes' (reslice_padded (capacity 13) _ 16 3 (room 13 (omega arith)) (omega arith))
  | inr no' ↦ rw no' (reslice_padded (capacity 4) _ 16 12 (room 4 (omega arith)) (omega arith))
]

read_masks_lem :
    (pf result : PixelFormat) (rest : List ℕ)
    → IsPixelFormat pf
    → read_masks result (mask_bytes pf ++ rest) ≡ (
      ok (record pf {
        bpp = result.bpp;
        depth = result.depth;
        big_endian = result.big_endian;
        true_color = result.true_color;
      }),
      rest,
    )
unfolding read_masks mask_bytes
read_masks_lem pf result rest v = rw (read_u16-be16 pf.red_max _ v.2) (
    rw (read_u16-be16 pf.green_max _ v.3) (
      rw (read_u16-be16 pf.blue_max _ v.4) (
        rw (read_u8-cons pf.red_shift _)
          (rw (read_u8-cons pf.green_shift _) (rw (read_u8-cons pf.blue_shift rest))))))

big_flag : (b : Bool) → (if bool_byte b == 0 then false else true) ≡ b
big_flag true = refl
big_flag false = refl

-- The fields behind the flags, whether in true colour or not.
read_fields_lem :
    (pf : PixelFormat) (rest : List ℕ)
    → IsPixelFormat pf
    → (read_fields no_format (format_bytes pf ++ rest)).0 ≡ ok (on_wire pf)
unfolding read_fields format_bytes
read_fields_lem pf rest v = rw (read_u8-cons pf.bpp _) (
    rw (read_u8-cons pf.depth _) (
      rw (read_u8-cons (bool_byte pf.big_endian) _) (
        rw (read_u8-cons (bool_byte pf.true_color) _) (elim (Bool-cases pf.true_color) [
          | inl color ↦
              rw (color, big_flag pf.big_endian)
                (rw (read_masks_lem (record pf { true_color = true }) _ rest v))
          | inr plain ↦ rw (plain, big_flag pf.big_endian)
        ]))))

pub length_written : (pf : PixelFormat) → length (format_bytes pf ++ padding pf) ≡ 16
unfolding format_bytes mask_bytes
length_written pf = elim (Bool-cases pf.true_color) [ inl e ↦ rw e | inr e ↦ rw e ]

pub read_pixel_format_lem :
    (pf : PixelFormat) (rest : List ℕ)
    → IsPixelFormat pf
    → read_pixel_format no_format ((format_bytes pf ++ padding pf) ++ rest)
      ≡ (ok (on_wire pf), rest)
unfolding read_pixel_format
read_pixel_format_lem pf rest v =
    rw
      (
        ← length_written pf,
        read_full-append (format_bytes pf ++ padding pf) rest (omega (arith, length_written pf)),
      )
      (ap (λ r. (r, rest)) (read_fields_lem pf (padding pf) v))

-- `ReadPixelFormat` of what `WritePixelFormat` wrote is the format, less the masks and shifts
-- where it is not in true colour; all sixteen bytes are taken, and nothing behind them.
pub read-write_pixel_format :
    (capacity : ℕ → ℕ) (pf : PixelFormat) (rest bs : List ℕ)
    → ((n : ℕ) → n ≤ 16 → 16 ≤ capacity n)
    → IsPixelFormat pf
    → write_pixel_format capacity pf ≡ ok bs
    → (length bs ≡ 16) × (read_pixel_format no_format (bs ++ rest) ≡ (ok (on_wire pf), rest))
read-write_pixel_format capacity pf rest bs room v h =
    (rw written (length_written pf), rw written (read_pixel_format_lem pf rest v))
  where
    written : bs ≡ format_bytes pf ++ padding pf
    written = cc (write_pixel_format_lem capacity pf room)
