-- ===== src/Vncclient/Decoders.antt =====
-- The decoders behind a connection of package vncclient: the `Inflator` of the ZRLE encoding, and
-- the `TightEncoding`, which keeps its streams from one rectangle to the next.
use go_vncdriver.Common.{
  ℕ, ◌/◌, ◌%◌, ◌≤◌, ◌≡◌, refl, true, false, List, [], ◌∷◌, ◌++◌, Option, some, le→ltb, arith,
  replicate, bit_or,
}
use go_vncdriver.Common.Bytes.{be16, be32, IsU16}
use go_vncdriver.Common.Exec.{Exec, ok}
use go_vncdriver.Flexzlib.{Flate}
use go_vncdriver.Flexzlib.Inflator.{Inflator, inflate}
use go_vncdriver.Vncclient.Color.{Color}
use go_vncdriver.Vncclient.QuickBuf.Laws.{color_bytes}
use go_vncdriver.Vncclient.Encoding.{Encoding, tight, Rectangle, area}
use go_vncdriver.Vncclient.Wire.Laws.{read_full-append, read_u8-cons, read_u16-be16, read_u32-be32}
use go_vncdriver.Vncclient.Client.{ClientConn}
use go_vncdriver.Vncclient.ServerMessages.{
  ServerMessage, framebuffer_update, find_encoding, encoding_read, is_excessive, read_rectangle,
  read_rectangles, framebuffer_update_read, read_message,
}
use go_vncdriver.Vncclient.Tight.Streams.{Zlib, Tight}
use go_vncdriver.Vncclient.Tight.Read.{is_supported, tight_read}
use go_vncdriver.Vncclient.Tight.Rectangles.{tight_read_fill}

pub record Decoders (D Z : Type 0) : Type 0 where
  pub inflator : Inflator D
  pub streams : Tight Z

module _ {D Z : Type 0} (flate : Flate D) (room : ℕ → ℕ) (fuel : ℕ) (zlib : Zlib Z)
    (decode : Exec (List ℕ) (Option (List ℕ))) where
  -- `c.inflator.Inflate(compressed)`
  unfoldable pub inflate_piece : List ℕ → Exec (Decoders D Z) (List ℕ)
  inflate_piece p s =
      let (r, i) = inflate flate room fuel p s.inflator in (r, record s { inflator = i })

  -- The connection's bytes are those that the `TightEncoding` reads.
  abbrev pub reading : ClientConn (Decoders D Z) → Tight Z
  reading c = record c.inflator.streams { input = c.input }

  abbrev pub after_reading : ClientConn (Decoders D Z) → Tight Z → ClientConn (Decoders D Z)
  after_reading c t = record c { input = t.input; inflator = record c.inflator { streams = t } }

  unfoldable pub tight_encoding_read : Rectangle → Exec (ClientConn (Decoders D Z)) Encoding
  tight_encoding_read rect c =
      let (r, t) = tight_read zlib decode c.pixel_format rect (reading c) in (r, after_reading c t)

  -- One round of `mainLoop` with the package's own decoders.
  abbrev pub read_server_message : Exec (ClientConn (Decoders D Z)) ServerMessage
  read_server_message = read_message inflate_piece tight_encoding_read

  module _ (c : ClientConn (Decoders D Z)) (rect : Rectangle) (color : Color) (control : ℕ)
      (rest : List ℕ) where
    -- A rectangle of one colour on the wire.
    abbrev pub fill_bytes : List ℕ
    fill_bytes =
        be16 rect.x
        ++ (be16 rect.y
            ++ (be16 rect.width
                ++ (be16 rect.height
                    ++ (be32 7 ++ (control ∷ (color_bytes (color ∷ []) ++ rest))))))

    -- The connection behind the rectangle.
    abbrev pub filled : ClientConn (Decoders D Z)
    filled = after_reading c (record (reading c) {
      input = rest;
      reset = bit_or c.inflator.streams.reset (control % 16);
      buf = [];
      size = 4;
    })

    module _ (hx : IsU16 rect.x) (hy : IsU16 rect.y) (hw : IsU16 rect.width)
        (hh : IsU16 rect.height) (cs : List Color) (n : ℕ)
        (known : find_encoding c.encs 7 ≡ some (tight cs n))
        (fine : is_supported c.pixel_format ≡ true) (narrow : rect.width ≤ 2048)
        (hx' : rect.x ≤ 5120) (hy' : rect.y ≤ 2880) (hh' : rect.height ≤ 2880)
        (method : control / 16 ≡ 8) where
      allowed : is_excessive inflate_piece tight_encoding_read rect ≡ false
      allowed =
          rw
            (
              le→ltb 5120 rect.x hx',
              le→ltb 2880 rect.y hy',
              le→ltb 5120 rect.width (omega arith),
              le→ltb 2880 rect.height hh',
            )
            refl

      rectangle_lem :
          (d : ClientConn (Decoders D Z))
          → d ≡ record c { input = fill_bytes }
          → read_rectangle inflate_piece tight_encoding_read d
            ≡ (ok (record { rect = rect; enc = tight (replicate (area rect) color) 4 }), filled)
      unfolding read_rectangle encoding_read tight_encoding_read
      rectangle_lem d e = rw e (
          rw
            (read_u16-be16 rect.x
              (be16 rect.y
                ++ (be16 rect.width
                    ++ (be16 rect.height
                        ++ (be32 7 ++ (control ∷ (color_bytes (color ∷ []) ++ rest))))))
              hx)
            (rw
              (read_u16-be16 rect.y
                (be16 rect.width
                  ++ (be16 rect.height
                      ++ (be32 7 ++ (control ∷ (color_bytes (color ∷ []) ++ rest)))))
                hy)
              (rw
                (read_u16-be16 rect.width
                  (be16 rect.height ++ (be32 7 ++ (control ∷ (color_bytes (color ∷ []) ++ rest))))
                  hw)
                (rw
                  (read_u16-be16 rect.height
                    (be32 7 ++ (control ∷ (color_bytes (color ∷ []) ++ rest))) hh)
                  (rw (read_u32-be32 7 (control ∷ (color_bytes (color ∷ []) ++ rest)) (omega arith))
                    (rw allowed (
                      rw known rw
                        (tight_read_fill zlib decode c.pixel_format rect fine narrow
                          (reading
                            (record c { input = control ∷ (color_bytes (color ∷ []) ++ rest) }))
                          control color rest method refl)
                        refl)))))))

      -- `mainLoop` reads an update with one rectangle of one colour in the Tight encoding, from the type
      -- of the message to the decoded pixels: the rectangle lies within the limits, the pixel format is the
      -- one that the decoder accepts, and what follows the message is left.
      pub read_message_fill :
          (padding : ℕ)
          → c.input ≡ 0 ∷ padding ∷ (be16 1 ++ fill_bytes)
          → read_server_message c ≡ (
            ok (
                framebuffer_update
                  (record { rect = rect; enc = tight (replicate (area rect) color) 4 } ∷ [])),
            filled,
          )
      unfolding read_message framebuffer_update_read read_rectangles
      read_message_fill padding e = rw e (
          rw (read_u8-cons 0 (padding ∷ (be16 1 ++ fill_bytes))) (
            rw (read_full-append (padding ∷ []) (be16 1 ++ fill_bytes) (omega arith)) (
              rw (read_u16-be16 1 fill_bytes (omega arith))
                (rw (rectangle_lem (record c { input = fill_bytes }) refl) refl))))
