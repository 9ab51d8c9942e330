-- ===== src/Vncclient/Tight/Rectangles.antt =====
-- Whole rectangles of the Tight encoding that are read back.
use go_vncdriver.Common.{
  ℕ, suc, ◌+◌, ◌-◌, ◌*◌, ◌/◌, ◌%◌, ◌^◌, ◌≤◌, ◌<◌, ◌≡◌, refl, ap, ◌∙◌, List, [], ◌∷◌, ◌++◌, arith,
  length, replicate, bit_or, bit_and, le→ltb, ne→eqb, eq→eqb, true, false, Option, some, get_elem?,
  get-copy_at_one, copy_at-copy_at_one, ◌==◌,
}
use go_vncdriver.Common.Exec.{Exec, ok}
use go_vncdriver.Vncclient.Color.{Color}
use go_vncdriver.Vncclient.PixelFormat.{PixelFormat}
use go_vncdriver.Vncclient.QuickBuf.Laws.{color_bytes}
use go_vncdriver.Vncclient.Encoding.{tight, Rectangle, area}
use go_vncdriver.Vncclient.Tight.Streams.{
  Zlib, Tight, Source, direct, stream, is_reset, read_source, basic_compression_reader,
  read_tpixels,
}
use go_vncdriver.Vncclient.Tight.Read.{
  is_supported, read_fill, read_method, copy_filter, read_basic_compression, tight_read,
}
use go_vncdriver.Vncclient.Tight.Readers.{with_stream, read_stream, open_reader, reset_reader}
use go_vncdriver.Vncclient.Tight.Length.{compact_bytes, next_byte_lem}
use go_vncdriver.Vncclient.Tight.Pixels.{emptied, read_tpixels_lem, read_direct}

module _ {Z : Type 0} (zlib : Zlib Z) (decode : Exec (List ℕ) (Option (List ℕ)))
    (format : PixelFormat) (rect : Rectangle) (fine : is_supported format ≡ true)
    (narrow : rect.width ≤ 2048) where
  -- The state in which the method of the control byte starts.
  abbrev started : Tight Z → ℕ → List ℕ → Tight Z
  started t control rest = record t {
    input = rest;
    size = 0 + 1;
    reset = bit_or t.reset (control % 16);
  }

  tight_read_start :
      (t : Tight Z) (control : ℕ) (rest : List ℕ)
      → t.input ≡ control ∷ rest
      → tight_read zlib decode format rect t
        ≡ read_method zlib decode control format rect (started t control rest)
  unfolding tight_read
  tight_read_start t control rest e =
      rw (le→ltb 2048 rect.width narrow, fine)
        (rw (next_byte_lem (record t { size = 0 }) control rest e))

  -- A rectangle of one colour is read from its control byte and one pixel, whatever follows: four
  -- bytes are taken and counted, and the reset bits of the control byte are kept for later.
  pub tight_read_fill :
      (t : Tight Z) (control : ℕ) (c : Color) (rest : List ℕ)
      → control / 16 ≡ 8
      → t.input ≡ control ∷ (color_bytes (c ∷ []) ++ rest)
      → tight_read zlib decode format rect t ≡ (
        ok (tight (replicate (area rect) c) 4),
        record t { input = rest; reset = bit_or t.reset (control % 16); buf = []; size = 4 },
      )
  unfolding read_fill
  tight_read_fill t control c rest h e =
      tight_read_start t control (color_bytes (c ∷ []) ++ rest) e ∙ rw (not_basic, h) (rw pixel)
    where
      not_basic : (control / 128 == 0) ≡ false
      not_basic = ne→eqb (control / 128) 0 (λ z. omega arith)

      s : Tight Z
      s = started t control (color_bytes (c ∷ []) ++ rest)

      pixel :
          read_tpixels zlib (direct 3) 1 (emptied s)
          ≡ (ok (c ∷ []), record s { input = rest; size = 0 + 1 + 3; buf = [] })
      pixel =
          read_tpixels_lem zlib (direct 3) s (record s { input = rest }) c []
            (read_direct zlib (emptied s) 3 (color_bytes (c ∷ [])) rest refl refl)

  -- Pixels as they are, whatever the reader that delivers them.
  copy_filter_lem :
      (t t1 t2 : Tight Z) (i : ℕ) (src : Source) (c : Color) (cs : List Color)
      → suc (length cs) ≡ area rect
      → basic_compression_reader zlib (area rect * 3) i t ≡ (ok src, t1)
      → read_source zlib src (area rect * 3) (emptied t1) ≡ (ok (color_bytes (c ∷ cs)), emptied t2)
      → copy_filter zlib rect i t ≡ (
        ok (tight (c ∷ cs) (t2.size + area rect * 3)),
        record t2 { size = t2.size + area rect * 3; buf = [] },
      )
  unfolding copy_filter
  copy_filter_lem t t1 t2 i src c cs e h k =
      rw (h, ← e) (rw (read_tpixels_lem zlib src t1 t2 c cs (rw e k)))

  -- The control byte of a rectangle without a filter byte: the stream, and the streams to reset.
  copy_start :
      (t : Tight Z) (i k : ℕ) (rest : List ℕ)
      → i < 4
      → k < 16
      → t.input ≡ (i * 16 + k) ∷ rest
      → tight_read zlib decode format rect t
        ≡ copy_filter zlib rect i (record t { input = rest; size = 1; reset = bit_or t.reset k })
  unfolding read_basic_compression
  copy_start t i k rest hi hk e =
      tight_read_start t (i * 16 + k) rest e ∙ rw (basic, no_filter, which, low)
    where
      basic : ((i * 16 + k) / 128 == 0) ≡ true
      basic = eq→eqb ((i * 16 + k) / 128) 0 (omega arith)

      no_filter : ((i * 16 + k) / 64 == 1) ≡ false
      no_filter = ne→eqb ((i * 16 + k) / 64) 1 (λ z. omega arith)

      which : (i * 16 + k) / 16 % 4 ≡ i
      which = omega arith

      low : (i * 16 + k) % 16 ≡ k
      low = omega arith

  -- Pixels as they are that the zlib reader of a stream delivers.
  stream_copy :
      (s s1 : Tight Z) (i : ℕ) (r r' : Z) (w w' : List ℕ) (c : Color) (cs : List Color)
      → suc (length cs) ≡ area rect
      → basic_compression_reader zlib (area rect * 3) i s ≡ (ok (stream i), s1)
      → get_elem? s1.streams i ≡ some (record { reader = some r; waiting = w })
      → zlib.read_up_to (area rect * 3) r w ≡ (ok (color_bytes (c ∷ cs)), (r', w'))
      → copy_filter zlib rect i s ≡ (
        ok (tight (c ∷ cs) (s1.size + area rect * 3)),
        record s1 { streams = with_stream i s1 r' w'; size = s1.size + area rect * 3; buf = [] },
      )
  stream_copy s s1 i r r' w w' c cs whole h at inflated =
      copy_filter_lem s s1 (record s1 { streams = with_stream i s1 r' w' }) i (stream i) c cs whole
        h
        (read_stream zlib i (emptied s1) (area rect * 3) r r' w w' (color_bytes (c ∷ cs)) at
          inflated)

  module _ (t : Tight Z) (i k : ℕ) (hi : i < 4) (hk : k < 16) (z rest : List ℕ)
      (short : length z < 4194304) (c : Color) (cs : List Color)
      (whole : suc (length cs) ≡ area rect) (large : 4 ≤ area rect)
      (sent : t.input ≡ (i * 16 + k) ∷ (compact_bytes (length z) ++ (z ++ rest))) (r r' : Z)
      (w w' : List ℕ)
      (at : get_elem? t.streams i ≡ some (record { reader = some r; waiting = w })) where
    -- The control byte, the length, the compressed bytes, and the pixels once more.
    abbrev pub counted : ℕ
    counted = 1 + length (compact_bytes (length z)) + length z + area rect * 3

    -- The state behind the control byte.
    abbrev opened : Tight Z
    opened = record t {
      input = compact_bytes (length z) ++ (z ++ rest);
      size = 1;
      reset = bit_or t.reset k;
    }

    -- The state behind the compressed bytes.
    abbrev filled : ℕ → Z → List ℕ → Tight Z
    filled bits q v = record opened {
      input = rest;
      size = 1 + length (compact_bytes (length z)) + length z;
      streams = with_stream i t q v;
      reset = bits;
    }

    stream_filled :
        (bits : ℕ) (q : Z) (v : List ℕ)
        → basic_compression_reader zlib (area rect * 3) i opened ≡ (ok (stream i), filled bits q v)
        → zlib.read_up_to (area rect * 3) q v ≡ (ok (color_bytes (c ∷ cs)), (r', w'))
        → tight_read zlib decode format rect t ≡ (
          ok (tight (c ∷ cs) counted),
          record t {
            input = rest;
            streams = with_stream i t r' w';
            reset = bits;
            buf = [];
            size = counted;
          },
        )
    stream_filled bits q v h inflated =
        copy_start t i k (compact_bytes (length z) ++ (z ++ rest)) hi hk sent
        ∙ stream_copy opened (filled bits q v) i q r' v w' c cs whole h
            (get-copy_at_one t.streams i (record { reader = some r; waiting = w })
              (record { reader = some q; waiting = v }) at)
            inflated
        ∙ ap
            (λ l. (
              ok (tight (c ∷ cs) counted),
              record (filled bits q v) { streams = l; buf = []; size = counted },
            ))
            (copy_at-copy_at_one t.streams i (record { reader = some q; waiting = v })
              (record { reader = some r'; waiting = w' }))

    -- A rectangle of pixels as they are, on a stream that has been used before and is not to be
    -- reset: where the zlib reader makes these pixels of what waits for it and of the new bytes, they
    -- are read, nothing behind the rectangle is taken, and the other streams are left alone.
    pub tight_read_copy :
        is_reset (bit_or t.reset k) i ≡ false
        → zlib.read_up_to (area rect * 3) r (w ++ z) ≡ (ok (color_bytes (c ∷ cs)), (r', w'))
        → tight_read zlib decode format rect t ≡ (
          ok (tight (c ∷ cs) counted),
          record t {
            input = rest;
            streams = with_stream i t r' w';
            reset = bit_or t.reset k;
            buf = [];
            size = counted;
          },
        )
    tight_read_copy kept inflated =
        stream_filled (bit_or t.reset k) r (w ++ z)
          (open_reader zlib i z rest short opened (area rect * 3) r w (omega arith) refl at kept)
          inflated

    -- Where the stream is to be reset, what waits is dropped and the reader starts again on the new
    -- bytes: where it then makes these pixels, they are read, and of the reset bits the stream's is
    -- cleared.
    pub tight_read_reset :
        (r1 : Z) (w1 : List ℕ)
        → is_reset (bit_or t.reset k) i ≡ true
        → zlib.reset r z ≡ (r1, w1)
        → zlib.read_up_to (area rect * 3) r1 w1 ≡ (ok (color_bytes (c ∷ cs)), (r', w'))
        → tight_read zlib decode format rect t ≡ (
          ok (tight (c ∷ cs) counted),
          record t {
            input = rest;
            streams = with_stream i t r' w';
            reset = bit_or t.reset k - bit_and (bit_or t.reset k) (2 ^ i);
            buf = [];
            size = counted;
          },
        )
    tight_read_reset r1 w1 pending again inflated =
        stream_filled (bit_or t.reset k - bit_and (bit_or t.reset k) (2 ^ i)) r1 w1
          (reset_reader zlib i z rest short opened (area rect * 3) r r1 w w1 (omega arith) refl at
            pending again)
          inflated
