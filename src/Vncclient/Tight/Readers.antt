-- ===== src/Vncclient/Tight/Readers.antt =====
-- `basicCompressionReader` on a zlib stream that has been used before.
use go_vncdriver.Common.{
  ℕ, ◌+◌, ◌-◌, ◌^◌, ◌≤◌, ◌<◌, ◌≡◌, List, [], ◌∷◌, ◌++◌, length, bit_and, le→ltb, true, false, some,
  get_elem?, copy_at, get-copy_at_one, copy_at-copy_at_one, take-append_left, drop-append_left,
}
use go_vncdriver.Common.Exec.{ok}
use go_vncdriver.Vncclient.Tight.Streams.{
  Zlib, Tight, Stream, stream, is_reset, read_source, basic_compression_reader, fill_stream,
  open_stream, reset_stream, limited,
}
use go_vncdriver.Vncclient.Tight.Length.{compact_bytes, read_compact_length-compact_bytes}

-- The streams where the reader of one of them has come to `r`, with `w` before it.
abbrev pub with_stream : {Z : Type 0} → ℕ → Tight Z → Z → List ℕ → List (Stream Z)
with_stream i t r w = copy_at t.streams i (record { reader = some r; waiting = w } ∷ [])

module _ {Z : Type 0} (zlib : Zlib Z) (i : ℕ) where
  pub read_stream :
      (t : Tight Z) (n : ℕ) (r r' : Z) (w w' bs : List ℕ)
      → get_elem? t.streams i ≡ some (record { reader = some r; waiting = w })
      → zlib.read_up_to n r w ≡ (ok bs, (r', w'))
      → read_source zlib (stream i) n t ≡ (ok bs, record t { streams = with_stream i t r' w' })
  unfolding read_source
  read_stream t n r r' w w' bs at e = rw (at) (rw e)

module _ {Z : Type 0} (zlib : Zlib Z) (i : ℕ) (z rest : List ℕ) (short : length z < 4194304) where
  -- The compressed bytes of a stream that is open and is not to be reset go behind those that wait.
  pub open_reader :
      (t : Tight Z) (n : ℕ) (r : Z) (w : List ℕ)
      → 12 ≤ n
      → t.input ≡ compact_bytes (length z) ++ (z ++ rest)
      → get_elem? t.streams i ≡ some (record { reader = some r; waiting = w })
      → is_reset t.reset i ≡ false
      → basic_compression_reader zlib n i t ≡ (
        ok (stream i),
        record t {
          input = rest;
          size = t.size + length (compact_bytes (length z)) + length z;
          streams = with_stream i t r (w ++ z);
        },
      )
  unfolding basic_compression_reader fill_stream open_stream limited
  open_reader t n r w large e at kept = rw (le→ltb n 12 large) (
      rw (read_compact_length-compact_bytes t (length z) (z ++ rest) short e) (
        rw (at, take-append_left z rest, drop-append_left z rest, kept)
          (rw
            (get-copy_at_one t.streams i (record { reader = some r; waiting = w })
              (record { reader = some r; waiting = w ++ z }) at)
            (rw kept))))

  -- Where the stream is to be reset, what waits is dropped, the reader starts again on the new bytes,
  -- and the bit is cleared.
  pub reset_reader :
      (t : Tight Z) (n : ℕ) (r r' : Z) (w w' : List ℕ)
      → 12 ≤ n
      → t.input ≡ compact_bytes (length z) ++ (z ++ rest)
      → get_elem? t.streams i ≡ some (record { reader = some r; waiting = w })
      → is_reset t.reset i ≡ true
      → zlib.reset r z ≡ (r', w')
      → basic_compression_reader zlib n i t ≡ (
        ok (stream i),
        record t {
          input = rest;
          size = t.size + length (compact_bytes (length z)) + length z;
          streams = with_stream i t r' w';
          reset = t.reset - bit_and t.reset (2 ^ i);
        },
      )
  unfolding basic_compression_reader fill_stream open_stream reset_stream limited
  reset_reader t n r r' w w' large e at pending again = rw (le→ltb n 12 large) (
      rw (read_compact_length-compact_bytes t (length z) (z ++ rest) short e) (
        rw (at, take-append_left z rest, drop-append_left z rest, pending)
          (rw
            (get-copy_at_one t.streams i (record { reader = some r; waiting = w })
              (record { reader = some r; waiting = z }) at)
            (rw pending (
              rw
                (
                  get-copy_at_one t.streams i (record { reader = some r; waiting = w })
                      (record { reader = some r; waiting = z }) at,
                  again,
                )
                (rw (
                  copy_at-copy_at_one t.streams i (record { reader = some r; waiting = z })
                    (record { reader = some r'; waiting = w' }))))))))
