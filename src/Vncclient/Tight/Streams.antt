-- ===== src/Vncclient/Tight/Streams.antt =====
-- The state of a `TightEncoding`, `readCompactLength` and `basicCompressionReader`. The bits of
-- a byte that a mask keeps are written by division.
use go_vncdriver.Common.{
  ℕ, zero, suc, ◌+◌, ◌-◌, ◌*◌, ◌%◌, ◌^◌, List, [], ◌∷◌, ◌++◌, Option, none, some, ltb, ◌==◌, ◌||◌,
  if◌then◌else◌, length, take, drop, min, get_elem?, copy_at, replicate, bit_and, Bool, not,
}
use go_vncdriver.Common.Exec.{
  Exec, Result, ok, err, panic, stuck, index_out_of_range, nil_dereference, unread_buffer, eof,
  pure, lift, gets, modify, ◌>>=◌, ◌>>◌,
}
use go_vncdriver.Vncclient.Color.{Color}
use go_vncdriver.Vncclient.QuickBuf.{new_quick_buf, read_colors}

-- What the decoder uses of compress/zlib, for readers `Z` over a buffer of compressed bytes: the
-- constructor, which reads the header; `Reset`, whose error is dropped; and the bytes that
-- `ReadFrom(io.LimitReader(z, n))` gets.
pub record Zlib (Z : Type 0) : Type 0 where
  pub new_reader : Exec (List ℕ) Z
  pub reset : Z → List ℕ → Z × List ℕ
  pub read_up_to : ℕ → Z → List ℕ → Result (List ℕ) × (Z × List ℕ)

-- One zlib stream with its own buffer.
pub record Stream (Z : Type 0) : Type 0 where
  pub reader : Option Z
  pub waiting : List ℕ

-- The fields of `TightEncoding` but for the colours, and the connection's bytes to come. `reset`
-- has the four lowest bits of a byte.
pub record Tight (Z : Type 0) : Type 0 where
  pub input : List ℕ
  pub streams : List (Stream Z)
  pub reset : ℕ
  pub buf : List ℕ
  pub size : ℕ

-- The reader that `basicCompressionReader` returns: the connection, limited, or a stream.
pub data Source : Type 0 where
  direct : ℕ → Source
  stream : ℕ → Source

-- `t.reset&(1<<stream) != 0`
unfoldable pub is_reset : ℕ → ℕ → Bool
is_reset reset i = not (bit_and reset (2 ^ i) == 0)

module _ {Z : Type 0} where
  abbrev pub empty_stream : Stream Z
  empty_stream = record { reader = none; waiting = [] }

  -- A `TightEncoding` before its first rectangle.
  abbrev pub new_tight : List ℕ → Tight Z
  new_tight input = record {
    input = input;
    streams = replicate 4 empty_stream;
    reset = 0;
    buf = [];
    size = 0;
  }

  -- `t.size += n`
  abbrev pub count_bytes : ℕ → Exec (Tight Z) (Unit {0})
  count_bytes n = modify (λ t. record t { size = t.size + n })

  abbrev pub reset_buf : Exec (Tight Z) (Unit {0})
  reset_buf = modify (λ t. record t { buf = [] })

  -- One byte of the connection.
  unfoldable pub next_byte : Exec (Tight Z) ℕ
  next_byte t = elim t.input [ [] ↦ (err eof, t) | b ∷ bs ↦ (ok b, record t { input = bs }) ]

  -- `k` bytes at most are left, `x` is the number so far and `s` the shift. The bits that `|` joins
  -- do not overlap.
  unfoldable pub compact_length : ℕ → (x s : ℕ) → Exec (Tight Z) ℕ
  compact_length zero x s = lift stuck
  compact_length (suc k) x s = do
    b ← next_byte
    count_bytes 1
    if ltb b 128 || k == 0
        then pure (x + b * 2 ^ s)
        else compact_length k (x + b % 128 * 2 ^ s) (s + 7)

  unfoldable pub read_compact_length : Exec (Tight Z) ℕ
  read_compact_length = compact_length 3 0 0

  -- `io.LimitReader(r, n)`, read to its end: no error where the connection ends first.
  unfoldable pub limited : ℕ → Exec (Tight Z) (List ℕ)
  limited n t = (ok (take n t.input), record t { input = drop n t.input })

  abbrev pub stream_at : Option (Stream Z) → Result (Stream Z)
  stream_at none = panic index_out_of_range
  stream_at (some s) = ok s

  abbrev pub get_stream : ℕ → Exec (Tight Z) (Stream Z)
  get_stream i t = (stream_at (get_elem? t.streams i), t)

  abbrev pub set_stream : ℕ → Stream Z → Exec (Tight Z) (Unit {0})
  set_stream i s = modify (λ t. record t { streams = copy_at t.streams i (s ∷ []) })

module _ {Z : Type 0} (zlib : Zlib Z) where
  -- `buf.Reset()` where the stream is to be reset, and then the compressed bytes.
  unfoldable pub fill_stream : ℕ → ℕ → Exec (Tight Z) (Unit {0})
  fill_stream i n = do
    s ← get_stream i
    compressed ← limited n
    reset ← gets (λ t. t.reset)
    set_stream i (record s { waiting = (if is_reset reset i then [] else s.waiting) ++ compressed })

  -- The reader of a stream; it is made when it is first used.
  abbrev pub open_with : ℕ → Stream Z → Option Z → Exec (Tight Z) Z
  open_with i s (some z) = pure z
  open_with i s none = do
    let (r, waiting) = zlib.new_reader s.waiting
    set_stream i (record s { waiting = waiting })
    z ← lift r
    set_stream i (record { reader = some z; waiting = waiting })
    pure z

  unfoldable pub open_stream : ℕ → Exec (Tight Z) Z
  open_stream i = do s ← get_stream i; open_with i s s.reader

  -- `t.streams[stream].Reset(buf, nil)`, and the bit is cleared.
  unfoldable pub reset_stream : ℕ → Z → Exec (Tight Z) (Unit {0})
  reset_stream i z = do
    s ← get_stream i
    let (z', waiting) = zlib.reset z s.waiting
    set_stream i (record { reader = some z'; waiting = waiting })
    modify (λ t. record t { reset = t.reset - bit_and t.reset (2 ^ i) })

  unfoldable pub basic_compression_reader : ℕ → ℕ → Exec (Tight Z) Source
  basic_compression_reader size i = if ltb size 12 then pure (direct size) else (do
    length ← read_compact_length
    count_bytes length
    fill_stream i length
    z ← open_stream i
    reset ← gets (λ t. t.reset)
    (if is_reset reset i then reset_stream i z else pure tt)
    pure (stream i))

  abbrev pub reader_of : Option Z → Result Z
  reader_of none = panic nil_dereference
  reader_of (some z) = ok z

  unfoldable pub read_source : Source → ℕ → Exec (Tight Z) (List ℕ)
  read_source (direct limit) n = limited (min limit n)
  read_source (stream i) n = do
    s ← get_stream i
    z ← lift (reader_of s.reader)
    let (r, (z', waiting)) = zlib.read_up_to n z s.waiting
    set_stream i (record { reader = some z'; waiting = waiting })
    lift r

  -- Up to `n` bytes go behind what `t.buf` holds.
  unfoldable pub read_to_buf : Source → ℕ → Exec (Tight Z) (Unit {0})
  read_to_buf src n = do bytes ← read_source src n; modify (λ t. record t { buf = t.buf ++ bytes })

  -- `readTPixels`: three bytes to a pixel, from a buffer that must be empty.
  unfoldable pub read_tpixels : Source → ℕ → Exec (Tight Z) (List Color)
  read_tpixels src n = do
    left ← gets (λ t. length t.buf)
    lift (if left == 0 then ok tt else panic unread_buffer)
    read_to_buf src (n * 3)
    count_bytes (n * 3)
    bytes ← gets (λ t. take (n * 3) t.buf)
    modify (λ t. record t { buf = drop (n * 3) t.buf })
    lift (read_colors n (new_quick_buf bytes)).0
