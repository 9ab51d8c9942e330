-- ===== src/Vncclient/Tight/Ending.antt =====
-- The streams of `TightEncoding` always end.
use go_vncdriver.Common.{
  ℕ, zero, suc, ◌+◌, ◌-◌, ◌*◌, ◌%◌, ◌≡◌, refl, Bool, true, false, ◌||◌, List, [], ◌∷◌, Option, none,
  some, ltb, ◌==◌, if◌then◌else◌, get_elem?, min, bit_and, ◌^◌,
}
use go_vncdriver.Common.Exec.{Exec, Result, eof, ok, err, pure, lift, gets, modify}
use go_vncdriver.Common.Total.{
  IsFinished, IsTotal, IsTotal-bind, IsTotal-pure, IsTotal-lift, IsTotal-if,
}
use go_vncdriver.Vncclient.Tight.Streams.{
  Zlib, Tight, Stream, Source, direct, stream, is_reset, next_byte, compact_length,
  read_compact_length, limited, get_stream, stream_at, set_stream, fill_stream, open_with,
  open_stream, reset_stream, basic_compression_reader, reader_of, read_source, read_to_buf,
  count_bytes,
}

-- The zlib reader and its constructor end.
pub record IsEnding {Z : Type 0} (zlib : Zlib Z) : Type 0 where
  pub opens : (w : List ℕ) → IsFinished (zlib.new_reader w).0
  pub reads : (n : ℕ) (z : Z) (w : List ℕ) → IsFinished (zlib.read_up_to n z w).0

module _ {Z : Type 0} where
  pub next_byte-IsTotal : IsTotal (next_byte {Z = Z})
  unfolding next_byte
  next_byte-IsTotal = record { finished = λ t. ends t t.input }
    where
      ends :
          (t : Tight Z) (bs : List ℕ)
          → IsFinished {A = ℕ}
              (elim bs as (λ x. Result ℕ × Tight Z) [
                | [] ↦ (err eof, t)
                | b ∷ cs ↦ (ok b, record t { input = cs })
              ]).0
      ends t [] = tt
      ends t (b ∷ bs) = tt

  pub step-IsTotal : (f : Tight Z → Tight Z) → IsTotal (modify f)
  step-IsTotal f = record { finished = λ t. tt }

  pub gets-IsTotal : {A : Type 0} (f : Tight Z → A) → IsTotal (gets f)
  gets-IsTotal f = record { finished = λ t. tt }

  pub set_stream-IsTotal : (i : ℕ) (s : Stream Z) → IsTotal (set_stream i s)
  set_stream-IsTotal i s = record { finished = λ t. tt }

  always-IsTotal :
      (b : Bool) (m n : Exec (Tight Z) ℕ) → IsTotal m → IsTotal (if b || true then m else n)
  always-IsTotal true m n h = h
  always-IsTotal false m n h = h

  compact_length-IsTotal : (k x s : ℕ) → IsTotal (compact_length {Z = Z} (suc k) x s)
  unfolding compact_length
  compact_length-IsTotal zero x s = IsTotal-bind next_byte _ next_byte-IsTotal λ b.
      IsTotal-bind (count_bytes 1) _ (step-IsTotal _) λ _.
        always-IsTotal (ltb b 128) (pure (x + b * 2 ^ s))
          (compact_length zero (x + b % 128 * 2 ^ s) (s + 7)) (IsTotal-pure (x + b * 2 ^ s))
  compact_length-IsTotal (suc k) x s = IsTotal-bind next_byte _ next_byte-IsTotal λ b.
      IsTotal-bind (count_bytes 1) _ (step-IsTotal _) λ _.
        IsTotal-if (ltb b 128 || suc k == 0) _ _ (IsTotal-pure (x + b * 2 ^ s))
          (compact_length-IsTotal k (x + b % 128 * 2 ^ s) (s + 7))

  pub limited-IsTotal : (n : ℕ) → IsTotal (limited {Z = Z} n)
  unfolding limited
  limited-IsTotal n = record { finished = λ t. tt }

  stream_at-IsFinished : (o : Option (Stream Z)) → IsFinished (stream_at o)
  stream_at-IsFinished none = tt
  stream_at-IsFinished (some s) = tt

  get_stream-IsTotal : (i : ℕ) → IsTotal (get_stream {Z = Z} i)
  get_stream-IsTotal i = record { finished = λ t. stream_at-IsFinished (get_elem? t.streams i) }

  pub read_compact_length-IsTotal : IsTotal (read_compact_length {Z = Z})
  unfolding read_compact_length
  read_compact_length-IsTotal = compact_length-IsTotal 2 0 0

module _ {Z : Type 0} (zlib : Zlib Z) (fine : IsEnding zlib) where
  reader_of-IsFinished : (o : Option Z) → IsFinished (reader_of zlib o)
  reader_of-IsFinished none = tt
  reader_of-IsFinished (some z) = tt

  fill_stream-IsTotal : (i n : ℕ) → IsTotal (fill_stream zlib i n)
  unfolding fill_stream
  fill_stream-IsTotal i n = IsTotal-bind (get_stream i) _ (get_stream-IsTotal i) λ s.
      IsTotal-bind (limited n) _ (limited-IsTotal n) λ compressed.
        IsTotal-bind (gets (λ t. t.reset)) _ (gets-IsTotal (λ t. t.reset))
          λ reset. set_stream-IsTotal i _

  opened-IsTotal :
      (i : ℕ) (s : Stream Z) (o : Option Z) → s.reader ≡ o → IsTotal (open_with zlib i s o)
  opened-IsTotal i s (some z) e = IsTotal-pure z
  opened-IsTotal i s none e =
      IsTotal-bind (set_stream i (record s { waiting = (zlib.new_reader s.waiting).1 })) _
        (set_stream-IsTotal i _)
        λ _.
          IsTotal-bind (lift (zlib.new_reader s.waiting).0) _
            (IsTotal-lift _ (fine.opens s.waiting))
            λ z.
              IsTotal-bind
                (set_stream i (record { reader = some z; waiting = (zlib.new_reader s.waiting).1 }))
                _ (set_stream-IsTotal i _) λ _. IsTotal-pure z

  open_stream-IsTotal : (i : ℕ) → IsTotal (open_stream zlib i)
  unfolding open_stream
  open_stream-IsTotal i =
      IsTotal-bind (get_stream i) _ (get_stream-IsTotal i) λ s. opened-IsTotal i s s.reader refl

  reset_stream-IsTotal : (i : ℕ) (z : Z) → IsTotal (reset_stream zlib i z)
  unfolding reset_stream
  reset_stream-IsTotal i z = IsTotal-bind (get_stream i) _ (get_stream-IsTotal i) λ s.
      IsTotal-bind
        (set_stream i (record {
          reader = some (zlib.reset z s.waiting).0;
          waiting = (zlib.reset z s.waiting).1;
        }))
        _ (set_stream-IsTotal i _)
        λ _. step-IsTotal (λ t. record t { reset = t.reset - bit_and t.reset (2 ^ i) })

  pub basic_compression_reader-IsTotal :
      (size i : ℕ) → IsTotal (basic_compression_reader zlib size i)
  unfolding basic_compression_reader
  basic_compression_reader-IsTotal size i =
      IsTotal-if (ltb size 12) _ _ (IsTotal-pure (direct size)) (
        IsTotal-bind read_compact_length _ read_compact_length-IsTotal λ n.
          IsTotal-bind (count_bytes n) _ (step-IsTotal _) λ _.
            IsTotal-bind (fill_stream zlib i n) _ (fill_stream-IsTotal i n) λ _.
              IsTotal-bind (open_stream zlib i) _ (open_stream-IsTotal i) λ z.
                IsTotal-bind (gets (λ t. t.reset)) _ (gets-IsTotal (λ t. t.reset)) λ reset.
                  IsTotal-bind (if is_reset reset i then reset_stream zlib i z else pure tt) _
                    (IsTotal-if (is_reset reset i) _ _ (reset_stream-IsTotal i z) (IsTotal-pure tt))
                    λ _. IsTotal-pure (stream i))

  pub read_source-IsTotal : (src : Source) (n : ℕ) → IsTotal (read_source zlib src n)
  unfolding read_source
  read_source-IsTotal (direct limit) n = limited-IsTotal (min limit n)
  read_source-IsTotal (stream i) n = IsTotal-bind (get_stream i) _ (get_stream-IsTotal i) λ s.
      IsTotal-bind (lift (reader_of zlib s.reader)) _
        (IsTotal-lift _ (reader_of-IsFinished s.reader))
        λ z.
          IsTotal-bind
            (set_stream i (record {
              reader = some (zlib.read_up_to n z s.waiting).1.0;
              waiting = (zlib.read_up_to n z s.waiting).1.1;
            }))
            _ (set_stream-IsTotal i _) λ _. IsTotal-lift _ (fine.reads n z s.waiting)

  pub read_to_buf-IsTotal : (src : Source) (n : ℕ) → IsTotal (read_to_buf zlib src n)
  unfolding read_to_buf
  read_to_buf-IsTotal src n =
      IsTotal-bind (read_source zlib src n) _ (read_source-IsTotal src n) λ bytes. step-IsTotal _
