-- ===== src/Vncclient/Wire.antt =====
-- What vncclient uses of io.ReadFull, binary.Read and bytes.Buffer. A reader is the list of the
-- bytes that are still to come; its end is the end of the stream.
pub mod Laws
use go_vncdriver.Common.{
  ℕ, ◌-◌, List, [], ◌∷◌, ◌++◌, ltb, ◌==◌, if◌then◌else◌, length, take, drop, replicate,
}
use go_vncdriver.Common.Bytes.{of_be}
use go_vncdriver.Common.Exec.{
  Exec, Result, ok, err, panic, slice_out_of_range, eof, unexpected_eof, pure, ◌>>=◌,
}

-- A short stream is used up.
unfoldable pub read_full : ℕ → Exec (List ℕ) (List ℕ)
read_full n bs =
    if n == 0
    then (ok [], bs)
    else if length bs == 0
    then (err eof, bs)
    else if ltb (length bs) n
    then (err unexpected_eof, [])
    else (ok (take n bs), drop n bs)

-- `binary.Read` of an unsigned number of so many bytes, big endian.
unfoldable pub read_number : ℕ → Exec (List ℕ) ℕ
unfolding read_full
read_number n = do bs ← read_full n; pure (of_be 0 bs)

abbrev pub read_u8 : Exec (List ℕ) ℕ
read_u8 = read_number 1

abbrev pub read_u16 : Exec (List ℕ) ℕ
read_u16 = read_number 2

abbrev pub read_u32 : Exec (List ℕ) ℕ
read_u32 = read_number 4

-- `buf.Bytes()[0:n]` of a buffer with capacity `cap`: it may reach into the zeros behind what
-- was written.
unfoldable pub reslice : ℕ → List ℕ → ℕ → Result (List ℕ)
reslice cap bs n =
    if ltb cap n
    then panic slice_out_of_range
    else ok (take n (bs ++ replicate (cap - length bs) 0))
