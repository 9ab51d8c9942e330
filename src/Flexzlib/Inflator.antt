-- ===== src/Flexzlib/Inflator.antt =====
-- flexzlib/inflator.go. `ioutil.ReadAll` of the standard library calls `Read` until an error, and
-- offers room for `room k` bytes when it has got `k`.
pub mod Laws
use go_vncdriver.Common.{
  ℕ, zero, suc, List, [], ◌∷◌, ◌++◌, Option, none, some, length, if◌then◌else◌,
}
use go_vncdriver.Common.Exec.{
  Exec, Result, Error, ok, err, panic, stuck, eof, nil_dereference, lift, pure, raise, ◌>>=◌, ◌>>◌,
}
use go_vncdriver.Flexzlib.{Flate, Reader, swap_reader, new_reader, read, is_eof}

-- The field `r` of an `Inflator`, which is nil at first.
abbrev pub Inflator : Type 0 → Type 0
Inflator D = Option (Reader D)

module _ {D : Type 0} (flate : Flate D) (room : ℕ → ℕ) where
  -- What a round of `ReadAll` makes of the error; `rest` is the next round.
  abbrev pub after_read :
      List ℕ → Option Error → Exec (Reader D) (List ℕ) → Exec (Reader D) (List ℕ)
  after_read got none rest = rest
  after_read got (some e) rest = if is_eof (some e) then pure got else raise e

  unfoldable pub read_all : ℕ → List ℕ → Exec (Reader D) (List ℕ)
  read_all zero got = lift stuck
  read_all (suc fuel) got = do
    (bytes, e) ← read flate (room (length got))
    after_read (got ++ bytes) e (read_all fuel (got ++ bytes))

  -- The last lines of `Inflate`, with the reader in its place.
  abbrev pub read_on : ℕ → Reader D → Exec (Inflator D) (List ℕ)
  read_on fuel z i = ((read_all fuel [] z).0, some (read_all fuel [] z).1)

  abbrev pub opened : ℕ → Result (Reader D) → Exec (Inflator D) (List ℕ)
  opened fuel (ok z) i = read_on fuel z i
  opened fuel (err e) i = (err e, i)
  opened fuel (panic x) i = (panic x, i)
  opened fuel stuck i = (stuck, i)

  -- The reader is made when there are the first bytes, and later gets the new ones.
  unfoldable pub inflate : ℕ → List ℕ → Exec (Inflator D) (List ℕ)
  inflate fuel p none = opened fuel (new_reader flate p) none
  inflate fuel p (some z) = read_on fuel (swap_reader flate p z).1 (some z)

  -- `Read` of an `Inflator`.
  unfoldable pub inflator_read : ℕ → Exec (Inflator D) (List ℕ × Option Error)
  inflator_read n none = (panic nil_dereference, none)
  inflator_read n (some z) = ((read flate n z).0, some (read flate n z).1)
