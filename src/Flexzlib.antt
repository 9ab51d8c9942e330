-- ===== src/Flexzlib.antt =====
-- flexzlib/reader.go and inflator.go, over the decompressor of package flexflate. The checksum of the
-- bytes is computed and never looked at, so it is left out.
pub mod Inflator
use go_vncdriver.Common.{
  ℕ, zero, suc, ◌+◌, ◌*◌, ◌/◌, ◌%◌, Bool, true, false, not, ◌||◌, List, [], ◌∷◌, ◌++◌, Option, none,
  some, ◌==◌, if◌then◌else◌, length,
}
use go_vncdriver.Common.Exec.{
  Exec, Result, Error, ok, err, panic, stuck, eof, unexpected_eof, invalid_header,
  invalid_dictionary, nil_dereference, pure, raise, lift, gets, modify, guard, ◌>>=◌, ◌>>◌,
}
use go_vncdriver.Vncclient.Wire.{read_full}

-- Package flexflate, and adler32.Checksum: the constructors; what `SwapReader` and `Reset` leave of
-- a decompressor; the bytes and the error of one call of `Read` that offers room for so many, with
-- the bytes of the reader that are left; and the error of `Close`.
pub record Flate (D : Type 0) : Type 0 where
  pub new_reader : D
  pub new_reader_dict : List ℕ → D
  pub swap : D → D
  pub reset : List ℕ → D → D
  pub read : ℕ → D → List ℕ → (List ℕ × Option Error) × (D × List ℕ)
  pub close : D → Option Error
  pub checksum : List ℕ → ℕ

-- `source` is the reader `z.r`, the bytes to come.
pub record Reader (D : Type 0) : Type 0 where
  pub source : List ℕ
  pub decompressor : Option D
  pub error : Option Error

-- `if err == io.ErrUnexpectedEOF { err = io.EOF }`
abbrev pub as_eof : Option Error → Option Error
as_eof (some unexpected_eof) = some eof
as_eof e = e

abbrev pub is_eof : Option Error → Bool
is_eof (some eof) = true
is_eof e = false

-- `n != 0 || err != io.EOF`
abbrev pub is_kept : List ℕ → Option Error → Bool
is_kept [] e = not (is_eof e)
is_kept (b ∷ bs) e = true

-- The two bytes of a header: the method is deflate, and the check bits are right.
unfoldable pub is_header : (cmf flg : ℕ) → Bool
is_header cmf flg = not (not (cmf % 16 == 8) || not ((cmf * 256 + flg) % 31 == 0))

-- The bit FDICT.
abbrev pub has_dictionary : ℕ → Bool
has_dictionary flg = flg / 32 % 2 == 1

-- A big-endian number of four bytes.
abbrev pub number_of : List ℕ → ℕ
number_of (a ∷ b ∷ c ∷ d ∷ rest) = a * 16777216 + b * 65536 + c * 256 + d
number_of _ = 0

abbrev pub first_byte : List ℕ → ℕ
first_byte [] = 0
first_byte (b ∷ bs) = b

abbrev pub second_byte : List ℕ → ℕ
second_byte [] = 0
second_byte (b ∷ bs) = first_byte bs

abbrev pub new_zlib_reader : {D : Type 0} → Reader D
new_zlib_reader = record { source = []; decompressor = none; error = none }

-- The error of a call of `Read` is kept, unless it is the end of the file without a byte.
abbrev pub keep_error : List ℕ → Option Error → Option Error → Option Error
keep_error bs e before = if is_kept bs e then e else before

module _ {D : Type 0} where
  -- `io.ReadFull(z.r, …)`
  abbrev pub on_source : Exec (List ℕ) (List ℕ) → Exec (Reader D) (List ℕ)
  on_source m z = ((m z.source).0, record z { source = (m z.source).1 })

abbrev pub created : {D : Type 0} → Result (Unit {0}) → Reader D → Result (Reader D)
created (ok a) z = ok z
created (err e) z = err e
created (panic x) z = panic x
created stuck z = stuck

module _ {D : Type 0} (flate : Flate D) where
  abbrev pub swapped : Option D → Option D
  swapped none = none
  swapped (some d) = some (flate.swap d)

  unfoldable pub swap_reader : List ℕ → Exec (Reader D) (Unit {0})
  swap_reader r =
      modify (λ z. record z { source = r; decompressor = swapped z.decompressor; error = none })

  unfoldable pub check_dictionary : Bool → List ℕ → Exec (Reader D) (Unit {0})
  check_dictionary false dict = pure tt
  check_dictionary true dict = do
    sum ← on_source (read_full 4)
    guard (number_of sum == flate.checksum dict) invalid_dictionary

  abbrev pub started : Option D → Bool → List ℕ → D
  started none true dict = flate.new_reader_dict dict
  started none false dict = flate.new_reader
  started (some d) have_dict dict = flate.reset dict d

  -- `Reset`
  unfoldable pub reset_reader : List ℕ → List ℕ → Exec (Reader D) (Unit {0})
  reset_reader r dict = do
    swap_reader r
    header ← on_source (read_full 2)
    guard (is_header (first_byte header) (second_byte header)) invalid_header
    check_dictionary (has_dictionary (second_byte header)) dict
    modify (λ z. record z {
      decompressor = some (started z.decompressor (has_dictionary (second_byte header)) dict);
    })

  -- `NewReaderDict`
  unfoldable pub new_reader_dict : List ℕ → List ℕ → Result (Reader D)
  new_reader_dict r dict = let (result, z) = reset_reader r dict new_zlib_reader in created result z

  -- `NewReader`: no dictionary.
  abbrev pub new_reader : List ℕ → Result (Reader D)
  new_reader r = new_reader_dict r []

  abbrev pub read_from : Option D → ℕ → Exec (Reader D) (List ℕ × Option Error)
  read_from none n z = (panic nil_dereference, z)
  read_from (some d) n z =
      let ((bs, e), (d', rest)) = flate.read n d z.source in
      (
        ok (bs, as_eof e),
        record { source = rest; decompressor = some d'; error = keep_error bs (as_eof e) z.error },
      )

  abbrev pub read_unless : Option Error → ℕ → Exec (Reader D) (List ℕ × Option Error)
  read_unless (some e) n z = (ok ([], some e), z)
  read_unless none zero z = (ok ([], none), z)
  read_unless none (suc n) z = read_from z.decompressor (suc n) z

  -- `Read` with a slice of `n` bytes.
  unfoldable pub read : ℕ → Exec (Reader D) (List ℕ × Option Error)
  read n z = read_unless z.error n z

  abbrev pub close_from : Option Error → Option D → Exec (Reader D) (Option Error)
  close_from (some e) d z = (ok (some e), z)
  close_from none none z = (panic nil_dereference, z)
  close_from none (some d) z = (ok (flate.close d), record z { error = flate.close d })

  unfoldable pub close : Exec (Reader D) (Option Error)
  close z = close_from z.error z.decompressor z
