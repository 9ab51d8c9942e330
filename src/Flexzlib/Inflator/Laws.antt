-- ===== src/Flexzlib/Inflator/Laws.antt =====
-- What `Inflate` of flexzlib/inflator.go makes of a stream that comes in pieces.
use go_vncdriver.Common.{
  ℕ, zero, suc, ◌+◌, ◌<◌, ◌≡◌, refl, sym, ap, ◌∙◌, true, false, List, [], ◌∷◌, ◌++◌, append_assoc,
  Option, none, some, length, length-append, arith,
}
use go_vncdriver.Common.Exec.{Error, ok, err, eof, unexpected_eof, invalid_header}
use go_vncdriver.Vncclient.Wire.{read_full}
use go_vncdriver.Vncclient.Wire.Laws.{read_full-append}
use go_vncdriver.Flexzlib.{
  Flate, Reader, as_eof, is_header, has_dictionary, new_zlib_reader, swap_reader, reset_reader,
  check_dictionary, new_reader_dict, read, keep_error,
}
use go_vncdriver.Flexzlib.Inflator.{read_all, inflate}

module _ {D : Type 0} (flate : Flate D) (room : ℕ → ℕ) where
  -- `Delivers rounds got d src bs d' src'`: called again and again, the decompressor `d` makes `bs` of
  -- the bytes `src` and ends with the file's end, expected or not; then it is `d'`, and `src'` is left.
  -- `got` bytes were delivered before.
  pub data Delivers : ℕ → (got : ℕ) → D → List ℕ → List ℕ → D → List ℕ → Type 0 where
    last :
        (got : ℕ) (d d' : D) (src src' bs : List ℕ) (e : Option Error)
        → flate.read (room got) d src ≡ ((bs, e), (d', src'))
        → as_eof e ≡ some eof
        → Delivers zero got d src bs d' src'
    more :
        (rounds got : ℕ) (d d1 d' : D) (src src1 src' bs cs : List ℕ)
        → flate.read (room got) d src ≡ ((bs, none), (d1, src1))
        → Delivers rounds (got + length bs) d1 src1 cs d' src'
        → Delivers (suc rounds) got d src (bs ++ cs) d' src'

  -- `ReadAll` offers room.
  module _ (roomy : (k : ℕ) → (n : ℕ) × (room k ≡ suc n)) where
    ready : D → List ℕ → Reader D
    ready d src = record { source = src; decompressor = some d; error = none }

    read_lem :
        (k : ℕ) (d d' : D) (src src' bs : List ℕ) (e : Option Error)
        → flate.read (room k) d src ≡ ((bs, e), (d', src'))
        → read flate (room k) (ready d src) ≡ (
          ok (bs, as_eof e),
          record { source = src'; decompressor = some d'; error = keep_error bs (as_eof e) none },
        )
    unfolding read ready
    read_lem k d d' src src' bs e h =
        let (n, e') = roomy k in
        ap (λ m. read flate m (ready d src)) e'
        ∙ ap
            (λ p.
              let ((xs, x), (q, rest)) = p in
              (
                ok (xs, as_eof x),
                record {
                  source = rest;
                  decompressor = some q;
                  error = keep_error xs (as_eof x) none;
                },
              ))
            (ap (λ m. flate.read m d src) (sym e') ∙ h)

    -- The reader is left behind the delivered bytes; it keeps perhaps the end of the file.
    abbrev Reads : ℕ → List ℕ → Reader D → List ℕ → D → List ℕ → Type 0
    Reads fuel before z bs d src =
        (e : Option Error) × (read_all flate room fuel before z
          ≡ (ok (before ++ bs), record { source = src; decompressor = some d; error = e }))

    keep_none : (bs : List ℕ) → keep_error bs none none ≡ none
    keep_none [] = refl
    keep_none (b ∷ bs) = refl

    read_all_last :
        (d d' : D) (src src' bs before : List ℕ) (fuel : ℕ) (e : Option Error)
        → flate.read (room (length before)) d src ≡ ((bs, e), (d', src'))
        → as_eof e ≡ some eof
        → Reads (suc fuel) before (ready d src) bs d' src'
    unfolding read_all
    read_all_last d d' src src' bs before fuel e h k = (
      keep_error bs (as_eof e) none,
      rw (read_lem (length before) d d' src src' bs e h) (rw k refl),
    )

    read_all_more :
        (d d1 d' : D) (src src1 src' bs cs before : List ℕ) (fuel : ℕ)
        → flate.read (room (length before)) d src ≡ ((bs, none), (d1, src1))
        → Reads fuel (before ++ bs) (ready d1 src1) cs d' src'
        → Reads (suc fuel) before (ready d src) (bs ++ cs) d' src'
    unfolding read_all ready
    read_all_more d d1 d' src src1 src' bs cs before fuel h (e, ih) = (
      e,
      rw (read_lem (length before) d d1 src src1 bs none h)
          (rw (keep_none bs) (rw ih (rw (append_assoc before bs cs)))),
    )

    read_all_lem :
        (rounds got : ℕ) (d d' : D) (src src' bs before : List ℕ) (fuel : ℕ)
        → Delivers rounds got d src bs d' src'
        → length before ≡ got
        → rounds < fuel
        → Reads fuel before (ready d src) bs d' src'
    read_all_lem _ _ d d' src src' bs before zero (last got _ _ _ _ _ e h k) len enough =
        absurd (omega arith)
    read_all_lem _ _ d d' src src' bs before (suc fuel) (last got _ _ _ _ _ e h k) len enough =
        read_all_last d d' src src' bs before fuel e (ap (λ n. flate.read (room n) d src) len ∙ h) k
    read_all_lem _ _ d d' src src' _ before zero (more rounds got _ d1 _ _ src1 _ bs cs h rest) len
          enough =
        absurd (omega arith)
    read_all_lem _ _ d d' src src' _ before (suc fuel)
          (more rounds got _ d1 _ _ src1 _ bs cs h rest) len enough =
        read_all_more d d1 d' src src1 src' bs cs before fuel
          (ap (λ n. flate.read (room n) d src) len ∙ h)
          (read_all_lem rounds (got + length bs) d1 d' src1 src' cs (before ++ bs) fuel rest
            (length-append before bs ∙ ap (λ n. n + length bs) len) (omega arith))

    -- A later piece of a stream: `Inflate` gives what the decompressor that `SwapReader` makes of the last
    -- one delivers for the piece, whatever error the reader has kept; no header is expected, no new
    -- decompressor is made, and an end in the middle of a block is no error.
    pub inflate_next :
        (rounds : ℕ) (d d' : D) (old : List ℕ) (kept : Option Error) (p src' bs : List ℕ) (fuel : ℕ)
        → Delivers rounds 0 (flate.swap d) p bs d' src'
        → rounds < fuel
        → (e : Option Error) × (inflate flate room fuel p
              (some (record { source = old; decompressor = some d; error = kept }))
            ≡ (ok bs, some (record { source = src'; decompressor = some d'; error = e })))
    unfolding inflate swap_reader ready
    inflate_next rounds d d' old kept p src' bs fuel h enough =
        let (e, r) = read_all_lem rounds 0 (flate.swap d) d' p src' bs [] fuel h refl enough in
        (e, rw r refl)

    header_read :
        (cmf flg : ℕ) (body : List ℕ) → read_full 2 (cmf ∷ flg ∷ body) ≡ (ok (cmf ∷ flg ∷ []), body)
    header_read cmf flg body = read_full-append (cmf ∷ flg ∷ []) body (omega arith)

    reset_reader_lem :
        (cmf flg : ℕ) (body : List ℕ)
        → is_header cmf flg ≡ true
        → has_dictionary flg ≡ false
        → reset_reader flate (cmf ∷ flg ∷ body) [] new_zlib_reader
          ≡ (ok tt, ready flate.new_reader body)
    unfolding reset_reader swap_reader ready check_dictionary
    reset_reader_lem cmf flg body h k = rw (header_read cmf flg body) (rw h (rw k refl))

    -- The first piece of a stream, with a header that asks for no dictionary: `Inflate` gives what a new
    -- decompressor makes of the bytes behind the header.
    pub inflate_first :
        (rounds : ℕ) (d' : D) (cmf flg : ℕ) (body src' bs : List ℕ) (fuel : ℕ)
        → is_header cmf flg ≡ true
        → has_dictionary flg ≡ false
        → Delivers rounds 0 flate.new_reader body bs d' src'
        → rounds < fuel
        → (e : Option Error) × (inflate flate room fuel (cmf ∷ flg ∷ body) none
            ≡ (ok bs, some (record { source = src'; decompressor = some d'; error = e })))
    unfolding inflate new_reader_dict
    inflate_first rounds d' cmf flg body src' bs fuel h k delivers enough =
        let (e, r) =
          read_all_lem rounds 0 flate.new_reader d' body src' bs [] fuel delivers refl enough in
        (e, rw (reset_reader_lem cmf flg body h k) (rw r refl))

  refused :
      (cmf flg : ℕ) (body : List ℕ)
      → is_header cmf flg ≡ false
      → (reset_reader flate (cmf ∷ flg ∷ body) [] new_zlib_reader).0 ≡ err invalid_header
  unfolding reset_reader swap_reader
  refused cmf flg body h = rw (read_full-append (cmf ∷ flg ∷ []) body (omega arith)) (rw h refl)

  short_header :
      (b : ℕ)
      → ((reset_reader flate [] [] new_zlib_reader).0 ≡ err eof)
        × ((reset_reader flate (b ∷ []) [] new_zlib_reader).0 ≡ err unexpected_eof)
  unfolding reset_reader swap_reader read_full
  short_header b = (refl, refl)

  -- The first piece of a stream without a whole header, or with a wrong one: `Inflate` returns an error,
  -- and the next piece is taken for the first one again.
  pub inflate_refused :
      (cmf flg : ℕ) (body : List ℕ) (fuel : ℕ)
      → is_header cmf flg ≡ false
      → (inflate flate room fuel [] none ≡ (err eof, none))
        × (inflate flate room fuel (cmf ∷ []) none ≡ (err unexpected_eof, none))
        × (inflate flate room fuel (cmf ∷ flg ∷ body) none ≡ (err invalid_header, none))
  unfolding inflate new_reader_dict
  inflate_refused cmf flg body fuel h =
      (rw (short_header cmf).0 refl, rw (short_header cmf).1 refl, rw (refused cmf flg body h) refl)
