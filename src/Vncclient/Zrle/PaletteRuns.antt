-- ===== src/Vncclient/Zrle/PaletteRuns.antt =====
-- The palette RLE loop of `parseTile` reads back what the format writes.
use go_vncdriver.Common.{
  ℕ, zero, suc, ◌+◌, ◌*◌, ◌/◌, ◌≤◌, ◌<◌, ◌≡◌, refl, sym, ap, ◌∙◌, List, [], ◌∷◌, ◌++◌, arith,
  length, replicate, All, copy_at, index, ◌==◌, le→ltb, lt→ltb, ne→eqb, eq→eqb, Bool-cases, inl,
  inr, ==_iff, length-copy_at, copy_at-nil, bit_and,
}
use go_vncdriver.Common.Bits.{bit_and-127, bit_and-128}
use go_vncdriver.Common.Exec.{Exec, ok, pure, lift, ◌>>=◌}
use go_vncdriver.Vncclient.Color.{Color}
use go_vncdriver.Vncclient.QuickBuf.{QuickBuf, read_byte}
use go_vncdriver.Vncclient.QuickBuf.Laws.{
  Reads, Reads-pure, Reads-bind, Reads-read_byte_bind, Reads-lift_bind, Reads-eq,
}
use go_vncdriver.Vncclient.Fill.{fill_run}
use go_vncdriver.Vncclient.Fill.Laws.{fill_run_lem}
use go_vncdriver.Vncclient.Zrle.Tile.{read_run_length, palette_run, palette_runs}
use go_vncdriver.Vncclient.Zrle.Format.{
  run_bytes, palette_run_bytes, palette_bytes, palette_pixels, IsPaletteRun, entry,
}
use go_vncdriver.Vncclient.Zrle.Runs.{Reads-read_run_length, run_then, length-run_then}

pub index-entry :
    (palette : List Color) (i : ℕ) → i < length palette → index palette i ≡ ok (entry palette i)
index-entry [] i h = absurd (omega arith)
index-entry (c ∷ cs) zero h = refl
index-entry (c ∷ cs) (suc i) h = index-entry cs i (omega arith)

palette_run_bare : (i : ℕ) → i < 128 → palette_run i ≡ pure 1
unfolding palette_run
palette_run_bare i h =
    rw (bit_and-128 i (omega arith)) (rw (eq→eqb (i / 128 * 128) 0 (omega arith)))

palette_run_long : (i : ℕ) → i < 128 → palette_run (i + 128) ≡ read_run_length
unfolding palette_run
palette_run_long i h =
    rw (bit_and-128 (i + 128) (omega arith)) (rw (ne→eqb ((i + 128) / 128 * 128) 0 (omega arith)))

module _ (palette : List Color) (small : length palette ≤ 127) {A : Type 0} where
  abbrev run_tail : (ℕ → Color → Exec QuickBuf A) → ℕ → Exec QuickBuf A
  run_tail rest b = do count ← palette_run b; v ← lift (index palette (bit_and b 127)); rest count v

  module _ (rest : ℕ → Color → Exec QuickBuf A) (i k : ℕ) (cs : List ℕ) {a : A}
      (hi : i < length palette) (h : Reads (rest k (entry palette i)) cs a) where
    entry_of :
        (b : ℕ) → bit_and b 127 ≡ i → Reads (lift (index palette (bit_and b 127)) >>= rest k) cs a
    entry_of b e =
        Reads-lift_bind (index palette (bit_and b 127)) (rest k) cs
          (ap (index palette) e ∙ index-entry palette i hi) h

    Reads-bare_run : k ≡ 1 → Reads (read_byte >>= run_tail rest) (i ∷ cs) a
    Reads-bare_run one = Reads-read_byte_bind (run_tail rest) i cs (
        rw (palette_run_bare i (omega arith), ← one)
          (entry_of i (bit_and-127 i (omega arith) ∙ omega arith)))

    Reads-long_run : 1 ≤ k → Reads (read_byte >>= run_tail rest) ((i + 128) ∷ (run_bytes k ++ cs)) a
    Reads-long_run hk = Reads-read_byte_bind (run_tail rest) (i + 128) (run_bytes k ++ cs) (
        rw (palette_run_long i (omega arith)) (
          Reads-bind read_run_length
            (λ count. lift (index palette (bit_and (i + 128) 127)) >>= rest count) (run_bytes k) cs
            (Reads-read_run_length k hk)
            (entry_of (i + 128) (bit_and-127 (i + 128) (omega arith) ∙ omega arith))))

    -- Both forms of a run: a bare index, and an index with the top bit set before a length.
    pub Reads-run_head : 1 ≤ k → Reads (read_byte >>= run_tail rest) (palette_run_bytes i k ++ cs) a
    Reads-run_head hk = elim (Bool-cases (k == 1)) [
      | inl one ↦ rw one (Reads-bare_run ((==_iff k 1).0 one))
      | inr more ↦ rw more (Reads-long_run hk)
    ]

module _ (palette : List Color) (small : length palette ≤ 127) where
  pub Reads-palette_runs :
      (rs : List (ℕ × ℕ)) (fuel n pos : ℕ) (mem : List Color)
      → All (IsPaletteRun (length palette)) rs
      → pos + length (palette_pixels palette rs) ≡ n
      → n ≤ length mem
      → n < fuel + pos
      → Reads
          (palette_runs palette fuel n pos mem)
          (palette_bytes rs)
          (copy_at mem pos (palette_pixels palette rs))
  unfolding palette_runs
  Reads-palette_runs rs zero n pos mem runs full fits enough = absurd (omega arith)
  Reads-palette_runs [] (suc fuel) n pos mem runs full fits enough =
      rw (le→ltb pos n (omega arith))
        (Reads-eq (pure mem) [] (sym (copy_at-nil mem pos)) (Reads-pure mem))
  Reads-palette_runs ((i, k) ∷ rs) (suc fuel) n pos mem (run, runs) full fits enough =
      rw (lt→ltb pos n (omega (arith, size))) (
        Reads-run_head palette small
          (λ count v. lift (fill_run mem pos count v) >>= palette_runs palette fuel n (pos + count))
          i k (palette_bytes rs) run.0
          (Reads-lift_bind (fill_run mem pos k c) (palette_runs palette fuel n (pos + k))
            (palette_bytes rs) (fill_run_lem c mem pos k (omega (arith, size)) run.1)
            (Reads-eq (palette_runs palette fuel n (pos + k) written) (palette_bytes rs)
              (run_then mem pos k c (palette_pixels palette rs))
              (Reads-palette_runs rs fuel n (pos + k) written runs (omega (arith, size))
                (omega (arith, length-copy_at mem pos (replicate k c))) (omega arith))))
          run.1)
    where
      c : Color
      c = entry palette i

      written : List Color
      written = copy_at mem pos (replicate k c)

      size : length (palette_pixels palette ((i, k) ∷ rs)) ≡ k + length (palette_pixels palette rs)
      size = length-run_then k c (palette_pixels palette rs)
