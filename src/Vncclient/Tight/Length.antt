-- ===== src/Vncclient/Tight/Length.antt =====
-- The compact lengths of the Tight encoding, as the comment of `readCompactLength` gives them.
use go_vncdriver.Common.{
  ◌⊎◌, ne→eqb, ℕ, suc, ◌+◌, ◌*◌, ◌/◌, ◌%◌, ◌^◌, ◌<◌, ◌≡◌, refl, ◌∙◌, List, [], ◌∷◌, ◌++◌, arith,
  length, ltb, if◌then◌else◌, Bool-cases, inl, inr, ltb→lt, lt→ltb, le→ltb,
}
use go_vncdriver.Common.Exec.{Result, ok}
use go_vncdriver.Vncclient.Tight.Streams.{Tight, next_byte, compact_length, read_compact_length}

-- Seven bits to a byte and eight in the third; a set top bit says that one more follows.
abbrev pub compact_bytes : ℕ → List ℕ
compact_bytes n =
    if ltb n 128
    then n ∷ []
    else if ltb n 16384
    then (n % 128 + 128) ∷ n / 128 ∷ []
    else (n % 128 + 128) ∷ (n / 128 % 128 + 128) ∷ n / 16384 ∷ []

module _ {Z : Type 0} where
  -- The state behind bytes that were taken off the connection and counted.
  abbrev pub past : Tight Z → List ℕ → ℕ → Tight Z
  past t rest n = record t { input = rest; size = t.size + n }

  pub next_byte_lem :
      (t : Tight Z) (b : ℕ) (bs : List ℕ)
      → t.input ≡ b ∷ bs
      → next_byte t ≡ (ok b, record t { input = bs })
  unfolding next_byte
  next_byte_lem t b bs h = rw h

  last_byte :
      (t : Tight Z) (k x s b : ℕ) (rest : List ℕ)
      → (b < 128) ⊎ (k ≡ 0)
      → t.input ≡ b ∷ rest
      → compact_length (suc k) x s t ≡ (ok (x + b * 2 ^ s), past t rest 1)
  unfolding compact_length
  last_byte t k x s b rest (inl h) e = rw (next_byte_lem t b rest e) (rw (lt→ltb b 128 h))
  last_byte t k x s b rest (inr h) e =
      rw (next_byte_lem t b rest e, h)
        (elim (Bool-cases (ltb b 128)) [ inl small ↦ rw small | inr large ↦ rw large ])

  more_byte :
      (t : Tight Z) (k x s b : ℕ) (rest : List ℕ)
      → b < 128
      → t.input ≡ (b + 128) ∷ rest
      → compact_length (suc (suc k)) x s t
        ≡ compact_length (suc k) (x + b * 2 ^ s) (s + 7) (past t rest 1)
  unfolding compact_length
  more_byte t k x s b rest h e =
      rw (next_byte_lem t (b + 128) rest e)
        (rw (le→ltb (b + 128) 128 (omega arith), ne→eqb (suc k) 0 (omega arith), low))
    where
      low : (b + 128) % 128 ≡ b
      low = omega arith

  -- The same result, with the number and the count as they are meant.
  same :
      (t : Tight Z) (rest : List ℕ) (m n k l : ℕ)
      → m ≡ n
      → k ≡ l
      → ◌≡◌ {A = Result ℕ × Tight Z}
          (ok m, record t { input = rest; size = k })
          (ok n, record t { input = rest; size = l })
  same t rest m n k l e h = rw (e, h)

  one_byte :
      (t : Tight Z) (n : ℕ) (rest : List ℕ)
      → n < 128
      → t.input ≡ n ∷ rest
      → read_compact_length t ≡ (ok n, past t rest 1)
  unfolding read_compact_length
  one_byte t n rest h e =
      last_byte t 2 0 0 n rest (inl h) e
      ∙ same t rest (0 + n * 1) n (t.size + 1) (t.size + 1) (omega arith) refl

  two_bytes :
      (t : Tight Z) (a b : ℕ) (rest : List ℕ)
      → a < 128
      → b < 128
      → t.input ≡ (a + 128) ∷ b ∷ rest
      → read_compact_length t ≡ (ok (a + b * 128), past t rest 2)
  unfolding read_compact_length
  two_bytes t a b rest ha hb e =
      more_byte t 1 0 0 a (b ∷ rest) ha e
      ∙ last_byte (past t (b ∷ rest) 1) 1 (0 + a * 1) 7 b rest (inl hb) refl
      ∙ same t rest (0 + a * 1 + b * 2 ^ 7) (a + b * 128) (t.size + 1 + 1) (t.size + 2)
          (omega arith) (omega arith)

  three_bytes :
      (t : Tight Z) (a b c : ℕ) (rest : List ℕ)
      → a < 128
      → b < 128
      → t.input ≡ (a + 128) ∷ (b + 128) ∷ c ∷ rest
      → read_compact_length t ≡ (ok (a + b * 128 + c * 16384), past t rest 3)
  unfolding read_compact_length
  three_bytes t a b c rest ha hb e =
      more_byte t 1 0 0 a ((b + 128) ∷ c ∷ rest) ha e
      ∙ more_byte (past t ((b + 128) ∷ c ∷ rest) 1) 0 (0 + a * 1) 7 b (c ∷ rest) hb refl
      ∙ last_byte (past (past t ((b + 128) ∷ c ∷ rest) 1) (c ∷ rest) 1) 0 (0 + a * 1 + b * 2 ^ 7) 14
          c rest (inr refl) refl
      ∙ same t rest (0 + a * 1 + b * 2 ^ 7 + c * 2 ^ 14) (a + b * 128 + c * 16384)
          (t.size + 1 + 1 + 1) (t.size + 3) (omega arith) (omega arith)

  -- A length below 2 ^ 22 that was written in its compact form is read back: its bytes are taken and
  -- counted, and nothing behind them.
  pub read_compact_length-compact_bytes :
      (t : Tight Z) (n : ℕ) (rest : List ℕ)
      → n < 4194304
      → t.input ≡ compact_bytes n ++ rest
      → read_compact_length t ≡ (ok n, past t rest (length (compact_bytes n)))
  read_compact_length-compact_bytes t n rest h e = elim (Bool-cases (ltb n 128)) [
    | inl one ↦ rw one (one_byte t n rest (ltb→lt n 128 one) (rw one at e))
    | inr more ↦ elim (Bool-cases (ltb n 16384)) [
      | inl two ↦
          rw (more, two)
            (two_bytes t (n % 128) (n / 128) rest (omega arith) (omega (arith, ltb→lt n 16384 two))
                (rw (more, two) at e)
              ∙ same t rest (n % 128 + n / 128 * 128) n (t.size + 2) (t.size + 2) (omega arith)
                  refl)
      | inr three ↦
          rw (more, three)
            (three_bytes t (n % 128) (n / 128 % 128) (n / 16384) rest (omega arith) (omega arith)
                (rw (more, three) at e)
              ∙ same t rest (n % 128 + n / 128 % 128 * 128 + n / 16384 * 16384) n (t.size + 3)
                  (t.size + 3) (omega arith) refl)
    ]
  ]
