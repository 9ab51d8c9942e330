-- ===== src/Gymvnc/Config.antt =====
-- `VNCSessionConfig` of gymvnc/gymvnc.go, and how `NewVNCSession` corrects it. An int that may be
-- negative is an integer.
use go_vncdriver.Common.{
  ℕ, zero, suc, ◌≤◌, ◌≡◌, ◌≢◌, inl, inr, refl, List, [], ◌∷◌, arith, ltb, if◌then◌else◌, Bool-cases,
  ltb→le, le→ltb, ltb→lt, min, ap,
}

pub data ℤ : Type 0 where
  pos negsuc : ℕ → ℤ

-- The fields that `NewVNCSession` looks at; an encoding is the bytes of its name.
pub record VncSessionConfig : Type 0 where
  pub encoding : List ℕ
  pub quality_level : ℤ
  pub compress_level : ℤ
  pub fine_quality_level : ℤ
  pub subsample_level : ℤ

-- One of the four chains of ifs: -1 stands for no level, and stays.
unfoldable pub correct_level : ℕ → ℤ → ℤ
correct_level most (negsuc zero) = negsuc zero
correct_level most (negsuc (suc n)) = pos 0
correct_level most (pos n) = if ltb most n then pos most else pos n

-- "tight"
abbrev pub tight_name : List ℕ
tight_name = 116 ∷ 105 ∷ 103 ∷ 104 ∷ 116 ∷ []

unfoldable pub default_encoding : List ℕ → List ℕ
default_encoding [] = tight_name
default_encoding (c ∷ cs) = c ∷ cs

unfoldable pub correct_config : VncSessionConfig → VncSessionConfig
correct_config c = record {
  encoding = default_encoding c.encoding;
  quality_level = correct_level 9 c.quality_level;
  compress_level = correct_level 9 c.compress_level;
  fine_quality_level = correct_level 100 c.fine_quality_level;
  subsample_level = correct_level 3 c.subsample_level;
}

-- A level from 0 to `most`, or -1.
abbrev pub IsLevel : ℕ → ℤ → Type 0
IsLevel most (pos n) = n ≤ most
IsLevel most (negsuc n) = n ≡ 0

-- What the rest of the session relies on.
pub record IsCorrect (c : VncSessionConfig) : Type 0 where
  pub named : c.encoding ≢ []
  pub quality : IsLevel 9 c.quality_level
  pub compress : IsLevel 9 c.compress_level
  pub fine_quality : IsLevel 100 c.fine_quality_level
  pub subsample : IsLevel 3 c.subsample_level

correct_level-IsLevel : (most : ℕ) (l : ℤ) → IsLevel most (correct_level most l)
unfolding correct_level
correct_level-IsLevel most (negsuc zero) = refl
correct_level-IsLevel most (negsuc (suc n)) = omega arith
correct_level-IsLevel most (pos n) = elim (Bool-cases (ltb most n)) [
  | inl over ↦ rw over (omega arith)
  | inr fine ↦ rw fine (ltb→le most n fine)
]

correct_level-keeps : (most : ℕ) (l : ℤ) → IsLevel most l → correct_level most l ≡ l
unfolding correct_level
correct_level-keeps most (negsuc zero) h = refl
correct_level-keeps most (negsuc (suc n)) h = absurd (omega arith)
correct_level-keeps most (pos n) h = rw (le→ltb most n h)

default_encoding-named : (e : List ℕ) → default_encoding e ≢ []
unfolding default_encoding
default_encoding-named [] = λ h. cc
default_encoding-named (c ∷ cs) = λ h. cc

default_encoding-keeps : (e : List ℕ) → e ≢ [] → default_encoding e ≡ e
unfolding default_encoding
default_encoding-keeps [] h = absurd (h refl)
default_encoding-keeps (c ∷ cs) h = refl

correct_config-keeps : (c : VncSessionConfig) → IsCorrect c → correct_config c ≡ c
unfolding correct_config
correct_config-keeps c h = rw (
  default_encoding-keeps c.encoding h.named,
  correct_level-keeps 9 c.quality_level h.quality,
  correct_level-keeps 9 c.compress_level h.compress,
  correct_level-keeps 100 c.fine_quality_level h.fine_quality,
  correct_level-keeps 3 c.subsample_level h.subsample,
)

correct_config-IsCorrect : (c : VncSessionConfig) → IsCorrect (correct_config c)
unfolding correct_config
correct_config-IsCorrect c = record {
  named = default_encoding-named c.encoding;
  quality = correct_level-IsLevel 9 c.quality_level;
  compress = correct_level-IsLevel 9 c.compress_level;
  fine_quality = correct_level-IsLevel 100 c.fine_quality_level;
  subsample = correct_level-IsLevel 3 c.subsample_level;
}

-- A level that is allowed stays, a higher one becomes the highest, and one below -1 becomes 0.
abbrev pub IsCorrection : (most : ℕ) → (level corrected : ℤ) → Type 0
IsCorrection most (pos n) corrected = corrected ≡ pos (min n most)
IsCorrection most (negsuc zero) corrected = corrected ≡ negsuc zero
IsCorrection most (negsuc (suc n)) corrected = corrected ≡ pos 0

-- An encoding that is named stays, and otherwise it is "tight".
abbrev pub IsChosen : (name chosen : List ℕ) → Type 0
IsChosen [] chosen = chosen ≡ tight_name
IsChosen (c ∷ cs) chosen = chosen ≡ c ∷ cs

pub record AreCorrections (c corrected : VncSessionConfig) : Type 0 where
  pub chosen : IsChosen c.encoding corrected.encoding
  pub quality : IsCorrection 9 c.quality_level corrected.quality_level
  pub compress : IsCorrection 9 c.compress_level corrected.compress_level
  pub fine_quality : IsCorrection 100 c.fine_quality_level corrected.fine_quality_level
  pub subsample : IsCorrection 3 c.subsample_level corrected.subsample_level

correct_level-IsCorrection : (most : ℕ) (l : ℤ) → IsCorrection most l (correct_level most l)
unfolding correct_level
correct_level-IsCorrection most (pos n) = elim (Bool-cases (ltb most n)) [
  | inl over ↦ rw over (ap pos (omega (arith, ltb→lt most n over)))
  | inr fine ↦ rw fine (ap pos (omega (arith, ltb→le most n fine)))
]
correct_level-IsCorrection most (negsuc zero) = refl
correct_level-IsCorrection most (negsuc (suc n)) = refl

default_encoding-IsChosen : (e : List ℕ) → IsChosen e (default_encoding e)
unfolding default_encoding
default_encoding-IsChosen [] = refl
default_encoding-IsChosen (c ∷ cs) = refl

correct_config-AreCorrections : (c : VncSessionConfig) → AreCorrections c (correct_config c)
unfolding correct_config
correct_config-AreCorrections c = record {
  chosen = default_encoding-IsChosen c.encoding;
  quality = correct_level-IsCorrection 9 c.quality_level;
  compress = correct_level-IsCorrection 9 c.compress_level;
  fine_quality = correct_level-IsCorrection 100 c.fine_quality_level;
  subsample = correct_level-IsCorrection 3 c.subsample_level;
}

-- The configuration of a new session has an encoding's name, "tight" where none was given and else the
-- one given, and each of its levels is -1 or in its range: a level that was allowed is as it was, one
-- above the range is the highest, and one below -1 is 0. Correcting it once more changes nothing.
pub correct_config_lem :
    (c : VncSessionConfig)
    → AreCorrections c (correct_config c)
      × IsCorrect (correct_config c)
      × (correct_config (correct_config c) ≡ correct_config c)
correct_config_lem c = (
  correct_config-AreCorrections c,
  correct_config-IsCorrect c,
  correct_config-keeps (correct_config c) (correct_config-IsCorrect c),
)
