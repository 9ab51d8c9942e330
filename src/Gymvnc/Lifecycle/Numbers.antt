-- ===== src/Gymvnc/Lifecycle/Numbers.antt =====
-- The pixel format and the numbers of the encodings that `connect` sends, written out.
use go_vncdriver.Common.Bytes.{u32}
use go_vncdriver.Common.{
  ◌+◌, ◌%◌, ◌⊎◌, inl, inr, ℕ, zero, suc, ◌≡◌, refl, ap, ◌∙◌, List, [], ◌∷◌, ◌++◌, map, arith,
}
use go_vncdriver.Common.Exec.{ok}
use go_vncdriver.Vncclient.Encoding.{
  Encoding, tight, zrle, raw, type_of, quality_level, compress_level, fine_quality_level,
  subsample_level,
}
use go_vncdriver.Vncclient.PixelFormat.{format_bytes, mask_bytes}
use go_vncdriver.Vncclient.PixelFormat.RoundTrip.{padding}
use go_vncdriver.Gymvnc.Config.{ℤ, pos, negsuc, VncSessionConfig, tight_name}
use go_vncdriver.Gymvnc.Lifecycle.{
  encoding_named, same_name, zrle_name, raw_name, u32_of, level_encoding, level_encodings,
  rgb_format,
}

-- The sixteen bytes of the format: 32 bits for a pixel, 24 of them used, little-endian, true colour,
-- and eight bits each for red, green and blue, from the lowest bit on.
abbrev pub rgb_bytes : List ℕ
rgb_bytes = 32 ∷ 24 ∷ 0 ∷ 1 ∷ 0 ∷ 255 ∷ 0 ∷ 255 ∷ 0 ∷ 255 ∷ 0 ∷ 8 ∷ 16 ∷ 0 ∷ 0 ∷ 0 ∷ []

pub rgb_bytes_lem : format_bytes rgb_format ++ padding rgb_format ≡ rgb_bytes
unfolding format_bytes mask_bytes
rgb_bytes_lem = refl

-- The number of a pseudo-encoding: the level, counted from that of level 0; none for the level -1.
abbrev pub level_number : ℕ → ℤ → List ℕ
level_number base (pos n) = u32 (base + n) ∷ []
level_number base (negsuc zero) = []
level_number base (negsuc (suc n)) = u32 (base + u32_of (negsuc (suc n))) ∷ []

-- -32, -256, -512 and -768 as int32.
abbrev pub level_numbers : VncSessionConfig → List ℕ
level_numbers c =
    level_number 4294967264 c.quality_level
    ++ (level_number 4294967040 c.compress_level
        ++ (level_number 4294966784 c.fine_quality_level
            ++ level_number 4294966528 c.subsample_level))

level_number_lem :
    (f : ℕ → Encoding) (base : ℕ) (l : ℤ)
    → ((n : ℕ) → type_of (f n) ≡ u32 (base + n))
    → map type_of (level_encoding f l) ≡ level_number base l
unfolding level_encoding
level_number_lem f base (pos n) h = ap (λ k. k ∷ []) (h (n % 4294967296) ∙ omega arith)
level_number_lem f base (negsuc zero) h = refl
level_number_lem f base (negsuc (suc n)) h = ap (λ k. k ∷ []) (h _)

map-append : {A B : Type 0} (f : A → B) (xs ys : List A) → map f (xs ++ ys) ≡ map f xs ++ map f ys
map-append f [] ys = refl
map-append f (x ∷ xs) ys = ap (λ l. f x ∷ l) (map-append f xs ys)

pub level_numbers_lem : (c : VncSessionConfig) → map type_of (level_encodings c) ≡ level_numbers c
unfolding level_encodings type_of
level_numbers_lem c = rw (map-append type_of (level_encoding quality_level c.quality_level) _) (
    rw (map-append type_of (level_encoding compress_level c.compress_level) _) (
      rw (map-append type_of (level_encoding fine_quality_level c.fine_quality_level) _) (
        rw
          (
            level_number_lem quality_level 4294967264 c.quality_level (λ n. refl),
            level_number_lem compress_level 4294967040 c.compress_level (λ n. refl),
            level_number_lem fine_quality_level 4294966784 c.fine_quality_level (λ n. refl),
            level_number_lem subsample_level 4294966528 c.subsample_level (λ n. refl),
          )
          refl)))

-- The encodings that a configuration can name, and their numbers.
abbrev pub IsNamed : List ℕ → Encoding → ℕ → Type 0
IsNamed name enc number =
    ((name ≡ tight_name) × (enc ≡ tight [] 0) × (number ≡ 7))
    ⊎ (((name ≡ zrle_name) × (enc ≡ zrle [] 0) × (number ≡ 16))
        ⊎ ((name ≡ raw_name) × (enc ≡ raw []) × (number ≡ 0)))

pub named_lem :
    (name : List ℕ) (enc : Encoding) (number : ℕ)
    → IsNamed name enc number
    → (encoding_named name ≡ ok enc) × (type_of enc ≡ number)
unfolding encoding_named same_name type_of
named_lem name enc number (inl (e, e', e'')) = rw (e, e', e'') (refl, refl)
named_lem name enc number (inr (inl (e, e', e''))) = rw (e, e', e'') (refl, refl)
named_lem name enc number (inr (inr (e, e', e''))) = rw (e, e', e'') (refl, refl)
