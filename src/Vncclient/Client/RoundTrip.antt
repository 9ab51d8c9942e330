-- ===== src/Vncclient/Client/RoundTrip.antt =====
-- A server reads from the client's messages what the methods were called with.
use go_vncdriver.Common.{
  ℕ, ◌+◌, ◌*◌, ◌≤◌, ◌<◌, ◌≡◌, refl, sym, ap, Bool, true, false, List, [], ◌∷◌, ◌++◌, some, arith,
  length, map, All, le→ltb, lt→ltb, length-append, take-append_left, drop-append_left, replicate,
  take-append_at, drop-append_at, overwrite_whole,
}
use go_vncdriver.Common.Bytes.{IsU16, IsU32, be16, be32, of_be-be16, of_be-be32}
use go_vncdriver.Common.Exec.{Result, ok}
use go_vncdriver.Vncclient.Wire.Laws.{reslice_exact}
use go_vncdriver.Vncclient.Encoding.{Encoding, type_of, type_of-u32}
use go_vncdriver.Vncclient.PixelFormat.{PixelFormat, bool_byte, format_bytes}
use go_vncdriver.Vncclient.PixelFormat.RoundTrip.{write_pixel_format_lem, length_written, padding}
use go_vncdriver.Vncclient.Client.{
  cut_text_message, update_request_message, key_event_message, pointer_event_message,
  encodings_message, pixel_format_message, utf8_length, latin1_bytes, encoding_bytes,
}
use go_vncdriver.Vncclient.Client.Rfc.{ClientMessage, parse_message, longs}
use go_vncdriver.Vncclient.Client.Rfc

-- The capacity of a buffer is never below what was written, and the smallest one is 16 at least.
pub record IsCapacity (capacity : ℕ → ℕ) : Type 0 where
  pub grows : (n : ℕ) → n ≤ capacity n
  pub smallest : (n : ℕ) → n ≤ 16 → 16 ≤ capacity n

-- `m` is a message that a server reads as `r`, whatever follows it.
abbrev pub Encodes : Result (List ℕ) → ClientMessage → Type 0
Encodes m r =
    (bs : List ℕ) × (m ≡ ok bs) × ((rest : List ℕ) → parse_message (bs ++ rest) ≡ some (r, rest))

flag : (b : Bool) → Rfc.is_set (bool_byte b) ≡ b
flag true = refl
flag false = refl

-- The numbers of the encodings, read back.
longs_lem :
    (encs : List Encoding) (rest : List ℕ)
    → longs (length encs) (encoding_bytes encs ++ rest) ≡ some (map type_of encs, rest)
unfolding longs
longs_lem [] rest = refl
longs_lem (e ∷ es) rest = rw (longs_lem es rest) (rw (of_be-be32 (type_of e) (type_of-u32 e)))

length-encoding_bytes : (encs : List Encoding) → length (encoding_bytes encs) ≡ 4 * length encs
length-encoding_bytes [] = refl
length-encoding_bytes (e ∷ es) = omega (arith, length-encoding_bytes es)

abbrev pub IsAscii : ℕ → Type 0
IsAscii r = r < 128

latin1_bytes_ascii : (text : List ℕ) → All IsAscii text → latin1_bytes text ≡ ok text
unfolding latin1_bytes
latin1_bytes_ascii [] h = refl
latin1_bytes_ascii (r ∷ rs) (h, hs) =
    rw (le→ltb 255 r (omega arith), latin1_bytes_ascii rs hs) (ap (λ b. ok (b ∷ rs)) (omega arith))

utf8_length_ascii : (text : List ℕ) → All IsAscii text → utf8_length text ≡ length text
unfolding utf8_length
utf8_length_ascii [] h = refl
utf8_length_ascii (r ∷ rs) (h, hs) = rw (lt→ltb r 128 h) (omega (arith, utf8_length_ascii rs hs))

module _ (capacity : ℕ → ℕ) (c : IsCapacity capacity) where
  pub key_event_message-Encodes :
      (keysym : ℕ) (down : Bool)
      → IsU32 keysym
      → Encodes (key_event_message capacity keysym down) (ClientMessage.key_event down keysym)
  unfolding key_event_message parse_message
  key_event_message-Encodes keysym down h = (
    4 ∷ bool_byte down ∷ 0 ∷ 0 ∷ be32 keysym,
    reslice_exact (capacity 8) _ 8 (c.grows 8) refl,
    λ rest.
        rw (flag down)
          (ap (λ n. some (ClientMessage.key_event down n, rest)) (of_be-be32 keysym h)),
  )

  pub pointer_event_message-Encodes :
      (mask x y : ℕ)
      → IsU16 x
      → IsU16 y
      → Encodes (pointer_event_message capacity mask x y) (ClientMessage.pointer_event mask x y)
  unfolding pointer_event_message parse_message
  pointer_event_message-Encodes mask x y hx hy = (
    5 ∷ mask ∷ (be16 x ++ be16 y),
    reslice_exact (capacity 6) _ 6 (c.grows 6) refl,
    λ rest. rw (of_be-be16 x hx, of_be-be16 y hy),
  )

  pub update_request_message-Encodes :
      (incremental : Bool) (x y width height : ℕ)
      → IsU16 x
      → IsU16 y
      → IsU16 width
      → IsU16 height
      → Encodes
          (update_request_message capacity incremental x y width height)
          (ClientMessage.update_request incremental x y width height)
  unfolding update_request_message parse_message
  update_request_message-Encodes incremental x y width height hx hy hw hh = (
    3 ∷ bool_byte incremental ∷ (be16 x ++ (be16 y ++ (be16 width ++ be16 height))),
    reslice_exact (capacity 10) _ 10 (c.grows 10) refl,
    λ rest. rw (
      flag incremental,
      of_be-be16 x hx,
      of_be-be16 y hy,
      of_be-be16 width hw,
      of_be-be16 height hh,
    ),
  )

  pub encodings_message-Encodes :
      (encs : List Encoding)
      → IsU16 (length encs)
      → Encodes (encodings_message capacity encs) (ClientMessage.encodings (map type_of encs))
  unfolding encodings_message parse_message
  encodings_message-Encodes encs h = (
    2 ∷ 0 ∷ (be16 (length encs) ++ encoding_bytes encs),
    reslice_exact _ _ (4 + 4 * length encs) (c.grows _) (omega (arith, length-encoding_bytes encs)),
    λ rest. rw (of_be-be16 (length encs) h) (rw (longs_lem encs rest)),
  )

  pub pixel_format_message-Encodes :
      (pf : PixelFormat)
      → Encodes
          (pixel_format_message capacity pf)
          (ClientMessage.pixel_format (format_bytes pf ++ padding pf))
  unfolding pixel_format_message parse_message
  pixel_format_message-Encodes pf = (
    0 ∷ 0 ∷ 0 ∷ 0 ∷ sixteen,
    rw (write_pixel_format_lem capacity pf c.smallest)
        (rw (overwrite_whole (replicate 16 0) sixteen (length_written pf))),
    λ rest.
        rw
          (le→ltb (length (sixteen ++ rest)) 16
            (omega (arith, length-append sixteen rest, length_written pf)))
          (rw (
            take-append_at 16 sixteen rest (sym (length_written pf)),
            drop-append_at 16 sixteen rest (sym (length_written pf)),
          )),
  )
    where
      sixteen : List ℕ
      sixteen = format_bytes pf ++ padding pf

  pub cut_text_message-Encodes :
      (text : List ℕ)
      → All IsAscii text
      → IsU32 (length text)
      → Encodes (cut_text_message capacity text) (ClientMessage.cut_text text)
  unfolding cut_text_message parse_message
  cut_text_message-Encodes text ascii h = (
    (6 ∷ 0 ∷ 0 ∷ 0 ∷ be32 (length text)) ++ text,
    rw (latin1_bytes_ascii text ascii, utf8_length_ascii text ascii)
        (reslice_exact _ _ (8 + length text) (c.grows _) (omega arith)),
    λ rest. rw (of_be-be32 (length text) h) (
        rw (le→ltb (length (text ++ rest)) (length text) (omega (arith, length-append text rest)))
          (rw (take-append_left text rest, drop-append_left text rest))),
  )
