-- ===== src/Vncclient/Client.antt =====
-- `ClientConn` of vncclient/client.go, and the messages that it sends. A method holds the lock
-- `send` from its first line to its last, so it is one step. `I` is the inflator's state.
pub mod Rfc
pub mod RoundTrip
pub mod Sends
pub mod Stream
use go_vncdriver.Common.{
  ℕ, zero, suc, ◌+◌, ◌*◌, Bool, true, false, List, [], ◌∷◌, ◌++◌, Option, none, some, ltb,
  if◌then◌else◌, length, map, replicate, copy_at,
}
use go_vncdriver.Common.Bytes.{be16, be32, u8, u16, u32}
use go_vncdriver.Common.Exec.{
  Exec, Result, Error, ok, err, not_latin1, pure, raise, lift, gets, modify, guard, bind, ◌>>=◌,
  ◌>>◌,
}
use go_vncdriver.Vncclient.Color.{Color, black}
use go_vncdriver.Vncclient.PixelFormat.{PixelFormat, write_pixel_format, bool_byte}
use go_vncdriver.Vncclient.Encoding.{Encoding, type_of}
use go_vncdriver.Vncclient.Wire.{reslice}

-- `input` holds the bytes that the server will have sent when the connection ends, behind which every read
-- fails: a server that is silent for ever without ending it, on which a read waits, is left out. `output` those
-- that the client wrote. Writes fail with `broken`, if that is some error.
pub record ClientConn (I : Type 0) : Type 0 where
  pub input : List ℕ
  pub output : List ℕ
  pub broken : Option Error
  pub inflator : I
  pub color_map : List Color
  pub encs : List Encoding
  pub framebuffer_width : ℕ
  pub framebuffer_height : ℕ
  pub desktop_name : List ℕ
  pub pixel_format : PixelFormat

-- `c.c.Write(bs)`
unfoldable pub write : {I : Type 0} → List ℕ → Exec (ClientConn I) (Unit {0})
write bs c = elim c.broken [
  | none ↦ (ok tt, record c { output = c.output ++ bs })
  | some e ↦ (err e, c)
]

-- Reads from the connection, and calls of the inflator.
abbrev pub on_input {ℓ} : {I : Type 0} {A : Type ℓ} → Exec (List ℕ) A → Exec (ClientConn I) A
on_input m c = ((m c.input).0, record c { input = (m c.input).1 })

abbrev pub on_inflator {ℓ} : {I : Type 0} {A : Type ℓ} → Exec I A → Exec (ClientConn I) A
on_inflator m c = ((m c.inflator).0, record c { inflator = (m c.inflator).1 })

-- The texts are valid UTF-8, given by their code points; `len(text)` counts bytes.
unfoldable pub utf8_length : List ℕ → ℕ
utf8_length [] = 0
utf8_length (r ∷ rs) =
    (if ltb r 128 then 1 else if ltb r 2048 then 2 else if ltb r 65536 then 3 else 4)
    + utf8_length rs

-- The loop over the characters, which writes one byte for each.
unfoldable pub latin1_bytes : List ℕ → Result (List ℕ)
latin1_bytes [] = ok []
latin1_bytes (r ∷ rs) =
    let rest = bind (latin1_bytes rs) (λ bs. ok (u8 r ∷ bs)) in
    if ltb 255 r then err not_latin1 else rest

abbrev pub encoding_bytes : List Encoding → List ℕ
encoding_bytes [] = []
encoding_bytes (e ∷ es) = be32 (type_of e) ++ encoding_bytes es

-- `capacity n` is the capacity of a `bytes.Buffer` into which `n` bytes were written.
module _ (capacity : ℕ → ℕ) where
  -- `buf.Bytes()[0:n]`, where `bs` was written to `buf`.
  abbrev pub buffer_slice : List ℕ → ℕ → Result (List ℕ)
  buffer_slice bs n = reslice (capacity (length bs)) bs n

  unfoldable pub cut_text_message : List ℕ → Result (List ℕ)
  cut_text_message text = bind (latin1_bytes text) λ chars.
      buffer_slice ((6 ∷ 0 ∷ 0 ∷ 0 ∷ be32 (utf8_length text)) ++ chars) (8 + utf8_length text)

  unfoldable pub update_request_message : Bool → (x y width height : ℕ) → Result (List ℕ)
  update_request_message incremental x y width height =
      buffer_slice (3 ∷ bool_byte incremental ∷ (be16 x ++ (be16 y ++ (be16 width ++ be16 height))))
        10

  unfoldable pub key_event_message : ℕ → Bool → Result (List ℕ)
  key_event_message keysym down = buffer_slice (4 ∷ bool_byte down ∷ 0 ∷ 0 ∷ be32 keysym) 8

  unfoldable pub pointer_event_message : (mask x y : ℕ) → Result (List ℕ)
  pointer_event_message mask x y = buffer_slice (5 ∷ mask ∷ (be16 x ++ be16 y)) 6

  unfoldable pub encodings_message : List Encoding → Result (List ℕ)
  encodings_message encs =
      buffer_slice (2 ∷ 0 ∷ (be16 (length encs) ++ encoding_bytes encs)) (4 + 4 * length encs)

  -- `keyEvent[4:]` receives the format; the array is sent whole.
  unfoldable pub pixel_format_message : PixelFormat → Result (List ℕ)
  pixel_format_message pf =
      bind (write_pixel_format capacity pf) λ bs. ok (copy_at (replicate 20 0) 4 bs)

  module _ {I : Type 0} where
    unfoldable pub cut_text : List ℕ → Exec (ClientConn I) (Unit {0})
    cut_text text = do bs ← lift (cut_text_message text); write bs

    unfoldable pub framebuffer_update_request :
        Bool → (x y width height : ℕ) → Exec (ClientConn I) (Unit {0})
    framebuffer_update_request incremental x y width height = do
      bs ← lift (update_request_message incremental x y width height)
      write bs

    unfoldable pub key_event : ℕ → Bool → Exec (ClientConn I) (Unit {0})
    key_event keysym down = do bs ← lift (key_event_message keysym down); write bs

    unfoldable pub pointer_event : (mask x y : ℕ) → Exec (ClientConn I) (Unit {0})
    pointer_event mask x y = do bs ← lift (pointer_event_message mask x y); write bs

    unfoldable pub set_encodings : List Encoding → Exec (ClientConn I) (Unit {0})
    set_encodings encs = do
      bs ← lift (encodings_message encs)
      write bs
      modify (λ c. record c { encs = encs })

    -- The connection keeps its own `PixelFormat`; only the colour map is reset.
    unfoldable pub set_pixel_format : PixelFormat → Exec (ClientConn I) (Unit {0})
    set_pixel_format pf = do
      bs ← lift (pixel_format_message pf)
      write bs
      modify (λ c. record c { color_map = replicate 256 black })
