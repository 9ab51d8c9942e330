-- ===== src/Vncclient/Client/Sends.antt =====
-- What the methods of `ClientConn` do to a connection on which nothing has failed so far.
use go_vncdriver.Common.{
  ℕ, ◌≡◌, refl, ap, Bool, List, ◌++◌, none, some, length, map, replicate, All,
}
use go_vncdriver.Common.Bytes.{IsU16, IsU32}
use go_vncdriver.Common.Exec.{Exec, ok, err}
use go_vncdriver.Vncclient.Color.{black}
use go_vncdriver.Vncclient.Encoding.{Encoding, type_of}
use go_vncdriver.Vncclient.PixelFormat.{
  PixelFormat, IsPixelFormat, no_format, format_bytes, read_pixel_format,
}
use go_vncdriver.Vncclient.PixelFormat.RoundTrip.{
  padding, on_wire, length_written, read_pixel_format_lem,
}
use go_vncdriver.Vncclient.Client.{
  ClientConn, write, cut_text, framebuffer_update_request, key_event, pointer_event, set_encodings,
  set_pixel_format,
}
use go_vncdriver.Vncclient.Client.Rfc.{ClientMessage, parse_message}
use go_vncdriver.Vncclient.Client.RoundTrip.{
  IsCapacity, IsAscii, key_event_message-Encodes, pointer_event_message-Encodes,
  update_request_message-Encodes, encodings_message-Encodes, cut_text_message-Encodes,
  pixel_format_message-Encodes,
}

module _ {I : Type 0} where
  -- The call `m` on `c` returns no error, leaves the connection as `f` says but for the bytes that it
  -- appends to the output, and a server reads these as `r`, whatever follows them.
  abbrev pub Sends :
      Exec (ClientConn I) (Unit {0})
      → ClientConn I
      → (ClientConn I → ClientConn I)
      → ClientMessage
      → Type 0
  Sends m c f r =
      (bs : List ℕ) × (m c ≡ (ok tt, f (record c { output = c.output ++ bs })))
      × ((rest : List ℕ) → parse_message (bs ++ rest) ≡ some (r, rest))

  abbrev keep : ClientConn I → ClientConn I
  keep c = c

  -- A write succeeds as long as none has failed.
  pub write_lem :
      (c : ClientConn I) (bs : List ℕ)
      → c.broken ≡ none
      → write bs c ≡ (ok tt, record c { output = c.output ++ bs })
  unfolding write
  write_lem c bs h =
      ap
        (λ o. elim o [ none ↦ (ok tt, record c { output = c.output ++ bs }) | some e ↦ (err e, c) ])
        h

module _ (capacity : ℕ → ℕ) (cap : IsCapacity capacity) {I : Type 0} (c : ClientConn I)
    (open' : c.broken ≡ none) where
  -- On a connection whose writes do not fail, fewer than 65,536 encodings are sent and kept as
  -- those that the connection supports, and a server reads from the message the numbers of the
  -- encodings, in order.
  pub set_encodings-Sends :
      (encs : List Encoding)
      → IsU16 (length encs)
      → Sends
          (set_encodings capacity encs)
          c
          (λ d. record d { encs = encs })
          (ClientMessage.encodings (map type_of encs))
  unfolding set_encodings
  set_encodings-Sends encs h =
      let (bs, e, reads) = encodings_message-Encodes capacity cap encs h in
      (bs, rw (e, write_lem c bs open'), reads)

  -- On a connection whose writes do not fail, an ASCII text whose length is a 32-bit number is
  -- sent, and a server reads from the message the text.
  pub cut_text-Sends :
      (text : List ℕ)
      → All IsAscii text
      → IsU32 (length text)
      → Sends (cut_text capacity text) c keep (ClientMessage.cut_text text)
  unfolding cut_text
  cut_text-Sends text ascii h =
      let (bs, e, reads) = cut_text_message-Encodes capacity cap text ascii h in
      (bs, rw (e, write_lem c bs open'), reads)

  -- On a connection whose writes do not fail, a pixel format is sent, the colour map becomes
  -- black and the connection keeps its own format; a server reads from the message the sixteen
  -- bytes of the format.
  pub set_pixel_format-Sends :
      (pf : PixelFormat)
      → Sends
          (set_pixel_format capacity pf)
          c
          (λ d. record d { color_map = replicate 256 black })
          (ClientMessage.pixel_format (format_bytes pf ++ padding pf))
  unfolding set_pixel_format
  set_pixel_format-Sends pf =
      let (bs, e, reads) = pixel_format_message-Encodes capacity cap pf in
      (bs, rw (e, write_lem c bs open'), reads)

  -- On a connection whose writes do not fail, a pixel format whose fields fit their types is sent and
  -- the colour map becomes black; a server finds sixteen bytes in the message, and reads from them the
  -- format, less the masks and shifts where it is not in true colour.
  pub set_pixel_format_lem :
      (pf : PixelFormat)
      → IsPixelFormat pf
      → (bs raw : List ℕ) × (d : ClientConn I) × (set_pixel_format capacity pf c ≡ (ok tt, d))
        × (d.output ≡ c.output ++ bs)
        × (d.color_map ≡ replicate 256 black)
        × ((rest : List ℕ)
            → parse_message (bs ++ rest) ≡ some (ClientMessage.pixel_format raw, rest))
        × (length raw ≡ 16)
        × ((rest : List ℕ) → read_pixel_format no_format (raw ++ rest) ≡ (ok (on_wire pf), rest))
  set_pixel_format_lem pf fits =
      let (bs, e, reads) = set_pixel_format-Sends pf in
      (
        bs,
        format_bytes pf ++ padding pf,
        record c { color_map = replicate 256 black; output = c.output ++ bs },
        e,
        refl,
        refl,
        reads,
        length_written pf,
        λ rest. read_pixel_format_lem pf rest fits,
      )

  -- On a connection whose writes do not fail, a request for a framebuffer update with 16-bit
  -- coordinates is sent, and a server reads from it the flag and the region.
  pub framebuffer_update_request-Sends :
      (incremental : Bool) (x y width height : ℕ)
      → IsU16 x
      → IsU16 y
      → IsU16 width
      → IsU16 height
      → Sends
          (framebuffer_update_request capacity incremental x y width height)
          c
          keep
          (ClientMessage.update_request incremental x y width height)
  unfolding framebuffer_update_request
  framebuffer_update_request-Sends incremental x y width height hx hy hw hh =
      let (bs, e, reads) =
        update_request_message-Encodes capacity cap incremental x y width height hx hy hw hh in
      (bs, rw (e, write_lem c bs open'), reads)

  -- On a connection whose writes do not fail, a key event of a 32-bit keysym is sent, and a
  -- server reads from it the key and whether it is down.
  pub key_event-Sends :
      (keysym : ℕ) (down : Bool)
      → IsU32 keysym
      → Sends (key_event capacity keysym down) c keep (ClientMessage.key_event down keysym)
  unfolding key_event
  key_event-Sends keysym down h =
      let (bs, e, reads) = key_event_message-Encodes capacity cap keysym down h in
      (bs, rw (e, write_lem c bs open'), reads)

  -- On a connection whose writes do not fail, a pointer event at 16-bit coordinates is sent, and
  -- a server reads from it the mask and the position.
  pub pointer_event-Sends :
      (mask x y : ℕ)
      → IsU16 x
      → IsU16 y
      → Sends (pointer_event capacity mask x y) c keep (ClientMessage.pointer_event mask x y)
  unfolding pointer_event
  pointer_event-Sends mask x y hx hy =
      let (bs, e, reads) = pointer_event_message-Encodes capacity cap mask x y hx hy in
      (bs, rw (e, write_lem c bs open'), reads)
