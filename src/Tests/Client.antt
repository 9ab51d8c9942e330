-- ===== src/Tests/Client.antt =====
-- Runs of the client's messages of vncclient/client.go.
use go_vncdriver.Common.{some, ℕ, ◌+◌, ◌≡◌, refl, true, false, List, [], ◌∷◌, ◌++◌, arith, length}
use go_vncdriver.Common.Exec.{ok}
use go_vncdriver.Vncclient.PixelFormat.{
  PixelFormat, write_pixel_format, read_pixel_format, no_format, format_bytes, mask_bytes,
}
use go_vncdriver.Vncclient.PixelFormat.RoundTrip.{read-write_pixel_format, on_wire}
use go_vncdriver.Vncclient.Wire.{reslice}
use go_vncdriver.Vncclient.Encoding.{Encoding, tight, quality_level, type_of}
use go_vncdriver.Common.{replicate}
use go_vncdriver.Vncclient.Color.{black}
use go_vncdriver.Vncclient.Handshake.{new_conn}
use go_vncdriver.Vncclient.Client.{
  ClientConn, cut_text, framebuffer_update_request, key_event, pointer_event, set_encodings,
  set_pixel_format,
}
use go_vncdriver.Vncclient.Client.Rfc.{ClientMessage, parse_message}
use go_vncdriver.Vncclient.Client.RoundTrip.{IsCapacity}
use go_vncdriver.Vncclient.Client.Sends.{
  Sends, key_event-Sends, pointer_event-Sends, framebuffer_update_request-Sends,
  set_encodings-Sends, cut_text-Sends, set_pixel_format_lem,
}

-- A buffer of 64 bytes, as long as that is enough.
abbrev capacity : ℕ → ℕ
capacity n = n + 64

capacity-IsCapacity : IsCapacity capacity
capacity-IsCapacity = record { grows = λ n. omega arith; smallest = λ n h. omega arith }

-- The format that a session asks for.
abbrev rgb : PixelFormat
rgb = record {
  bpp = 32;
  depth = 24;
  big_endian = false;
  true_color = true;
  red_max = 255;
  green_max = 255;
  blue_max = 255;
  red_shift = 0;
  green_shift = 8;
  blue_shift = 16;
}

rgb_bytes : List ℕ
rgb_bytes = 32 ∷ 24 ∷ 0 ∷ 1 ∷ 0 ∷ 255 ∷ 0 ∷ 255 ∷ 0 ∷ 255 ∷ 0 ∷ 8 ∷ 16 ∷ 0 ∷ 0 ∷ 0 ∷ []

rgb_written : write_pixel_format capacity rgb ≡ ok rgb_bytes
unfolding rgb_bytes write_pixel_format format_bytes mask_bytes reslice
rgb_written = refl

read-write_pixel_format_example :
    (length rgb_bytes ≡ 16)
    × (read_pixel_format no_format (rgb_bytes ++ 7 ∷ []) ≡ (ok (on_wire rgb), 7 ∷ []))
read-write_pixel_format_example =
    read-write_pixel_format capacity rgb (7 ∷ []) rgb_bytes (λ n h. omega arith) (omega arith)
      rgb_written

abbrev conn : ClientConn (Unit {0})
conn = new_conn tt []

key_event-Sends_example :
    Sends (key_event capacity 65 true) conn (λ d. d) (ClientMessage.key_event true 65)
key_event-Sends_example =
    key_event-Sends capacity capacity-IsCapacity conn refl 65 true (omega arith)

pointer_event-Sends_example :
    Sends (pointer_event capacity 1 640 480) conn (λ d. d) (ClientMessage.pointer_event 1 640 480)
pointer_event-Sends_example =
    pointer_event-Sends capacity capacity-IsCapacity conn refl 1 640 480 (omega arith) (omega arith)

framebuffer_update_request-Sends_example :
    Sends
      (framebuffer_update_request capacity true 0 0 1024 768)
      conn
      (λ d. d)
      (ClientMessage.update_request true 0 0 1024 768)
framebuffer_update_request-Sends_example =
    framebuffer_update_request-Sends capacity capacity-IsCapacity conn refl true 0 0 1024 768
      (omega arith) (omega arith) (omega arith) (omega arith)

abbrev two_encodings : List Encoding
two_encodings = tight [] 0 ∷ quality_level 5 ∷ []

set_encodings-Sends_example :
    Sends
      (set_encodings capacity two_encodings)
      conn
      (λ d. record d { encs = two_encodings })
      (ClientMessage.encodings (type_of (tight [] 0) ∷ type_of (quality_level 5) ∷ []))
set_encodings-Sends_example =
    set_encodings-Sends capacity capacity-IsCapacity conn refl two_encodings (omega arith)

cut_text-Sends_example :
    Sends
      (cut_text capacity (104 ∷ 105 ∷ []))
      conn
      (λ d. d)
      (ClientMessage.cut_text (104 ∷ 105 ∷ []))
cut_text-Sends_example =
    cut_text-Sends capacity capacity-IsCapacity conn refl (104 ∷ 105 ∷ [])
      (omega arith, (omega arith, tt)) (omega arith)

set_pixel_format_lem_example :
    (bs raw : List ℕ) × (d : ClientConn (Unit {0})) × (set_pixel_format capacity rgb conn
      ≡ (ok tt, d))
    × (d.output ≡ conn.output ++ bs)
    × (d.color_map ≡ replicate 256 black)
    × ((rest : List ℕ) → parse_message (bs ++ rest) ≡ some (ClientMessage.pixel_format raw, rest))
    × (length raw ≡ 16)
    × ((rest : List ℕ) → read_pixel_format no_format (raw ++ rest) ≡ (ok (on_wire rgb), rest))
set_pixel_format_lem_example =
    set_pixel_format_lem capacity capacity-IsCapacity conn refl rgb (omega arith)
