-- ===== src/Tests/Messages.antt =====
-- Runs of the server's messages of vncclient/server_messages.go.
use go_vncdriver.Common.{ℕ, ◌≤◌, ◌≡◌, refl, true, false, List, [], ◌∷◌, ◌++◌, arith, length, All}
use go_vncdriver.Common.Exec.{Exec, ok, raise, not_implemented}
use go_vncdriver.Vncclient.Color.{Color}
use go_vncdriver.Vncclient.PixelFormat.{PixelFormat}
use go_vncdriver.Vncclient.Encoding.{Encoding, raw, Rectangle, FramebufferUpdate, area}
use go_vncdriver.Vncclient.Client.{ClientConn}
use go_vncdriver.Vncclient.Handshake.{new_conn}
use go_vncdriver.Vncclient.Wire.{read_full, read_number}
use go_vncdriver.Vncclient.RawEncoding.{raw_read, raw_colors, raw_pixel, pixel_color, channel}
use go_vncdriver.Vncclient.ServerMessages.{
  framebuffer_update, framebuffer_update_read, read_rectangles, read_rectangle, encoding_read,
  find_encoding,
}
use go_vncdriver.Common.Bytes.{be32}
use go_vncdriver.Vncclient.ServerMessages.{read_message, server_cut_text}
use go_vncdriver.Vncclient.ServerMessages.Dispatch.{read_message-server_cut_text}
use go_vncdriver.Vncclient.ServerMessages.Bounds.{IsExpected, framebuffer_update_read_bounds}

abbrev green : Color
green = record { r = 0; g = 255; b = 0 }

abbrev white : Color
white = record { r = 255; g = 255; b = 255 }

abbrev no_zlib : List ℕ → Exec (Unit {0}) (List ℕ)
no_zlib bs = raise not_implemented

abbrev no_tight : Rectangle → Exec (ClientConn (Unit {0})) Encoding
no_tight rect = raise not_implemented

abbrev bgr : PixelFormat
bgr = record {
  bpp = 32;
  depth = 24;
  big_endian = false;
  true_color = true;
  red_max = 255;
  green_max = 255;
  blue_max = 255;
  red_shift = 16;
  green_shift = 8;
  blue_shift = 0;
}

-- One raw rectangle of one green pixel.
abbrev pixel_sent : ClientConn (Unit {0})
pixel_sent =
    record (new_conn tt
      (0 ∷ 0 ∷ 1 ∷ 0 ∷ 3 ∷ 0 ∷ 4 ∷ 0 ∷ 1 ∷ 0 ∷ 1 ∷ 0 ∷ 0 ∷ 0 ∷ 0 ∷ 0 ∷ 255 ∷ 0 ∷ 0 ∷ [])) {
        pixel_format = bgr;
      }

abbrev pixel : FramebufferUpdate
pixel =
    record { rect = record { x = 3; y = 4; width = 1; height = 1 }; enc = raw (green ∷ []) } ∷ []

pixel_read :
    framebuffer_update_read no_zlib no_tight pixel_sent
    ≡ (ok (framebuffer_update pixel), record pixel_sent { input = [] })
unfolding framebuffer_update_read read_rectangles read_rectangle encoding_read raw_read raw_colors
    raw_pixel pixel_color channel read_full read_number area find_encoding
pixel_read = refl

framebuffer_update_read_bounds_example : (length pixel ≤ 1000) × All IsExpected pixel
framebuffer_update_read_bounds_example =
    framebuffer_update_read_bounds no_zlib no_tight pixel_sent (record pixel_sent { input = [] })
      pixel pixel_read

abbrev text_sent : ClientConn (Unit {0})
text_sent = new_conn tt (3 ∷ 0 ∷ 0 ∷ 0 ∷ (be32 2 ++ ((104 ∷ 105 ∷ []) ++ (2 ∷ []))))

read_message-server_cut_text_example :
    read_message no_zlib no_tight text_sent
    ≡ (ok (server_cut_text (104 ∷ 105 ∷ [])), record text_sent { input = 2 ∷ [] })
read_message-server_cut_text_example =
    read_message-server_cut_text no_zlib no_tight text_sent 0 0 0 (104 ∷ 105 ∷ []) (2 ∷ [])
      (omega arith) refl
