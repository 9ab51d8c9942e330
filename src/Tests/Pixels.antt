-- ===== src/Tests/Pixels.antt =====
-- Raw pixels in the format of a session.
use go_vncdriver.Common.{◌≡◌, refl, List, [], ◌∷◌, ◌++◌, arith}
use go_vncdriver.Common.Exec.{ok}
use go_vncdriver.Vncclient.Color.{Color}
use go_vncdriver.Vncclient.Encoding.{Rectangle, area, raw}
use go_vncdriver.Vncclient.Client.{ClientConn}
use go_vncdriver.Vncclient.Handshake.{new_conn}
use go_vncdriver.Vncclient.RawEncoding.{raw_read}
use go_vncdriver.Gymvnc.Lifecycle.{rgb_format}
use go_vncdriver.Gymvnc.Lifecycle.Pixels.{Pixel, pixel_bytes, raw_read-pixel_bytes}

abbrev orange : Color
orange = record { r = 255; g = 165; b = 7 }

abbrev teal : Color
teal = record { r = 0; g = 128; b = 130 }

abbrev pair : List Pixel
pair = (orange, 0) ∷ (teal, 200) ∷ []

abbrev line : Rectangle
line = record { x = 5; y = 6; width = 2; height = 1 }

abbrev pair_sent : ClientConn (Unit {0})
pair_sent = record (new_conn tt (pixel_bytes pair ++ (9 ∷ []))) { pixel_format = rgb_format }

raw_read-pixel_bytes_example :
    raw_read line pair_sent ≡ (ok (raw (orange ∷ teal ∷ [])), record pair_sent { input = 9 ∷ [] })
unfolding area
raw_read-pixel_bytes_example =
    raw_read-pixel_bytes pair_sent line pair (9 ∷ []) refl
      (
        (omega arith, omega arith, omega arith, omega arith),
        ((omega arith, omega arith, omega arith, omega arith), tt),
      )
      refl refl
