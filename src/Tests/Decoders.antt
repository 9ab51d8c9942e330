-- ===== src/Tests/Decoders.antt =====
-- An update with a Tight rectangle, through `mainLoop` of vncclient/client.go.
use go_vncdriver.Common.{◌≡◌, refl, true, [], ◌∷◌, ◌++◌, none, some, arith, replicate}
use go_vncdriver.Common.Bytes.{be16}
use go_vncdriver.Common.Exec.{ok, eof}
use go_vncdriver.Flexzlib.{Flate}
use go_vncdriver.Vncclient.Encoding.{Rectangle, area, tight, type_of}
use go_vncdriver.Vncclient.Client.{ClientConn}
use go_vncdriver.Vncclient.Handshake.{new_conn}
use go_vncdriver.Vncclient.ServerMessages.{framebuffer_update, find_encoding}
use go_vncdriver.Vncclient.Tight.Streams.{new_tight}
use go_vncdriver.Vncclient.Tight.Read.{is_supported}
use go_vncdriver.Vncclient.Decoders.{
  Decoders, read_server_message, fill_bytes, filled, read_message_fill,
}
use go_vncdriver.Gymvnc.Lifecycle.{rgb_format}
use go_vncdriver.Tests.Tight.{stored, decode, grey}
use go_vncdriver.Tests.Flexzlib.{flate, room}

abbrev wide : Rectangle
wide = record { x = 1; y = 2; width = 3; height = 2 }

abbrev decoders : Decoders (Unit {0}) (Unit {0})
decoders = record { inflator = none; streams = new_tight [] }

abbrev empty : ClientConn (Decoders (Unit {0}) (Unit {0}))
empty = record (new_conn decoders []) { pixel_format = rgb_format; encs = tight [] 0 ∷ [] }

abbrev conn : ClientConn (Decoders (Unit {0}) (Unit {0}))
conn = record empty {
  input = 0 ∷ 0 ∷ (be16 1 ++ fill_bytes flate room 9 stored decode empty wide grey 130 (3 ∷ []));
}

known : find_encoding conn.encs 7 ≡ some (tight [] 0)
unfolding find_encoding type_of
known = refl

supported : is_supported rgb_format ≡ true
unfolding is_supported
supported = refl

read_message_fill_example : read_server_message flate room 9 stored decode conn ≡ (
  ok (framebuffer_update (record { rect = wide; enc = tight (replicate (area wide) grey) 4 } ∷ [])),
  filled flate room 9 stored decode conn wide grey 130 (3 ∷ []),
)
read_message_fill_example =
    read_message_fill flate room 9 stored decode conn wide grey 130 (3 ∷ []) (omega arith)
      (omega arith) (omega arith) (omega arith) [] 0 known supported (omega arith) (omega arith)
      (omega arith) (omega arith) (omega arith) 0 refl

-- A decompressor that stores its bytes, and delivers a piece at once.
abbrev whole : Flate (Unit {0})
whole = record flate { read = λ n d src. ((src, some eof), (d, [])) }
