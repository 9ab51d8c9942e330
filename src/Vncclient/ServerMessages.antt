-- ===== src/Vncclient/ServerMessages.antt =====
-- vncclient/server_messages.go, and one round of `mainLoop` of vncclient/client.go.
pub mod ColorMap
pub mod Dispatch
pub mod Bounds
pub mod Total
pub mod Rounds
use go_vncdriver.Common.{
  ℕ, zero, suc, ◌+◌, Bool, ◌||◌, List, [], ◌∷◌, Option, none, some, ltb, ◌==◌, if◌then◌else◌,
  length, copy_at,
}
use go_vncdriver.Common.Bytes.{u16}
use go_vncdriver.Common.Exec.{
  closed_connection, Result, Exec, ok, err, panic, index_out_of_range, pure, raise, lift, ◌>>=◌,
  ◌>>◌, excessive_rectangle_count, excessive_rectangle, unsupported_encoding, no_such_message,
  not_implemented,
}
use go_vncdriver.Vncclient.Color.{Color}
use go_vncdriver.Vncclient.Encoding.{
  Encoding, raw, zrle, tight, type_of, Rectangle, DecodedRectangle, FramebufferUpdate,
}
use go_vncdriver.Vncclient.Client.{ClientConn, on_input}
use go_vncdriver.Vncclient.Wire.{read_full, read_u8, read_u16, read_u32}
use go_vncdriver.Vncclient.RawEncoding.{raw_read}
use go_vncdriver.Vncclient.Zrle.Parse.{zrle_read}

-- `ServerMessage`; the bell has no content.
pub data ServerMessage : Type 0 where
  framebuffer_update : FramebufferUpdate → ServerMessage
  set_color_map_entries : ℕ → List Color → ServerMessage
  bell : ServerMessage
  server_cut_text : List ℕ → ServerMessage

module _ {I : Type 0} where
  -- `c.ColorMap[i] = color`, in an array of 256.
  unfoldable pub set_color : ℕ → Color → Exec (ClientConn I) (Unit {0})
  set_color i color c =
      if ltb i 256
      then (ok tt, record c { color_map = copy_at c.color_map i (color ∷ []) })
      else (panic index_out_of_range, c)

  unfoldable pub read_entry : Exec (ClientConn I) Color
  read_entry = do
    r ← on_input read_u8
    g ← on_input read_u8
    b ← on_input read_u8
    pure (record { r = r; g = g; b = b })

  -- `k` entries are left; `first + i` is a uint16.
  unfoldable pub read_entries : ℕ → (first i : ℕ) → Exec (ClientConn I) (List Color)
  read_entries zero first i = pure []
  read_entries (suc k) first i = do
    color ← read_entry
    set_color (u16 (first + i)) color
    colors ← read_entries k first (i + 1)
    pure (color ∷ colors)

  unfoldable pub set_color_map_entries_read : Exec (ClientConn I) ServerMessage
  set_color_map_entries_read = do
    _ ← on_input (read_full 1)
    first ← on_input read_u16
    count ← on_input read_u16
    colors ← read_entries count first 0
    pure (set_color_map_entries first colors)

  unfoldable pub server_cut_text_read : Exec (ClientConn I) ServerMessage
  server_cut_text_read = do
    _ ← on_input (read_full 3)
    length ← on_input read_u32
    text ← on_input (read_full length)
    pure (server_cut_text text)

-- The map from encoding types to encodings: later ones win, and `raw` is always there.
unfoldable pub find_encoding : List Encoding → ℕ → Option Encoding
find_encoding [] t = none
find_encoding (e ∷ es) t = elim (find_encoding es t) [
  | none ↦ if type_of e == t then some e else none
  | some e' ↦ some e'
]

abbrev pub supported : List Encoding → ℕ → Option Encoding
supported encs t = if t == 0 then some (raw []) else find_encoding encs t

-- `inflate` is that of package flexzlib, and `tight_read` is `Read` of `TightEncoding`.
module _ {I : Type 0} (inflate : List ℕ → Exec I (List ℕ))
    (tight_read : Rectangle → Exec (ClientConn I) Encoding) where
  -- `enc.Read(c, rect, r)`
  unfoldable pub encoding_read : Encoding → Rectangle → Exec (ClientConn I) Encoding
  encoding_read (raw colors) rect = raw_read rect
  encoding_read (zrle colors size) rect = zrle_read inflate rect
  encoding_read (tight colors size) rect = tight_read rect
  encoding_read _ rect = raise not_implemented

  abbrev pub encoding_of : Option Encoding → Rectangle → Exec (ClientConn I) Encoding
  encoding_of none rect = raise unsupported_encoding
  encoding_of (some e) rect = encoding_read e rect

  -- Larger rectangles are refused before memory is taken for them.
  abbrev pub is_excessive : Rectangle → Bool
  is_excessive rect =
      (ltb 5120 rect.x || ltb 2880 rect.y) || (ltb 5120 rect.width || ltb 2880 rect.height)

  unfoldable pub read_rectangle : Exec (ClientConn I) DecodedRectangle
  read_rectangle = do
    x ← on_input read_u16
    y ← on_input read_u16
    width ← on_input read_u16
    height ← on_input read_u16
    encoding_type ← on_input read_u32
    let rect : Rectangle = record { x = x; y = y; width = width; height = height }
    lift (if is_excessive rect then err excessive_rectangle else ok tt)
    enc ← (λ c. encoding_of (supported c.encs encoding_type) rect c)
    pure (record { rect = rect; enc = enc })

  unfoldable pub read_rectangles : ℕ → Exec (ClientConn I) FramebufferUpdate
  read_rectangles zero = pure []
  read_rectangles (suc k) = do r ← read_rectangle; rs ← read_rectangles k; pure (r ∷ rs)

  unfoldable pub framebuffer_update_read : Exec (ClientConn I) ServerMessage
  framebuffer_update_read = do
    _ ← on_input (read_full 1)
    count ← on_input read_u16
    lift (if ltb 1000 count then err excessive_rectangle_count else ok tt)
    rects ← read_rectangles count
    pure (framebuffer_update rects)

  -- What a round of `mainLoop` reads, with the four messages of the protocol.
  unfoldable pub read_message : Exec (ClientConn I) ServerMessage
  read_message = do
    message_type ← on_input read_u8
    if message_type == 0
        then framebuffer_update_read
        else if message_type == 1
        then set_color_map_entries_read
        else if message_type == 2
        then pure bell
        else if message_type == 3
        then server_cut_text_read
        else raise no_such_message

  -- The deferred `c.Close()`, when the loop is left.
  abbrev pub closing : Result ServerMessage → ClientConn I → ClientConn I
  closing (ok m) c = c
  closing r c = record c { broken = some closed_connection }

  -- A round of `mainLoop`, and its end where that is the last one.
  unfoldable pub main_loop_round : Exec (ClientConn I) ServerMessage
  main_loop_round c = let (r, d) = read_message c in (r, closing r d)
