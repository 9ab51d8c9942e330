-- ===== src/Gymvnc/Lifecycle.antt =====
-- `VNCSession` of gymvnc/gymvnc.go before, during and after its connection. An error is stored in
-- `c.err` as soon as it is reported.
pub mod Operations
pub mod Numbers
pub mod Opening
pub mod Connections
pub mod Life
pub mod Soundness
pub mod Starting
pub mod Pixels
pub mod Screens
pub mod Closing
use go_vncdriver.Common.{
  ℕ, zero, suc, ◌+◌, ◌-◌, ◌%◌, Bool, true, false, not, List, [], ◌∷◌, ◌++◌, Option, none, some,
  ◌==◌, ◌&&◌, if◌then◌else◌,
}
use go_vncdriver.Common.Exec.{
  Exec, Result, Error, ok, err, panic, stuck, invalid_encoding, closed_early, closed_connection,
  renderer_active, no_renderer, session_closed, pure, raise, lift, gets, modify, continue, ◌>>=◌,
  ◌>>◌,
}
use go_vncdriver.Vncclient.Color.{Color}
use go_vncdriver.Vncclient.PixelFormat.{PixelFormat}
use go_vncdriver.Vncclient.Encoding.{
  Encoding, FramebufferUpdate, tight, zrle, raw, quality_level, compress_level, fine_quality_level,
  subsample_level,
}
use go_vncdriver.Vncclient.Client.{ClientConn, set_pixel_format, set_encodings}
use go_vncdriver.Gymvnc.Config.{ℤ, pos, negsuc, VncSessionConfig, correct_config, tight_name}
use go_vncdriver.Gymvnc.Screen.{Screen, new_screen}
use go_vncdriver.Gymvnc.Events.{VncEvent, execute_all}
use go_vncdriver.Gymvnc.Session.{Session, Region, flip, request_update, first_error}

-- What a renderer is told, but for the updates.
pub data RendererCall : Type 0 where
  init_call : (width height : ℕ) → (title : List ℕ) → (pixels : List Color) → RendererCall
  render_call close_call : RendererCall

-- `live` is the session behind `c.conn`, and none where that is nil; before that, `subscription`
-- is the one of the configuration. `is_connected` says whether a connection that was made is still open,
-- and `calls` are those of the renderer.
pub record VncSession (I : Type 0) : Type 0 where
  pub config : VncSessionConfig
  pub subscription : Option (List Region)
  pub error : Option Error
  pub closed : Bool
  pub has_renderer : Bool
  pub calls : List RendererCall
  pub live : Option (Session I)
  pub is_connected : Bool

-- "zrle" and "raw"
abbrev pub zrle_name : List ℕ
zrle_name = 122 ∷ 114 ∷ 108 ∷ 101 ∷ []

abbrev pub raw_name : List ℕ
raw_name = 114 ∷ 97 ∷ 119 ∷ []

unfoldable pub same_name : List ℕ → List ℕ → Bool
same_name [] [] = true
same_name [] (y ∷ ys) = false
same_name (x ∷ xs) [] = false
same_name (x ∷ xs) (y ∷ ys) = (x == y) && same_name xs ys

-- The switch over `c.config.Encoding`.
unfoldable pub encoding_named : List ℕ → Result Encoding
encoding_named name =
    if same_name name tight_name
    then ok (tight [] 0)
    else if same_name name zrle_name
    then ok (zrle [] 0)
    else if same_name name raw_name
    then ok (raw [])
    else err invalid_encoding

-- The conversion of an int to uint32.
abbrev pub u32_of : ℤ → ℕ
u32_of (pos n) = n % 4294967296
u32_of (negsuc n) = 4294967295 - n % 4294967296

-- A level other than -1 is a pseudo-encoding.
unfoldable pub level_encoding : (ℕ → Encoding) → ℤ → List Encoding
level_encoding f (negsuc zero) = []
level_encoding f (negsuc (suc n)) = f (u32_of (negsuc (suc n))) ∷ []
level_encoding f (pos n) = f (u32_of (pos n)) ∷ []

unfoldable pub level_encodings : VncSessionConfig → List Encoding
level_encodings c =
    level_encoding quality_level c.quality_level
    ++ (level_encoding compress_level c.compress_level
        ++ (level_encoding fine_quality_level c.fine_quality_level
            ++ level_encoding subsample_level c.subsample_level))

-- One byte for each of red, green and blue.
abbrev pub rgb_format : PixelFormat
rgb_format = record {
  bpp = 32;
  depth = 24;
  big_endian = false;
  true_color = true;
  red_max = 255;
  green_max = 255;
  blue_max = 255;
  red_shift = 0;
  green_shift = 8;
  blue_shift = 16;
}

abbrev pub either : Option Error → Option Error → Option Error
either none e = e
either (some e') e = some e'

module _ {I : Type 0} where
  -- `NewVNCSession`: the correct configuration, and nothing has happened yet.
  unfoldable pub new_vnc_session : VncSessionConfig → Option (List Region) → VncSession I
  new_vnc_session config subscription = record {
    config = correct_config config;
    subscription = subscription;
    error = none;
    closed = false;
    has_renderer = false;
    calls = [];
    live = none;
    is_connected = false;
  }

  -- The screens of a session that has just been connected.
  unfoldable pub new_session : Option (List Region) → ClientConn I → Session I
  new_session subscription conn = record {
    conn = conn;
    front_screen = new_screen conn.framebuffer_width conn.framebuffer_height;
    back_screen = new_screen conn.framebuffer_width conn.framebuffer_height;
    back_updated = true;
    deferred_updates = [];
    deferred_updates_max = 60;
    pause_updates = false;
    subscription = subscription;
    renderer_active = false;
    renderer = [];
    reported = none;
    resuming = 0;
  }

  -- The error that `c.err` holds: the first that `connect` or the running session reported.
  abbrev pub reported_of : Option (Session I) → Option Error
  reported_of none = none
  reported_of (some s) = s.reported

  abbrev pub error_of : VncSession I → Option Error
  error_of v = either v.error (reported_of v.live)

  -- `conn.Close()`: writes fail from now on.
  abbrev pub close_conn : Session I → Session I
  close_conn s = record s { conn = record s.conn { broken = some closed_connection } }

  -- The last part of `Close`, where there is a connection, and perhaps an active renderer.
  abbrev pub close_live : Option (Session I) → VncSession I → VncSession I
  close_live none v = v
  close_live (some s) v = record v {
    live = some (close_conn s);
    is_connected = false;
    calls = if s.renderer_active then v.calls ++ close_call ∷ [] else v.calls;
  }

  abbrev pub close_unless : Bool → Exec (VncSession I) (Unit {0})
  close_unless true v = (ok tt, v)
  close_unless false v = (ok tt, close_live v.live (record v { closed = true }))

  -- The deferred call of `mainLoop`, once it has met an error, whoever hears of the error.
  unfoldable pub hang_up : Session I → VncSession I → VncSession I
  hang_up s v = record v { live = some (close_conn s); is_connected = false }

  -- The goroutine of `connect` that passes on an error of `mainLoop`.
  unfoldable pub hear : Error → Session I → Session I
  hear e s = record s { reported = first_error s.reported e }

  unfoldable pub close : Exec (VncSession I) (Unit {0})
  close v = close_unless v.closed v

  abbrev pub subscribe : Option (Session I) → Option (List Region) → Option (Session I)
  subscribe none subs = none
  subscribe (some s) subs = some (record s { subscription = subs })

  unfoldable pub set_subscription : Option (List Region) → Exec (VncSession I) (Unit {0})
  set_subscription subs =
      modify (λ v. record v { subscription = subs; live = subscribe v.live subs })

  abbrev pub is_rendering : Option (Session I) → Bool
  is_rendering none = false
  is_rendering (some s) = s.renderer_active

  unfoldable pub set_renderer : Exec (VncSession I) (Unit {0})
  set_renderer v =
      if is_rendering v.live
      then (err renderer_active, v)
      else (ok tt, record v { has_renderer = true })
