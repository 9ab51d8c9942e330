-- ===== src/Gymvnc/Lifecycle/Operations.antt =====
-- `Step`, `Render` and `connect` of gymvnc/gymvnc.go.
use go_vncdriver.Common.{
  ℕ, Bool, true, false, List, [], ◌∷◌, ◌++◌, Option, none, some, if◌then◌else◌,
}
use go_vncdriver.Common.Exec.{
  Exec, Result, Error, ok, err, panic, stuck, closed_early, no_renderer, session_closed, pure, lift,
  ◌>>=◌, ◌>>◌,
}
use go_vncdriver.Vncclient.Encoding.{FramebufferUpdate}
use go_vncdriver.Vncclient.Client.{ClientConn, set_pixel_format, set_encodings}
use go_vncdriver.Gymvnc.Config.{VncSessionConfig}
use go_vncdriver.Gymvnc.Screen.{Screen}
use go_vncdriver.Gymvnc.Events.{VncEvent, execute_all}
use go_vncdriver.Gymvnc.Session.{Session, flip, request_update, first_error}
use go_vncdriver.Gymvnc.Lifecycle.{
  VncSession, RendererCall, init_call, render_call, close_call, encoding_named, level_encodings,
  rgb_format, new_session, error_of,
}

-- "go-vncdriver: "
abbrev pub title_prefix : List ℕ
title_prefix = 103 ∷ 111 ∷ 45 ∷ 118 ∷ 110 ∷ 99 ∷ 100 ∷ 114 ∷ 105 ∷ 118 ∷ 101 ∷ 114 ∷ 58 ∷ 32 ∷ []

module _ {I : Type 0} where
  abbrev pub init_of : Session I → RendererCall
  init_of s =
      init_call s.conn.framebuffer_width s.conn.framebuffer_height
        (title_prefix ++ s.conn.desktop_name) s.front_screen.pixels

  -- `Init`, where the renderer is not active.
  abbrev pub activate :
      (active : Bool) → (failed : Option Error) → Session I → Exec (VncSession I) (Unit {0})
  activate true failed s v = (ok tt, v)
  activate false (some e) s v = (err e, record v { calls = v.calls ++ init_of s ∷ [] })
  activate false none s v = (
    ok tt,
    record v {
      calls = v.calls ++ init_of s ∷ [];
      live = some (record s { renderer_active = true });
    },
  )

  abbrev pub call : Bool → Exec (VncSession I) (Unit {0})
  call closing v =
      (ok tt, record v { calls = v.calls ++ (if closing then close_call else render_call) ∷ [] })

-- `init` is the error of the renderer's `Init`, if any.
module _ {I : Type 0} (init : RendererCall → Option Error) where
  abbrev pub render_live : Option (Session I) → Bool → Exec (VncSession I) (Unit {0})
  render_live none closing = pure tt
  render_live (some s) closing = do activate s.renderer_active (init (init_of s)) s; call closing

  unfoldable pub render : Bool → Exec (VncSession I) (Unit {0})
  render closing v =
      if v.has_renderer
      then if v.closed then (err session_closed, v) else render_live v.live closing v
      else (err no_renderer, v)

module _ {I : Type 0} where
  -- The end of `Step`, behind the loop over the events.
  abbrev pub flip_after :
      Result (Unit {0}) → Session I → Exec (VncSession I) (Option (Screen × List FramebufferUpdate))
  flip_after (ok a) s v = let (out, t) = flip s in (ok (some out), record v { live = some t })
  flip_after (err e) s v = (err e, record v { live = some s })
  flip_after (panic x) s v = (panic x, record v { live = some s })
  flip_after stuck s v = (stuck, record v { live = some s })

module _ {I : Type 0} where
  -- Where there is an error, the deferred function closes the connection.
  abbrev pub settle : Result (Unit {0}) → Session I → Exec (VncSession I) (Unit {0})
  settle (ok a) s v = (ok tt, record v { live = some s })
  settle (err e) s v = (err e, record v { is_connected = false })
  settle (panic x) s v = (panic x, v)
  settle stuck s v = (stuck, v)

  abbrev pub store_error : Result (Unit {0}) → Exec (VncSession I) (Unit {0})
  store_error (err e) v = (ok tt, record v { error = first_error v.error e })
  store_error r v = (r, v)

module _ (capacity : ℕ → ℕ) {I : Type 0} where
  -- The result is none where the session is not connected yet.
  abbrev pub step_live :
      List VncEvent
      → Option (Session I)
      → Exec (VncSession I) (Option (Screen × List FramebufferUpdate))
  step_live events none v = (ok none, v)
  step_live events (some s) v =
      let (r, c) = execute_all capacity events s.conn in flip_after r (record s { conn = c }) v

  abbrev pub step_checked :
      Option Error → List VncEvent → Exec (VncSession I) (Option (Screen × List FramebufferUpdate))
  step_checked (some e) events v = (err e, v)
  step_checked none events v = step_live events v.live v

  unfoldable pub step :
      List VncEvent → Exec (VncSession I) (Option (Screen × List FramebufferUpdate))
  step events v = step_checked (error_of v) events v

  -- The pixel format and the encodings that a new connection is told.
  unfoldable pub set_up : VncSessionConfig → Exec (ClientConn I) (Unit {0})
  set_up config = do
    set_pixel_format capacity rgb_format
    encoding ← lift (encoding_named config.encoding)
    set_encodings capacity (encoding ∷ level_encodings config)

  abbrev pub on_conn : Exec (ClientConn I) (Unit {0}) → Exec (Session I) (Unit {0})
  on_conn m s = let (r, c) = m s.conn in (r, record s { conn = c })

  -- What `connect` does with a connection before it waits for messages.
  unfoldable pub establish : VncSessionConfig → Bool → Exec (Session I) (Unit {0})
  establish config closed = do
    on_conn (set_up config)
    request_update capacity
    lift (if closed then err closed_early else ok tt)

  -- What comes of the loop over the attempts.
  abbrev pub connect : Result (ClientConn I) → Exec (VncSession I) (Unit {0})
  connect r = do
    conn ← lift r
    λ v.
        let (r', s) = establish v.config v.closed (new_session v.subscription conn) in
        settle r' s (record v { is_connected = true })

  -- The first goroutine of `start`.
  unfoldable pub start : Result (ClientConn I) → Exec (VncSession I) (Unit {0})
  start r v = let (r', w) = connect r v in store_error r' w
