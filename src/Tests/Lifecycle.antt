-- ===== src/Tests/Lifecycle.antt =====
-- The life of a session of gymvnc/gymvnc.go.
use go_vncdriver.Common.{
  ℕ, zero, suc, ◌*◌, ◌<◌, ◌≡◌, refl, inl, true, false, List, [], ◌∷◌, ◌++◌, Option, none, some,
  arith, replicate, All,
}
use go_vncdriver.Common.Exec.{Error, ok, err, eof, closed_connection}
use go_vncdriver.Vncclient.Color.{black}
use go_vncdriver.Vncclient.Encoding.{tight, quality_level, compress_level, subsample_level, type_of}
use go_vncdriver.Vncclient.PixelFormat.{write_pixel_format, format_bytes, mask_bytes}
use go_vncdriver.Vncclient.Wire.{reslice}
use go_vncdriver.Vncclient.Client.{
  write, set_pixel_format, pixel_format_message, set_encodings, encodings_message,
  framebuffer_update_request, update_request_message,
}
use go_vncdriver.Vncclient.Client.Stream.{Carries}
use go_vncdriver.Gymvnc.Connect.{Target, second, sleep_target, Attempt, retry}
use go_vncdriver.Gymvnc.Connect.Retry.{slept, retry_lem}
use go_vncdriver.Gymvnc.Config.{correct_config, correct_level, default_encoding}
use go_vncdriver.Gymvnc.Screen.{new_screen, draw, apply_encoding, apply_rect, apply_rows, copy_row}
use go_vncdriver.Gymvnc.Screen.Replay.{replay}
use go_vncdriver.Gymvnc.Events.{key_press, execute_all}
use go_vncdriver.Gymvnc.Session.{
  Session, maintain, flip, request_regions, request_subscribed, request_update, apply_update,
  apply_deferred,
}
use go_vncdriver.Gymvnc.Lifecycle.{
  VncSession, RendererCall, new_vnc_session, new_session, encoding_named, same_name, close,
  error_of, level_encoding, level_encodings,
}
use go_vncdriver.Gymvnc.Lifecycle.Operations.{start, step, establish, set_up}
use go_vncdriver.Gymvnc.Lifecycle.Opening.{start_lem, opening, opened}
use go_vncdriver.Gymvnc.Lifecycle.Numbers.{IsNamed}
use go_vncdriver.Gymvnc.Session.Asking.{IsRegion, wanted}
use go_vncdriver.Gymvnc.Lifecycle.Life.{Life, started, updated}
use go_vncdriver.Gymvnc.Lifecycle.Screens.{step_screen}
use go_vncdriver.Gymvnc.Lifecycle.Closing.{step_closed}
use go_vncdriver.Tests.Session.{capacity, capacity-IsCapacity, conn, wild, column, grey}

-- The server is there at the third attempt.
abbrev attempt : ℕ → Attempt ℕ
attempt zero = (err eof, true)
attempt (suc zero) = (err eof, true)
attempt (suc (suc n)) = (ok 7, false)

abbrev timeout : ℕ
timeout = 5 * second

soft : (j : ℕ) → j < 2 → ((attempt j).1 ≡ true) × (slept j < timeout)
unfolding slept sleep_target
soft zero h = (refl, omega arith)
soft (suc zero) h = (refl, omega arith)
soft (suc (suc j)) h = absurd (omega arith)

retry_lem_example : retry timeout attempt 3 0 0 ≡ (ok 7, slept 2)
retry_lem_example = retry_lem timeout attempt 2 3 soft (inl refl) (omega arith)

-- A server of another protocol.
abbrev target : Target
target = record { bytes = replicate 12 7; broken = none }

abbrev des : List ℕ → List ℕ → List ℕ
des key block = block

abbrev I : Type 0
I = Unit {0}

abbrev waiting : VncSession I
waiting = new_vnc_session wild none

named : IsNamed waiting.config.encoding (tight [] 0) 7
unfolding new_vnc_session correct_config default_encoding
named = inl (refl, refl, refl)

fits : All IsRegion (wanted waiting.subscription 2 2)
unfolding new_vnc_session
fits = ((omega arith, omega arith, omega arith, omega arith), tt)

going : waiting.closed ≡ false
unfolding new_vnc_session
going = refl

start_lem_example :
    (bs : List ℕ) × (start capacity (ok conn) waiting ≡ (
      ok tt,
      record waiting { is_connected = true; live = some (opened waiting conn (tight [] 0) bs) },
    ))
    × Carries (opening waiting conn 7) bs
start_lem_example =
    start_lem capacity capacity-IsCapacity waiting conn (tight [] 0) 7 refl named fits going

-- The pixel format, four encodings, and a request for two by two pixels.
abbrev sent : List ℕ
sent =
    0 ∷ 0 ∷ 0 ∷ 0 ∷ 32 ∷ 24 ∷ 0 ∷ 1 ∷ 0 ∷ 255 ∷ 0 ∷ 255 ∷ 0 ∷ 255 ∷ 0 ∷ 8 ∷ 16 ∷ 0 ∷ 0 ∷ 0 ∷ 2 ∷ 0
    ∷ 0 ∷ 4 ∷ 0 ∷ 0 ∷ 0 ∷ 7 ∷ 255 ∷ 255 ∷ 255 ∷ 224 ∷ 255 ∷ 255 ∷ 255 ∷ 9 ∷ 255 ∷ 255 ∷ 253 ∷ 2 ∷ 3
    ∷ 1 ∷ 0 ∷ 0 ∷ 0 ∷ 0 ∷ 0 ∷ 2 ∷ 0 ∷ 2 ∷ []

-- The session that `connect` opens.
abbrev front : Session I
front = new_session none (record conn {
  output = sent;
  color_map = replicate 256 black;
  encs = tight [] 0 ∷ quality_level 0 ∷ compress_level 9 ∷ subsample_level 2 ∷ [];
})

abbrev live : VncSession I
live = record waiting { is_connected = true; live = some front }

opens : start capacity (ok conn) waiting ≡ (ok tt, live)
unfolding start establish set_up set_pixel_format pixel_format_message write_pixel_format reslice
    format_bytes mask_bytes write new_session encoding_named same_name new_vnc_session
    correct_config default_encoding set_encodings encodings_message correct_level level_encoding
    level_encodings new_screen request_regions request_subscribed request_update
    framebuffer_update_request update_request_message type_of
opens = refl

abbrev drawn : Session I
drawn = record front {
  back_screen = record front.back_screen { pixels = black ∷ grey ∷ black ∷ grey ∷ [] };
  deferred_updates = column ∷ [];
}

draws : maintain column front ≡ (ok tt, drawn)
unfolding maintain apply_update apply_deferred draw apply_encoding apply_rect apply_rows copy_row
    new_session new_screen
draws = refl

init : RendererCall → Option Error
init c = none

showing : Life capacity init wild none [] (record live { live = some drawn })
unfolding new_vnc_session
showing = updated (started Life.opened refl (ok conn) opens) refl column draws

abbrev shown : VncSession I
shown = record live { live = some (flip drawn).1 }

stepping :
    step capacity [] (record live { live = some drawn })
    ≡ (ok (some (drawn.back_screen, column ∷ [])), shown)
unfolding step execute_all flip new_session new_vnc_session
stepping = refl

step_screen_example :
    (s : Session I) × (size : ℕ) × (shown.live ≡ some s)
    × (drawn.back_screen.pixels
        ≡ replay s.conn.framebuffer_width ([] ++ column ∷ []) (replicate size black))
step_screen_example =
    step_screen capacity capacity-IsCapacity init wild none showing [] shown drawn.back_screen
      (column ∷ []) stepping

fine : error_of live ≡ none
unfolding new_vnc_session new_session
fine = refl

open' : live.closed ≡ false
unfolding new_vnc_session
open' = refl

step_closed_example :
    (step capacity (key_press 97 true ∷ []) (close live).1
      ≡ (err closed_connection, (close live).1))
    × (t : Session I) × ((close live).1.live ≡ some t)
    × (t.conn.output ≡ front.conn.output)
step_closed_example =
    step_closed capacity capacity-IsCapacity live front (key_press 97 true) [] open' refl fine
