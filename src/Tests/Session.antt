-- ===== src/Tests/Session.antt =====
-- A run of a session of gymvnc/gymvnc.go.
use go_vncdriver.Common.{ℕ, ◌+◌, ◌<◌, ◌≡◌, refl, true, false, [], ◌∷◌, ◌++◌, none, arith, replicate}
use go_vncdriver.Common.Exec.{ok}
use go_vncdriver.Vncclient.Color.{Color, black}
use go_vncdriver.Vncclient.PixelFormat.{no_format}
use go_vncdriver.Vncclient.Encoding.{FramebufferUpdate, raw}
use go_vncdriver.Vncclient.Client.{ClientConn}
use go_vncdriver.Vncclient.Client.RoundTrip.{IsCapacity}
use go_vncdriver.Gymvnc.Screen.{Screen, draw, apply_encoding, apply_rect, apply_rows, copy_row}
use go_vncdriver.Vncclient.Encoding.{Rectangle}
use go_vncdriver.Common.{get_elem?, if◌then◌else◌, ◌*◌, ◌-◌}
use go_vncdriver.Gymvnc.Config.{
  VncSessionConfig, pos, negsuc, AreCorrections, IsCorrect, correct_config, correct_config_lem,
}
use go_vncdriver.Gymvnc.Screen.Place.{covers, apply_rect_lem}
use go_vncdriver.Gymvnc.Screen.Replay.{replay}
use go_vncdriver.Gymvnc.Session.Pausing.{maintain_pauses}
use go_vncdriver.Gymvnc.Session.{
  request_next, Session, maintain, flip, resume, apply_update, apply_deferred,
}
use go_vncdriver.Gymvnc.Session.Asking.{Asks}
use go_vncdriver.Gymvnc.Session.Reach.{Reach, here, updated, IsFresh, flip_screen, flip_ends_pause}

abbrev pub capacity : ℕ → ℕ
capacity n = n + 64

pub capacity-IsCapacity : IsCapacity capacity
capacity-IsCapacity = record { grows = λ n. omega arith; smallest = λ n h. omega arith }

abbrev pub grey : Color
grey = record { r = 128; g = 128; b = 128 }

-- Two by two pixels.
abbrev pub conn : ClientConn (Unit {0})
conn = record {
  input = [];
  output = [];
  broken = none;
  inflator = tt;
  color_map = [];
  encs = [];
  framebuffer_width = 2;
  framebuffer_height = 2;
  desktop_name = [];
  pixel_format = no_format;
}

abbrev small : Screen
small = record { pixels = replicate 4 black; width = 2; height = 2 }

abbrev fresh : Session (Unit {0})
fresh = record {
  conn = conn;
  front_screen = small;
  back_screen = small;
  back_updated = true;
  deferred_updates = [];
  deferred_updates_max = 60;
  pause_updates = false;
  subscription = none;
  renderer_active = false;
  renderer = [];
  reported = none;
  resuming = 0;
}

fresh-IsFresh : IsFresh fresh
fresh-IsFresh = record { level = refl; updated = refl; empty = refl }

-- The right column turns grey.
abbrev pub column : FramebufferUpdate
column =
    record { rect = record { x = 1; y = 0; width = 1; height = 2 }; enc = raw (grey ∷ grey ∷ []) }
    ∷ []

abbrev drawn : Session (Unit {0})
drawn = record fresh {
  back_screen = record small { pixels = black ∷ grey ∷ black ∷ grey ∷ [] };
  deferred_updates = column ∷ [];
}

one_round : maintain column fresh ≡ (ok tt, drawn)
unfolding maintain apply_update apply_deferred draw apply_encoding apply_rect apply_rows copy_row
one_round = refl

one_update : Reach capacity fresh [] drawn
one_update = updated here column one_round

flip_screen_example :
    (flip drawn).0.0.pixels
    ≡ replay (flip drawn).1.conn.framebuffer_width ([] ++ (flip drawn).0.1) (replicate 4 black)
flip_screen_example = flip_screen capacity capacity-IsCapacity fresh fresh-IsFresh one_update

-- A queue for one update.
abbrev short : Session (Unit {0})
short = record fresh { deferred_updates_max = 1 }

abbrev full : Session (Unit {0})
full = record drawn { deferred_updates_max = 1; pause_updates = true }

limit_hit : maintain column short ≡ (ok tt, full)
unfolding maintain apply_update apply_deferred draw apply_encoding apply_rect apply_rows copy_row
limit_hit = refl

short-IsFresh : IsFresh short
short-IsFresh = record { level = refl; updated = refl; empty = refl }

flip_ends_pause_example :
    (0 < (flip full).1.resuming)
    × ((resume capacity (flip full).1).0 ≡ ok tt)
    × ((resume capacity (flip full).1).1.pause_updates ≡ false)
    × ((resume capacity (flip full).1).1.back_updated ≡ true)
    × Asks full.subscription full.conn (resume capacity (flip full).1).1.conn
flip_ends_pause_example =
    flip_ends_pause capacity capacity-IsCapacity short short-IsFresh (updated here column limit_hit)
      refl (refl, ((omega arith, omega arith, omega arith, omega arith), tt))

maintain_pauses_example : (full.pause_updates ≡ true) × (request_next capacity full ≡ (ok tt, full))
maintain_pauses_example = maintain_pauses capacity short full column limit_hit (omega arith)

abbrev right : Rectangle
right = record { x = 1; y = 0; width = 1; height = 2 }

-- The lower right pixel.
apply_rect_lem_example :
    ((apply_rect 2 right (grey ∷ grey ∷ []) small.pixels).0 ≡ ok tt)
    × (get_elem? (apply_rect 2 right (grey ∷ grey ∷ []) small.pixels).1 (2 * 1 + 1) ≡ (
        if covers right 1 1
        then get_elem? (grey ∷ grey ∷ []) (right.width * (1 - right.y) + (1 - right.x))
        else get_elem? small.pixels (2 * 1 + 1)))
apply_rect_lem_example =
    apply_rect_lem 2 2 right (grey ∷ grey ∷ []) (omega arith) (omega arith) (omega arith)
      (omega arith) refl small.pixels 1 1 refl (omega arith)

-- Levels below, above and inside their ranges.
abbrev pub wild : VncSessionConfig
wild = record {
  encoding = [];
  quality_level = negsuc 6;
  compress_level = pos 12;
  fine_quality_level = negsuc 0;
  subsample_level = pos 2;
}

correct_config_lem_example :
    AreCorrections wild (correct_config wild)
    × IsCorrect (correct_config wild)
    × (correct_config (correct_config wild) ≡ correct_config wild)
correct_config_lem_example = correct_config_lem wild
