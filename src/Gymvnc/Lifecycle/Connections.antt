-- ===== src/Gymvnc/Lifecycle/Connections.antt =====
-- What the operations of a session do to its connection and its screens.
use go_vncdriver.Common.{ℕ, refl, List, [], ◌∷◌, ◌++◌}
use go_vncdriver.Common.Bytes.{be16, be32}
use go_vncdriver.Vncclient.PixelFormat.{bool_byte}
use go_vncdriver.Vncclient.Wire.Laws.{reslice_exact}
use go_vncdriver.Vncclient.Client.{
  key_event, pointer_event, key_event_message, pointer_event_message,
}
use go_vncdriver.Vncclient.Client.RoundTrip.{IsCapacity}
use go_vncdriver.Gymvnc.Events.{VncEvent, key_press, pointer, execute, execute_all}
use go_vncdriver.Gymvnc.Session.Requests.{IsRequest, write-IsRequest, then-IsRequest}

module _ (capacity : ℕ → ℕ) (cap : IsCapacity capacity) (I : Type 0) where
  pub execute-IsRequest : (e : VncEvent) → IsRequest I (execute capacity e)
  unfolding execute key_event pointer_event key_event_message pointer_event_message
  execute-IsRequest (key_press keysym down) c =
      rw
        (reslice_exact (capacity 8) (4 ∷ bool_byte down ∷ 0 ∷ 0 ∷ be32 keysym) 8 (cap.grows 8) refl)
        (write-IsRequest I (4 ∷ bool_byte down ∷ 0 ∷ 0 ∷ be32 keysym) c)
  execute-IsRequest (pointer mask x y) c =
      rw (reslice_exact (capacity 6) (5 ∷ mask ∷ (be16 x ++ be16 y)) 6 (cap.grows 6) refl)
        (write-IsRequest I (5 ∷ mask ∷ (be16 x ++ be16 y)) c)

  -- The events never panic, and keep the framebuffer's width.
  pub execute_all-IsRequest : (es : List VncEvent) → IsRequest I (execute_all capacity es)
  unfolding execute_all
  execute_all-IsRequest [] = λ c. (tt, refl)
  execute_all-IsRequest (e ∷ es) =
      then-IsRequest I (execute capacity e) (execute_all capacity es) (execute_all-IsRequest es)
        (execute-IsRequest e)
