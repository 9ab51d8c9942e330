-- ===== src/Gymvnc/Events.antt =====
-- gymvnc/action.go, and the loop of `Step` over the events.
use go_vncdriver.Common.{ℕ, ◌≡◌, Bool, List, [], ◌∷◌, none, All, map}
use go_vncdriver.Common.Bytes.{IsU16, IsU32}
use go_vncdriver.Common.Exec.{Exec, pure, ◌>>◌}
use go_vncdriver.Vncclient.Client.{ClientConn, key_event, pointer_event}
use go_vncdriver.Vncclient.Client.Rfc.{ClientMessage}
use go_vncdriver.Vncclient.Client.RoundTrip.{IsCapacity}
use go_vncdriver.Vncclient.Client.Sends.{key_event-Sends, pointer_event-Sends}
use go_vncdriver.Vncclient.Client.Stream.{Transmits, Transmits-nothing, Transmits-then, Carries-one}

pub data VncEvent : Type 0 where
  key_press : (keysym : ℕ) → (down : Bool) → VncEvent
  pointer : (mask x y : ℕ) → VncEvent

-- The fields fit their types: uint32, and uint16 for a position.
abbrev pub IsEvent : VncEvent → Type 0
IsEvent (key_press keysym down) = IsU32 keysym
IsEvent (pointer mask x y) = IsU16 x × IsU16 y

-- What a server reads.
abbrev pub message_of : VncEvent → ClientMessage
message_of (key_press keysym down) = ClientMessage.key_event down keysym
message_of (pointer mask x y) = ClientMessage.pointer_event mask x y

module _ (capacity : ℕ → ℕ) {I : Type 0} where
  unfoldable pub execute : VncEvent → Exec (ClientConn I) (Unit {0})
  execute (key_press keysym down) = key_event capacity keysym down
  execute (pointer mask x y) = pointer_event capacity mask x y

  -- The loop ends at the first error.
  unfoldable pub execute_all : List VncEvent → Exec (ClientConn I) (Unit {0})
  execute_all [] = pure tt
  execute_all (e ∷ es) = execute e >> execute_all es

module _ (capacity : ℕ → ℕ) (cap : IsCapacity capacity) {I : Type 0} where
  execute_lem :
      (e : VncEvent) (c : ClientConn I)
      → c.broken ≡ none
      → IsEvent e
      → Transmits (execute capacity e) c c (message_of e ∷ [])
  unfolding execute
  execute_lem (key_press keysym down) c h fits =
      let (bs, p, reads) = key_event-Sends capacity cap c h keysym down fits in
      (bs, p, Carries-one (ClientMessage.key_event down keysym) bs reads)
  execute_lem (pointer mask x y) c h (fits, fits') =
      let (bs, p, reads) = pointer_event-Sends capacity cap c h mask x y fits fits' in
      (bs, p, Carries-one (ClientMessage.pointer_event mask x y) bs reads)

  -- The events are written in order, each once, and a server reads them back.
  pub execute_all_lem :
      (es : List VncEvent) (c : ClientConn I)
      → c.broken ≡ none
      → All IsEvent es
      → Transmits (execute_all capacity es) c c (map message_of es)
  unfolding execute_all
  execute_all_lem [] c h fits = Transmits-nothing c
  execute_all_lem (e ∷ es) c h (fit, fits) =
      Transmits-then (execute capacity e) (execute_all capacity es) c c c (message_of e ∷ [])
        (map message_of es) (execute_lem e c h fit)
        (λ bs. execute_all_lem es (record c { output = bs }) h fits)
