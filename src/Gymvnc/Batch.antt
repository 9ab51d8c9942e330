-- ===== src/Gymvnc/Batch.antt =====
-- `VNCBatch` of gymvnc/gymvnc.go, a map from names to sessions. A map of actions is a list in the
-- order of the iteration.
pub mod Names
pub mod Sessions
pub mod Stepping
use go_vncdriver.Common.{
  ℕ, ◌≡◌, Bool, true, false, List, [], ◌∷◌, ◌++◌, Option, none, some, map, if◌then◌else◌,
}
use go_vncdriver.Common.Exec.{
  Exec, Result, Error, ok, err, panic, stuck, no_such_session, nil_dereference, pure, raise, lift,
  ◌>>=◌, ◌>>◌,
}
use go_vncdriver.Vncclient.Encoding.{FramebufferUpdate}
use go_vncdriver.Gymvnc.Config.{VncSessionConfig}
use go_vncdriver.Gymvnc.Screen.{Screen}
use go_vncdriver.Gymvnc.Events.{VncEvent}
use go_vncdriver.Gymvnc.Session.{Session, Region}
use go_vncdriver.Gymvnc.Lifecycle.{
  VncSession, RendererCall, same_name, new_vnc_session, close, set_subscription, set_renderer,
}
use go_vncdriver.Gymvnc.Lifecycle.Operations.{step, render}

-- `gone` are the sessions that have left the map, in order, as `Close` of a session leaves them; the
-- program keeps no list of them.
pub record VncBatch (I : Type 0) : Type 0 where
  pub sessions : List (List ℕ × VncSession I)
  pub gone : List (VncSession I)

-- What `Step` puts into its maps for a session.
pub data Outcome : Type 0 where
  failed : Error → Outcome
  observed : Option (Screen × List FramebufferUpdate) → Outcome

abbrev pub outcome_of : Result (Option (Screen × List FramebufferUpdate)) → Result Outcome
outcome_of (ok o) = ok (observed o)
outcome_of (err e) = ok (failed e)
outcome_of (panic x) = panic x
outcome_of stuck = stuck

module _ {I : Type 0} where
  -- `v.sessions[name]`
  unfoldable pub find : List ℕ → List (List ℕ × VncSession I) → Option (VncSession I)
  find name [] = none
  find name ((n, v) ∷ rest) =
      let later = find name rest in if same_name name n then some v else later

  -- `delete(v.sessions, name)`
  unfoldable pub remove : List ℕ → List (List ℕ × VncSession I) → List (List ℕ × VncSession I)
  remove name [] = []
  remove name ((n, v) ∷ rest) =
      let later = remove name rest in if same_name name n then later else (n, v) ∷ later

  -- `v.sessions[name] = session`
  abbrev pub put : List ℕ → VncSession I → VncBatch I → VncBatch I
  put name v b = record b { sessions = (name, v) ∷ remove name b.sessions }

  abbrev pub session_named : List ℕ → VncBatch I → Option (VncSession I)
  session_named name b = find name b.sessions

  -- A session is closed and leaves the map.
  abbrev pub evict : Option (VncSession I) → VncBatch I → VncBatch I
  evict none b = b
  evict (some v) b = record b { gone = b.gone ++ (close v).1 ∷ [] }

  unfoldable pub batch_close : List ℕ → Exec (VncBatch I) (Unit {0})
  batch_close name b =
      (ok tt, record (evict (session_named name b) b) { sessions = remove name b.sessions })

  unfoldable pub batch_open :
      List ℕ → VncSessionConfig → Option (List Region) → Exec (VncBatch I) (Unit {0})
  batch_open name config subs b =
      (ok tt, put name (new_vnc_session config subs) (evict (session_named name b) b))

  -- A method of the session of this name, if there is one.
  abbrev pub on_found :
      List ℕ → Exec (VncSession I) (Unit {0}) → Option (VncSession I) → Exec (VncBatch I) (Unit {0})
  on_found name m none b = (err no_such_session, b)
  on_found name m (some v) b = ((m v).0, put name (m v).1 b)

  unfoldable pub batch_set_subscription :
      List ℕ → Option (List Region) → Exec (VncBatch I) (Unit {0})
  batch_set_subscription name subs b =
      on_found name (set_subscription subs) (session_named name b) b

  unfoldable pub batch_set_renderer : List ℕ → Exec (VncBatch I) (Unit {0})
  batch_set_renderer name b = on_found name set_renderer (session_named name b) b

  unfoldable pub batch_render :
      (RendererCall → Option Error) → List ℕ → Bool → Exec (VncBatch I) (Unit {0})
  batch_render init name closing b = on_found name (render init closing) (session_named name b) b

  abbrev pub front_of : Option (Session I) → Option Screen
  front_of none = none
  front_of (some s) = some s.front_screen

  abbrev pub back_of : Option (Session I) → Option Screen
  back_of none = none
  back_of (some s) = some s.back_screen

  unfoldable pub peek : VncBatch I → List (Option Screen)
  peek b = map (λ p. front_of p.1.live) b.sessions

  unfoldable pub peek_back : VncBatch I → List (Option Screen)
  peek_back b = map (λ p. back_of p.1.live) b.sessions

module _ (capacity : ℕ → ℕ) {I : Type 0} where
  -- One round of the loop of `Step`; a name that is not in the map gives a nil session.
  abbrev pub step_found : List ℕ → List VncEvent → Option (VncSession I) → Exec (VncBatch I) Outcome
  step_found name events none b = (panic nil_dereference, b)
  step_found name events (some v) b =
      (outcome_of (step capacity events v).0, put name (step capacity events v).1 b)

  unfoldable pub batch_step :
      List (List ℕ × List VncEvent) → Exec (VncBatch I) (List (List ℕ × Outcome))
  batch_step [] = pure []
  batch_step ((name, events) ∷ rest) = do
    o ← (λ b. step_found name events (session_named name b) b)
    os ← batch_step rest
    pure ((name, o) ∷ os)
