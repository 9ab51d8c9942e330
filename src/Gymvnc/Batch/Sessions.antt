-- ===== src/Gymvnc/Batch/Sessions.antt =====
-- The operations of a `VNCBatch` on its sessions.
use go_vncdriver.Common.{
  ◌++◌, ℕ, ◌≡◌, refl, ap, ◌∙◌, Bool, true, List, [], ◌∷◌, Option, none, some, Bool-cases, inl, inr,
  if◌then◌else◌,
}
use go_vncdriver.Common.Exec.{Error, err, no_such_session}
use go_vncdriver.Gymvnc.Config.{VncSessionConfig}
use go_vncdriver.Gymvnc.Session.{Region}
use go_vncdriver.Gymvnc.Lifecycle.{VncSession, RendererCall, same_name, new_vnc_session, close}
use go_vncdriver.Gymvnc.Lifecycle.Closing.{close_lem}
use go_vncdriver.Gymvnc.Batch.{
  find, remove, VncBatch, session_named, evict, batch_close, batch_open, batch_set_subscription,
  batch_set_renderer, batch_render,
}
use go_vncdriver.Gymvnc.Batch.Names.{same_name_eq, find-remove, find-removed, find-put}

-- What leaves the map is the session that was there, if any, and it has been closed: it is marked so,
-- and its connection, if it has one, does not write any more.
abbrev pub Evicts : {I : Type 0} → Option (VncSession I) → (b b' : VncBatch I) → Type 0
Evicts none b b' = b'.gone ≡ b.gone
Evicts {I} (some v) b b' =
    (w : VncSession I) × (b'.gone ≡ b.gone ++ w ∷ []) × (w ≡ (close v).1) × (w.closed ≡ true)

module _ {I : Type 0} where
  evict-Evicts :
      (o : Option (VncSession I)) (b : VncBatch I) (l : List (List ℕ × VncSession I))
      → Evicts o b (record (evict o b) { sessions = l })
  evict-Evicts none b l = refl
  evict-Evicts (some v) b l = ((close v).1, refl, refl, (close_lem v).0)

  evict-sessions : (o : Option (VncSession I)) (b : VncBatch I) → (evict o b).sessions ≡ b.sessions
  evict-sessions none b = refl
  evict-sessions (some v) b = refl

  -- `Open` puts a new session under its name and leaves the other names alone. A session that had the
  -- name is what `Close` makes of it, closed, and no other session has left the map.
  pub batch_open_lem :
      (name m : List ℕ) (config : VncSessionConfig) (subs : Option (List Region)) (b : VncBatch I)
      → let b' = (batch_open name config subs b).1 in
        (session_named m b'
          ≡ (if same_name m name then some (new_vnc_session config subs) else session_named m b))
        × Evicts (session_named name b) b b'
  unfolding batch_open
  batch_open_lem name m config subs b = (
    find-put m name (new_vnc_session config subs) (evict (session_named name b) b)
        ∙ ap (λ s. if same_name m name then some (new_vnc_session config subs) else find m s)
            (evict-sessions (session_named name b) b),
    evict-Evicts (session_named name b) b _,
  )

  -- After `Close` the name is gone and the other names are as they were. A session that had the name
  -- is what `Close` of the session makes of it, closed, and no other session has left the map.
  pub batch_close_lem :
      (name m : List ℕ) (b : VncBatch I)
      → let b' = (batch_close name b).1 in
        (session_named m b' ≡ (if same_name m name then none else session_named m b))
        × Evicts (session_named name b) b b'
  unfolding batch_close
  batch_close_lem name m b = (
    elim (Bool-cases (same_name m name)) [
      | inl same ↦ rw same (
          ap (λ n. find n (remove name b.sessions)) (same_name_eq m name same)
          ∙ find-removed name b.sessions)
      | inr other ↦ rw other (find-remove m name b.sessions other)
    ],
    evict-Evicts (session_named name b) b _,
  )

  -- For a name that is not in the map `SetSubscription`, `SetRenderer` and `Render` return an error
  -- and change nothing.
  pub batch_missing :
      (init : RendererCall → Option Error) (name : List ℕ) (subs : Option (List Region))
      (closing : Bool) (b : VncBatch I)
      → session_named name b ≡ none
      → (batch_set_subscription name subs b ≡ (err no_such_session, b))
        × (batch_set_renderer name b ≡ (err no_such_session, b))
        × (batch_render init name closing b ≡ (err no_such_session, b))
  unfolding batch_set_subscription batch_set_renderer batch_render
  batch_missing init name subs closing b h = (rw h refl, rw h refl, rw h refl)
