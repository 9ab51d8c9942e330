-- ===== src/Tests/Batch.antt =====
-- Runs of a batch of gymvnc/gymvnc.go.
use go_vncdriver.Common.{ℕ, ◌≡◌, refl, true, List, [], ◌∷◌, none, some, if◌then◌else◌}
use go_vncdriver.Gymvnc.Events.{VncEvent, key_press}
use go_vncdriver.Gymvnc.Lifecycle.{VncSession, same_name, new_vnc_session}
use go_vncdriver.Gymvnc.Batch.{
  VncBatch, Outcome, observed, batch_open, batch_close, batch_step, session_named, put, find,
  remove,
}
use go_vncdriver.Common.Exec.{ok}
use go_vncdriver.Gymvnc.Lifecycle.Operations.{step}
use go_vncdriver.Gymvnc.Batch.Sessions.{Evicts, batch_open_lem, batch_close_lem}
use go_vncdriver.Gymvnc.Batch.Stepping.{AreKeys, gather, advanced, batch_step_lem}
use go_vncdriver.Tests.Session.{capacity, wild}

abbrev session : VncSession (Unit {0})
session = new_vnc_session wild none

-- "a" and "b"
abbrev batch : VncBatch (Unit {0})
batch = record { sessions = (97 ∷ [], session) ∷ (98 ∷ [], session) ∷ []; gone = [] }

abbrev acts : List (List ℕ × List VncEvent)
acts = (98 ∷ [], key_press 97 true ∷ []) ∷ (97 ∷ [], []) ∷ []

acts-AreKeys : AreKeys acts
unfolding same_name
acts-AreKeys = ((refl, tt), (tt, tt))

abbrev results : List (List ℕ × Outcome)
results = (98 ∷ [], observed none) ∷ (97 ∷ [], observed none) ∷ []

steps :
    batch_step capacity acts batch
    ≡ (ok results, put (97 ∷ []) session (put (98 ∷ []) session batch))
unfolding batch_step find remove same_name step new_vnc_session
steps = refl

batch_step_lem_example :
    (gather capacity acts batch ≡ ok results)
    × (session_named (98 ∷ []) (put (97 ∷ []) session (put (98 ∷ []) session batch))
        ≡ advanced capacity (98 ∷ []) acts (session_named (98 ∷ []) batch))
batch_step_lem_example =
    batch_step_lem capacity acts batch (put (97 ∷ []) session (put (98 ∷ []) session batch)) results
      (98 ∷ []) acts-AreKeys steps

batch_open_lem_example :
    (session_named (98 ∷ []) (batch_open (97 ∷ []) wild none batch).1
      ≡ (if same_name (98 ∷ []) (97 ∷ []) then some session else session_named (98 ∷ []) batch))
    × Evicts (session_named (97 ∷ []) batch) batch (batch_open (97 ∷ []) wild none batch).1
batch_open_lem_example = batch_open_lem (97 ∷ []) (98 ∷ []) wild none batch

batch_close_lem_example :
    (session_named (97 ∷ []) (batch_close (97 ∷ []) batch).1
      ≡ (if same_name (97 ∷ []) (97 ∷ []) then none else session_named (97 ∷ []) batch))
    × Evicts (session_named (97 ∷ []) batch) batch (batch_close (97 ∷ []) batch).1
batch_close_lem_example = batch_close_lem (97 ∷ []) (97 ∷ []) batch
