-- ===== src/Gymvnc/Connect/Closing.antt =====
-- What `Client` of vncclient/client.go leaves of its connection.
use go_vncdriver.Common.{ℕ, ◌≡◌, List, some}
use go_vncdriver.Common.Exec.{Result, ok, err, panic, stuck, closed_connection}
use go_vncdriver.Vncclient.Client.{ClientConn}

module _ (des : List ℕ → List ℕ → List ℕ) (password : List ℕ) {I : Type 0} (inflator : I) where
  -- The connection behind a result: handed on, or closed where there is an error.
  abbrev pub IsSettled : Result (ClientConn I) → ClientConn I → Type 0
  IsSettled (ok d) c = d ≡ c
  IsSettled (err e) c = c.broken ≡ some closed_connection
  IsSettled (panic x) c = Unit
  IsSettled stuck c = Unit
