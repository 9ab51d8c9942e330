-- ===== src/Gymvnc/Connect.antt =====
-- `connect` of gymvnc/gymvnc.go up to the connection: the loop over the attempts, and `Client` of
-- vncclient/client.go. Durations are in nanoseconds, and int64 is wide enough for them.
pub mod Retry
pub mod Closing
use go_vncdriver.Common.{
  ℕ, zero, suc, ◌+◌, ◌*◌, Bool, true, false, List, [], ◌∷◌, Option, none, some, ltb, leb, ◌&&◌,
  if◌then◌else◌,
}
use go_vncdriver.Common.Exec.{Exec, Result, Error, ok, err, panic, stuck, closed_connection}
use go_vncdriver.Vncclient.ClientAuth.{password_auth}
use go_vncdriver.Vncclient.Client.{ClientConn}
use go_vncdriver.Vncclient.Handshake.{ClientConfig, new_conn, handshake}

abbrev pub second : ℕ
second = 1000000000

-- Two seconds more for every attempt, and thirty at most.
unfoldable pub sleep_target : ℕ → ℕ
sleep_target i =
    if ltb (30 * second) (2 * (i + 1) * second) then 30 * second else 2 * (i + 1) * second

-- What an attempt comes to, and whether its error is soft.
abbrev pub Attempt : Type 0 → Type 0
Attempt C = Result C × Bool

module _ {C : Type 0} (timeout : ℕ) (attempt : ℕ → Attempt C) where
  -- `i` is the number of the attempt and `total` the time slept so far.
  unfoldable pub retry : (fuel i total : ℕ) → Result C × ℕ
  retry zero i total = (stuck, total)
  retry (suc fuel) i total =
      let rest = retry fuel (i + 1) (total + sleep_target i) in
      if (attempt i).1 && ltb 0 timeout
      then if leb timeout total then ((attempt i).0, total) else rest
      else ((attempt i).0, total)

-- What `net.Dial` gives: the bytes that the server will send, and how writes fail.
pub record Target : Type 0 where
  pub bytes : List ℕ
  pub broken : Option Error

module _ (des : List ℕ → List ℕ → List ℕ) (password : List ℕ) {I : Type 0} (inflator : I) where
  abbrev pub config : ClientConfig
  config = record { auth = some (password_auth password ∷ []); exclusive = false }

  -- `conn.Close()`: writes fail from now on.
  abbrev pub shut : ClientConn I → ClientConn I
  shut c = record c { broken = some closed_connection }

  -- `conn.Close()` and `return nil, err, soft`, or the connection; and what is left of the connection.
  abbrev pub client_result :
      Result (Unit {0}) → Bool → ClientConn I → Attempt (ClientConn I) × ClientConn I
  client_result (ok a) soft c = ((ok c, false), c)
  client_result (err e) soft c = ((err e, soft), shut c)
  client_result (panic x) soft c = ((panic x, false), c)
  client_result stuck soft c = ((stuck, false), c)

  unfoldable pub client : Target → Attempt (ClientConn I) × ClientConn I
  client t =
      let ((r, soft), c) =
        handshake des config (record (new_conn inflator t.bytes) { broken = t.broken }) in
      client_result r soft c

  -- An error of `net.Dial` is soft.
  abbrev pub attempt_of : Result Target → Attempt (ClientConn I)
  attempt_of (ok t) = (client t).0
  attempt_of (err e) = (err e, true)
  attempt_of (panic x) = (panic x, false)
  attempt_of stuck = (stuck, false)
