-- ===== src/Vncclient/Client/Stream.antt =====
-- Several messages of a client, one behind the other.
use go_vncdriver.Common.{
  ℕ, ◌≡◌, refl, ap, ◌∙◌, sym, List, [], ◌∷◌, ◌++◌, append_assoc, append-nil, some,
}
use go_vncdriver.Common.Exec.{Exec, ok, pure, ◌>>◌}
use go_vncdriver.Vncclient.Client.{ClientConn}
use go_vncdriver.Vncclient.Client.Rfc.{ClientMessage, parse_message}

-- A server that reads message after message from these bytes gets these messages, and then the
-- bytes are used up.
abbrev pub Carries : List ClientMessage → List ℕ → Type 0
Carries [] bs = bs ≡ []
Carries (m ∷ ms) bs =
    (b : List ℕ) × (rest : List ℕ) × (bs ≡ b ++ rest)
    × ((after : List ℕ) → parse_message (b ++ after) ≡ some (m, after))
    × Carries ms rest

pub Carries-append :
    (ms ns : List ClientMessage) (bs cs : List ℕ)
    → Carries ms bs
    → Carries ns cs
    → Carries (ms ++ ns) (bs ++ cs)
Carries-append [] ns bs cs e h = rw e h
Carries-append (m ∷ ms) ns bs cs (b, rest, e, reads, h) k = (
  b,
  rest ++ cs,
  ap (λ l. l ++ cs) e ∙ append_assoc b rest cs,
  reads,
  Carries-append ms ns rest cs h k,
)

pub Carries-one :
    (r : ClientMessage) (bs : List ℕ)
    → ((rest : List ℕ) → parse_message (bs ++ rest) ≡ some (r, rest))
    → Carries (r ∷ []) bs
Carries-one r bs reads = (bs, [], sym (append-nil bs), reads, refl)

module _ {I : Type 0} where
  -- `m` writes these messages on the connection `c`, and the rest of it becomes that of `d`.
  abbrev pub Transmits :
      Exec (ClientConn I) (Unit {0}) → (c d : ClientConn I) → List ClientMessage → Type 0
  Transmits m c d ms =
      (bs : List ℕ) × (m c ≡ (ok tt, record d { output = c.output ++ bs })) × Carries ms bs

  pub Transmits-nothing : (c : ClientConn I) → Transmits (pure tt) c c []
  Transmits-nothing c = ([], rw (append-nil c.output), refl)

  pub Transmits-then :
      (m n : Exec (ClientConn I) (Unit {0})) (c d e : ClientConn I) (ms ns : List ClientMessage)
      → Transmits m c d ms
      → ((bs : List ℕ) → Transmits n (record d { output = bs }) e ns)
      → Transmits (m >> n) c e (ms ++ ns)
  Transmits-then m n c d e ms ns (bs, p, h) k = step (k (c.output ++ bs))
    where
      step :
          Transmits n (record d { output = c.output ++ bs }) e ns
          → Transmits (m >> n) c e (ms ++ ns)
      step (cs, q, h') = (
        bs ++ cs,
        rw p (rw q (rw (append_assoc c.output bs cs))),
        Carries-append ms ns bs cs h h',
      )
