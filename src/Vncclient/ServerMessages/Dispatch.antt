-- ===== src/Vncclient/ServerMessages/Dispatch.antt =====
-- The messages that `mainLoop` of vncclient/client.go tells apart by their first byte.
use go_vncdriver.Common.{ℕ, ◌≤◌, ◌≡◌, refl, List, [], ◌∷◌, ◌++◌, arith, length, ne→eqb}
use go_vncdriver.Common.Bytes.{be32, IsU32}
use go_vncdriver.Common.Exec.{Exec, ok, err, no_such_message}
use go_vncdriver.Vncclient.Wire.{read_full}
use go_vncdriver.Vncclient.Wire.Laws.{read_full-append, read_u8-cons, read_u32-be32}
use go_vncdriver.Vncclient.Encoding.{Encoding, Rectangle}
use go_vncdriver.Vncclient.Client.{ClientConn}
use go_vncdriver.Vncclient.ServerMessages.{server_cut_text, server_cut_text_read, read_message}

-- A slice without elements is read without looking at the stream.
read_full-text : (text rest : List ℕ) → read_full (length text) (text ++ rest) ≡ (ok text, rest)
unfolding read_full
read_full-text [] rest = refl
read_full-text (t ∷ ts) rest = read_full-append (t ∷ ts) rest (omega arith)

module _ {I : Type 0} (inflate : List ℕ → Exec I (List ℕ))
    (tight_read : Rectangle → Exec (ClientConn I) Encoding) (c : ClientConn I) where
  -- `mainLoop` reads a cut text of less than 2 ^ 32 bytes whole, whatever the padding holds and
  -- whatever follows it.
  pub read_message-server_cut_text :
      (p p' p'' : ℕ) (text rest : List ℕ)
      → IsU32 (length text)
      → c.input ≡ 3 ∷ p ∷ p' ∷ p'' ∷ (be32 (length text) ++ (text ++ rest))
      → read_message inflate tight_read c ≡ (ok (server_cut_text text), record c { input = rest })
  unfolding read_message server_cut_text_read
  read_message-server_cut_text p p' p'' text rest h e = rw e (
      rw (read_u8-cons 3 (p ∷ p' ∷ p'' ∷ (be32 (length text) ++ (text ++ rest)))) (
        rw
          (read_full-append (p ∷ p' ∷ p'' ∷ []) (be32 (length text) ++ (text ++ rest))
            (omega arith))
          (rw (read_u32-be32 (length text) (text ++ rest) h) (rw (read_full-text text rest)))))

  -- A message of a type that RFC 6143 does not have ends the reading with an error, and only its
  -- first byte is taken.
  pub read_message_unknown :
      (t : ℕ) (rest : List ℕ)
      → 4 ≤ t
      → c.input ≡ t ∷ rest
      → read_message inflate tight_read c ≡ (err no_such_message, record c { input = rest })
  unfolding read_message
  read_message_unknown t rest h e = rw e (
      rw (read_u8-cons t rest) (
        rw (
          ne→eqb t 0 (omega arith),
          ne→eqb t 1 (omega arith),
          ne→eqb t 2 (omega arith),
          ne→eqb t 3 (omega arith),
        )))
