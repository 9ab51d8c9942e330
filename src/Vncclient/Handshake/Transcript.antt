-- ===== src/Vncclient/Handshake/Transcript.antt =====
-- A whole handshake with a server of version 3.8 that asks for a password.
use go_vncdriver.Common.{
  ℕ, ◌<◌, ◌≡◌, refl, false, List, [], ◌∷◌, ◌++◌, some, arith, length, ne→eqb, take, drop,
  if◌then◌else◌,
}
use go_vncdriver.Common.Bytes.{IsU16, IsU32, be16, be32}
use go_vncdriver.Common.Exec.{ok}
use go_vncdriver.Vncclient.PixelFormat.{PixelFormat, IsPixelFormat, format_bytes}
use go_vncdriver.Vncclient.PixelFormat.RoundTrip.{on_wire, padding, read_pixel_format_lem}
use go_vncdriver.Vncclient.Client.{ClientConn, write}
use go_vncdriver.Vncclient.ClientAuth.{
  password_auth, security_type, key_bytes, encrypt, auth_handshake, password_handshake,
}
use go_vncdriver.Vncclient.Wire.{read_full}
use go_vncdriver.Vncclient.Wire.Laws.{read_full-append, read_u8-cons, read_u16-be16, read_u32-be32}
use go_vncdriver.Vncclient.Handshake.{
  ClientConfig, auth_methods, new_conn, find_auth, handshake, negotiate, initialise,
  security_handshake_version8, parse_protocol_version, version_bytes, scan_version, scan_number,
  scan_first, scan_digits, scan_byte, skip_blanks,
}

-- ServerInit, behind a SecurityResult that is 0.
abbrev pub server_init : (w h : ℕ) → PixelFormat → List ℕ → List ℕ → List ℕ
server_init w h pf name rest =
    be32 0
    ++ (be16 w
        ++ (be16 h ++ ((format_bytes pf ++ padding pf) ++ (be32 (length name) ++ (name ++ rest)))))

version_8 : parse_protocol_version (version_bytes 8) ≡ ok (3, 8)
unfolding parse_protocol_version scan_version scan_number scan_first scan_digits scan_byte
    skip_blanks
version_8 = refl

-- The two blocks that answer a challenge.
abbrev pub response : (List ℕ → List ℕ → List ℕ) → List ℕ → List ℕ → List ℕ
response des ks challenge = des ks (take 8 challenge) ++ des ks (take 8 (drop 8 challenge))

-- A connection on which nothing but bytes was written.
abbrev wrote : {I : Type 0} → I → List ℕ → List ℕ → ClientConn I
wrote inflator input output = record (new_conn inflator input) { output = output }

module _ (des : List ℕ → List ℕ → List ℕ) (cfg : ClientConfig) {I : Type 0} (inflator : I) where
  initialise_lem :
      (w h : ℕ) (pf : PixelFormat) (name rest output : List ℕ)
      → IsU16 w
      → IsU16 h
      → IsPixelFormat pf
      → 0 < length name
      → IsU32 (length name)
      → initialise des cfg (wrote inflator (server_init w h pf name rest) output) ≡ (
        ok tt,
        record (wrote inflator rest (output ++ ((if cfg.exclusive then 0 else 1) ∷ []))) {
          framebuffer_width = w;
          framebuffer_height = h;
          pixel_format = on_wire pf;
          desktop_name = name;
        },
      )
  unfolding initialise write
  initialise_lem w h pf name rest output hw hh v hn hl = rw (read_u32-be32 0 _ (omega arith)) (
      rw (read_u16-be16 w _ hw) (
        rw (read_u16-be16 h _ hh) (
          rw (read_pixel_format_lem pf _ v)
            (rw (read_u32-be32 (length name) _ hl) (rw (read_full-append name rest hn))))))

  security_lem :
      (types challenge rest password ks : List ℕ)
      → 0 < length types
      → length challenge ≡ 16
      → find_auth types (auth_methods cfg) ≡ some (password_auth password)
      → key_bytes password ≡ ok ks
      → security_handshake_version8 des cfg
          (new_conn inflator (length types ∷ (types ++ (challenge ++ rest))))
        ≡ (ok tt, wrote inflator rest (version_bytes 8 ++ (2 ∷ response des ks challenge)))
  unfolding security_handshake_version8 write auth_handshake password_handshake encrypt
      security_type
  security_lem types challenge rest password ks ht hc hf hk = rw (read_u8-cons (length types) _) (
      rw (ne→eqb (length types) 0 (omega arith))
        (rw (read_full-append types _ ht) (rw hf (rw challenge_read (rw hk)))))
    where
      challenge_read : read_full 16 (challenge ++ rest) ≡ (ok challenge, rest)
      challenge_read = rw (← hc) (read_full-append challenge rest (omega (arith, hc)))

  -- A server of version 3.8 whose list of types makes the client choose the password: whatever
  -- follows the handshake, the client ends it without an error, has sent its version, its choice,
  -- the encrypted challenge and the sharing flag, and holds the server's size, format and name.
  -- The connection is new, the challenge has sixteen bytes, the security result is 0, the format's
  -- fields fit their types, and the name is not empty.
  pub handshake_password :
      (types challenge rest password ks : List ℕ) (w h : ℕ) (pf : PixelFormat) (name : List ℕ)
      → 0 < length types
      → length challenge ≡ 16
      → find_auth types (auth_methods cfg) ≡ some (password_auth password)
      → key_bytes password ≡ ok ks
      → IsU16 w
      → IsU16 h
      → IsPixelFormat pf
      → 0 < length name
      → IsU32 (length name)
      → let input =
          version_bytes 8
          ++ (length types ∷ (types ++ (challenge ++ server_init w h pf name rest))) in
        handshake des cfg (new_conn inflator input) ≡ (
          (ok tt, false),
          record (new_conn inflator rest) {
            output =
                version_bytes 8
                ++ (2 ∷ (response des ks challenge ++ ((if cfg.exclusive then 0 else 1) ∷ [])));
            framebuffer_width = w;
            framebuffer_height = h;
            pixel_format = on_wire pf;
            desktop_name = name;
          },
        )
  unfolding handshake negotiate
  handshake_password types challenge rest password ks w h pf name ht hc hf hk hw hh v hn hl =
      rw (read_full-append (version_bytes 8) _ (omega arith)) (
        rw version_8 (
          rw (security_lem types challenge (server_init w h pf name rest) password ks ht hc hf hk)
            (rw (initialise_lem w h pf name rest _ hw hh v hn hl))))
