-- ===== src/Tests/Handshake.antt =====
-- A run of the handshake of vncclient/client.go with password authentication.
use go_vncdriver.Common.{
  ℕ, ◌≡◌, refl, true, false, List, [], ◌∷◌, ◌++◌, some, arith, take, map, replicate, if◌then◌else◌,
}
use go_vncdriver.Common.Exec.{ok}
use go_vncdriver.Vncclient.PixelFormat.{PixelFormat}
use go_vncdriver.Vncclient.PixelFormat.RoundTrip.{on_wire}
use go_vncdriver.Vncclient.ClientAuth.{none_auth, password_auth, key_bytes, security_type}
use go_vncdriver.Vncclient.ClientAuth.Laws.{reversed, key_bytes_lem}
use go_vncdriver.Vncclient.Handshake.{
  ClientConfig, auth_methods, new_conn, find_auth, offers, handshake, version_bytes,
}
use go_vncdriver.Vncclient.Handshake.Methods.{IsFirst, find_auth-IsFirst}
use go_vncdriver.Vncclient.Handshake.Transcript.{server_init, response, handshake_password}

-- The password "vnc".
abbrev password : List ℕ
password = 118 ∷ 110 ∷ 99 ∷ []

key_bytes_lem_example :
    key_bytes password ≡ ok (take 8 (map (reversed 8) password ++ replicate 8 0))
key_bytes_lem_example = key_bytes_lem password (omega arith, (omega arith, (omega arith, tt)))

abbrev key : List ℕ
key = 110 ∷ 118 ∷ 198 ∷ 0 ∷ 0 ∷ 0 ∷ 0 ∷ 0 ∷ []

key_of_password : key_bytes password ≡ ok key
key_of_password = key_bytes_lem_example

-- A cipher that puts the key's first byte in front of the block.
abbrev cipher : List ℕ → List ℕ → List ℕ
cipher ks block = take 8 (ks ++ block)

abbrev config : ClientConfig
config = record { auth = some (password_auth password ∷ none_auth ∷ []); exclusive = true }

-- The server offers no authentication as well as a password.
abbrev offered : List ℕ
offered = 1 ∷ 2 ∷ []

password_chosen : find_auth offered (auth_methods config) ≡ some (password_auth password)
unfolding find_auth offers security_type
password_chosen = refl

abbrev challenge : List ℕ
challenge = replicate 16 7

abbrev server_format : PixelFormat
server_format = record {
  bpp = 32;
  depth = 24;
  big_endian = false;
  true_color = true;
  red_max = 255;
  green_max = 255;
  blue_max = 255;
  red_shift = 0;
  green_shift = 8;
  blue_shift = 16;
}

handshake_password_example :
    handshake cipher config (
      new_conn tt (
        version_bytes 8
        ++ (2
            ∷ (offered ++ (challenge ++ server_init 1024 768 server_format (120 ∷ []) (9 ∷ []))))))
    ≡ (
      (ok tt, false),
      record (new_conn tt (9 ∷ [])) {
        output =
            version_bytes 8
            ++ (2 ∷ (response cipher key challenge ++ ((if config.exclusive then 0 else 1) ∷ [])));
        framebuffer_width = 1024;
        framebuffer_height = 768;
        pixel_format = on_wire server_format;
        desktop_name = 120 ∷ [];
      },
    )
handshake_password_example =
    handshake_password cipher config tt offered challenge (9 ∷ []) password key 1024 768
      server_format (120 ∷ []) (omega arith) refl password_chosen key_of_password (omega arith)
      (omega arith)
      (
        omega arith,
        omega arith,
        omega arith,
        omega arith,
        omega arith,
        omega arith,
        omega arith,
        omega arith,
      )
      (omega arith) (omega arith)

find_auth-IsFirst_example :
    IsFirst offered (auth_methods config) (find_auth offered (auth_methods config))
find_auth-IsFirst_example = find_auth-IsFirst offered (auth_methods config)
