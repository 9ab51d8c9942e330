-- ===== src/Vncclient/Handshake.antt =====
-- The handshake of vncclient/client.go: version, security, and initialisation.
pub mod Transcript
pub mod Methods
pub mod Ending
use go_vncdriver.Common.{
  ℕ, zero, suc, ◌+◌, ◌-◌, ◌*◌, Bool, true, false, not, ◌&&◌, ◌||◌, List, [], ◌∷◌, ◌++◌, Option,
  none, some, ltb, leb, ◌==◌, if◌then◌else◌, length, replicate,
}
use go_vncdriver.Common.Bytes.{u8}
use go_vncdriver.Common.Exec.{
  Exec, Result, ok, err, panic, stuck, pure, raise, lift, modify, guard, ◌>>=◌, ◌>>◌,
  version_too_short, version_syntax, unsupported_major, unsupported_minor, no_security_types,
  no_suitable_auth, invalid_security_type, security_failed,
}
use go_vncdriver.Vncclient.Color.{black}
use go_vncdriver.Vncclient.PixelFormat.{PixelFormat, no_format, read_pixel_format}
use go_vncdriver.Vncclient.Client.{ClientConn, write, on_input}
use go_vncdriver.Vncclient.ClientAuth.{ClientAuth, none_auth, security_type, auth_handshake}
use go_vncdriver.Vncclient.Wire.{read_full, read_number, read_u8, read_u16, read_u32}

-- `ClientConfig`, as far as the handshake reads it.
pub record ClientConfig : Type 0 where
  pub auth : Option (List ClientAuth)
  pub exclusive : Bool

-- What `fmt.Sscanf` does with the format `RFB %d.%d\n`: spaces before a number are skipped, and
-- the end of the text passes for the newline.
abbrev pub is_blank : ℕ → Bool
is_blank b = b == 32 || (b == 9 || (b == 11 || (b == 12 || b == 13)))

unfoldable pub skip_blanks : List ℕ → List ℕ
skip_blanks [] = []
skip_blanks (b ∷ bs) = let rest = skip_blanks bs in if is_blank b then rest else b ∷ bs

abbrev pub is_digit : ℕ → Bool
is_digit b = leb 48 b && leb b 57

-- The number that the digits in front go on with from `acc`.
unfoldable pub scan_digits : ℕ → List ℕ → ℕ × List ℕ
scan_digits acc [] = (acc, [])
scan_digits acc (b ∷ bs) =
    let rest = scan_digits (acc * 10 + (b - 48)) bs in if is_digit b then rest else (acc, b ∷ bs)

unfoldable pub scan_first : List ℕ → Option (ℕ × List ℕ)
scan_first [] = none
scan_first (b ∷ bs) = if is_digit b then some (scan_digits 0 (b ∷ bs)) else none

unfoldable pub scan_number : List ℕ → Option (ℕ × List ℕ)
scan_number bs = scan_first (skip_blanks bs)

-- One byte of the format.
unfoldable pub scan_byte : ℕ → List ℕ → Option (List ℕ)
scan_byte c [] = none
scan_byte c (b ∷ bs) = if b == c then some bs else none

abbrev pub at_newline : List ℕ → Bool
at_newline [] = true
at_newline (b ∷ bs) = b == 10

infixl 5 ◌>>?◌
abbrev pub ◌>>?◌ {ℓ κ} : {A : Type ℓ} {B : Type κ} → Option A → (A → Option B) → Option B
none >>? f = none
some a >>? f = f a

unfoldable pub scan_version : List ℕ → Option (ℕ × ℕ)
scan_version pv =
    scan_byte 82 pv >>? scan_byte 70 >>? scan_byte 66 >>? scan_byte 32 >>? scan_number >>? λ major.
    scan_byte 46 major.1 >>? scan_number >>? λ minor.
    if at_newline (skip_blanks minor.1) then some (major.0, minor.0) else none

abbrev pub or_syntax : Option (ℕ × ℕ) → Result (ℕ × ℕ)
or_syntax none = err version_syntax
or_syntax (some v) = ok v

unfoldable pub parse_protocol_version : List ℕ → Result (ℕ × ℕ)
parse_protocol_version pv =
    if ltb (length pv) 12 then err version_too_short else or_syntax (scan_version pv)

-- `RFB 003.00x\n`
abbrev pub version_bytes : ℕ → List ℕ
version_bytes minor = 82 ∷ 70 ∷ 66 ∷ 32 ∷ 48 ∷ 48 ∷ 51 ∷ 46 ∷ 48 ∷ 48 ∷ (48 + minor) ∷ 10 ∷ []

unfoldable pub offers : List ℕ → ClientAuth → Bool
offers [] a = false
offers (t ∷ ts) a = security_type a == t || offers ts a

-- The loops `FindAuth`: the first of the client's methods that the server offers.
unfoldable pub find_auth : List ℕ → List ClientAuth → Option ClientAuth
find_auth types [] = none
find_auth types (a ∷ as') =
    let rest = find_auth types as' in if offers types a then some a else rest

abbrev pub auth_methods : ClientConfig → List ClientAuth
auth_methods cfg = elim cfg.auth [ none ↦ none_auth ∷ [] | some methods ↦ methods ]

-- `readErrorReason`: its text goes into a message, so only what it reads matters.
unfoldable pub read_error_reason : {I : Type 0} → Exec (ClientConn I) (Unit {0})
read_error_reason c = (ok tt, (on_input (read_u32 >>= read_full) c).1)

-- The error, and whether it is soft: the caller may try again.
abbrev pub is_soft : Result (List ℕ) → Bool
is_soft (err e) = true
is_soft _ = false

-- The connection that `Client` makes of `input`.
abbrev pub new_conn : {I : Type 0} → I → List ℕ → ClientConn I
new_conn inflator input = record {
  input = input;
  output = [];
  broken = none;
  inflator = inflator;
  color_map = replicate 256 black;
  encs = [];
  framebuffer_width = 0;
  framebuffer_height = 0;
  desktop_name = [];
  pixel_format = no_format;
}

module _ (des : List ℕ → List ℕ → List ℕ) (cfg : ClientConfig) {I : Type 0} where
  -- The chosen method answers the server.
  abbrev pub answer : Option ClientAuth → Exec (ClientConn I) (Unit {0})
  answer none = raise no_suitable_auth
  answer (some a) = do write (security_type a ∷ []); auth_handshake des a

  unfoldable pub security_handshake_version8 : Exec (ClientConn I) (Unit {0})
  security_handshake_version8 = do
    write (version_bytes 8)
    count ← on_input read_u8
    if count == 0
        then (do read_error_reason; raise no_security_types)
        else (do types ← on_input (read_full count); answer (find_auth types (auth_methods cfg)))

  -- In version 3 the server has chosen, and nothing is sent back.
  abbrev pub accept : ℕ → Option ClientAuth → Exec (ClientConn I) (Unit {0})
  accept t none = raise (if t == 0 then invalid_security_type else no_suitable_auth)
  accept t (some a) = auth_handshake des a

  unfoldable pub security_handshake_version3 : Exec (ClientConn I) (Unit {0})
  security_handshake_version3 = do
    write (version_bytes 3)
    t ← on_input read_u32
    accept t (find_auth (u8 t ∷ []) (auth_methods cfg))

  -- SecurityResult, ClientInit and ServerInit.
  unfoldable pub initialise : Exec (ClientConn I) (Unit {0})
  initialise = do
    result ← on_input read_u32
    (if result == 1 then (do read_error_reason; raise security_failed) else pure tt)
    write ((if cfg.exclusive then 0 else 1) ∷ [])
    width ← on_input read_u16
    modify (λ c. record c { framebuffer_width = width })
    height ← on_input read_u16
    modify (λ c. record c { framebuffer_height = height })
    pf ← (λ c. on_input (read_pixel_format c.pixel_format) c)
    modify (λ c. record c { pixel_format = pf })
    name_length ← on_input read_u32
    name ← on_input (read_full name_length)
    modify (λ c. record c { desktop_name = name })

  unfoldable pub negotiate : List ℕ → Exec (ClientConn I) (Unit {0})
  negotiate pv = do
    (major, minor) ← lift (parse_protocol_version pv)
    guard (leb 3 major) unsupported_major
    guard (leb 3 minor) unsupported_minor
    (if minor == 8 then security_handshake_version8 else security_handshake_version3)
    initialise

  unfoldable pub handshake : ClientConn I → (Result (Unit {0}) × Bool) × ClientConn I
  handshake c =
      let (r, c') = (on_input (read_full 12) >>= negotiate) c in
      ((r, is_soft (read_full 12 c.input).0), c')
