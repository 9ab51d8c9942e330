-- ===== src/Vncclient/Handshake/Ending.antt =====
-- The handshake of vncclient/client.go ends where what the server sends comes to an end.
use go_vncdriver.Common.{
  ℕ, Bool, true, false, List, [], ◌∷◌, Option, none, some, ltb, leb, ◌==◌, if◌then◌else◌,
  Option-cases, inl, inr, length, take, get_elem?, index,
}
use go_vncdriver.Common.Bytes.{u8}
use go_vncdriver.Common.Exec.{
  Error, pure, raise, lift, modify, guard, ◌>>◌, unsupported_major, unsupported_minor,
  no_security_types, security_failed,
}
use go_vncdriver.Common.Total.{
  IsFinished, IsTotal, IsFinished-bind, IsTotal-bind, IsTotal-pure, IsTotal-lift, IsTotal-if,
  element-IsFinished,
}
use go_vncdriver.Vncclient.PixelFormat.{PixelFormat, read_masks, read_fields, read_pixel_format}
use go_vncdriver.Vncclient.Wire.{read_full, read_u8, read_u16, read_u32}
use go_vncdriver.Vncclient.Client.{ClientConn, write, on_input}
use go_vncdriver.Vncclient.ClientAuth.{
  ClientAuth, none_auth, password_auth, security_type, reverse_table, reverse_bits, reverse_all,
  key_bytes, encrypt, password_handshake, auth_handshake,
}
use go_vncdriver.Vncclient.ServerMessages.Total.{
  IsFinished-if, read_full-IsTotal, read_number-IsTotal, bytes-IsTotal, number-IsTotal,
}
use go_vncdriver.Vncclient.Handshake.{
  ClientConfig, scan_version, or_syntax, parse_protocol_version, version_bytes, find_auth,
  auth_methods, read_error_reason, answer, accept, security_handshake_version8,
  security_handshake_version3, initialise, negotiate, handshake,
}

or_syntax-IsFinished : (o : Option (ℕ × ℕ)) → IsFinished (or_syntax o)
or_syntax-IsFinished none = tt
or_syntax-IsFinished (some v) = tt

parse_protocol_version-IsFinished : (pv : List ℕ) → IsFinished (parse_protocol_version pv)
unfolding parse_protocol_version
parse_protocol_version-IsFinished pv =
    IsFinished-if (ltb (length pv) 12) _ _ tt (or_syntax-IsFinished (scan_version pv))

reverse_all-IsFinished : (ks : List ℕ) → IsFinished (reverse_all ks)
unfolding reverse_all reverse_bits
reverse_all-IsFinished [] = tt
reverse_all-IsFinished (k ∷ ks) =
    IsFinished-bind (index reverse_table k) _ (element-IsFinished (get_elem? reverse_table k))
      λ r. IsFinished-bind (reverse_all ks) _ (reverse_all-IsFinished ks) λ rs. tt

encrypt-IsFinished :
    (des : List ℕ → List ℕ → List ℕ) (key bytes : List ℕ) → IsFinished (encrypt des key bytes)
unfolding encrypt key_bytes
encrypt-IsFinished des key bytes =
    IsFinished-bind (key_bytes key) _
      (IsFinished-bind (reverse_all (if ltb 8 (length key) then take 8 key else key)) _
        (reverse_all-IsFinished (if ltb 8 (length key) then take 8 key else key)) λ ks. tt)
      λ ks. tt

read_masks-IsTotal : (pf : PixelFormat) → IsTotal (read_masks pf)
unfolding read_masks
read_masks-IsTotal pf = IsTotal-bind read_u16 _ (read_number-IsTotal 2) λ a.
    IsTotal-bind read_u16 _ (read_number-IsTotal 2) λ b.
      IsTotal-bind read_u16 _ (read_number-IsTotal 2) λ c.
        IsTotal-bind read_u8 _ (read_number-IsTotal 1) λ d.
          IsTotal-bind read_u8 _ (read_number-IsTotal 1)
            λ e. IsTotal-bind read_u8 _ (read_number-IsTotal 1) λ f. IsTotal-pure _

read_fields-IsTotal : (pf : PixelFormat) → IsTotal (read_fields pf)
unfolding read_fields
read_fields-IsTotal pf = IsTotal-bind read_u8 _ (read_number-IsTotal 1) λ bpp.
    IsTotal-bind read_u8 _ (read_number-IsTotal 1) λ depth.
      IsTotal-bind read_u8 _ (read_number-IsTotal 1) λ big.
        IsTotal-bind read_u8 _ (read_number-IsTotal 1)
          λ t. IsTotal-if (t == 0) _ _ (IsTotal-pure _) (read_masks-IsTotal _)

read_pixel_format-IsTotal : (pf : PixelFormat) → IsTotal (read_pixel_format pf)
unfolding read_pixel_format
read_pixel_format-IsTotal pf =
    IsTotal-bind (read_full 16) _ (read_full-IsTotal 16)
      λ raw. IsTotal-lift _ ((read_fields-IsTotal pf).finished raw)

module _ {I : Type 0} where
  write-IsTotal : (bs : List ℕ) → IsTotal (write {I = I} bs)
  unfolding write
  write-IsTotal bs = record {
    finished = λ c. elim (Option-cases c.broken) [ inl e ↦ rw e tt | inr (x, e) ↦ rw e tt ];
  }

  modify-IsTotal : (f : ClientConn I → ClientConn I) → IsTotal (modify f)
  modify-IsTotal f = record { finished = λ c. tt }

  raise-IsTotal : (e : Error) → IsTotal (raise {S = ClientConn I} {A = Unit {0}} e)
  raise-IsTotal e = record { finished = λ c. tt }

  guard-IsTotal : (b : Bool) (e : Error) → IsTotal (guard {S = ClientConn I} b e)
  guard-IsTotal true e = record { finished = λ c. tt }
  guard-IsTotal false e = record { finished = λ c. tt }

  read_error_reason-IsTotal : IsTotal (read_error_reason {I = I})
  unfolding read_error_reason
  read_error_reason-IsTotal = record { finished = λ c. tt }

module _ (des : List ℕ → List ℕ → List ℕ) (cfg : ClientConfig) {I : Type 0} where
  auth_handshake-IsTotal : (a : ClientAuth) → IsTotal (auth_handshake des {I = I} a)
  unfolding auth_handshake password_handshake
  auth_handshake-IsTotal none_auth = IsTotal-pure tt
  auth_handshake-IsTotal (password_auth password) =
      IsTotal-bind (on_input (read_full 16)) _ (bytes-IsTotal 16) λ challenge.
        IsTotal-bind (lift (encrypt des password challenge)) _
          (IsTotal-lift _ (encrypt-IsFinished des password challenge))
          λ crypted. write-IsTotal crypted

  answer-IsTotal : (o : Option ClientAuth) → IsTotal (answer des cfg {I = I} o)
  answer-IsTotal none = record { finished = λ c. tt }
  answer-IsTotal (some a) =
      IsTotal-bind (write (security_type a ∷ [])) _ (write-IsTotal (security_type a ∷ []))
        λ _. auth_handshake-IsTotal a

  accept-IsTotal : (t : ℕ) (o : Option ClientAuth) → IsTotal (accept des cfg {I = I} t o)
  accept-IsTotal t none = record { finished = λ c. tt }
  accept-IsTotal t (some a) = auth_handshake-IsTotal a

  security_handshake_version8-IsTotal : IsTotal (security_handshake_version8 des cfg {I = I})
  unfolding security_handshake_version8
  security_handshake_version8-IsTotal =
      IsTotal-bind (write (version_bytes 8)) _ (write-IsTotal (version_bytes 8)) λ _.
        IsTotal-bind (on_input read_u8) _ (number-IsTotal 1) λ count.
          IsTotal-if (count == 0) _ _
            (IsTotal-bind read_error_reason _ read_error_reason-IsTotal
              λ _. raise-IsTotal no_security_types)
            (IsTotal-bind (on_input (read_full count)) _ (bytes-IsTotal count)
              λ types. answer-IsTotal (find_auth types (auth_methods cfg)))

  security_handshake_version3-IsTotal : IsTotal (security_handshake_version3 des cfg {I = I})
  unfolding security_handshake_version3
  security_handshake_version3-IsTotal =
      IsTotal-bind (write (version_bytes 3)) _ (write-IsTotal (version_bytes 3)) λ _.
        IsTotal-bind (on_input read_u32) _ (number-IsTotal 4)
          λ t. accept-IsTotal t (find_auth (u8 t ∷ []) (auth_methods cfg))

  initialise-IsTotal : IsTotal (initialise des cfg {I = I})
  unfolding initialise
  initialise-IsTotal = IsTotal-bind (on_input read_u32) _ (number-IsTotal 4) λ result.
      IsTotal-bind (if result == 1 then read_error_reason >> raise security_failed else pure tt) _
        (IsTotal-if (result == 1) _ _
          (IsTotal-bind read_error_reason _ read_error_reason-IsTotal
            λ _. raise-IsTotal security_failed)
          (IsTotal-pure tt))
        λ _. IsTotal-bind (write ((if cfg.exclusive then 0 else 1) ∷ [])) _ (write-IsTotal _) λ _.
          IsTotal-bind (on_input read_u16) _ (number-IsTotal 2) λ width.
            IsTotal-bind (modify (λ c. record c { framebuffer_width = width })) _ (modify-IsTotal _)
              λ _. IsTotal-bind (on_input read_u16) _ (number-IsTotal 2) λ height.
                IsTotal-bind (modify (λ c. record c { framebuffer_height = height })) _
                  (modify-IsTotal _)
                  λ _.
                    IsTotal-bind (λ c. on_input (read_pixel_format c.pixel_format) c) _
                      (record {
                        finished = λ c. (read_pixel_format-IsTotal c.pixel_format).finished c.input;
                      })
                      λ pf.
                        IsTotal-bind (modify (λ c. record c { pixel_format = pf })) _
                          (modify-IsTotal _)
                          λ _. IsTotal-bind (on_input read_u32) _ (number-IsTotal 4) λ n.
                            IsTotal-bind (on_input (read_full n)) _ (bytes-IsTotal n)
                              λ name. modify-IsTotal (λ c. record c { desktop_name = name })

  negotiate-IsTotal : (pv : List ℕ) → IsTotal (negotiate des cfg {I = I} pv)
  unfolding negotiate
  negotiate-IsTotal pv =
      IsTotal-bind (lift (parse_protocol_version pv)) _
        (IsTotal-lift _ (parse_protocol_version-IsFinished pv))
        λ (v : ℕ × ℕ). IsTotal-bind (guard (leb 3 v.0) unsupported_major) _ (guard-IsTotal _ _) λ _.
          IsTotal-bind (guard (leb 3 v.1) unsupported_minor) _ (guard-IsTotal _ _) λ _.
            IsTotal-bind
              (if v.1 == 8
                then security_handshake_version8 des cfg
                else security_handshake_version3 des cfg)
              _
              (IsTotal-if (v.1 == 8) _ _ security_handshake_version8-IsTotal
                security_handshake_version3-IsTotal)
              λ _. initialise-IsTotal

  -- With no error, an error or a fault: the handshake ends, whatever the server sends until
  -- the connection ends.
  pub handshake-IsFinished : (c : ClientConn I) → IsFinished (handshake des cfg c).0.0
  unfolding handshake
  handshake-IsFinished c =
      (IsTotal-bind (on_input (read_full 12)) _ (bytes-IsTotal 12) negotiate-IsTotal).finished c
