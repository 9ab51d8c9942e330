-- ===== src/Common/Exec.antt =====
-- Go's control flow as values: a call returns, returns an error, or panics, and what it wrote
-- before that stays written.
use mathlib.Core.Path.{◌≡◌, refl}
use mathlib.Core.Bool.{Bool, true, false}

-- The errors that the code returns, one constructor for each cause; annotations are dropped.
pub data Error : Type 0 where
  -- of package io
  eof unexpected_eof : Error
  -- of vncclient
  not_implemented bits_per_pixel unread_bytes unhandled_subencoding : Error
  bad_jpeg rectangle_too_wide unsupported_format bad_control bad_palette_index bad_filter : Error
  not_latin1 version_too_short version_syntax : Error
  unsupported_major unsupported_minor : Error
  no_security_types no_suitable_auth invalid_security_type security_failed : Error
  excessive_rectangle_count excessive_rectangle unsupported_encoding no_such_message : Error
  -- of gymvnc
  no_such_session renderer_active no_renderer session_closed invalid_encoding closed_early : Error
  -- of net
  closed_connection : Error
  -- of flexzlib
  invalid_header invalid_dictionary : Error

-- The run-time panics.
pub data Fault : Type 0 where
  index_out_of_range slice_out_of_range negative_make nil_dereference unread_buffer : Fault

-- `stuck` is no Go value: a loop of the model ran out of fuel.
pub data Result {ℓ} (A : Type ℓ) : Type ℓ where
  ok : A → Result A
  err : Error → Result A
  panic : Fault → Result A
  stuck : Result A

-- A pure call that may fail, and then the rest.
abbrev pub bind {ℓ κ} : {A : Type ℓ} {B : Type κ} → Result A → (A → Result B) → Result B
bind (ok a) f = f a
bind (err e) f = err e
bind (panic x) f = panic x
bind stuck f = stuck

abbrev pub Exec {ℓ κ} : Type ℓ → Type κ → Type (ℓ ⊔ κ)
Exec S A = S → Result A × S

module _ {ℓ κ} {S : Type ℓ} {A : Type κ} where
  abbrev pub pure : A → Exec S A
  pure a s = (ok a, s)

  abbrev pub raise : Error → Exec S A
  raise e s = (err e, s)

  abbrev pub lift : Result A → Exec S A
  lift r s = (r, s)

  abbrev pub gets : (S → A) → Exec S A
  gets f s = (ok (f s), s)

abbrev pub modify {ℓ} : {S : Type ℓ} → (S → S) → Exec S (Unit {0})
modify f s = (ok tt, f s)

module _ {ℓ κ μ} {S : Type ℓ} {A : Type κ} {B : Type μ} where
  abbrev pub continue : Result A → (A → Exec S B) → Exec S B
  continue (ok a) f s = f a s
  continue (err e) f s = (err e, s)
  continue (panic x) f s = (panic x, s)
  continue stuck f s = (stuck, s)

  infixl 5 ◌>>=◌
  abbrev pub ◌>>=◌ : Exec S A → (A → Exec S B) → Exec S B
  ◌>>=◌ m f s = continue (m s).0 f (m s).1

  pub bind-ok :
      (m : Exec S A) (f : A → Exec S B) (s : S) {a : A} {t : S}
      → m s ≡ (ok a, t)
      → (m >>= f) s ≡ f a t
  bind-ok m f s h = rw h

  -- A chain that returns has returned from its first call.
  pub continue_returned :
      (r : Result A) (f : A → Exec S B) (s : S) {b : B} {t : S}
      → continue r f s ≡ (ok b, t)
      → (a : A) × (r ≡ ok a) × (f a s ≡ (ok b, t))
  continue_returned (ok a) f s h = (a, refl, h)
  continue_returned (err e) f s h = cc
  continue_returned (panic x) f s h = cc
  continue_returned stuck f s h = cc

infixl 5 ◌>>◌
abbrev pub ◌>>◌ {ℓ μ} : {S : Type ℓ} {B : Type μ} → Exec S (Unit {0}) → Exec S B → Exec S B
m >> n = m >>= λ _. n

-- A call whose error is dropped.
abbrev pub dropped : Result (Unit {0}) → Result (Unit {0})
dropped (err e) = ok tt
dropped (ok a) = ok a
dropped (panic x) = panic x
dropped stuck = stuck

abbrev pub ignoring {ℓ} : {S : Type ℓ} → Exec S (Unit {0}) → Exec S (Unit {0})
ignoring m s = (dropped (m s).0, (m s).1)

-- `if !b { return e }`
abbrev pub guard {ℓ} : {S : Type ℓ} → Bool → Error → Exec S (Unit {0})
guard true e = pure tt
guard false e = raise e
