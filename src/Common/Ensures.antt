-- ===== src/Common/Ensures.antt =====
-- What every value that a call returns satisfies, whatever state it starts from.
use mathlib.Core.Path.{◌≡◌, refl, ap, subst}
use mathlib.Core.Bool.{Bool, true, false}
use go_vncdriver.Common.Tests.{if◌then◌else◌}
use go_vncdriver.Common.Exec.{Exec, Error, ok, err, pure, lift, continue_returned, ◌>>=◌}

pub record Ensures {S A : Type 0} (m : Exec S A) (P : A → Type 0) : Type 0 where
  pub returned : (s t : S) (a : A) → m s ≡ (ok a, t) → P a

module _ {S : Type 0} where
  pub Ensures-pure : {A : Type 0} {P : A → Type 0} (a : A) → P a → Ensures (pure {S = S} a) P
  Ensures-pure {A} {P} a h = record { returned = λ s t b e. subst P (value s t b e) h }
    where
      value : (s t : S) (b : A) → pure {S = S} a s ≡ (ok b, t) → a ≡ b
      value s t b e = cc

  module _ {A B : Type 0} {P : B → Type 0} where
    pub Ensures-bind :
        (m : Exec S A) (f : A → Exec S B) → ((a : A) → Ensures (f a) P) → Ensures (m >>= f) P
    Ensures-bind m f h = record {
      returned = λ s t b e.
          let (a, _, e') = continue_returned (m s).0 f (m s).1 e in (h a).returned (m s).1 t b e';
    }

    -- A first call of which something is known.
    pub Ensures-bind_known :
        {Q : A → Type 0} (m : Exec S A) (f : A → Exec S B)
        → Ensures m Q
        → ((a : A) → Q a → Ensures (f a) P)
        → Ensures (m >>= f) P
    Ensures-bind_known m f k h = record {
      returned = λ s t b e.
          let (a, e0, e') = continue_returned (m s).0 f (m s).1 e in
          (h a (k.returned s (m s).1 a (ap (λ r. (r, (m s).1)) e0))).returned (m s).1 t b e';
    }

  -- `if b { return e }`
  pub Ensures-check :
      (b : Bool) (e : Error) → Ensures (lift {S = S} (if b then err e else ok tt)) (λ _. b ≡ false)
  Ensures-check true e = record { returned = λ s t a h. cc }
  Ensures-check false e = record { returned = λ s t a h. refl }
