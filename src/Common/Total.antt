-- ===== src/Common/Total.antt =====
-- Calls that never run out of fuel, whatever state they start from.
use mathlib.Core.Path.{◌≡◌, refl, ap}
use mathlib.Core.Bool.{Bool, true, false}
use mathlib.Core.Option.{Option, none, some}
use go_vncdriver.Common.Tests.{if◌then◌else◌}
use go_vncdriver.Common.Slices.{element}
use go_vncdriver.Common.Exec.{
  Exec, Result, ok, err, panic, stuck, bind, pure, lift, continue, ◌>>=◌,
}
use go_vncdriver.Common.Ensures.{Ensures}

abbrev pub IsFinished : {A : Type 0} → Result A → Type 0
IsFinished (ok a) = Unit
IsFinished (err e) = Unit
IsFinished (panic x) = Unit
IsFinished stuck = ⊥

pub record IsTotal {S A : Type 0} (m : Exec S A) : Type 0 where
  pub finished : (s : S) → IsFinished (m s).0

module _ {A B : Type 0} where
  pub IsFinished-bind :
      (r : Result A) (f : A → Result B)
      → IsFinished r
      → ((a : A) → IsFinished (f a))
      → IsFinished (bind r f)
  IsFinished-bind (ok a) f h k = k a
  IsFinished-bind (err e) f h k = tt
  IsFinished-bind (panic x) f h k = tt
  IsFinished-bind stuck f h k = absurd h

  pub continue-IsFinished :
      {S : Type 0} (r : Result A) (f : A → Exec S B) (s : S)
      → IsFinished r
      → ((a : A) → r ≡ ok a → IsFinished (f a s).0)
      → IsFinished (continue r f s).0
  continue-IsFinished (ok a) f s h k = k a refl
  continue-IsFinished (err e) f s h k = tt
  continue-IsFinished (panic x) f s h k = tt
  continue-IsFinished stuck f s h k = absurd h

  pub IsTotal-bind :
      {S : Type 0} (m : Exec S A) (f : A → Exec S B)
      → IsTotal m
      → ((a : A) → IsTotal (f a))
      → IsTotal (m >>= f)
  IsTotal-bind m f h k = record {
    finished =
        λ s. continue-IsFinished (m s).0 f (m s).1 (h.finished s) (λ a _. (k a).finished (m s).1);
  }

  -- A first call of which something is known.
  pub IsTotal-bind_known :
      {S : Type 0} {Q : A → Type 0} (m : Exec S A) (f : A → Exec S B)
      → IsTotal m
      → Ensures m Q
      → ((a : A) → Q a → IsTotal (f a))
      → IsTotal (m >>= f)
  IsTotal-bind_known m f h q k = record {
    finished = λ s.
        continue-IsFinished (m s).0 f (m s).1 (h.finished s)
          (λ a e. (k a (q.returned s (m s).1 a (ap (λ r. (r, (m s).1)) e))).finished (m s).1);
  }

module _ {S A : Type 0} where
  pub IsTotal-pure : (a : A) → IsTotal (pure {S = S} a)
  IsTotal-pure a = record { finished = λ s. tt }

  pub IsTotal-lift : (r : Result A) → IsFinished r → IsTotal (lift {S = S} r)
  IsTotal-lift r h = record { finished = λ s. h }

  pub IsTotal-if :
      (b : Bool) (m n : Exec S A) → IsTotal m → IsTotal n → IsTotal (if b then m else n)
  IsTotal-if true m n h k = h
  IsTotal-if false m n h k = k

pub element-IsFinished : {A : Type 0} (o : Option A) → IsFinished (element o)
element-IsFinished none = tt
element-IsFinished (some a) = tt
