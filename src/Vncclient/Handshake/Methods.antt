-- ===== src/Vncclient/Handshake/Methods.antt =====
-- The loops `FindAuth` of vncclient/client.go.
use go_vncdriver.Common.{
  ℕ, ◌≡◌, ◌≢◌, refl, sym, ap, true, false, List, [], ◌∷◌, ◌++◌, Option, none, some, All, Bool-cases,
  inl, inr, ◌==◌, ==_iff,
}
use go_vncdriver.Vncclient.ClientAuth.{ClientAuth, security_type}
use go_vncdriver.Vncclient.Handshake.{offers, find_auth}

-- The server's list has the number of `a`.
abbrev pub IsOffered : List ℕ → ClientAuth → Type 0
IsOffered types a = (before after : List ℕ) × (types ≡ before ++ security_type a ∷ after)

abbrev pub IsRefused : List ℕ → ClientAuth → Type 0
IsRefused types a = All (λ t. security_type a ≢ t) types

-- The first method that is offered, and none where none is.
abbrev pub IsFirst : List ℕ → List ClientAuth → Option ClientAuth → Type 0
IsFirst types methods none = All (IsRefused types) methods
IsFirst types methods (some a) =
    (before after : List ClientAuth) × (methods ≡ before ++ a ∷ after)
    × IsOffered types a
    × All (IsRefused types) before

offers-IsOffered : (types : List ℕ) (a : ClientAuth) → offers types a ≡ true → IsOffered types a
unfolding offers
offers-IsOffered [] a h = cc
offers-IsOffered (t ∷ ts) a h = elim (Bool-cases (security_type a == t)) [
  | inl same ↦ ([], ts, ap (λ x. x ∷ ts) (sym ((==_iff (security_type a) t).0 same)))
  | inr other ↦
      let (before, after, e) = offers-IsOffered ts a (rw other at h) in
      (t ∷ before, after, ap (λ xs. t ∷ xs) e)
]

offers-IsRefused : (types : List ℕ) (a : ClientAuth) → offers types a ≡ false → IsRefused types a
unfolding offers
offers-IsRefused [] a h = tt
offers-IsRefused (t ∷ ts) a h = elim (Bool-cases (security_type a == t)) [
  | inl same ↦ cc (rw same at h)
  | inr other ↦
      (λ e. cc ((==_iff (security_type a) t).1 e, other), offers-IsRefused ts a (rw other at h))
]

-- One more method in front that is not offered.
IsFirst-refused :
    (types : List ℕ) (methods : List ClientAuth) (b : ClientAuth) (o : Option ClientAuth)
    → IsRefused types b
    → IsFirst types methods o
    → IsFirst types (b ∷ methods) o
IsFirst-refused types methods b none r h = (r, h)
IsFirst-refused types methods b (some a) r (before, after, e, offered, refused) =
    (b ∷ before, after, ap (λ xs. b ∷ xs) e, offered, (r, refused))

-- The client chooses the first of its own methods, in its own order, that is anywhere in the server's
-- list, and it chooses none only where the server's list has none of them.
pub find_auth-IsFirst :
    (types : List ℕ) (methods : List ClientAuth) → IsFirst types methods (find_auth types methods)
unfolding find_auth
find_auth-IsFirst types [] = tt
find_auth-IsFirst types (b ∷ methods) = elim (Bool-cases (offers types b)) [
  | inl yes' ↦ rw yes' ([], methods, refl, offers-IsOffered types b yes', tt)
  | inr no' ↦ rw no' (
      IsFirst-refused types methods b (find_auth types methods) (offers-IsRefused types b no')
        (find_auth-IsFirst types methods))
]
