-- ===== src/Vncclient/QuickBuf/Laws.antt =====
-- The cursor against the list of the bytes that it has not passed.
use go_vncdriver.Common.{
  ℕ, suc, ◌+◌, ◌-◌, ◌*◌, ◌<◌, ◌≡◌, refl, sym, ap, subst, ◌∙◌, List, [], ◌∷◌, ◌++◌, arith, length,
  drop, drop-drop, get_elem?-drop, get_elem?-drop_add, length-drop, length-append, drop-append_left,
  append_assoc, append-nil, lt→leb, le→ltb,
}
use native.Mathlib.Nat.{add_assoc, add-zero}
use go_vncdriver.Common.Exec.{Exec, Result, ok, pure, lift, ◌>>=◌, bind-ok}
use go_vncdriver.Vncclient.Color.{Color}
use go_vncdriver.Vncclient.QuickBuf.{QuickBuf, read_byte, read_colors, read_color, colors_of}

abbrev pub unread : QuickBuf → List ℕ
unread q = drop q.off q.buf

abbrev pub advance : QuickBuf → ℕ → QuickBuf
advance q n = record q { off = q.off + n }

-- The bytes of colours in memory.
abbrev pub color_bytes : List Color → List ℕ
color_bytes [] = []
color_bytes (c ∷ cs) = c.r ∷ c.g ∷ c.b ∷ color_bytes cs

pub unread-advance :
    (q : QuickBuf) (bs rest : List ℕ)
    → unread q ≡ bs ++ rest
    → unread (advance q (length bs)) ≡ rest
unread-advance q bs rest h =
    sym (drop-drop q.off (length bs) q.buf) ∙ rw h (drop-append_left bs rest)

pub length-unread : (q : QuickBuf) → length (unread q) ≡ length q.buf - q.off
length-unread q = length-drop q.off q.buf

-- `m` takes exactly `bs` off the front and returns `a`, whatever follows.
abbrev pub Reads {ℓ} : {A : Type ℓ} → Exec QuickBuf A → List ℕ → A → Type ℓ
Reads m bs a =
    (q : QuickBuf) (rest : List ℕ) → unread q ≡ bs ++ rest → m q ≡ (ok a, advance q (length bs))

advance-advance :
    (q : QuickBuf) (bs cs : List ℕ)
    → advance (advance q (length bs)) (length cs) ≡ advance q (length (bs ++ cs))
advance-advance q bs cs =
    rw length-append (ap (λ n. record q { off = n }) (add_assoc q.off (length bs) (length cs)))

pub Reads-pure {ℓ} : {A : Type ℓ} (a : A) → Reads (pure a) [] a
Reads-pure a q rest h = ap (λ n. (ok a, record q { off = n })) (sym (add-zero q.off))

pub Reads-bind {ℓ κ} :
    {A : Type ℓ} {B : Type κ} (m : Exec QuickBuf A) (f : A → Exec QuickBuf B) (bs cs : List ℕ)
    {a : A} {b : B}
    → Reads m bs a
    → Reads (f a) cs b
    → Reads (m >>= f) (bs ++ cs) b
Reads-bind m f bs cs {a} {b} hm hf q rest h =
    bind-ok m f q (hm q (cs ++ rest) (h ∙ append_assoc bs cs rest))
    ∙ hf (advance q (length bs)) rest
        (unread-advance q bs (cs ++ rest) (h ∙ append_assoc bs cs rest))
    ∙ ap (λ t. (ok b, t)) (advance-advance q bs cs)

-- The last call of a block takes no byte.
pub Reads-bind_last {ℓ κ} :
    {A : Type ℓ} {B : Type κ} (m : Exec QuickBuf A) (f : A → Exec QuickBuf B) (bs : List ℕ) {a : A}
    {b : B}
    → Reads m bs a
    → Reads (f a) [] b
    → Reads (m >>= f) bs b
Reads-bind_last m f bs {a} {b} hm hf =
    subst (λ t. Reads (m >>= f) t b) (append-nil bs) (Reads-bind m f bs [] hm hf)

pub Reads-read_byte : (b : ℕ) → Reads read_byte (b ∷ []) b
unfolding read_byte
Reads-read_byte b q rest h =
    rw (lt→leb (length q.buf) q.off (omega (arith, length-unread q, ap length h)))
      (rw (get_elem?-drop q.off q.buf h))

pub Reads-read_byte_bind {ℓ} :
    {A : Type ℓ} (f : ℕ → Exec QuickBuf A) (b : ℕ) (cs : List ℕ) {a : A}
    → Reads (f b) cs a
    → Reads (read_byte >>= f) (b ∷ cs) a
Reads-read_byte_bind f b cs h = Reads-bind read_byte f (b ∷ []) cs (Reads-read_byte b) h

-- A call that only computes takes no byte.
pub Reads-lift_bind {ℓ κ} :
    {A : Type ℓ} {B : Type κ} (r : Result A) (f : A → Exec QuickBuf B) (cs : List ℕ) {a : A} {b : B}
    → r ≡ ok a
    → Reads (f a) cs b
    → Reads (lift r >>= f) cs b
Reads-lift_bind r f cs e h q rest hq = bind-ok (lift r) f q (ap (λ t. (t, q)) e) ∙ h q rest hq

pub Reads-eq {ℓ} :
    {A : Type ℓ} (m : Exec QuickBuf A) (bs : List ℕ) {a b : A} → a ≡ b → Reads m bs a → Reads m bs b
Reads-eq m bs e = subst (λ x. Reads m bs x) e

colors_of-color_bytes :
    (cs : List Color) (rest : List ℕ) → colors_of (length cs) (color_bytes cs ++ rest) ≡ cs
colors_of-color_bytes [] rest = refl
colors_of-color_bytes (c ∷ cs) rest = ap (λ t. c ∷ t) (colors_of-color_bytes cs rest)

pub length-color_bytes : (cs : List Color) → length (color_bytes cs) ≡ 3 * length cs
length-color_bytes [] = refl
length-color_bytes (c ∷ cs) = omega (arith, length-color_bytes cs)

-- With a byte left to read, no call for colours faults.
pub read_colors_lem :
    (cs : List Color) (q : QuickBuf) (rest : List ℕ)
    → unread q ≡ color_bytes cs ++ rest
    → 0 < length (unread q)
    → read_colors (length cs) q ≡ (ok cs, advance q (length (color_bytes cs)))
unfolding read_colors
read_colors_lem cs q rest h some_left =
    rw (le→ltb (length q.buf) (q.off + 3 * length cs) (omega (arith, total, length-unread q))) (
      rw (lt→leb (length q.buf) q.off (omega (arith, length-unread q)))
        (rw (h, colors_of-color_bytes, ← length-color_bytes cs)))
  where
    total : length (unread q) ≡ 3 * length cs + length rest
    total =
        ap length h
        ∙ length-append (color_bytes cs) rest
        ∙ ap (λ n. n + length rest) (length-color_bytes cs)

pub Reads-read_colors :
    (c : Color) (cs : List Color)
    → Reads (read_colors (suc (length cs))) (color_bytes (c ∷ cs)) (c ∷ cs)
Reads-read_colors c cs q rest h = read_colors_lem (c ∷ cs) q rest h (omega (arith, ap length h))

-- An empty palette is read where a byte follows it.
pub Reads-no_colors_bind {ℓ} :
    {A : Type ℓ} (f : List Color → Exec QuickBuf A) (b : ℕ) (bs : List ℕ) {a : A}
    → Reads (f []) (b ∷ bs) a
    → Reads (read_colors 0 >>= f) (b ∷ bs) a
Reads-no_colors_bind f b bs {a} h q rest e =
    bind-ok (read_colors 0) f q
      (read_colors_lem [] q (b ∷ (bs ++ rest)) e (omega (arith, ap length e)))
    ∙ h (advance q 0) rest (unread-advance q [] (b ∷ (bs ++ rest)) e)
    ∙ ap (λ n. (ok a, record q { off = n + suc (length bs) })) (add-zero q.off)

pub Reads-read_color : (c : Color) → Reads read_color (color_bytes (c ∷ [])) c
unfolding read_color
Reads-read_color c q rest h =
    rw (get_elem?-drop_add q.off q.buf 0, h)
      (rw (get_elem?-drop_add q.off q.buf 1, h) (rw (get_elem?-drop_add q.off q.buf 2, h)))
