-- ===== src/Vncclient/Client/Rfc.antt =====
-- The client's messages as RFC 6143 (7.5) defines them, read by a server.
use go_vncdriver.Common.{
  ℕ, zero, suc, Bool, not, List, [], ◌∷◌, Option, none, some, ltb, ◌==◌, if◌then◌else◌, length,
  take, drop,
}
use go_vncdriver.Common.Bytes.{of_be}

pub data ClientMessage : Type 0 where
  -- the sixteen bytes of a pixel format
  pixel_format : List ℕ → ClientMessage
  encodings : List ℕ → ClientMessage
  update_request : Bool → (x y width height : ℕ) → ClientMessage
  key_event : Bool → ℕ → ClientMessage
  pointer_event : (mask x y : ℕ) → ClientMessage
  cut_text : List ℕ → ClientMessage

abbrev pub Parsed : Type 0
Parsed = Option (ClientMessage × List ℕ)

word : ℕ → ℕ → ℕ
word a b = of_be 0 (a ∷ b ∷ [])

long : ℕ → ℕ → ℕ → ℕ → ℕ
long a b c d = of_be 0 (a ∷ b ∷ c ∷ d ∷ [])

-- A flag of the protocol: any byte but 0.
abbrev pub is_set : ℕ → Bool
is_set b = not (b == 0)

parse_pixel_format : List ℕ → Parsed
parse_pixel_format (_ ∷ _ ∷ _ ∷ rest) =
    if ltb (length rest) 16 then none else some (pixel_format (take 16 rest), drop 16 rest)
parse_pixel_format _ = none

unfoldable pub longs : ℕ → List ℕ → Option (List ℕ × List ℕ)
unfolding long
longs zero rest = some ([], rest)
longs (suc n) (a ∷ b ∷ c ∷ d ∷ rest) = elim (longs n rest) [
  | none ↦ none
  | some (ns, rest') ↦ some (long a b c d ∷ ns, rest')
]
longs (suc n) _ = none

abbrev pub as_encodings : Option (List ℕ × List ℕ) → Parsed
as_encodings none = none
as_encodings (some (ns, rest)) = some (encodings ns, rest)

parse_encodings : List ℕ → Parsed
unfolding word
parse_encodings (_ ∷ a ∷ b ∷ rest) = as_encodings (longs (word a b) rest)
parse_encodings _ = none

parse_update_request : List ℕ → Parsed
unfolding word
parse_update_request (i ∷ x ∷ x' ∷ y ∷ y' ∷ w ∷ w' ∷ h ∷ h' ∷ rest) =
    some (update_request (is_set i) (word x x') (word y y') (word w w') (word h h'), rest)
parse_update_request _ = none

parse_key_event : List ℕ → Parsed
unfolding long
parse_key_event (d ∷ _ ∷ _ ∷ a ∷ b ∷ c ∷ e ∷ rest) =
    some (key_event (is_set d) (long a b c e), rest)
parse_key_event _ = none

parse_pointer_event : List ℕ → Parsed
unfolding word
parse_pointer_event (m ∷ x ∷ x' ∷ y ∷ y' ∷ rest) =
    some (pointer_event m (word x x') (word y y'), rest)
parse_pointer_event _ = none

parse_cut_text : List ℕ → Parsed
unfolding long
parse_cut_text (_ ∷ _ ∷ _ ∷ a ∷ b ∷ c ∷ d ∷ rest) =
    let n = long a b c d in
    if ltb (length rest) n then none else some (cut_text (take n rest), drop n rest)
parse_cut_text _ = none

-- One message off the front of the client's bytes.
unfoldable pub parse_message : List ℕ → Parsed
unfolding parse_pixel_format parse_encodings parse_update_request parse_key_event
    parse_pointer_event parse_cut_text
parse_message [] = none
parse_message (t ∷ rest) =
    if t == 0
    then parse_pixel_format rest
    else if t == 2
    then parse_encodings rest
    else if t == 3
    then parse_update_request rest
    else if t == 4
    then parse_key_event rest
    else if t == 5
    then parse_pointer_event rest
    else if t == 6
    then parse_cut_text rest
    else none
