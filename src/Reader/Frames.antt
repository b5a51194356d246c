-- ===== src/Reader/Frames.antt =====
-- A Clock & Data frame as a reader sends it, and the decoder behind the start sentinel.
use rfid_access.Base.{
  ℕ, ◌+◌, ◌≤◌, ◌<◌, ◌≡◌, refl, sym, ap, ◌∙◌, ◌⊎◌, inl, inr, Bool, true, false, List, [], ◌∷◌, ◌++◌,
  some, arith, ◌==◌, bit_xor, All, length, length-append, append_assoc, append-nil, ==_iff,
  if◌then◌else◌,
}
use rfid_access.Reader.{value_of, is_odd, max_digits, take_char, read_chars}
use rfid_access.Reader.Chars.{
  bit, encode, encode_all, encode_value, encode_odd, checksum, bit_xor-lt,
}

-- The characters between the sentinels: decimal digits, with at most one field separator 13.
abbrev pub IsBody : Bool → List ℕ → Type 0
IsBody sep [] = Unit {0}
IsBody sep (v ∷ vs) = ((v ≤ 9) × IsBody sep vs) ⊎ ((v ≡ 13) × (sep ≡ false) × IsBody true vs)

-- The card number: the digits before the separator, as characters.
abbrev pub number_of : Bool → List ℕ → List ℕ
number_of true vs = []
number_of false [] = []
number_of false (v ∷ vs) = if v == 13 then [] else (48 + v) ∷ number_of false vs

-- The bits behind the start sentinel: the body, the end sentinel 15, the checksum, and the rest.
abbrev pub frame_from : ℕ → List ℕ → List Bool → List Bool
frame_from lrc vs tail =
    encode_all vs ++ (encode 15 ++ (encode (bit_xor (checksum lrc vs) 15) ++ tail))

-- One character, by its bits.
pub bits_more :
    (a b c d p : Bool) (rest : List Bool) (lrc : ℕ) (sep : Bool) (ds : List ℕ) (s : Bool)
    (e : List ℕ)
    → is_odd a b c d p ≡ true
    → (value_of a b c d == 15) ≡ false
    → take_char (value_of a b c d) sep ds ≡ some (s, e)
    → read_chars (a ∷ b ∷ c ∷ d ∷ p ∷ rest) lrc sep ds
      ≡ read_chars rest (bit_xor lrc (value_of a b c d)) s e
unfolding read_chars
bits_more a b c d p rest lrc sep ds s e odd other took = rw (odd, other, took) refl

step_more :
    (v : ℕ) (rest : List Bool) (lrc : ℕ) (sep : Bool) (ds : List ℕ) (s : Bool) (d : List ℕ)
    → v < 15
    → take_char v sep ds ≡ some (s, d)
    → read_chars (encode v ++ rest) lrc sep ds ≡ read_chars rest (bit_xor lrc v) s d
unfolding encode
step_more v rest lrc sep ds s d h e =
    let value : value_of (bit v 1) (bit v 2) (bit v 4) (bit v 8) ≡ v =
      encode_value v (omega arith) in
    let other : (v == 15) ≡ false = ground arith in
    bits_more (bit v 1) (bit v 2) (bit v 4) (bit v 8) _ rest lrc sep ds s d
      (encode_odd (bit v 1) (bit v 2) (bit v 4) (bit v 8)) (rw value other) (rw value e)
    ∙ ap (λ (x : ℕ). read_chars rest (bit_xor lrc x) s d) value

step_end :
    (l : ℕ) (tail : List Bool) (lrc : ℕ) (sep : Bool) (ds : List ℕ)
    → l < 16
    → l ≡ bit_xor lrc 15
    → 0 < length ds
    → read_chars (encode 15 ++ (encode l ++ tail)) lrc sep ds ≡ some ds
unfolding read_chars encode
step_end l tail lrc sep ds h e k =
    let right : (l == bit_xor lrc 15) ≡ true = (==_iff _ _).1 e in
    let some_digits : (length ds == 0) ≡ false = ground arith in
    rw (encode_odd (bit l 1) (bit l 2) (bit l 4) (bit l 8), encode_value l h, right, some_digits)
      refl

take_digit :
    (v : ℕ) (ds : List ℕ)
    → v ≤ 9
    → length ds < max_digits
    → take_char v false ds ≡ some (false, ds ++ ((48 + v) ∷ []))
unfolding take_char
take_digit v ds h k = ground arith

take_skipped : (v : ℕ) (ds : List ℕ) → v ≤ 9 → take_char v true ds ≡ some (true, ds)
unfolding take_char
take_skipped v ds h = ground arith

take_separator : (ds : List ℕ) → take_char 13 false ds ≡ some (true, ds)
unfolding take_char
take_separator ds = refl

IsBody-lt : (sep : Bool) (vs : List ℕ) → IsBody sep vs → All (λ v. v < 16) vs
IsBody-lt sep [] b = tt
IsBody-lt sep (v ∷ vs) (inl (h, b)) = (omega arith, IsBody-lt sep vs b)
IsBody-lt sep (v ∷ vs) (inr (h, _, b)) = (omega arith, IsBody-lt true vs b)

snoc-append : (ds : List ℕ) (x : ℕ) (ys : List ℕ) → (ds ++ (x ∷ [])) ++ ys ≡ ds ++ (x ∷ ys)
snoc-append ds x ys = append_assoc ds (x ∷ []) ys

-- The decoder reads every well-formed frame, and yields its number.
pub read_frame :
    (vs : List ℕ) (tail : List Bool) (lrc : ℕ) (sep : Bool) (ds : List ℕ)
    → lrc < 16
    → IsBody sep vs
    → length (ds ++ number_of sep vs) ≤ max_digits
    → 0 < length (ds ++ number_of sep vs)
    → read_chars (frame_from lrc vs tail) lrc sep ds ≡ some (ds ++ number_of sep vs)
unfolding encode_all checksum
read_frame [] tail lrc true ds l b m k = rw append-nil (
    step_end (bit_xor lrc 15) tail lrc true ds (bit_xor-lt lrc 15 l (omega arith)) refl
      (rw append-nil at k))
read_frame [] tail lrc false ds l b m k = rw append-nil (
    step_end (bit_xor lrc 15) tail lrc false ds (bit_xor-lt lrc 15 l (omega arith)) refl
      (rw append-nil at k))
read_frame (v ∷ vs) tail lrc true ds l (inl (h, b)) m k =
    rw (append_assoc (encode v) (encode_all vs) _) (
      step_more v _ lrc true ds true ds (omega arith) (take_skipped v ds h)
      ∙ read_frame vs tail (bit_xor lrc v) true ds (bit_xor-lt lrc v l (omega arith)) b m k)
read_frame (v ∷ vs) tail lrc false ds l (inl (h, b)) m k =
    let digit : (v == 13) ≡ false = ground arith in
    let same : ds ++ ((48 + v) ∷ number_of false vs)
        ≡ (ds ++ ((48 + v) ∷ [])) ++ number_of false vs =
      sym (snoc-append ds (48 + v) (number_of false vs)) in
    let m' : length ((ds ++ ((48 + v) ∷ [])) ++ number_of false vs) ≤ max_digits =
      rw (digit, same) at m in
    let k' : 0 < length ((ds ++ ((48 + v) ∷ [])) ++ number_of false vs) = rw (digit, same) at k in
    let room : length ds < max_digits = omega (
      arith,
      length-append (ds ++ ((48 + v) ∷ [])) (number_of false vs),
      length-append ds ((48 + v) ∷ []),
    ) in
    rw (append_assoc (encode v) (encode_all vs) _, digit, same)
      (step_more v _ lrc false ds false (ds ++ ((48 + v) ∷ [])) (omega arith)
          (take_digit v ds h room)
        ∙ read_frame vs tail (bit_xor lrc v) false (ds ++ ((48 + v) ∷ []))
            (bit_xor-lt lrc v l (omega arith)) b m' k')
read_frame (v ∷ vs) tail lrc true ds l (inr (h, n, b)) m k = cc
read_frame (v ∷ vs) tail lrc false ds l (inr (h, n, b)) m k =
    let stop : (v == 13) ≡ true = (==_iff v 13).1 h in
    let m' : length (ds ++ []) ≤ max_digits = rw stop at m in
    let k' : 0 < length (ds ++ []) = rw stop at k in
    rw (append_assoc (encode v) (encode_all vs) _, stop)
      (step_more v _ lrc false ds true ds (omega arith) (rw h (take_separator ds))
        ∙ read_frame vs tail (bit_xor lrc v) true ds (bit_xor-lt lrc v l (omega arith)) b m' k')
