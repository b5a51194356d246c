-- ===== src/Reader/Chars.antt =====
-- The characters of the Clock & Data code, as a reader sends them.
use rfid_access.Base.{
  ℕ, zero, suc, ◌/◌, ◌%◌, ◌<◌, ◌≡◌, refl, Bool, true, false, not, ◌&&◌, List, [], ◌∷◌, ◌++◌, arith,
  ◌==◌, ltb, bit_xor, All, ltb→lt,
}
use rfid_access.Reader.{value_of, is_odd, xor_bool}

-- The bit of `v` with weight `w`.
abbrev pub bit : ℕ → ℕ → Bool
bit v w = v / w % 2 == 1

-- Four data bits, least significant first, and the odd-parity bit.
unfoldable pub encode : ℕ → List Bool
encode v =
    bit v 1
    ∷ bit v 2
    ∷ bit v 4
    ∷ bit v 8
    ∷ not (xor_bool (bit v 1) (xor_bool (bit v 2) (xor_bool (bit v 4) (bit v 8))))
    ∷ []

unfoldable pub encode_all : List ℕ → List Bool
encode_all [] = []
encode_all (v ∷ vs) = encode v ++ encode_all vs

-- Every value is read back, and with odd parity.
pub encode_value : (v : ℕ) → v < 16 → value_of (bit v 1) (bit v 2) (bit v 4) (bit v 8) ≡ v
encode_value v h = ground arith

pub encode_odd :
    (a b c d : Bool) → is_odd a b c d (not (xor_bool a (xor_bool b (xor_bool c d)))) ≡ true
encode_odd a b c d = ground arith

encode-data :
    (a b c d : Bool)
    → encode (value_of a b c d) ≡ a ∷ b ∷ c ∷ d ∷ not (xor_bool a (xor_bool b (xor_bool c d))) ∷ []
unfolding encode
encode-data true true true true = refl
encode-data true true true false = refl
encode-data true true false true = refl
encode-data true true false false = refl
encode-data true false true true = refl
encode-data true false true false = refl
encode-data true false false true = refl
encode-data true false false false = refl
encode-data false true true true = refl
encode-data false true true false = refl
encode-data false true false true = refl
encode-data false true false false = refl
encode-data false false true true = refl
encode-data false false true false = refl
encode-data false false false true = refl
encode-data false false false false = refl

odd_parity :
    (a b c d p : Bool) → is_odd a b c d p ≡ true → not (xor_bool a (xor_bool b (xor_bool c d))) ≡ p
odd_parity a b c d p h = ground arith

-- Any five bits of odd parity are the code of their value.
pub encode-value_of :
    (a b c d p : Bool)
    → is_odd a b c d p ≡ true
    → encode (value_of a b c d) ≡ a ∷ b ∷ c ∷ d ∷ p ∷ []
encode-value_of a b c d p h = rw (← odd_parity a b c d p h) (encode-data a b c d)

pub value_of-lt : (a b c d : Bool) → value_of a b c d < 16
value_of-lt a b c d = ground arith

-- The checksum: the XOR of all characters.
unfoldable pub checksum : ℕ → List ℕ → ℕ
checksum lrc [] = lrc
checksum lrc (v ∷ vs) = checksum (bit_xor lrc v) vs

-- Whether the XOR of each pair of a column and a row is the code of a character.
xor_row : ℕ → List ℕ → Bool
xor_row a [] = true
xor_row a (b ∷ bs) = ltb (bit_xor a b) 16 && xor_row a bs

xor_table : List ℕ → List ℕ → Bool
unfolding xor_row
xor_table [] bs = true
xor_table (a ∷ rest) bs = xor_row a bs && xor_table rest bs

-- The numbers below `n`, from the greatest.
below : ℕ → List ℕ
below zero = []
below (suc n) = n ∷ below n

xor_row-entry : (a b n : ℕ) → xor_row a (below n) ≡ true → b < n → ltb (bit_xor a b) 16 ≡ true
unfolding xor_row below
xor_row-entry a b zero h l = absurd (omega arith)
xor_row-entry a b (suc n) h l = ground (arith, xor_row-entry a b n)

xor_table-entry :
    (a m : ℕ) (bs : List ℕ) → xor_table (below m) bs ≡ true → a < m → xor_row a bs ≡ true
unfolding xor_table below
xor_table-entry a zero bs h l = absurd (omega arith)
xor_table-entry a (suc m) bs h l = ground (arith, xor_table-entry a m bs)

pub bit_xor-lt : (a b : ℕ) → a < 16 → b < 16 → bit_xor a b < 16
bit_xor-lt a b ha hb =
    let table : xor_table (below 16) (below 16) ≡ true = unfold xor_table below in refl in
    ltb→lt _ _ (xor_row-entry a b 16 (xor_table-entry a 16 (below 16) table ha) hb)

pub checksum-lt : (lrc : ℕ) (vs : List ℕ) → lrc < 16 → All (λ v. v < 16) vs → checksum lrc vs < 16
unfolding checksum
checksum-lt lrc [] h a = h
checksum-lt lrc (v ∷ vs) h a = checksum-lt (bit_xor lrc v) vs (bit_xor-lt lrc v h a.0) a.1
