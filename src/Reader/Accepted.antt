-- ===== src/Reader/Accepted.antt =====
-- What an accepted Wiegand frame satisfies, and how its outer parities determine its outer bits.
use rfid_access.Base.{
  ℕ, zero, suc, ◌+◌, ◌%◌, ◌≤◌, ◌≡◌, refl, sym, ap, ◌∙◌, ◌⊎◌, inl, inr, Bool, true, false, not, ◌||◌,
  List, [], ◌∷◌, ◌++◌, none, some, arith, ◌==◌, ltb, length, take, drop, to_ℕ, Option-cases,
  if◌then◌else◌, length-append, ==_iff, length-drop,
}
use rfid_access.Bytes.{take_short}
use rfid_access.Reader.{number_text, value_from, count_ones, wiegand_value, decode_wiegand}

-- What an accepted frame satisfies: the parities of a 26-bit frame, and its value.
abbrev pub Accepted : List Bool → ℕ → Type 0
Accepted bits v =
    (4 ≤ length bits)
    × (length bits ≤ 64)
    × (((length bits ≡ 26)
          × (count_ones (take 13 bits) % 2 ≡ 0)
          × (count_ones (take 13 (drop 13 bits)) % 2 ≡ 1)
          × (v ≡ value_from 0 (take 24 (drop 1 bits))))
        ⊎ (¬ (length bits ≡ 26) × (v ≡ value_from 0 bits)))

-- The tests of the decoder, each on its own.
tests_passed :
    (short long is_26 even odd : Bool) (v26 v64 v : ℕ)
    → (if short || long
        then none
        else if is_26
        then (if not even || not odd then none else some v26)
        else some v64)
      ≡ some v
    → (short ≡ false)
      × (long ≡ false)
      × (((is_26 ≡ true) × (even ≡ true) × (odd ≡ true) × (v ≡ v26))
          ⊎ ((is_26 ≡ false) × (v ≡ v64)))
tests_passed short long is_26 even odd v26 v64 v h = ground arith

wiegand_value-Accepted : (bits : List Bool) (v : ℕ) → wiegand_value bits ≡ some v → Accepted bits v
unfolding wiegand_value
wiegand_value-Accepted bits v h =
    let n : ℕ = length bits in
    let ones : ℕ = count_ones (take 13 bits) % 2 in
    let ones' : ℕ = count_ones (take 13 (drop 13 bits)) % 2 in
    let (short, long, cases) =
      tests_passed (ltb n 4) (ltb 64 n) (n == 26) (ones == 0) (ones' == 1)
        (value_from 0 (take 24 (drop 1 bits))) (value_from 0 bits) v h in
    (
      ground arith,
      ground arith,
      elim cases [
        | inl (t, e, o, q) ↦ inl ((==_iff n 26).0 t, (==_iff ones 0).0 e, (==_iff ones' 1).0 o, q)
        | inr (f, q) ↦ inr (λ t. let t' = (==_iff n 26).1 t in cc, q)
      ],
    )

module _ {ℓ} {A : Type ℓ} where
  take_left : (n : ℕ) (xs ys : List A) → n ≤ length xs → take n (xs ++ ys) ≡ take n xs
  take_left zero xs ys h = refl
  take_left (suc n) [] ys h = absurd (omega arith)
  take_left (suc n) (x ∷ xs) ys h = ap (λ zs. x ∷ zs) (take_left n xs ys (omega arith))

  drop_left : (n : ℕ) (xs ys : List A) → n ≤ length xs → drop n (xs ++ ys) ≡ drop n xs ++ ys
  drop_left zero xs ys h = refl
  drop_left (suc n) [] ys h = absurd (omega arith)
  drop_left (suc n) (x ∷ xs) ys h = drop_left n xs ys (omega arith)

  split_last :
      (n : ℕ) (xs : List A)
      → length xs ≡ suc n
      → (b : A) × (length (take n xs) ≡ n) × (xs ≡ take n xs ++ (b ∷ []))
  split_last n [] h = absurd (omega arith)
  split_last zero (x ∷ []) h = (x, refl, refl)
  split_last zero (x ∷ y ∷ xs) h = absurd (omega arith)
  split_last (suc n) (x ∷ xs) h =
      let (b, l, e) = split_last n xs (omega arith) in (b, omega arith, ap (λ zs. x ∷ zs) e)

count_ones-append : (xs ys : List Bool) → count_ones (xs ++ ys) ≡ count_ones xs + count_ones ys
count_ones-append [] ys = omega arith
count_ones-append (x ∷ xs) ys = omega (arith, count_ones-append xs ys)

-- The two parity bits of a 26-bit frame, about the 24 bits between them.
module _ (x b : Bool) (m : List Bool) (l : length m ≡ 24) where
  first_half : count_ones (take 13 (x ∷ (m ++ (b ∷ [])))) ≡ to_ℕ x + count_ones (take 12 m)
  first_half = ap (λ zs. to_ℕ x + count_ones zs) (take_left 12 m (b ∷ []) (omega arith))

  second_half :
      count_ones (take 13 (drop 13 (x ∷ (m ++ (b ∷ []))))) ≡ count_ones (drop 12 m) + to_ℕ b
  second_half =
      let d : drop 12 (m ++ (b ∷ [])) ≡ drop 12 m ++ (b ∷ []) =
        drop_left 12 m (b ∷ []) (omega arith) in
      let t : take 13 (drop 12 m ++ (b ∷ [])) ≡ drop 12 m ++ (b ∷ []) =
        take_short 13 (drop 12 m ++ (b ∷ []))
          (omega (arith, length-append (drop 12 m) (b ∷ []), length-drop 12 m)) in
      rw (d, t) (omega (arith, count_ones-append (drop 12 m) (b ∷ [])))

-- A 26-bit frame is its first bit, the 24 bits of the number, and its last bit.
split_26 :
    (bits : List Bool)
    → length bits ≡ 26
    → (x b : Bool) × (length (take 24 (drop 1 bits)) ≡ 24)
      × (bits ≡ x ∷ (take 24 (drop 1 bits) ++ (b ∷ [])))
split_26 [] h = absurd (omega arith)
split_26 (x ∷ bits) h =
    let (b, l, e) = split_last 24 bits (omega arith) in (x, b, l, ap (λ zs. x ∷ zs) e)

-- The number of a 26-bit frame and its parities determine the frame.
pub same_26 :
    (xs ys : List Bool)
    → length xs ≡ 26
    → length ys ≡ 26
    → take 24 (drop 1 xs) ≡ take 24 (drop 1 ys)
    → count_ones (take 13 xs) % 2 ≡ count_ones (take 13 ys) % 2
    → count_ones (take 13 (drop 13 xs)) % 2 ≡ count_ones (take 13 (drop 13 ys)) % 2
    → xs ≡ ys
same_26 xs ys h k e p q =
    let (x, b, l, ex) = split_26 xs h in
    let (y, c, l', ey) = split_26 ys k in
    let m : List Bool = take 24 (drop 1 ys) in
    let xs' : xs ≡ x ∷ (m ++ (b ∷ [])) = ex ∙ ap (λ zs. x ∷ (zs ++ (b ∷ []))) e in
    let p' =
      ap (λ zs. count_ones (take 13 zs) % 2) (sym xs')
      ∙ p
      ∙ ap (λ zs. count_ones (take 13 zs) % 2) ey in
    let q' =
      ap (λ zs. count_ones (take 13 (drop 13 zs)) % 2) (sym xs')
      ∙ q
      ∙ ap (λ zs. count_ones (take 13 (drop 13 zs)) % 2) ey in
    let first : x ≡ y =
      bits_equal x y (count_ones (take 12 m)) (
        ap (λ n. n % 2) (sym (first_half x b m l')) ∙ p' ∙ ap (λ n. n % 2) (first_half y c m l')) in
    let last : b ≡ c = bits_equal_right b c (count_ones (drop 12 m)) (
      ap (λ n. n % 2) (sym (second_half x b m l')) ∙ q' ∙ ap (λ n. n % 2) (second_half y c m l')) in
    xs' ∙ ap (λ z. z ∷ (m ++ (b ∷ []))) first ∙ ap (λ z. y ∷ (m ++ (z ∷ []))) last ∙ sym ey
  where
    bits_equal : (x y : Bool) (n : ℕ) → (to_ℕ x + n) % 2 ≡ (to_ℕ y + n) % 2 → x ≡ y
    bits_equal true true n h = refl
    bits_equal true false n h = absurd (omega arith)
    bits_equal false true n h = absurd (omega arith)
    bits_equal false false n h = refl

    bits_equal_right : (x y : Bool) (n : ℕ) → (n + to_ℕ x) % 2 ≡ (n + to_ℕ y) % 2 → x ≡ y
    bits_equal_right true true n h = refl
    bits_equal_right true false n h = absurd (omega arith)
    bits_equal_right false true n h = absurd (omega arith)
    bits_equal_right false false n h = refl

-- The text of an accepted frame's number, by the frame.
pub decode_wiegand-Accepted :
    (bits : List Bool) (n : List ℕ)
    → decode_wiegand bits ≡ some n
    → (v : ℕ) × Accepted bits v × (n ≡ number_text v)
unfolding decode_wiegand
decode_wiegand-Accepted bits n h = elim (Option-cases (wiegand_value bits)) [
  | inl q ↦ let h' : none ≡ some n = rw (decode_wiegand, q) at h in cc
  | inr (v, q) ↦
      let h' : some (number_text v) ≡ some n = rw (decode_wiegand, q) at h in
      (v, wiegand_value-Accepted bits v q, cc)
]
