-- ===== src/Reader/Wiegand.antt =====
-- The Wiegand decoder: which frames share a number.
use native.Mathlib.Nat.{
  pow-suc, mul-le-mul_right, mul_assoc, mul_comm, one-le-pow, pow-le-pow_right,
}
use rfid_access.Base.{
  ℕ, zero, suc, ◌+◌, ◌-◌, ◌*◌, ◌/◌, ◌%◌, ◌^◌, ◌≤◌, ◌<◌, ◌≡◌, refl, sym, ap, ◌∙◌, inl, inr, Bool,
  true, false, List, [], ◌∷◌, ◌++◌, arith, ltb, length, take, to_ℕ, Bool-cases, length-append,
}
use rfid_access.Bytes.{take_short}
use rfid_access.Reader.{decimal, number_text, value_from}

-- The number that a decimal text stands for.
unfoldable pub of_decimal : ℕ → List ℕ → ℕ
of_decimal acc [] = acc
of_decimal acc (c ∷ cs) = of_decimal (acc * 10 + (c - 48)) cs

of_decimal-snoc :
    (acc : ℕ) (cs : List ℕ) (d : ℕ)
    → of_decimal acc (cs ++ ((48 + d) ∷ [])) ≡ of_decimal acc cs * 10 + d
unfolding of_decimal
of_decimal-snoc acc [] d = omega arith
of_decimal-snoc acc (c ∷ cs) d = of_decimal-snoc (acc * 10 + (c - 48)) cs d

of_decimal-decimal : (k v : ℕ) → 0 < k → v < 10 ^ k → of_decimal 0 (decimal k v) ≡ v
unfolding decimal of_decimal
of_decimal-decimal zero v z h = absurd (omega arith)
of_decimal-decimal (suc zero) v z h =
    let small : ltb v 10 ≡ true = ground arith in rw small (omega arith)
of_decimal-decimal (suc (suc k)) v z h =
    let p : 10 ^ suc (suc k) ≡ 10 ^ suc k * 10 = pow-suc 10 (suc k) in
    let ih : of_decimal 0 (decimal (suc k) (v / 10)) ≡ v / 10 =
      of_decimal-decimal (suc k) (v / 10) (omega arith) (omega arith) in
    elim (Bool-cases (ltb v 10)) [
      | inl small ↦ rw small (omega arith)
      | inr big ↦
          rw (big, of_decimal-snoc 0 (decimal (suc k) (v / 10)) (v % 10)) (omega (arith, ih))
    ]

length-decimal-le : (k j v : ℕ) → 0 < j → v < 10 ^ j → length (decimal k v) ≤ j
unfolding decimal
length-decimal-le zero j v z h = omega arith
length-decimal-le (suc k) zero v z h = absurd (omega arith)
length-decimal-le (suc k) (suc zero) v z h =
    let small : ltb v 10 ≡ true = ground arith in rw small (omega arith)
length-decimal-le (suc k) (suc (suc j)) v z h =
    let p : 10 ^ suc (suc j) ≡ 10 ^ suc j * 10 = pow-suc 10 (suc j) in
    let ih = length-decimal-le k (suc j) (v / 10) (omega arith) (omega arith) in
    elim (Bool-cases (ltb v 10)) [
      | inl small ↦ rw small (omega arith)
      | inr big ↦
          rw (big) (omega (arith, ih, length-append (decimal k (v / 10)) ((48 + v % 10) ∷ [])))
    ]

-- A value below 10 ^ 19 can be read back from the text of its card number.
pub of_decimal-number_text : (v : ℕ) → v < 10 ^ 19 → of_decimal 0 (number_text v) ≡ v
unfolding number_text
of_decimal-number_text v h =
    rw (take_short 19 (decimal 20 v) (length-decimal-le 20 19 v (omega arith) h))
      (of_decimal-decimal 20 v (omega arith) (omega arith))

pub value_from-lt : (v : ℕ) (bits : List Bool) → value_from v bits < (v + 1) * 2 ^ length bits
unfolding value_from
value_from-lt v [] = omega arith
value_from-lt v (b ∷ bits) =
    let ih = value_from-lt (v * 2 + to_ℕ b) bits in
    let p : 2 ^ suc (length bits) ≡ 2 ^ length bits * 2 = pow-suc 2 (length bits) in
    let q : (v * 2 + to_ℕ b + 1) * 2 ^ length bits ≤ (v + 1) * 2 * 2 ^ length bits =
      mul-le-mul_right (2 ^ length bits) (ground arith) in
    let r : (v + 1) * 2 * 2 ^ length bits ≡ (v + 1) * 2 ^ suc (length bits) =
      mul_assoc (v + 1) 2 (2 ^ length bits)
      ∙ ap (λ x. (v + 1) * x) (mul_comm 2 (2 ^ length bits) ∙ sym p) in
    omega (arith, ih, q, r)

pub value_from-inj :
    (v w : ℕ) (xs ys : List Bool)
    → length xs ≡ length ys
    → value_from v xs ≡ value_from w ys
    → (v ≡ w) × (xs ≡ ys)
unfolding value_from
value_from-inj v w [] [] l e = (e, refl)
value_from-inj v w [] (y ∷ ys) l e = absurd (omega arith)
value_from-inj v w (x ∷ xs) [] l e = absurd (omega arith)
value_from-inj v w (x ∷ xs) (y ∷ ys) l e =
    let (p, q) = value_from-inj (v * 2 + to_ℕ x) (w * 2 + to_ℕ y) xs ys (omega arith) e in
    (ground arith, ground arith)

pub value_from-bound : (bits : List Bool) → length bits ≤ 63 → value_from 0 bits < 10 ^ 19
value_from-bound bits h =
    let p : 2 ^ length bits ≤ 2 ^ 63 = pow-le-pow_right (omega arith) h in
    omega (arith, value_from-lt 0 bits, p)

length-decimal-ge : (k j v : ℕ) → j < k → 10 ^ j ≤ v → j < length (decimal k v)
unfolding decimal
length-decimal-ge zero j v z h = absurd (omega arith)
length-decimal-ge (suc k) zero v z h = elim (Bool-cases (ltb v 10)) [
  | inl small ↦ rw small (omega arith)
  | inr big ↦ rw big (omega (arith, length-append (decimal k (v / 10)) ((48 + v % 10) ∷ [])))
]
length-decimal-ge (suc k) (suc j) v z h =
    let p : 10 ^ suc j ≡ 10 ^ j * 10 = pow-suc 10 j in
    let r : 1 ≤ 10 ^ j = one-le-pow j 10 (omega arith) in
    let big : ltb v 10 ≡ false = ground arith in
    let ih = length-decimal-ge k j (v / 10) (omega arith) (omega arith) in
    rw big (omega (arith, ih, length-append (decimal k (v / 10)) ((48 + v % 10) ∷ [])))

take_front {ℓ} : {A : Type ℓ} (xs ys : List A) → take (length xs) (xs ++ ys) ≡ xs
take_front [] ys = refl
take_front (x ∷ xs) ys = ap (λ zs. x ∷ zs) (take_front xs ys)

-- A value of twenty digits keeps the first nineteen.
pub number_text-long : (v : ℕ) → 10 ^ 19 ≤ v → v < 10 ^ 20 → number_text v ≡ decimal 19 (v / 10)
unfolding number_text
number_text-long v h k =
    let l : length (decimal 19 (v / 10)) ≡ 19 = omega (
      arith,
      length-decimal-le 19 19 (v / 10) (omega arith) (omega arith),
      length-decimal-ge 19 18 (v / 10) (omega arith) (omega arith),
    ) in
    let big : ltb v 10 ≡ false = ground arith in
    let q : decimal 20 v ≡ decimal 19 (v / 10) ++ ((48 + v % 10) ∷ []) =
      unfold decimal in rw big refl in
    rw q (
      ap (λ n. take n (decimal 19 (v / 10) ++ ((48 + v % 10) ∷ []))) (sym l)
      ∙ take_front (decimal 19 (v / 10)) ((48 + v % 10) ∷ []))
