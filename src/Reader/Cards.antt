-- ===== src/Reader/Cards.antt =====
-- Wiegand frames and the card numbers that are made of them.
use rfid_access.Base.{
  ℕ, ◌-◌, min, ◌/◌, ◌^◌, ◌≤◌, ◌<◌, ◌≡◌, refl, sym, ap, ◌∙◌, inl, inr, Bool, List, some, arith,
  length, take, drop, length-take, length-drop,
}
use rfid_access.Reader.{number_text, value_from, wiegand_value, decode_wiegand, decimal}
use rfid_access.Reader.Wiegand.{
  of_decimal, of_decimal-number_text, value_from-inj, value_from-lt, value_from-bound,
  number_text-long,
}
use rfid_access.Reader.Accepted.{Accepted, same_26, decode_wiegand-Accepted}

-- A number of a frame up to 63 bits is read back from its text.
Accepted-readable :
    (bits : List Bool) (v : ℕ)
    → length bits ≤ 63
    → Accepted bits v
    → of_decimal 0 (number_text v) ≡ v
Accepted-readable bits v h (s, m, inl (_, _, _, q)) =
    of_decimal-number_text v (
      rw q (value_from-bound (take 24 (drop 1 bits)) (omega (arith, length-take 24 (drop 1 bits)))))
Accepted-readable bits v h (s, m, inr (_, q)) =
    of_decimal-number_text v (rw q (value_from-bound bits h))

Accepted-unique :
    (xs ys : List Bool) (v w : ℕ)
    → length xs ≡ length ys
    → Accepted xs v
    → Accepted ys w
    → v ≡ w
    → xs ≡ ys
Accepted-unique xs ys v w l (_, _, inl (k, e, o, u)) (_, _, inl (k', e', o', u')) same =
    let size : length (take 24 (drop 1 xs)) ≡ length (take 24 (drop 1 ys)) =
      length-take 24 (drop 1 xs)
      ∙ ap (λ n. min 24 n) (length-drop 1 xs ∙ ap (λ n. n - 1) l ∙ sym (length-drop 1 ys))
      ∙ sym (length-take 24 (drop 1 ys)) in
    let (_, m) =
      value_from-inj 0 0 (take 24 (drop 1 xs)) (take 24 (drop 1 ys)) size (sym u ∙ same ∙ u') in
    same_26 xs ys k k' m (e ∙ sym e') (o ∙ sym o')
Accepted-unique xs ys v w l (_, _, inl (k, _, _, _)) (_, _, inr (n, _)) same =
    absurd (n (sym l ∙ k))
Accepted-unique xs ys v w l (_, _, inr (n, _)) (_, _, inl (k, _, _, _)) same = absurd (n (l ∙ k))
Accepted-unique xs ys v w l (_, _, inr (_, u)) (_, _, inr (_, u')) same =
    (value_from-inj 0 0 xs ys l (sym u ∙ same ∙ u')).1

-- Two Wiegand frames of the same length, 63 bits at most, that the decoder accepts with the same
-- card number are the same frame.
pub decode_wiegand-inj :
    (xs ys : List Bool) (n : List ℕ)
    → length xs ≡ length ys
    → length xs ≤ 63
    → decode_wiegand xs ≡ some n
    → decode_wiegand ys ≡ some n
    → xs ≡ ys
decode_wiegand-inj xs ys n l h p q =
    let (v, a, e) = decode_wiegand-Accepted xs n p in
    let (w, b, f) = decode_wiegand-Accepted ys n q in
    let same : v ≡ w =
      sym (Accepted-readable xs v h a)
      ∙ ap (of_decimal 0) (sym e ∙ f)
      ∙ Accepted-readable ys w (omega arith) b in
    Accepted-unique xs ys v w l a b same

-- A frame of 64 bits is accepted whatever its bits are.
wiegand_value-64 :
    (bits : List Bool) → length bits ≡ 64 → wiegand_value bits ≡ some (value_from 0 bits)
unfolding wiegand_value
wiegand_value-64 bits l = rw (wiegand_value, l) refl

value_from-64 : (bits : List Bool) → length bits ≡ 64 → value_from 0 bits < 10 ^ 20
value_from-64 bits l =
    let p : 2 ^ length bits ≡ 2 ^ 64 = ap (λ n. 2 ^ n) l in omega (arith, value_from-lt 0 bits, p)

-- Two frames of 64 bits whose numbers have twenty digits and differ in the last digit at most are
-- decoded to the same card number, the first nineteen of them.
pub twentieth_digit_lost :
    (xs ys : List Bool)
    → length xs ≡ 64
    → length ys ≡ 64
    → 10 ^ 19 ≤ value_from 0 xs
    → 10 ^ 19 ≤ value_from 0 ys
    → value_from 0 xs / 10 ≡ value_from 0 ys / 10
    → (decode_wiegand xs ≡ decode_wiegand ys)
      × (decode_wiegand xs ≡ some (decimal 19 (value_from 0 xs / 10)))
unfolding decode_wiegand
twentieth_digit_lost xs ys l k h h' e =
    let nx = number_text-long (value_from 0 xs) h (value_from-64 xs l) in
    let ny = number_text-long (value_from 0 ys) h' (value_from-64 ys k) in
    let dx : decode_wiegand xs ≡ some (number_text (value_from 0 xs)) =
      rw (decode_wiegand, wiegand_value-64 xs l) refl in
    let dy : decode_wiegand ys ≡ some (number_text (value_from 0 ys)) =
      rw (decode_wiegand, wiegand_value-64 ys k) refl in
    (dx ∙ ap some (nx ∙ ap (decimal 19) e ∙ sym ny) ∙ sym dy, dx ∙ ap some nx)
