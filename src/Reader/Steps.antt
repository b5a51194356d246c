-- ===== src/Reader/Steps.antt =====
-- The steps of the Clock & Data decoder, read backwards: what an accepted character was.
use rfid_access.Base.{
  ℕ, ◌+◌, ◌≤◌, ◌<◌, ◌≡◌, sym, ap, ◌∙◌, ◌⊎◌, inl, inr, Bool, true, false, List, [], ◌∷◌, ◌++◌, none,
  some, arith, ◌==◌, bit_xor, length, Bool-cases, Option-cases, ==_iff,
}
use rfid_access.Reader.{value_of, is_odd, max_digits, check_lrc, take_char, read_chars}
use rfid_access.Reader.Chars.{encode, encode-value_of}

pub check_lrc_inv :
    (rest : List Bool) (l : ℕ) (ds out : List ℕ)
    → check_lrc rest l ds ≡ some out
    → (tail : List Bool) × (rest ≡ encode l ++ tail) × (out ≡ ds) × (0 < length ds)
unfolding check_lrc
check_lrc_inv [] l ds out h = cc
check_lrc_inv (a ∷ []) l ds out h = cc
check_lrc_inv (a ∷ b ∷ []) l ds out h = cc
check_lrc_inv (a ∷ b ∷ c ∷ []) l ds out h = cc
check_lrc_inv (a ∷ b ∷ c ∷ d ∷ []) l ds out h = cc
check_lrc_inv (a ∷ b ∷ c ∷ d ∷ p ∷ tail) l ds out h =
    let odd : is_odd a b c d p ≡ true = ground arith in
    let same : value_of a b c d ≡ l = ground arith in
    (
      tail,
      ap (λ (x : List Bool). x ++ tail) (sym (encode-value_of a b c d p odd))
          ∙ ap (λ (x : ℕ). encode x ++ tail) same,
      ground arith,
      ground arith,
    )

pub take_char_inv :
    (v : ℕ) (sep : Bool) (ds : List ℕ) (s : Bool) (e : List ℕ)
    → take_char v sep ds ≡ some (s, e)
    → ((v ≤ 9) × (sep ≡ true) × (s ≡ true) × (e ≡ ds))
      ⊎ ((v ≤ 9)
          × (sep ≡ false)
          × (s ≡ false)
          × (e ≡ ds ++ ((48 + v) ∷ []))
          × (length ds < max_digits))
      ⊎ ((v ≡ 13) × (sep ≡ false) × (s ≡ true) × (e ≡ ds))
unfolding take_char
take_char_inv v sep ds s e h = ground arith

pub read_inv :
    (a b c d p : Bool) (rest : List Bool) (lrc : ℕ) (sep : Bool) (ds out : List ℕ)
    → read_chars (a ∷ b ∷ c ∷ d ∷ p ∷ rest) lrc sep ds ≡ some out
    → (is_odd a b c d p ≡ true)
      × (((value_of a b c d ≡ 15) × (check_lrc rest (bit_xor lrc 15) ds ≡ some out))
          ⊎ ((s : Bool) × (e : List ℕ) × (take_char (value_of a b c d) sep ds ≡ some (s, e))
              × (read_chars rest (bit_xor lrc (value_of a b c d)) s e ≡ some out)))
unfolding read_chars
read_inv a b c d p rest lrc sep ds out h = elim (Bool-cases (is_odd a b c d p)) [
  | inr even ↦ let h' : none ≡ some out = rw even at h in cc
  | inl odd ↦ (
    odd,
    elim (Bool-cases (value_of a b c d == 15)) [
      | inl end ↦ inl ((==_iff _ _).0 end, rw (odd, end) at h)
      | inr other ↦ elim (Option-cases (take_char (value_of a b c d) sep ds)) [
        | inl refused ↦ let h' : none ≡ some out = rw (odd, other, refused) at h in cc
        | inr ((s, e), took) ↦ inr (s, e, took, rw (odd, other, took) at h)
      ]
    ],
  )
]
