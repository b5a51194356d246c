-- ===== src/Reader/Reads.antt =====
-- The characters that an accepted run of the Clock & Data decoder has read.
use rfid_access.Base.{
  ℕ, ◌+◌, ◌≤◌, ◌<◌, ◌≡◌, refl, sym, ap, ◌∙◌, inl, inr, Bool, true, false, List, [], ◌∷◌, ◌++◌, some,
  arith, ◌==◌, bit_xor, length, length-append, append_assoc, append-nil, ==_iff,
}
use rfid_access.Reader.{value_of, is_odd, max_digits, check_lrc, take_char, read_chars}
use rfid_access.Reader.Chars.{encode, encode_all, encode-value_of, checksum}
use rfid_access.Reader.Frames.{IsBody, number_of, frame_from}
use rfid_access.Reader.Steps.{check_lrc_inv, take_char_inv, read_inv}

-- What an accepted run has read.
abbrev pub Reads : List Bool → ℕ → Bool → List ℕ → List ℕ → Type 0
Reads bits lrc sep ds out =
    (vs : List ℕ) × (tail : List Bool) × (bits ≡ frame_from lrc vs tail)
    × IsBody sep vs
    × (out ≡ ds ++ number_of sep vs)
    × (0 < length out)
    × (length out ≤ max_digits)

Reads-end :
    (a b c d p : Bool) (rest : List Bool) (lrc : ℕ) (sep : Bool) (ds out : List ℕ)
    → is_odd a b c d p ≡ true
    → value_of a b c d ≡ 15
    → check_lrc rest (bit_xor lrc 15) ds ≡ some out
    → length ds ≤ max_digits
    → Reads (a ∷ b ∷ c ∷ d ∷ p ∷ rest) lrc sep ds out
unfolding encode_all checksum
Reads-end a b c d p rest lrc sep ds out odd end checked m =
    let (tail, e, o, k) = check_lrc_inv rest (bit_xor lrc 15) ds out checked in
    let front : a ∷ b ∷ c ∷ d ∷ p ∷ rest ≡ encode 15 ++ rest =
      ap (λ (x : List Bool). x ++ rest) (sym (encode-value_of a b c d p odd))
      ∙ ap (λ (x : ℕ). encode x ++ rest) end in
    (
      [],
      tail,
      front ∙ ap (λ (x : List Bool). encode 15 ++ x) e,
      tt,
      o ∙ sym (nothing sep),
      rw o k,
      rw o m,
    )
  where
    nothing : (sep : Bool) → ds ++ number_of sep [] ≡ ds
    nothing true = append-nil ds
    nothing false = append-nil ds

extend :
    (v : ℕ) (vs : List ℕ) (sep : Bool) (ds : List ℕ) (s : Bool) (e out : List ℕ)
    → take_char v sep ds ≡ some (s, e)
    → IsBody s vs
    → out ≡ e ++ number_of s vs
    → IsBody sep (v ∷ vs) × (out ≡ ds ++ number_of sep (v ∷ vs))
extend v vs sep ds s e out took b o = elim (take_char_inv v sep ds s e took) [
  | inl (h, p, q, r) ↦ rw p (
    inl (h, rw q at b),
    o ∙ ap (λ (x : Bool). e ++ number_of x vs) q ∙ ap (λ (x : List ℕ). x ++ []) r,
  )
  | inr (inl (h, p, q, r, room)) ↦
      let digit : (v == 13) ≡ false = ground arith in
      rw (p, digit)
        (
          inl (h, rw q at b),
          o
              ∙ ap (λ (x : Bool). e ++ number_of x vs) q
              ∙ ap (λ (x : List ℕ). x ++ number_of false vs) r
              ∙ append_assoc ds ((48 + v) ∷ []) (number_of false vs),
        )
  | inr (inr (h, p, q, r)) ↦
      let stop : (v == 13) ≡ true = (==_iff v 13).1 h in
      rw (p, stop)
        (
          inr (h, refl, rw q at b),
          o ∙ ap (λ (x : Bool). e ++ number_of x vs) q ∙ ap (λ (x : List ℕ). x ++ []) r,
        )
]

Reads-more :
    (a b c d p : Bool) (rest : List Bool) (lrc : ℕ) (sep : Bool) (ds out : List ℕ) (s : Bool)
    (e : List ℕ)
    → is_odd a b c d p ≡ true
    → take_char (value_of a b c d) sep ds ≡ some (s, e)
    → Reads rest (bit_xor lrc (value_of a b c d)) s e out
    → Reads (a ∷ b ∷ c ∷ d ∷ p ∷ rest) lrc sep ds out
unfolding encode_all checksum
Reads-more a b c d p rest lrc sep ds out s e odd took (vs, tail, q, b', o, k, m) =
    let v = value_of a b c d in
    let front : a ∷ b ∷ c ∷ d ∷ p ∷ rest ≡ frame_from lrc (v ∷ vs) tail =
      ap (λ (x : List Bool). x ++ rest) (sym (encode-value_of a b c d p odd))
      ∙ ap (λ (x : List Bool). encode v ++ x) q
      ∙ sym (append_assoc (encode v) (encode_all vs) _) in
    let (body, number) = extend v vs sep ds s e out took b' o in
    (v ∷ vs, tail, front, body, number, k, m)

take_char-length :
    (v : ℕ) (sep : Bool) (ds : List ℕ) (s : Bool) (e : List ℕ)
    → take_char v sep ds ≡ some (s, e)
    → length ds ≤ max_digits
    → length e ≤ max_digits
take_char-length v sep ds s e took m =
    ground (arith, take_char_inv v sep ds s e took, length-append ds ((48 + v) ∷ []))

pub read_sound :
    (bits : List Bool) (lrc : ℕ) (sep : Bool) (ds out : List ℕ)
    → read_chars bits lrc sep ds ≡ some out
    → length ds ≤ max_digits
    → Reads bits lrc sep ds out
read_sound [] lrc sep ds out h m = unfold read_chars in cc
read_sound (a ∷ []) lrc sep ds out h m = unfold read_chars in cc
read_sound (a ∷ b ∷ []) lrc sep ds out h m = unfold read_chars in cc
read_sound (a ∷ b ∷ c ∷ []) lrc sep ds out h m = unfold read_chars in cc
read_sound (a ∷ b ∷ c ∷ d ∷ []) lrc sep ds out h m = unfold read_chars in cc
read_sound (a ∷ b ∷ c ∷ d ∷ p ∷ rest) lrc sep ds out h m =
    let (odd, cases) = read_inv a b c d p rest lrc sep ds out h in
    elim cases [
      | inl (end, checked) ↦ Reads-end a b c d p rest lrc sep ds out odd end checked m
      | inr (s, e, took, more) ↦ Reads-more a b c d p rest lrc sep ds out s e odd took (
          read_sound rest (bit_xor lrc (value_of a b c d)) s e out more
            (take_char-length (value_of a b c d) sep ds s e took m))
    ]
