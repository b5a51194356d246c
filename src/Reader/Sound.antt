-- ===== src/Reader/Sound.antt =====
-- What the Clock & Data decoder accepts against the well-formed frames, also behind leading zeros.
use rfid_access.Base.{
  ℕ, zero, suc, ◌≤◌, ◌<◌, ◌≡◌, refl, sym, ap, ◌∙◌, ◌↔◌, inl, inr, Bool, true, false, List, [], ◌∷◌,
  ◌++◌, Option, none, some, arith, length, Option-cases, replicate,
}
use rfid_access.Reader.{max_digits, read_chars, after_start, try_from, decode_cnd, or_else}
use rfid_access.Reader.Frames.{IsBody, number_of, frame_from, read_frame}
use rfid_access.Reader.Reads.{read_sound}

abbrev pub start_bits : List Bool
start_bits = true ∷ true ∷ false ∷ true ∷ false ∷ []

-- A well-formed frame for a card number: the start sentinel, a body of digits with at most one
-- separator, the end sentinel and the checksum, with any bits behind; between one and nineteen
-- digits stand before the separator, and they are the number.
abbrev pub IsFrame : List Bool → List ℕ → Type 0
IsFrame bits out =
    (vs : List ℕ) × (tail : List Bool) × (bits ≡ start_bits ++ frame_from 11 vs tail)
    × IsBody false vs
    × (out ≡ number_of false vs)
    × (0 < length out)
    × (length out ≤ max_digits)

after_start_inv : (bits rest : List Bool) → after_start bits ≡ some rest → bits ≡ start_bits ++ rest
after_start_inv bits rest h = ground arith

try_from-after :
    (bits rest : List Bool)
    → after_start bits ≡ some rest
    → try_from bits ≡ read_chars rest 11 false []
unfolding try_from
try_from-after bits rest e = rw (e, try_from) refl

try_from-none : (bits : List Bool) → after_start bits ≡ none → try_from bits ≡ none
unfolding try_from
try_from-none bits e = rw (e, try_from) refl

-- From the position of a start sentinel, the decoder accepts exactly the well-formed frames, and
-- yields their number.
pub try_from_iff : (bits : List Bool) (out : List ℕ) → (try_from bits ≡ some out) ↔ IsFrame bits out
try_from_iff bits out = (sound, complete)
  where
    sound : try_from bits ≡ some out → IsFrame bits out
    sound h = elim (Option-cases (after_start bits)) [
      | inl no_start ↦ let n = try_from-none bits no_start in cc
      | inr (rest, e) ↦
          let (vs, tail, q, b, o, k, m) =
            read_sound rest 11 false [] out (sym (try_from-after bits rest e) ∙ h) (omega arith) in
          (
            vs,
            tail,
            after_start_inv bits rest e ∙ ap (λ (x : List Bool). start_bits ++ x) q,
            b,
            o,
            k,
            m,
          )
    ]

    complete : IsFrame bits out → try_from bits ≡ some out
    complete (vs, tail, e, b, o, k, m) =
        ap try_from e
        ∙ try_from-after (start_bits ++ frame_from 11 vs tail) _ refl
        ∙ read_frame vs tail 11 false [] (omega arith) b (rw o at m) (rw o at k)
        ∙ ap some (sym o)

or_else-none {ℓ} : {A : Type ℓ} (o r : Option A) → or_else o r ≡ none → (o ≡ none) × (r ≡ none)
or_else-none none r h = (refl, h)
or_else-none (some a) r h = cc

abbrev tail_of : List Bool → List Bool
tail_of [] = []
tail_of (b ∷ bits) = bits

-- The decoder finds a frame exactly where one begins: what it yields is the number of a frame that
-- some suffix of the bits begins with, and if it yields nothing no suffix begins with a frame.
pub decode_cnd_lem :
    (bits : List Bool)
    → ((out : List ℕ)
        → decode_cnd bits ≡ some out
        → (pre : List Bool) × (suf : List Bool) × (bits ≡ pre ++ suf) × IsFrame suf out)
      × (decode_cnd bits ≡ none
          → (pre suf : List Bool) (out : List ℕ) → bits ≡ pre ++ suf
          → ¬ IsFrame suf out)
unfolding decode_cnd
decode_cnd_lem bits =
    (λ out h. found bits out h, λ h pre suf out e f. missed bits h pre suf out e f)
  where
    found :
        (bits : List Bool) (out : List ℕ)
        → decode_cnd bits ≡ some out
        → (pre : List Bool) × (suf : List Bool) × (bits ≡ pre ++ suf) × IsFrame suf out
    found [] out h = cc
    found (b ∷ bits) out h = elim (Option-cases (try_from (b ∷ bits))) [
      | inr (n, e) ↦
          let h' : some n ≡ some out = rw e at h in
          ([], b ∷ bits, refl, (try_from_iff (b ∷ bits) out).0 (e ∙ h'))
      | inl e ↦
          let (pre, suf, q, f) = found bits out (rw e at h) in
          (b ∷ pre, suf, ap (λ (x : List Bool). b ∷ x) q, f)
    ]

    missed :
        (bits : List Bool)
        → decode_cnd bits ≡ none
        → (pre suf : List Bool) (out : List ℕ) → bits ≡ pre ++ suf
        → ¬ IsFrame suf out
    missed [] h [] suf out e f =
        let q = (try_from_iff suf out).1 f in
        let n : try_from suf ≡ none = ap try_from (sym e) ∙ try_from-none [] refl in cc
    missed [] h (x ∷ pre) suf out e f = cc
    missed (b ∷ bits) h [] suf out e f =
        let q : try_from (b ∷ bits) ≡ some out = ap try_from e ∙ (try_from_iff suf out).1 f in
        let n = (or_else-none (try_from (b ∷ bits)) (decode_cnd bits) h).0 in cc
    missed (b ∷ bits) h (x ∷ pre) suf out e f =
        missed bits (or_else-none (try_from (b ∷ bits)) (decode_cnd bits) h).1 pre suf out
          (ap tail_of e) f

-- Leading zeros hide no start sentinel.
decode-zeros : (z : ℕ) (bits : List Bool) → decode_cnd (replicate z false ++ bits) ≡ decode_cnd bits
unfolding decode_cnd
decode-zeros zero bits = refl
decode-zeros (suc z) bits =
    rw (try_from-none (false ∷ (replicate z false ++ bits)) refl) (decode-zeros z bits)

-- A card read: any number of leading zeros, then the frame of a body of digits with at most one
-- separator and between one and nineteen digits before it, then any bits, is decoded to
-- exactly those digits.
pub decode_frame_lem :
    (z : ℕ) (vs : List ℕ) (tail : List Bool)
    → IsBody false vs
    → 0 < length (number_of false vs)
    → length (number_of false vs) ≤ max_digits
    → decode_cnd (replicate z false ++ (start_bits ++ frame_from 11 vs tail))
      ≡ some (number_of false vs)
unfolding decode_cnd
decode_frame_lem z vs tail b k m =
    decode-zeros z (start_bits ++ frame_from 11 vs tail)
    ∙ rw
        ((try_from_iff (start_bits ++ frame_from 11 vs tail) (number_of false vs)).1
          (vs, tail, refl, b, refl, k, m))
        refl
