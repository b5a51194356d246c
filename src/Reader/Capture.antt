-- ===== src/Reader/Capture.antt =====
-- From the interrupts to a credential: the buffer, the end of a frame, and the repair of one bit.
use rfid_access.Base.{
  ℕ, ◌+◌, ◌%◌, ◌≤◌, ◌<◌, ◌≡◌, refl, sym, ap, ◌∙◌, ◌⊎◌, inl, inr, Bool, true, false, ◌&&◌, List, [],
  ◌∷◌, ◌++◌, some, arith, ltb, map, length, length-append, append_assoc, append-nil, sub32, u32_mod,
  replicate, subst, length-map,
}
use rfid_access.Reader.{
  Reader, clock_and_data, clock_data, push_bit, poll, decode_frame, decode_either,
  strict_or_repaired, decode_cnd, max_digits, max_bits, frame_gap_us, min_edge_gap_us,
}
use rfid_access.Reader.Frames.{IsBody, number_of, frame_from}
use rfid_access.Reader.Sound.{start_bits, decode_frame_lem}

pub record Edge : Type 0 where
  pub at : ℕ
  pub bit : Bool

unfoldable pub push_all : Reader → List Edge → Reader
push_all r [] = r
push_all r (e ∷ es) = push_all (push_bit r e.at e.bit) es

-- Each edge comes 60 microseconds or more after the one before, by the wrapping clock.
abbrev pub Spaced : ℕ → List Edge → Type 0
Spaced t [] = Unit {0}
Spaced t (e ∷ es) = (min_edge_gap_us ≤ sub32 e.at t) × Spaced e.at es

abbrev pub last_time : ℕ → List Edge → ℕ
last_time t [] = t
last_time t (e ∷ es) = last_time e.at es

abbrev pub edge_bit : Edge → Bool
edge_bit e = e.bit

-- The first edge of a frame needs no spacing.
abbrev pub Separate : List Edge → Type 0
Separate [] = Unit {0}
Separate (e ∷ es) = Spaced e.at es

push_bit_taken :
    (r : Reader) (now : ℕ) (b : Bool)
    → (r.bits ≡ []) ⊎ (min_edge_gap_us ≤ sub32 now r.last_edge_us)
    → length r.bits < max_bits
    → push_bit r now b
      ≡ record r { edges = (r.edges + 1) % u32_mod; bits = r.bits ++ (b ∷ []); last_edge_us = now }
unfolding push_bit
push_bit_taken r now b h m = ground arith

-- What a run of edges leaves unchanged, and what it adds, from one reader to another.
abbrev Captured : Reader → List Edge → Reader → Type 0
Captured r es r' =
    (r'.bits ≡ r.bits ++ map edge_bit es)
    × (r'.last_edge_us ≡ last_time r.last_edge_us es)
    × (r'.mode ≡ r.mode)
    × (r'.errors ≡ r.errors)

push_all-Captured :
    (r : Reader) (es : List Edge)
    → Spaced r.last_edge_us es
    → length r.bits + length es ≤ max_bits
    → Captured r es (push_all r es)
unfolding push_all
push_all-Captured r [] s m = (sym (append-nil r.bits), refl, refl, refl)
push_all-Captured r (e ∷ es) s m =
    let q = push_bit_taken r e.at e.bit (inr s.0) (omega arith) in
    let r1 : Reader = record r {
      edges = (r.edges + 1) % u32_mod;
      bits = r.bits ++ (e.bit ∷ []);
      last_edge_us = e.at;
    } in
    let (b, t, d, x) =
      push_all-Captured r1 es s.1 (omega (arith, length-append r.bits (e.bit ∷ []))) in
    subst (λ z. Captured r (e ∷ es) (push_all z es)) (sym q)
      (b ∙ append_assoc r.bits (e.bit ∷ []) (map edge_bit es), t, d, x)

-- The edges of a frame that starts on an empty buffer are captured in order.
frame-Captured :
    (r : Reader) (es : List Edge)
    → r.bits ≡ []
    → Separate es
    → length es ≤ max_bits
    → 0 < length es
    → Captured r es (push_all r es)
unfolding push_all
frame-Captured r [] h s m z = absurd (omega arith)
frame-Captured r (e ∷ es) h s m z =
    let l : length r.bits ≡ 0 = ap length h in
    let q = push_bit_taken r e.at e.bit (inl h) (omega arith) in
    let r1 : Reader = record r {
      edges = (r.edges + 1) % u32_mod;
      bits = r.bits ++ (e.bit ∷ []);
      last_edge_us = e.at;
    } in
    let (b, t, d, x) =
      push_all-Captured r1 es s (omega (arith, length-append r.bits (e.bit ∷ []))) in
    subst (λ z. Captured r (e ∷ es) (push_all z es)) (sym q)
      (b ∙ append_assoc r.bits (e.bit ∷ []) (map edge_bit es), t, d, x)

-- A frame that decodes as it was captured is neither inverted nor repaired.
decoded_strictly :
    (bits : List Bool) (n : List ℕ)
    → decode_cnd bits ≡ some n
    → decode_either bits ≡ record { number = some n; repaired = false }
unfolding decode_either strict_or_repaired
decoded_strictly bits n d =
    let q : strict_or_repaired bits ≡ record { number = some n; repaired = false } =
      rw (strict_or_repaired, d) refl in
    rw (decode_either, q) q

-- poll() on a full gap, for a Clock & Data frame that decodes as it was captured.
poll_decoded :
    (r : Reader) (now : ℕ) (n : List ℕ)
    → 0 < length r.bits
    → r.mode ≡ clock_and_data
    → frame_gap_us < sub32 now r.last_edge_us
    → decode_cnd r.bits ≡ some n
    → ((poll r now).0.bits ≡ [])
      × ((poll r now).0.errors ≡ r.errors)
      × ((poll r now).1 ≡ some (record { number = n; format = clock_data }))
unfolding poll decode_frame
poll_decoded r now n k m g d =
    let c : ltb 0 (length r.bits) && ltb frame_gap_us (sub32 now r.last_edge_us) ≡ true =
      ground arith in
    rw (c, m, decode_frame, decoded_strictly r.bits n d) (refl, refl, refl)

-- A card is read: the edges of leading zeros and of a frame, each 60 microseconds or more after the
-- one before and 256 at most, arrive at a Clock & Data reader whose buffer is empty. A poll more
-- than 20,000 microseconds after the last edge yields the number of the frame, empties the buffer
-- and counts no error.
pub card_read :
    (r : Reader) (es : List Edge) (now z : ℕ) (vs : List ℕ) (tail : List Bool)
    → r.mode ≡ clock_and_data
    → r.bits ≡ []
    → Separate es
    → length es ≤ max_bits
    → map edge_bit es ≡ replicate z false ++ (start_bits ++ frame_from 11 vs tail)
    → IsBody false vs
    → 0 < length (number_of false vs)
    → length (number_of false vs) ≤ max_digits
    → frame_gap_us < sub32 now (last_time r.last_edge_us es)
    → let after = poll (push_all r es) now in
      (after.0.bits ≡ [])
      × (after.0.errors ≡ r.errors)
      × (after.1 ≡ some (record { number = number_of false vs; format = clock_data }))
card_read r es now z vs tail md h s m q b k j g =
    let n : 0 < length (map edge_bit es) =
      rw q
        (omega (arith, length-append (replicate z false) (start_bits ++ frame_from 11 vs tail))) in
    let (c, t, d, x) = frame-Captured r es h s m (omega (arith, length-map es edge_bit)) in
    let bits : (push_all r es).bits ≡ map edge_bit es =
      c ∙ ap (λ (xs : List Bool). xs ++ map edge_bit es) h in
    let (p, e, o) =
      poll_decoded (push_all r es) now (number_of false vs) (rw bits n) (d ∙ md) (rw t g)
        (ap decode_cnd (bits ∙ q) ∙ decode_frame_lem z vs tail b k j) in
    (p, e ∙ x, o)
