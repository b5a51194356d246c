-- ===== src/Reader/Tests.antt =====
-- Runs of the reader on concrete frames, and instances of its theorems.
use rfid_access.Base.{
  ℕ, ◌+◌, ◌*◌, ◌<◌, ◌≡◌, refl, ◌↔◌, inl, inr, Bool, true, false, List, [], ◌∷◌, ◌++◌, some, arith,
  length, replicate, u32_mod,
}
use rfid_access.Reader.{
  Reader, clock_and_data, clock_data, try_from, decode_wiegand, poll, decimal, value_from,
  wiegand_value, number_text,
}
use rfid_access.Reader.Chars.{encode, encode_all}
use rfid_access.Reader.Frames.{frame_from, IsBody}
use rfid_access.Reader.Sound.{start_bits, IsFrame, try_from_iff}
use rfid_access.Reader.Capture.{Edge, push_all, Spaced, card_read}

-- The card 17 with a separator and a site code 5, behind ten zeros.
abbrev digits : List ℕ
digits = 1 ∷ 7 ∷ 13 ∷ 5 ∷ []

abbrev one_seven : List ℕ
one_seven = b'1' ∷ b'7' ∷ []

abbrev frame : List Bool
frame = start_bits ++ frame_from 11 digits []

abbrev swipe : List Bool
swipe = replicate 10 false ++ frame

digits-IsBody : IsBody false digits
digits-IsBody = inl (omega arith, inl (omega arith, inr (refl, refl, inl (omega arith, tt))))

try_from_iff_example : (try_from frame ≡ some one_seven) ↔ IsFrame frame one_seven
try_from_iff_example = try_from_iff frame one_seven

abbrev empty_reader : Reader
empty_reader = record {
  mode = clock_and_data;
  bits = [];
  last_edge_us = 0;
  edges = 0;
  errors = 0;
  repairs = 0;
  last_frame = [];
}

-- One edge each millisecond.
abbrev edges_from : ℕ → List Bool → List Edge
edges_from t [] = []
edges_from t (b ∷ bits) = record { at = t; bit = b } ∷ edges_from (t + 1000) bits

edges_from-Spaced :
    (t : ℕ) (bits : List Bool)
    → t + 1000 + 1000 * length bits < u32_mod
    → Spaced t (edges_from (t + 1000) bits)
edges_from-Spaced t [] h = tt
edges_from-Spaced t (b ∷ bits) h = (omega arith, edges_from-Spaced (t + 1000) bits (omega arith))

card_read_example :
    let after = poll (push_all empty_reader (edges_from 5000 swipe)) 90000 in
    (after.0.bits ≡ [])
    × (after.0.errors ≡ 0)
    × (after.1 ≡ some (record { number = one_seven; format = clock_data }))
unfolding encode_all encode
card_read_example =
    card_read empty_reader (edges_from 5000 swipe) 90000 10 digits [] refl refl
      (edges_from-Spaced 5000 (replicate 9 false ++ frame) (omega arith)) (omega arith) refl
      digits-IsBody (omega arith) (omega arith) (omega arith)

-- A 26-bit frame of number 0: even parity over the first half, odd over the second.
abbrev blank_card : List Bool
blank_card = replicate 25 false ++ (true ∷ [])

blank_decoded : decode_wiegand blank_card ≡ some (b'0' ∷ [])
unfolding decode_wiegand wiegand_value value_from number_text decimal
blank_decoded = refl

abbrev all_ones : List Bool
all_ones = replicate 64 true

abbrev but_last : List Bool
but_last = replicate 63 true ++ (false ∷ [])

all_ones_value : value_from 0 all_ones ≡ 18446744073709551615
unfolding value_from
all_ones_value = refl

but_last_value : value_from 0 but_last ≡ 18446744073709551614
unfolding value_from
but_last_value = refl
