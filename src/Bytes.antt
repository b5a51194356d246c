-- ===== src/Bytes.antt =====
-- What Roster.cpp and EventLog.cpp share: words in little-endian bytes, as the structs lie in the
-- memory of the ESP32 and in the files, and the bitwise CRC-32 that both files define.
use native.Mathlib.Nat.{pow-suc}
use rfid_access.Base.{
  ◌≤◌, ℕ, zero, suc, ◌+◌, ◌-◌, ◌*◌, ◌/◌, ◌%◌, ◌^◌, ◌<◌, ◌≡◌, refl, ap, bit_xor, List, [], ◌∷◌, ◌++◌,
  arith, ◌==◌, if◌then◌else◌, length, take, drop,
}

-- A word in `k` bytes, least significant first, and back.
unfoldable pub little_endian : ℕ → ℕ → List ℕ
little_endian zero w = []
little_endian (suc k) w = (w % 256) ∷ little_endian k (w / 256)

unfoldable pub word : List ℕ → ℕ
word [] = 0
word (b ∷ bs) = b + 256 * word bs

pub length-little_endian : (k w : ℕ) → length (little_endian k w) ≡ k
unfolding little_endian
length-little_endian zero w = refl
length-little_endian (suc k) w = ap suc (length-little_endian k (w / 256))

pub word-little_endian : (k w : ℕ) → w < 256 ^ k → word (little_endian k w) ≡ w
unfolding little_endian word
word-little_endian zero w h = omega arith
word-little_endian (suc k) w h =
    let p : 256 ^ suc k ≡ 256 ^ k * 256 = pow-suc 256 k in
    omega (arith, word-little_endian k (w / 256) (omega arith))

-- crc32: the inner loop's step, a byte, the outer loop, and `~c` on a 32-bit word.
unfoldable pub crc_bit : ℕ → ℕ
crc_bit c = bit_xor (c / 2) (if c % 2 == 1 then 0xEDB88320 else 0)

unfoldable pub crc_byte : ℕ → ℕ → ℕ
unfolding crc_bit
crc_byte c b =
    crc_bit (crc_bit (crc_bit (crc_bit (crc_bit (crc_bit (crc_bit (crc_bit (bit_xor c b))))))))

unfoldable pub crc_from : ℕ → List ℕ → ℕ
unfolding crc_byte
crc_from c [] = c
crc_from c (b ∷ bs) = crc_from (crc_byte c b) bs

unfoldable pub crc32 : List ℕ → ℕ
unfolding crc_from
crc32 bs = 0xFFFFFFFF - crc_from 0xFFFFFFFF bs

pub crc32-lt : (bs : List ℕ) → crc32 bs < 4294967296
unfolding crc32
crc32-lt bs = omega arith

-- The check value of CRC-32: the bytes of "123456789".
crc32_check : crc32 (0x31 ∷ 0x32 ∷ 0x33 ∷ 0x34 ∷ 0x35 ∷ 0x36 ∷ 0x37 ∷ 0x38 ∷ 0x39 ∷ []) ≡ 0xCBF43926
unfolding crc32
crc32_check = refl

-- Reading on: what stands behind a field of known length, and the field itself.
module _ {ℓ} {A : Type ℓ} where
  pub take-append_left : (n : ℕ) (xs ys : List A) → length xs ≡ n → take n (xs ++ ys) ≡ xs
  take-append_left zero [] ys h = refl
  take-append_left zero (x ∷ xs) ys h = absurd (omega arith)
  take-append_left (suc n) [] ys h = absurd (omega arith)
  take-append_left (suc n) (x ∷ xs) ys h =
      ap (λ zs. x ∷ zs) (take-append_left n xs ys (omega arith))

  pub drop-append_left : (n : ℕ) (xs ys : List A) → length xs ≡ n → drop n (xs ++ ys) ≡ ys
  drop-append_left zero [] ys h = refl
  drop-append_left zero (x ∷ xs) ys h = absurd (omega arith)
  drop-append_left (suc n) [] ys h = absurd (omega arith)
  drop-append_left (suc n) (x ∷ xs) ys h = drop-append_left n xs ys (omega arith)

  pub take_short : (n : ℕ) (xs : List A) → length xs ≤ n → take n xs ≡ xs
  take_short zero [] h = refl
  take_short zero (x ∷ xs) h = absurd (omega arith)
  take_short (suc n) [] h = refl
  take_short (suc n) (x ∷ xs) h = ap (λ zs. x ∷ zs) (take_short n xs (omega arith))
