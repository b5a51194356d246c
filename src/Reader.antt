-- ===== src/Reader.antt =====
-- lib/PaxtonReader/PaxtonReader.h and PaxtonReader.cpp: the capture of bits by interrupts, the end of
-- a frame by a gap, and the Clock & Data and Wiegand decoders. A bit is a Bool, a frame the list of
-- its bits in arrival order, a card number the list of its characters. Times are `uint32_t`
-- microseconds. The GPIO calls and the LED lines are left out.
pub mod Chars
pub mod Frames
pub mod Steps
pub mod Reads
pub mod Sound
pub mod Wiegand
pub mod Accepted
pub mod Cards
pub mod Repair
pub mod Capture
mod Tests
use rfid_access.Base.{
  ℕ, zero, suc, ◌+◌, ◌-◌, ◌*◌, ◌/◌, ◌%◌, Bool, true, false, not, ◌&&◌, ◌||◌, List, [], ◌∷◌, ◌++◌,
  Option, none, some, ltb, leb, ◌==◌, if◌then◌else◌, length, take, drop, map, to_ℕ, bit_xor, sub32,
  u32_mod,
}

-- The value of four data bits, least significant first, and whether five bits have odd parity.
abbrev pub value_of : Bool → Bool → Bool → Bool → ℕ
value_of a b c d = to_ℕ a + 2 * to_ℕ b + 4 * to_ℕ c + 8 * to_ℕ d

abbrev pub xor_bool : Bool → Bool → Bool
xor_bool true b = not b
xor_bool false b = b

abbrev pub is_odd : Bool → Bool → Bool → Bool → Bool → Bool
is_odd a b c d p = xor_bool a (xor_bool b (xor_bool c (xor_bool d p)))

-- sizeof(out.number) - 1.
abbrev pub max_digits : ℕ
max_digits = 19

-- The character behind the end sentinel: odd parity, equal to the running checksum, and at least
-- one digit read.
unfoldable pub check_lrc : List Bool → ℕ → List ℕ → Option (List ℕ)
check_lrc (a ∷ b ∷ c ∷ d ∷ p ∷ rest) lrc digits =
    if not (is_odd a b c d p)
    then none
    else if not (value_of a b c d == lrc)
    then none
    else if length digits == 0
    then none
    else some digits
check_lrc bits lrc digits = none

-- A character that is no sentinel: `sep` is whether a field separator was seen.
unfoldable pub take_char : ℕ → Bool → List ℕ → Option (Bool × List ℕ)
take_char value sep digits =
    if leb value 9
    then (if sep
        then some (sep, digits)
        else if leb max_digits (length digits)
        then none
        else some (sep, digits ++ ((48 + value) ∷ [])))
    else if value == 13
    then (if sep then none else some (true, digits))
    else none

-- The loop of tryClockAndDataFrom, behind the start sentinel.
unfoldable pub read_chars : List Bool → ℕ → Bool → List ℕ → Option (List ℕ)
unfolding check_lrc take_char
read_chars (a ∷ b ∷ c ∷ d ∷ p ∷ rest) lrc sep digits =
    let value = value_of a b c d in
    let ended = check_lrc rest (bit_xor lrc 15) digits in
    let more : Option (List ℕ) = elim (take_char value sep digits) [
      | none ↦ none
      | some (sep', digits') ↦ read_chars rest (bit_xor lrc value) sep' digits'
    ] in
    if not (is_odd a b c d p) then none else if value == 15 then ended else more
read_chars bits lrc sep digits = none

-- What follows the start sentinel's bits 1,1,0,1,0.
abbrev pub after_start : List Bool → Option (List Bool)
after_start (true ∷ true ∷ false ∷ true ∷ false ∷ rest) = some rest
after_start bits = none

unfoldable pub try_from : List Bool → Option (List ℕ)
try_from bits = elim (after_start bits) [ none ↦ none | some rest ↦ read_chars rest 11 false [] ]

abbrev pub or_else {ℓ} : {A : Type ℓ} → Option A → Option A → Option A
or_else none o = o
or_else (some a) o = some a

-- decodeClockAndData: an attempt from every position, left to right.
unfoldable pub decode_cnd : List Bool → Option (List ℕ)
decode_cnd [] = none
decode_cnd (b ∷ bits) = let rest = decode_cnd bits in or_else (try_from (b ∷ bits)) rest

abbrev pub max_bits : ℕ
max_bits = 256

abbrev pub delete_at : ℕ → List Bool → List Bool
delete_at p bits = take p bits ++ drop (suc p) bits

-- The loop of decodeRepairedCND over the `k` positions from `p` on.
unfoldable pub try_deletions : ℕ → ℕ → List Bool → Option (List ℕ)
try_deletions zero p bits = none
try_deletions (suc k) p bits =
    let rest = try_deletions k (p + 1) bits in or_else (decode_cnd (delete_at p bits)) rest

unfoldable pub decode_repaired : List Bool → Option (List ℕ)
decode_repaired bits =
    if ltb (length bits) 10 || ltb max_bits (length bits)
    then none
    else try_deletions (length bits) 0 bits

-- The decimal text of a number, `%llu`, with fuel for its digits.
unfoldable pub decimal : ℕ → ℕ → List ℕ
decimal zero v = []
decimal (suc k) v =
    let front = decimal k (v / 10) in
    if ltb v 10 then (48 + v) ∷ [] else front ++ ((48 + v % 10) ∷ [])

-- The loop `value = (value << 1) | bits[i]`; 64 bits at most, so nothing is shifted out.
unfoldable pub value_from : ℕ → List Bool → ℕ
value_from v [] = v
value_from v (b ∷ bits) = value_from (v * 2 + to_ℕ b) bits

abbrev pub count_ones : List Bool → ℕ
count_ones [] = 0
count_ones (b ∷ bits) = to_ℕ b + count_ones bits

-- snprintf into 20 bytes keeps 19 characters; 20 digits hold any 64-bit value.
unfoldable pub number_text : ℕ → List ℕ
number_text v = take max_digits (decimal 20 v)

unfoldable pub wiegand_value : List Bool → Option ℕ
wiegand_value bits =
    let n = length bits in
    if ltb n 4 || ltb 64 n
    then none
    else if n == 26
    then (if not (count_ones (take 13 bits) % 2 == 0)
          || not (count_ones (take 13 (drop 13 bits)) % 2 == 1)
        then none
        else some (value_from 0 (take 24 (drop 1 bits))))
    else some (value_from 0 bits)

unfoldable pub decode_wiegand : List Bool → Option (List ℕ)
decode_wiegand bits = elim (wiegand_value bits) [ none ↦ none | some v ↦ some (number_text v) ]

-- PaxtonReader::Mode, and the format text of a credential.
pub data Mode : Type 0 where
  clock_and_data wiegand : Mode

pub data Format : Type 0 where
  clock_data : Format
  wiegand_of : ℕ → Format

pub record Credential : Type 0 where
  pub number : List ℕ
  pub format : Format

-- The fields of the class that the interrupts and poll() work on; `_count` is the length of `bits`.
pub record Reader : Type 0 where
  pub mode : Mode
  pub bits : List Bool
  pub last_edge_us : ℕ
  pub edges : ℕ
  pub errors : ℕ
  pub repairs : ℕ
  pub last_frame : List Bool

abbrev pub frame_gap_us : ℕ
frame_gap_us = 20000

abbrev pub min_edge_gap_us : ℕ
min_edge_gap_us = 60

-- pushBit.
unfoldable pub push_bit : Reader → ℕ → Bool → Reader
push_bit r now bit =
    if ltb 0 (length r.bits) && ltb (sub32 now r.last_edge_us) min_edge_gap_us
    then record r { last_edge_us = now }
    else record r {
      edges = (r.edges + 1) % u32_mod;
      bits = if ltb (length r.bits) max_bits then r.bits ++ (bit ∷ []) else r.bits;
      last_edge_us = now;
    }

-- The outcome of decoding one Clock & Data frame: the number, and whether a bit was repaired.
pub record Decoded : Type 0 where
  pub number : Option (List ℕ)
  pub repaired : Bool

-- decodeClockAndData, then decodeRepairedCND.
unfoldable pub strict_or_repaired : List Bool → Decoded
strict_or_repaired bits = elim (decode_cnd bits) [
  | some n ↦ record { number = some n; repaired = false }
  | none ↦ elim (decode_repaired bits) [
    | some n ↦ record { number = some n; repaired = true }
    | none ↦ record { number = none; repaired = false }
  ]
]

-- The Clock & Data branch of poll(): as captured, then with the polarity inverted.
unfoldable pub decode_either : List Bool → Decoded
decode_either bits =
    let d = strict_or_repaired bits in
    elim d.number [ some n ↦ d | none ↦ strict_or_repaired (map not bits) ]

abbrev pub outcome : Reader → Option (List ℕ) → Format → Reader × Option Credential
outcome r none f = (record r { errors = (r.errors + 1) % u32_mod }, none)
outcome r (some n) f = (r, some (record { number = n; format = f }))

unfoldable pub decode_frame : Mode → Reader → List Bool → Reader × Option Credential
decode_frame clock_and_data r bits =
    let d = decode_either bits in
    outcome (record r { repairs = (r.repairs + to_ℕ d.repaired) % u32_mod }) d.number clock_data
decode_frame wiegand r bits = outcome r (decode_wiegand bits) (wiegand_of (length bits))

-- poll(): `none` is the source's false.
unfoldable pub poll : Reader → ℕ → Reader × Option Credential
poll r now =
    if ltb 0 (length r.bits) && ltb frame_gap_us (sub32 now r.last_edge_us)
    then decode_frame r.mode (record r { bits = []; last_frame = r.bits }) r.bits
    else (r, none)
