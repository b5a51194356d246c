-- ===== src/Reader/Repair.antt =====
-- The repair of a frame by leaving one bit out, and what poll() does with a finished frame.
use rfid_access.Base.{
  ℕ, zero, suc, ◌+◌, ◌%◌, ◌≤◌, ◌<◌, ◌≡◌, refl, ap, ◌⊎◌, inl, inr, Bool, true, false, ◌&&◌, ◌||◌,
  List, [], Option, none, some, arith, ltb, length, sub32, u32_mod,
}
use rfid_access.Reader.{
  decode_cnd, delete_at, or_else, try_deletions, decode_repaired, max_bits, Reader, Credential,
  poll, decode_frame, outcome, frame_gap_us, Mode, clock_and_data, wiegand, Format, clock_data,
  wiegand_of,
}

or_else-some {ℓ} :
    {A : Type ℓ} (o p : Option A) (a : A)
    → or_else o p ≡ some a
    → (o ≡ some a) ⊎ ((o ≡ none) × (p ≡ some a))
or_else-some none p a h = inr (refl, h)
or_else-some (some b) p a h = inl h

or_else-none {ℓ} : {A : Type ℓ} (o p : Option A) → or_else o p ≡ none → (o ≡ none) × (p ≡ none)
or_else-none none p h = (refl, h)
or_else-none (some b) p h = cc

-- Leaving out the bit at `i` yields the number, and no earlier one yields any.
abbrev pub FirstRepair : List Bool → ℕ → ℕ → List ℕ → Type 0
FirstRepair bits p i out =
    (p ≤ i)
    × (decode_cnd (delete_at i bits) ≡ some out)
    × ((j : ℕ) → p ≤ j → j < i → decode_cnd (delete_at j bits) ≡ none)

try_deletions-some :
    (k p : ℕ) (bits : List Bool) (out : List ℕ)
    → try_deletions k p bits ≡ some out
    → (i : ℕ) × (i < p + k) × FirstRepair bits p i out
unfolding try_deletions
try_deletions-some zero p bits out h = cc
try_deletions-some (suc k) p bits out h =
    elim (or_else-some (decode_cnd (delete_at p bits)) (try_deletions k (p + 1) bits) out h) [
      | inl q ↦ (p, omega arith, (omega arith, q, λ j a b. absurd (omega arith)))
      | inr (n, q) ↦
          let (i, l, (s, e, first)) = try_deletions-some k (p + 1) bits out q in
          (
            i,
            omega arith,
            (
              omega arith,
              e,
              λ j a b. elim (compare_first j a) [
                | inl same ↦ rw same n
                | inr later ↦ first j later b
              ],
            ),
          )
    ]
  where
    compare_first : (j : ℕ) → p ≤ j → (j ≡ p) ⊎ (p + 1 ≤ j)
    compare_first j a = ground arith

try_deletions-none :
    (k p : ℕ) (bits : List Bool)
    → try_deletions k p bits ≡ none
    → (i : ℕ) → p ≤ i
    → i < p + k
    → decode_cnd (delete_at i bits) ≡ none
unfolding try_deletions
try_deletions-none zero p bits h i a b = absurd (omega arith)
try_deletions-none (suc k) p bits h i a b =
    let (n, q) = or_else-none (decode_cnd (delete_at p bits)) (try_deletions k (p + 1) bits) h in
    elim (compare_first i a) [
      | inl same ↦ rw same n
      | inr later ↦ try_deletions-none k (p + 1) bits q i later (omega arith)
    ]
  where
    compare_first : (j : ℕ) → p ≤ j → (j ≡ p) ⊎ (p + 1 ≤ j)
    compare_first j a = ground arith

-- A frame of 10 to 256 bits is repaired at the first bit whose omission makes it decode, to the
-- number it then decodes to; it is not repaired exactly when no omission of one bit helps.
pub decode_repaired_lem :
    (bits : List Bool)
    → 10 ≤ length bits
    → length bits ≤ max_bits
    → ((out : List ℕ)
        → decode_repaired bits ≡ some out
        → (i : ℕ) × (i < length bits) × FirstRepair bits 0 i out)
      × (decode_repaired bits ≡ none
          → (i : ℕ) → i < length bits
          → decode_cnd (delete_at i bits) ≡ none)
unfolding decode_repaired
decode_repaired_lem bits h k =
    let c : ltb (length bits) 10 || ltb max_bits (length bits) ≡ false = ground arith in
    (
      λ out e.
          let (i, l, f) =
            try_deletions-some (length bits) 0 bits out (rw (decode_repaired, c) at e) in
          (i, omega arith, f),
      λ e i b.
          try_deletions-none (length bits) 0 bits (rw (decode_repaired, c) at e) i (omega arith)
            (omega arith),
    )

-- What a finished frame leaves behind: an empty buffer, the frame, and either a credential and no
-- further error or one error more.
abbrev pub Finished : Reader → Reader × Option Credential → Type 0
Finished r (r', found) =
    (r'.bits ≡ [])
    × (r'.last_frame ≡ r.bits)
    × (((found ≡ none) × (r'.errors ≡ (r.errors + 1) % u32_mod))
        ⊎ ((c : Credential) × (found ≡ some c) × (r'.errors ≡ r.errors)))

outcome-Finished :
    (r s : Reader) (n : Option (List ℕ)) (f : Format)
    → s.bits ≡ []
    → s.last_frame ≡ r.bits
    → s.errors ≡ r.errors
    → Finished r (outcome s n f)
outcome-Finished r s none f b l e = (b, l, inl (refl, ap (λ x. (x + 1) % u32_mod) e))
outcome-Finished r s (some n) f b l e = (b, l, inr (record { number = n; format = f }, refl, e))

decode_frame-Finished :
    (r s : Reader) (m : Mode) (bits : List Bool)
    → s.bits ≡ []
    → s.last_frame ≡ r.bits
    → s.errors ≡ r.errors
    → Finished r (decode_frame m s bits)
unfolding decode_frame
decode_frame-Finished r s clock_and_data bits b l e = outcome-Finished r _ _ clock_data b l e
decode_frame-Finished r s wiegand bits b l e =
    outcome-Finished r s _ (wiegand_of (length bits)) b l e

-- A poll does nothing while no bit is there or the last edge is at most 20,000 microseconds old;
-- after that it takes the frame out of the buffer, keeps it for diagnostics, and either yields a
-- credential or counts one error.
pub poll_lem :
    (r : Reader) (now : ℕ)
    → ((r.bits ≡ []) ⊎ (sub32 now r.last_edge_us ≤ frame_gap_us) → poll r now ≡ (r, none))
      × (0 < length r.bits → frame_gap_us < sub32 now r.last_edge_us → Finished r (poll r now))
unfolding poll
poll_lem r now = (idle, finished)
  where
    idle : (r.bits ≡ []) ⊎ (sub32 now r.last_edge_us ≤ frame_gap_us) → poll r now ≡ (r, none)
    idle h =
        let c : ltb 0 (length r.bits) && ltb frame_gap_us (sub32 now r.last_edge_us) ≡ false =
          ground arith in
        rw (poll, c) refl

    finished : 0 < length r.bits → frame_gap_us < sub32 now r.last_edge_us → Finished r (poll r now)
    finished h k =
        let c : ltb 0 (length r.bits) && ltb frame_gap_us (sub32 now r.last_edge_us) ≡ true =
          ground arith in
        rw (poll, c) (decode_frame-Finished r _ r.mode r.bits refl refl refl)
