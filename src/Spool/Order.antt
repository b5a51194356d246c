-- ===== src/Spool/Order.antt =====
-- The order of the records in the spool, by boot and by index within a boot, and which records a
-- confirmation retires.
use rfid_access.Base.{
  ℕ, zero, suc, ◌≤◌, ◌<◌, ◌≡◌, refl, ap, ◌∙◌, subst, ◌⊎◌, inl, inr, true, false, List, [], ◌∷◌,
  ◌++◌, some, arith, take, drop, get_elem?, All, append_assoc, u32_mod,
}
use rfid_access.Bytes.{
  crc32, word, little_endian, word-little_endian, take-append_left, drop-append_left,
  length-little_endian,
}
use rfid_access.Spool.{record_bytes, body_bytes, covered, count_covered, Record}

abbrev pub boot_of : List ℕ → ℕ
boot_of c = word (take 4 c)

abbrev pub idx_of : List ℕ → ℕ
idx_of c = word (take 4 (drop 4 c))

-- Before a boot and an index; and records each of which comes after all those in front of it.
abbrev pub Before : ℕ → ℕ → List ℕ → Type 0
Before boot idx c = (boot_of c < boot) ⊎ ((boot_of c ≡ boot) × (idx_of c < idx))

abbrev pub After : List ℕ → List ℕ → Type 0
After c d = Before (boot_of d) (idx_of d) c

abbrev pub Rising : List (List ℕ) → Type 0
Rising [] = Unit {0}
Rising (c ∷ cs) = All (After c) cs × Rising cs

covered-Before :
    (boot idx : ℕ) (c : List ℕ)
    → Before boot idx c ⊎ ((boot_of c ≡ boot) × (idx_of c ≡ idx))
    → covered boot idx c ≡ true
covered-Before boot idx c h = ground arith

covered-After : (c d : List ℕ) → After c d → covered (boot_of c) (idx_of c) d ≡ false
covered-After c d h = ground arith

count_covered-none :
    (c : List ℕ) (ds : List (List ℕ))
    → All (After c) ds
    → count_covered (boot_of c) (idx_of c) ds ≡ 0
count_covered-none c [] h = refl
count_covered-none c (d ∷ ds) (h, k) = rw (covered-After c d h) refl

After-at :
    (c d : List ℕ) (ds : List (List ℕ)) (i : ℕ)
    → All (After c) ds
    → get_elem? ds i ≡ some d
    → After c d
After-at c d [] i h e = cc
After-at c d (x ∷ xs) zero (h, k) e = let same : x ≡ d = cc in subst (After c) same h
After-at c d (x ∷ xs) (suc i) (h, k) e = After-at c d xs i k e

-- The confirmation of a record retires it and those in front of it.
pub count_covered-at :
    (q : List (List ℕ)) (i : ℕ) (c : List ℕ)
    → Rising q
    → get_elem? q i ≡ some c
    → count_covered (boot_of c) (idx_of c) q ≡ suc i
count_covered-at [] i c h e = cc
count_covered-at (x ∷ xs) zero c (h, k) e =
    let same : x ≡ c = cc in
    subst (λ d. count_covered (boot_of d) (idx_of d) (x ∷ xs) ≡ 1) same
      (rw (covered-Before (boot_of x) (idx_of x) x (inr (refl, refl)), count_covered-none x xs h)
        refl)
count_covered-at (x ∷ xs) (suc i) c (h, k) e =
    rw
      (
        covered-Before (boot_of c) (idx_of c) x (inl (After-at x c xs i h e)),
        count_covered-at xs i c k e,
      )
      refl

-- The bytes of a record, field by field.
pub record_bytes_fields :
    (r : Record)
    → record_bytes r
      ≡ little_endian 4 r.boot_id
        ++ (little_endian 4 r.idx
            ++ (little_endian 4 r.uptime_ms
                ++ (little_endian 4 r.epoch
                    ++ (r.type
                        ∷ r.reason
                        ∷ r.flags
                        ∷ 0
                        ∷ (r.cred ++ little_endian 4 (crc32 (body_bytes r)))))))
unfolding record_bytes body_bytes
record_bytes_fields r =
    let crc : List ℕ = little_endian 4 (crc32 (body_bytes r)) in
    let end : List ℕ = r.type ∷ r.reason ∷ r.flags ∷ 0 ∷ r.cred in
    let d : List ℕ = little_endian 4 r.epoch ++ end in
    let c : List ℕ = little_endian 4 r.uptime_ms ++ d in
    let b : List ℕ = little_endian 4 r.idx ++ c in
    append_assoc (little_endian 4 r.boot_id) b crc
    ∙ ap (λ x. little_endian 4 r.boot_id ++ x)
        (append_assoc (little_endian 4 r.idx) c crc
          ∙ ap (λ x. little_endian 4 r.idx ++ x)
              (append_assoc (little_endian 4 r.uptime_ms) d crc
                ∙ ap (λ x. little_endian 4 r.uptime_ms ++ x)
                    (append_assoc (little_endian 4 r.epoch) end crc)))

-- A word in front, and what stands behind it.
pub take-word : (w : ℕ) (xs : List ℕ) → w < u32_mod → word (take 4 (little_endian 4 w ++ xs)) ≡ w
take-word w xs h =
    ap word (take-append_left 4 (little_endian 4 w) xs (length-little_endian 4 w))
    ∙ word-little_endian 4 w h

pub drop-word : (w : ℕ) (xs : List ℕ) → drop 4 (little_endian 4 w ++ xs) ≡ xs
drop-word w xs = drop-append_left 4 (little_endian 4 w) xs (length-little_endian 4 w)

pub boot_of-record : (r : Record) → r.boot_id < u32_mod → boot_of (record_bytes r) ≡ r.boot_id
boot_of-record r h = ap (λ x. word (take 4 x)) (record_bytes_fields r) ∙ take-word r.boot_id _ h

pub idx_of-record : (r : Record) → r.idx < u32_mod → idx_of (record_bytes r) ≡ r.idx
idx_of-record r h =
    ap (λ x. word (take 4 (drop 4 x))) (record_bytes_fields r)
    ∙ ap (λ x. word (take 4 x)) (drop-word r.boot_id _)
    ∙ take-word r.idx _ h

-- At or before a boot and an index; and the first record is behind them.
abbrev pub AtOrBefore : ℕ → ℕ → List ℕ → Type 0
AtOrBefore boot idx c = (boot_of c < boot) ⊎ ((boot_of c ≡ boot) × (idx_of c ≤ idx))

abbrev pub FirstIsBehind : ℕ → ℕ → List (List ℕ) → Type 0
FirstIsBehind boot idx [] = Unit {0}
FirstIsBehind boot idx (c ∷ cs) = ¬ AtOrBefore boot idx c
