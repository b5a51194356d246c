-- ===== src/Spool/Records.antt =====
-- The records of the file: what append writes is read back as an intact record, at its place.
use rfid_access.Base.{
  All-drop, ℕ, zero, suc, ◌+◌, ◌*◌, ◌≤◌, ◌≡◌, refl, sym, ap, ◌∙◌, true, false, List, [], ◌∷◌, ◌++◌,
  arith, ltb, length-drop, length, take, drop, length-append, All, ==_iff,
}
use rfid_access.Bytes.{
  little_endian, word, crc32, crc32-lt, word-little_endian, length-little_endian, take-append_left,
  drop-append_left,
}
use rfid_access.Spool.{
  Record, record_size, body_bytes, record_bytes, valid, intact_from, read_from, concat,
}

-- A record as it was written.
abbrev pub IsIntact : List ℕ → Type 0
IsIntact c = (length c ≡ record_size) × (valid c ≡ true)

pub length-concat :
    (cs : List (List ℕ)) → All IsIntact cs → length (concat cs) ≡ length cs * record_size
length-concat [] h = omega arith
length-concat (c ∷ cs) h = omega (arith, length-append c (concat cs), length-concat cs h.1, h.0.0)

-- The loop reads back all records of a file of intact records.
intact_from-concat :
    (fuel : ℕ) (cs : List (List ℕ))
    → All IsIntact cs
    → length cs ≤ fuel
    → intact_from fuel (concat cs) ≡ cs
unfolding intact_from
intact_from-concat zero [] h f = refl
intact_from-concat zero (c ∷ cs) h f = absurd (omega arith)
intact_from-concat (suc fuel) [] h f = refl
intact_from-concat (suc fuel) (c ∷ cs) h f =
    let t : take record_size (c ++ concat cs) ≡ c =
      take-append_left record_size c (concat cs) h.0.0 in
    let d : drop record_size (c ++ concat cs) ≡ concat cs =
      drop-append_left record_size c (concat cs) h.0.0 in
    let long : ltb (length (c ++ concat cs)) record_size ≡ false =
      ground (arith, length-append c (concat cs), h.0.0) in
    rw (long, t, h.0.1, d) (ap (λ z. c ∷ z) (intact_from-concat fuel cs h.1 (omega arith)))

drop_nothing {ℓ} : {A : Type ℓ} (n : ℕ) → drop {A = A} n [] ≡ []
drop_nothing zero = refl
drop_nothing (suc n) = refl

suc-add : (m n : ℕ) → suc m + n ≡ suc (m + n)
suc-add m n = omega arith

pub drop-drop {ℓ} : {A : Type ℓ} (m n : ℕ) (xs : List A) → drop (m + n) xs ≡ drop n (drop m xs)
drop-drop zero n xs = ap (λ k. drop k xs) (omega arith)
drop-drop (suc m) n [] = ap (λ k. drop k []) (suc-add m n) ∙ sym (drop_nothing n)
drop-drop (suc m) n (x ∷ xs) = ap (λ k. drop k (x ∷ xs)) (suc-add m n) ∙ drop-drop m n xs

no_records : 0 * record_size ≡ 0
no_records = omega arith

drop-concat :
    (k : ℕ) (cs : List (List ℕ))
    → All IsIntact cs
    → drop (k * record_size) (concat cs) ≡ concat (drop k cs)
drop-concat zero cs h = ap (λ (n : ℕ). drop n (concat cs)) no_records
drop-concat (suc k) [] h = drop_nothing (suc k * record_size)
drop-concat (suc k) (c ∷ cs) h =
    let size : suc k * record_size ≡ record_size + k * record_size = omega arith in
    let front : drop record_size (c ++ concat cs) ≡ concat cs =
      drop-append_left record_size c (concat cs) h.0.0 in
    ap (λ (n : ℕ). drop n (c ++ concat cs)) size
    ∙ drop-drop record_size (k * record_size) (c ++ concat cs)
    ∙ ap (drop (k * record_size)) front
    ∙ drop-concat k cs h.1

pub read_from-concat :
    (pos : ℕ) (cs : List (List ℕ)) → All IsIntact cs → read_from pos (concat cs) ≡ drop pos cs
unfolding read_from
read_from-concat pos cs h = rw (drop-concat pos cs h) (
    intact_from-concat (length (concat cs)) (drop pos cs) (All-drop IsIntact pos cs h)
      (omega (arith, length-concat cs h, length-drop pos cs)))

length-word : (w : ℕ) (xs : List ℕ) → length (little_endian 4 w ++ xs) ≡ 4 + length xs
length-word w xs = omega (arith, length-append (little_endian 4 w) xs, length-little_endian 4 w)

length-body_bytes : (r : Record) → length r.cred ≡ 16 → length (body_bytes r) ≡ 36
unfolding body_bytes
length-body_bytes r h =
    let end : List ℕ = r.type ∷ r.reason ∷ r.flags ∷ 0 ∷ r.cred in
    let d : List ℕ = little_endian 4 r.epoch ++ end in
    let c : List ℕ = little_endian 4 r.uptime_ms ++ d in
    let b : List ℕ = little_endian 4 r.idx ++ c in
    omega (
      arith,
      length-word r.boot_id b,
      length-word r.idx c,
      length-word r.uptime_ms d,
      length-word r.epoch end,
      h,
    )

-- What append writes is an intact record.
pub record_bytes-IsIntact : (r : Record) → length r.cred ≡ 16 → IsIntact (record_bytes r)
unfolding record_bytes valid
record_bytes-IsIntact r h =
    let b : length (body_bytes r) ≡ 36 = length-body_bytes r h in
    let crc : List ℕ = little_endian 4 (crc32 (body_bytes r)) in
    let t : take 36 (body_bytes r ++ crc) ≡ body_bytes r =
      take-append_left 36 (body_bytes r) crc b in
    let d : drop 36 (body_bytes r ++ crc) ≡ crc = drop-append_left 36 (body_bytes r) crc b in
    let w : word crc ≡ crc32 (body_bytes r) =
      word-little_endian 4 (crc32 (body_bytes r)) (crc32-lt (body_bytes r)) in
    (
      omega (
        arith,
        length-append (body_bytes r) crc,
        b,
        length-little_endian 4 (crc32 (body_bytes r)),
      ),
      rw (t, d) ((==_iff _ _).1 w),
    )
