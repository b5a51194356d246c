-- ===== src/Roster/Search.antt =====
-- The binary search against a scan of the array.
use rfid_access.Base.{
  ℕ, zero, suc, ◌+◌, ◌-◌, ◌/◌, ◌≤◌, ◌<◌, ◌≡◌, ◌≢◌, inl, inr, Bool, true, false, ◌||◌, List, [], ◌∷◌,
  none, some, arith, ◌==◌, length, All, Bool-cases, Option-cases,
}
use rfid_access.Roster.{Entry, hash_at, search_loop, index_of_hash, is_some}

-- Hashes do not fall along the array.
abbrev pub Sorted : List Entry → Type 0
Sorted [] = Unit {0}
Sorted (e ∷ es) = All (λ x. e.hash ≤ x.hash) es × Sorted es

-- The reference: a scan.
unfoldable pub has_hash : ℕ → List Entry → Bool
has_hash h [] = false
has_hash h (e ∷ es) = (e.hash == h) || has_hash h es

hash_at-All :
    (x : ℕ) (es : List Entry) (i : ℕ) → All (λ e. x ≤ e.hash) es → i < length es → x ≤ hash_at es i
hash_at-All x [] i a h = elim h [ ]
hash_at-All x (e ∷ es) zero a h = a.0
hash_at-All x (e ∷ es) (suc i) a h = hash_at-All x es i a.1 (omega arith)

pub hash_at_mono :
    (es : List Entry) (i j : ℕ) → Sorted es → i ≤ j → j < length es → hash_at es i ≤ hash_at es j
hash_at_mono [] i j s h k = elim k [ ]
hash_at_mono (e ∷ es) zero zero s h k = omega arith
hash_at_mono (e ∷ es) zero (suc j) s h k = hash_at-All e.hash es j s.0 (omega arith)
hash_at_mono (e ∷ es) (suc i) zero s h k = absurd (omega arith)
hash_at_mono (e ∷ es) (suc i) (suc j) s h k = hash_at_mono es i j s.1 (omega arith) (omega arith)

-- What the loop answers is an index inside the range that holds the hash.
search_loop_sound :
    (at : ℕ → ℕ) (h fuel lo hi i : ℕ)
    → search_loop at h fuel lo hi ≡ some i
    → (lo ≤ i) × (i < hi) × (at i ≡ h)
unfolding search_loop
search_loop_sound at h zero lo hi i e = cc
search_loop_sound at h (suc fuel) lo hi i e = ground (
  arith,
  search_loop_sound at h fuel (lo + (hi - lo) / 2 + 1) hi i,
  search_loop_sound at h fuel lo (lo + (hi - lo) / 2) i,
)

-- With fuel for the range, "not found" means that no index of the range holds the hash.
search_loop_complete :
    (at : ℕ → ℕ) (h fuel lo hi i : ℕ)
    → hi < fuel + lo
    → ((a b : ℕ) → a ≤ b → b < hi → at a ≤ at b)
    → lo ≤ i
    → i < hi
    → search_loop at h fuel lo hi ≡ none
    → at i ≢ h
unfolding search_loop
search_loop_complete at h zero lo hi i f m l k e = absurd (omega arith)
search_loop_complete at h (suc fuel) lo hi i f m l k e =
    let mid = lo + (hi - lo) / 2 in
    ground (
      arith,
      m i mid,
      m mid i,
      search_loop_complete at h fuel (mid + 1) hi i (omega arith) m,
      search_loop_complete at h fuel lo mid i (omega arith) (λ a b p q. m a b p (omega arith)),
    )

pub has_hash-hash_at :
    (h : ℕ) (es : List Entry) (i : ℕ) → i < length es → hash_at es i ≡ h → has_hash h es ≡ true
unfolding has_hash
has_hash-hash_at h [] i k e = elim k [ ]
has_hash-hash_at h (x ∷ es) zero k e = ground arith
has_hash-hash_at h (x ∷ es) (suc i) k e = ground (arith, has_hash-hash_at h es i)

pub has_hash_index :
    (h : ℕ) (es : List Entry)
    → has_hash h es ≡ true
    → (i : ℕ) × (i < length es) × (hash_at es i ≡ h)
unfolding has_hash
has_hash_index h [] e = cc
has_hash_index h (x ∷ es) e = elim (Bool-cases (x.hash == h)) [
  | inl found ↦ (0, omega arith, ground arith)
  | inr other ↦ let (i, k, p) = has_hash_index h es (ground arith) in (suc i, omega arith, p)
]

pub index_of_hash_sound :
    (es : List Entry) (h i : ℕ) → index_of_hash es h ≡ some i → (i < length es) × (hash_at es i ≡ h)
unfolding index_of_hash
index_of_hash_sound es h i e =
    let (_, a, b) = search_loop_sound (hash_at es) h (length es + 1) 0 (length es) i e in (a, b)

-- On an array whose hashes do not fall, indexOfHash finds an index exactly when a scan of the
-- whole array would find the hash.
pub index_of_hash_finds :
    (es : List Entry) (h : ℕ) → Sorted es → is_some (index_of_hash es h) ≡ has_hash h es
unfolding index_of_hash
index_of_hash_finds es h s = elim (Bool-cases (has_hash h es)) [
  | inl there ↦ elim (Option-cases (index_of_hash es h)) [
    | inl missed ↦
        let (i, k, e) = has_hash_index h es there in
        absurd (
          search_loop_complete (hash_at es) h (length es + 1) 0 (length es) i (omega arith)
            (λ a b p q. hash_at_mono es a b s p q) (omega arith) k missed e)
    | inr (i, found) ↦ rw (found, there)
  ]
  | inr absent ↦ elim (Option-cases (index_of_hash es h)) [
    | inl missed ↦ rw (missed, absent)
    | inr (i, found) ↦
        let (k, e) = index_of_hash_sound es h i found in
        let there = has_hash-hash_at h es i k e in cc
  ]
]
