-- ===== src/Roster/Order.antt =====
-- Lists of entries in the order of their hashes: the invariant of the array, and what the insertion,
-- the removal and the renaming of an entry do to it and to the scan for a hash.
use rfid_access.Base.{
  is_empty, ℕ, zero, suc, ◌+◌, ◌≤◌, ◌<◌, ◌≡◌, refl, ap, inl, inr, true, false, not, ◌&&◌, ◌||◌,
  List, [], ◌∷◌, arith, ltb, ◌==◌, length, All, Bool-cases, if◌then◌else◌,
}
use rfid_access.Roster.{
  Entry, Roster, hash_at, insert_at, remove_at, position, allows, hash_of, max_entries, with_name,
}
use rfid_access.Roster.Search.{Sorted, has_hash, index_of_hash_finds}

-- Hashes rise along the array: no credential is listed twice.
abbrev pub Strict : List Entry → Type 0
Strict [] = Unit {0}
Strict (e ∷ es) = All (λ x. e.hash < x.hash) es × Strict es

pub All-le-lt : (n : ℕ) (es : List Entry) → All (λ x. n < x.hash) es → All (λ x. n ≤ x.hash) es
All-le-lt n [] a = tt
All-le-lt n (e ∷ es) a = (omega arith, All-le-lt n es a.1)

pub Strict-Sorted : (es : List Entry) → Strict es → Sorted es
Strict-Sorted [] s = tt
Strict-Sorted (e ∷ es) s = (All-le-lt e.hash es s.0, Strict-Sorted es s.1)

-- The array's room is respected and no hash is listed twice.
pub record IsValid (r : Roster) : Type 0 where
  pub strict : Strict r.entries
  pub fits : length r.entries ≤ max_entries

pub hash_at-All-lt :
    (x : ℕ) (es : List Entry) (i : ℕ) → All (λ e. x < e.hash) es → i < length es → x < hash_at es i
hash_at-All-lt x [] i a h = elim h [ ]
hash_at-All-lt x (e ∷ es) zero a h = a.0
hash_at-All-lt x (e ∷ es) (suc i) a h = hash_at-All-lt x es i a.1 (omega arith)

pub insert_cons :
    (e x : Entry) (es : List Entry)
    → insert_at (position (x ∷ es) e.hash) e (x ∷ es)
      ≡ (if ltb x.hash e.hash then x ∷ insert_at (position es e.hash) e es else e ∷ (x ∷ es))
unfolding position
insert_cons e x es = ground arith

pub All-insert :
    (n : ℕ) (e : Entry) (es : List Entry)
    → n < e.hash
    → All (λ x. n < x.hash) es
    → All (λ x. n < x.hash) (insert_at (position es e.hash) e es)
unfolding position
All-insert n e [] h a = (h, tt)
All-insert n e (x ∷ es) h a = elim (Bool-cases (ltb x.hash e.hash)) [
  | inl lt ↦ rw (insert_cons e x es, lt) (a.0, All-insert n e es h a.1)
  | inr ge ↦ rw (insert_cons e x es, ge) (h, a)
]

pub All-trans :
    (m n : ℕ) (es : List Entry) → m < n → All (λ x. n < x.hash) es → All (λ x. m < x.hash) es
All-trans m n [] h a = tt
All-trans m n (e ∷ es) h a = (omega arith, All-trans m n es h a.1)

pub insert-Strict :
    (e : Entry) (es : List Entry)
    → Strict es
    → has_hash e.hash es ≡ false
    → Strict (insert_at (position es e.hash) e es)
unfolding position has_hash
insert-Strict e [] s h = (tt, tt)
insert-Strict e (x ∷ es) s h = elim (Bool-cases (ltb x.hash e.hash)) [
  | inl lt ↦
      rw (insert_cons e x es, lt)
        (All-insert x.hash e es (ground arith) s.0, insert-Strict e es s.1 (ground arith))
  | inr ge ↦
      let l : e.hash < x.hash = ground arith in
      rw (insert_cons e x es, ge) ((l, All-trans e.hash x.hash es l s.0), s)
]

pub has_hash-insert_at :
    (h n : ℕ) (e : Entry) (es : List Entry)
    → has_hash h (insert_at n e es) ≡ ((e.hash == h) || has_hash h es)
unfolding has_hash
has_hash-insert_at h zero e es = refl
has_hash-insert_at h (suc n) e [] = refl
has_hash-insert_at h (suc n) e (x ∷ es) = ground (arith, has_hash-insert_at h n e es)

pub length-insert_at :
    (n : ℕ) (e : Entry) (es : List Entry) → length (insert_at n e es) ≡ length es + 1
length-insert_at zero e es = omega arith
length-insert_at (suc n) e [] = omega arith
length-insert_at (suc n) e (x ∷ es) = omega (arith, length-insert_at n e es)

pub same-has_hash : (h k : ℕ) (es : List Entry) → (k == h) ≡ true → has_hash k es ≡ has_hash h es
same-has_hash h k es e = ap (λ (x : ℕ). has_hash x es) (ground arith)

pub has_hash-All :
    (h n : ℕ) (es : List Entry) → h ≤ n → All (λ x. n < x.hash) es → has_hash h es ≡ false
unfolding has_hash
has_hash-All h n [] l a = refl
has_hash-All h n (x ∷ es) l a = ground (arith, has_hash-All h n es l a.1)

-- Taking out the one entry of a hash takes out that hash and no other.
pub has_hash-remove_at :
    (h : ℕ) (es : List Entry) (i : ℕ)
    → Strict es
    → i < length es
    → has_hash h (remove_at i es) ≡ (has_hash h es && not (h == hash_at es i))
unfolding has_hash
has_hash-remove_at h [] i s k = elim k [ ]
has_hash-remove_at h (x ∷ es) zero s k = ground (arith, has_hash-All h x.hash es)
has_hash-remove_at h (x ∷ es) (suc i) s k =
    let above : x.hash < hash_at es i = hash_at-All-lt x.hash es i s.0 (omega arith) in
    ground (arith, has_hash-remove_at h es i s.1)

pub All-remove_at :
    (n : ℕ) (es : List Entry) (i : ℕ)
    → All (λ x. n < x.hash) es
    → All (λ x. n < x.hash) (remove_at i es)
All-remove_at n [] zero a = tt
All-remove_at n [] (suc i) a = tt
All-remove_at n (x ∷ es) zero a = a.1
All-remove_at n (x ∷ es) (suc i) a = (a.0, All-remove_at n es i a.1)

pub Strict-remove_at : (es : List Entry) (i : ℕ) → Strict es → Strict (remove_at i es)
Strict-remove_at [] zero s = tt
Strict-remove_at [] (suc i) s = tt
Strict-remove_at (x ∷ es) zero s = s.1
Strict-remove_at (x ∷ es) (suc i) s = (All-remove_at x.hash es i s.0, Strict-remove_at es i s.1)

pub length-remove_at-le : (es : List Entry) (i : ℕ) → length (remove_at i es) ≤ length es
length-remove_at-le [] zero = omega arith
length-remove_at-le [] (suc i) = omega arith
length-remove_at-le (x ∷ es) zero = omega arith
length-remove_at-le (x ∷ es) (suc i) = omega (arith, length-remove_at-le es i)

pub has_hash-with_name :
    (h : ℕ) (es : List Entry) (i : ℕ) (n : List ℕ) → has_hash h (with_name es i n) ≡ has_hash h es
unfolding has_hash
has_hash-with_name h [] i n = refl
has_hash-with_name h (x ∷ es) zero n = refl
has_hash-with_name h (x ∷ es) (suc i) n = ground (arith, has_hash-with_name h es i n)

pub All-with_name :
    (m : ℕ) (es : List Entry) (i : ℕ) (n : List ℕ)
    → All (λ x. m < x.hash) es
    → All (λ x. m < x.hash) (with_name es i n)
All-with_name m [] i n a = tt
All-with_name m (x ∷ es) zero n a = a
All-with_name m (x ∷ es) (suc i) n a = (a.0, All-with_name m es i n a.1)

pub Strict-with_name :
    (es : List Entry) (i : ℕ) (n : List ℕ) → Strict es → Strict (with_name es i n)
Strict-with_name [] i n s = tt
Strict-with_name (x ∷ es) zero n s = s
Strict-with_name (x ∷ es) (suc i) n s =
    (All-with_name x.hash es i n s.0, Strict-with_name es i n s.1)

pub length-with_name :
    (es : List Entry) (i : ℕ) (n : List ℕ) → length (with_name es i n) ≡ length es
length-with_name [] i n = refl
length-with_name (x ∷ es) zero n = refl
length-with_name (x ∷ es) (suc i) n = ap suc (length-with_name es i n)

module _ (sha256 : List ℕ → List ℕ) where
  pub allows-has_hash :
      (r : Roster) (d : List ℕ)
      → Sorted r.entries
      → allows sha256 r d ≡ (not (is_empty d) && has_hash (hash_of sha256 r.salt d) r.entries)
  unfolding allows
  allows-has_hash r d s =
      ap (λ b. not (is_empty d) && b) (index_of_hash_finds r.entries (hash_of sha256 r.salt d) s)
