-- ===== src/Roster/Duplicates.antt =====
-- Rows with one hash: which credentials share one, and what removal does to a hash listed twice.
use rfid_access.Base.{
  is_empty, ℕ, zero, suc, ◌-◌, ◌≤◌, ◌<◌, ◌≡◌, refl, ap, ◌≢◌, inl, inr, Bool, true, false, List, [],
  ◌∷◌, arith, ◌==◌, length, take, All, Bool-cases,
}
use rfid_access.Roster.{Entry, Roster, hash_at, remove_at, allows, remove, hash_of, max_cred}
use rfid_access.Roster.Search.{Sorted, has_hash, has_hash-hash_at}
use rfid_access.Roster.Order.{allows-has_hash}
use rfid_access.Roster.Remove.{remove_cases}

All-remove_at :
    (n : ℕ) (es : List Entry) (i : ℕ)
    → All (λ x. n ≤ x.hash) es
    → All (λ x. n ≤ x.hash) (remove_at i es)
All-remove_at n [] zero a = tt
All-remove_at n [] (suc i) a = tt
All-remove_at n (x ∷ es) zero a = a.1
All-remove_at n (x ∷ es) (suc i) a = (a.0, All-remove_at n es i a.1)

Sorted-remove_at : (es : List Entry) (i : ℕ) → Sorted es → Sorted (remove_at i es)
Sorted-remove_at [] zero s = tt
Sorted-remove_at [] (suc i) s = tt
Sorted-remove_at (x ∷ es) zero s = s.1
Sorted-remove_at (x ∷ es) (suc i) s = (All-remove_at x.hash es i s.0, Sorted-remove_at es i s.1)

-- Another entry of the hash survives.
has_hash-remove_at_other :
    (h : ℕ) (es : List Entry) (i j : ℕ)
    → i < length es
    → i ≢ j
    → hash_at es i ≡ h
    → has_hash h (remove_at j es) ≡ true
unfolding has_hash
has_hash-remove_at_other h [] i j k n e = elim k [ ]
has_hash-remove_at_other h (x ∷ es) zero zero k n e = absurd (n refl)
has_hash-remove_at_other h (x ∷ es) (suc i) zero k n e = has_hash-hash_at h es i (omega arith) e
has_hash-remove_at_other h (x ∷ es) zero (suc j) k n e = ground arith
has_hash-remove_at_other h (x ∷ es) (suc i) (suc j) k n e =
    ground (arith, has_hash-remove_at_other h es i j (omega arith) (λ p. n (ap suc p)) e)

module _ (sha256 : List ℕ → List ℕ) where
  -- If the hash of a credential stands at two places of the array, which replaceAll does not rule
  -- out, the door still allows the credential after it has been removed.
  pub remove_duplicate :
      (r : Roster) (c : List ℕ) (wrote : Bool) (i j : ℕ)
      → Sorted r.entries
      → is_empty c ≡ false
      → i < j
      → j < length r.entries
      → hash_at r.entries i ≡ hash_of sha256 r.salt c
      → hash_at r.entries j ≡ hash_of sha256 r.salt c
      → allows sha256 (remove sha256 r c wrote).0 c ≡ true
  remove_duplicate r c wrote i j s k l m p q = elim (remove_cases sha256 r c wrote s) [
    | inl (same, _) ↦
        rw (same, allows-has_hash sha256 r c s, k)
          (has_hash-hash_at (hash_of sha256 r.salt c) r.entries j m q)
    | inr (n, _, _, _, _, e) ↦
        rw
          (
            e,
            allows-has_hash sha256 (record r { entries = remove_at n r.entries }) c
                (Sorted-remove_at r.entries n s),
            k,
          )
          (survivor n)
  ]
    where
      survivor : (n : ℕ) → has_hash (hash_of sha256 r.salt c) (remove_at n r.entries) ≡ true
      survivor n = elim (Bool-cases (i == n)) [
        | inl first ↦
            has_hash-remove_at_other (hash_of sha256 r.salt c) r.entries j n m (ground arith) q
        | inr other ↦
            has_hash-remove_at_other (hash_of sha256 r.salt c) r.entries i n (omega arith)
              (ground arith) p
      ]

  -- Only the first fifteen bytes of a credential count: the door decides on two credentials that
  -- begin with the same fifteen bytes in the same way.
  pub allows_prefix :
      (r : Roster) (c d : List ℕ)
      → is_empty c ≡ is_empty d
      → take (max_cred - 1) c ≡ take (max_cred - 1) d
      → allows sha256 r c ≡ allows sha256 r d
  unfolding allows hash_of
  allows_prefix r [] [] e p = refl
  allows_prefix r [] (y ∷ ys) e p = cc
  allows_prefix r (x ∷ xs) [] e p = cc
  allows_prefix r (x ∷ xs) (y ∷ ys) e p = rw p
