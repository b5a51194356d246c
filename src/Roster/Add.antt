-- ===== src/Roster/Add.antt =====
-- Adding a credential to the roster.
use rfid_access.Base.{
  is_empty, ℕ, ◌≤◌, ◌<◌, ◌≡◌, refl, ap, ◌∙◌, ◌⊎◌, inl, inr, Bool, true, false, not, ◌&&◌, ◌||◌,
  List, some, arith, ◌==◌, length,
}
use rfid_access.Roster.{Roster, insert_at, position, allows, add, hash_of, new_entry, max_entries}
use rfid_access.Roster.Search.{Sorted, has_hash, index_of_hash_finds}
use rfid_access.Roster.Order.{
  Strict-Sorted, IsValid, insert-Strict, has_hash-insert_at, length-insert_at, same-has_hash,
  allows-has_hash,
}

module _ (sha256 : List ℕ → List ℕ) where
  -- add either changes nothing and fails, or inserts in hash order a credential that was absent.
  add_cases :
      (r : Roster) (c n : List ℕ) (wrote : Bool)
      → r.allocated ≡ true
      → Sorted r.entries
      → let h = hash_of sha256 r.salt c in
        ((add sha256 r c n wrote ≡ some (r, false))
          × ((is_empty c ≡ true)
              ⊎ (max_entries ≤ length r.entries)
              ⊎ (has_hash h r.entries ≡ true)))
        ⊎ ((is_empty c ≡ false)
            × (length r.entries < max_entries)
            × (has_hash h r.entries ≡ false)
            × (add sha256 r c n wrote
                ≡ some (
                  record r {
                    entries =
                        insert_at (position r.entries h) (new_entry sha256 r.salt c n) r.entries;
                  },
                  wrote,
                )))
  unfolding add
  add_cases r c n wrote al s =
      ground (arith, index_of_hash_finds r.entries (hash_of sha256 r.salt c) s)

  new_entry-hash :
      (salt : ℕ) (c n : List ℕ) → (new_entry sha256 salt c n).hash ≡ hash_of sha256 salt c
  unfolding new_entry
  new_entry-hash salt c n = refl

  inserted-IsValid :
      (r : Roster) (c n : List ℕ)
      → IsValid r
      → length r.entries < max_entries
      → has_hash (hash_of sha256 r.salt c) r.entries ≡ false
      → IsValid (record r {
        entries =
            insert_at
              (position r.entries (hash_of sha256 r.salt c))
              (new_entry sha256 r.salt c n)
              r.entries;
      })
  inserted-IsValid r c n v room absent =
      let e = new_entry sha256 r.salt c n in
      record {
        strict =
            rw (← new_entry-hash r.salt c n)
              (insert-Strict e r.entries v.strict (rw (new_entry-hash r.salt c n) absent));
        fits =
            omega
              (arith, length-insert_at (position r.entries (hash_of sha256 r.salt c)) e r.entries);
      }

  allows_inserted :
      (r : Roster) (c n d : List ℕ)
      → IsValid r
      → length r.entries < max_entries
      → has_hash (hash_of sha256 r.salt c) r.entries ≡ false
      → allows sha256
          (record r {
            entries =
                insert_at
                  (position r.entries (hash_of sha256 r.salt c))
                  (new_entry sha256 r.salt c n)
                  r.entries;
          })
          d
        ≡ (not (is_empty d)
            && ((hash_of sha256 r.salt c == hash_of sha256 r.salt d)
                || has_hash (hash_of sha256 r.salt d) r.entries))
  allows_inserted r c n d v room absent =
      let v' = inserted-IsValid r c n v room absent in
      allows-has_hash sha256 _ d (Strict-Sorted _ v'.strict)
      ∙ ap (λ b. not (is_empty d) && b)
          (has_hash-insert_at (hash_of sha256 r.salt d)
              (position r.entries (hash_of sha256 r.salt c)) (new_entry sha256 r.salt c n) r.entries
            ∙ ap
                (λ k.
                  (k == hash_of sha256 r.salt d) || has_hash (hash_of sha256 r.salt d) r.entries)
                (new_entry-hash r.salt c n))

  -- On a roster with room, whose array is allocated and whose hashes rise, adding a credential returns;
  -- the door then allows the credential and decides on every credential with another hash as before;
  -- and the answer is true exactly if the credential was not yet allowed and the save succeeded.
  pub add_decides :
      (r : Roster) (c n d : List ℕ) (wrote : Bool)
      → r.allocated ≡ true
      → IsValid r
      → is_empty c ≡ false
      → length r.entries < max_entries
      → (r' : Roster) × (ok : Bool) × (add sha256 r c n wrote ≡ some (r', ok))
        × (allows sha256 r' d ≡ (
            allows sha256 r d
            || (not (is_empty d) && (hash_of sha256 r.salt d == hash_of sha256 r.salt c))))
        × (ok ≡ (not (allows sha256 r c) && wrote))
  add_decides r c n d wrote al v k room =
      let s = Strict-Sorted r.entries v.strict in
      let now = allows-has_hash sha256 r d s in
      let was = allows-has_hash sha256 r c s in
      elim (add_cases r c n wrote al s) [
        | inl (same, why) ↦ (r, false, same, rw now (present why).0, rw (was, k) (present why).1)
        | inr (_, _, absent, added) ↦ (
          _,
          wrote,
          added,
          rw (now, allows_inserted r c n d v room absent) (ground arith),
          rw (was, k, absent) refl,
        )
      ]
    where
      present :
          ((is_empty c ≡ true)
            ⊎ (max_entries ≤ length r.entries)
            ⊎ (has_hash (hash_of sha256 r.salt c) r.entries ≡ true))
          → ((not (is_empty d) && has_hash (hash_of sha256 r.salt d) r.entries) ≡ (
              (not (is_empty d) && has_hash (hash_of sha256 r.salt d) r.entries)
              || (not (is_empty d) && (hash_of sha256 r.salt d == hash_of sha256 r.salt c))))
            × (false ≡ (not (true && has_hash (hash_of sha256 r.salt c) r.entries) && wrote))
      present why =
          let listed : has_hash (hash_of sha256 r.salt c) r.entries ≡ true = ground arith in
          ground
            (arith, same-has_hash (hash_of sha256 r.salt c) (hash_of sha256 r.salt d) r.entries)
