-- ===== src/Roster/Remove.antt =====
-- Removing a credential from the roster, and renaming its holder.
use rfid_access.Base.{
  is_empty, ℕ, ◌<◌, ◌≡◌, refl, sym, ap, ◌∙◌, ◌⊎◌, inl, inr, Bool, true, false, not, ◌&&◌, ◌||◌,
  List, arith, ◌==◌, length, Bool-cases, Option-cases,
}
use rfid_access.Roster.{
  Roster, hash_at, index_of_hash, remove_at, allows, remove, rename, hash_of, max_name, with_name,
  copy_field,
}
use rfid_access.Roster.Search.{Sorted, has_hash, index_of_hash_finds, index_of_hash_sound}
use rfid_access.Roster.Order.{
  Strict, Strict-Sorted, IsValid, same-has_hash, has_hash-remove_at, Strict-remove_at,
  length-remove_at-le, has_hash-with_name, Strict-with_name, length-with_name, allows-has_hash,
}

module _ (sha256 : List ℕ → List ℕ) where
  -- remove either changes nothing and fails, or takes out the entry of the credential's hash.
  pub remove_cases :
      (r : Roster) (c : List ℕ) (wrote : Bool)
      → Sorted r.entries
      → let h = hash_of sha256 r.salt c in
        ((remove sha256 r c wrote ≡ (r, false))
          × ((is_empty c ≡ true) ⊎ (has_hash h r.entries ≡ false)))
        ⊎ ((i : ℕ) × (i < length r.entries)
            × (hash_at r.entries i ≡ h)
            × (has_hash h r.entries ≡ true)
            × (is_empty c ≡ false)
            × (remove sha256 r c wrote ≡ (record r { entries = remove_at i r.entries }, wrote)))
  unfolding remove
  remove_cases r c wrote s = elim (Bool-cases (is_empty c)) [
    | inl e ↦ inl (rw e, inl e)
    | inr k ↦ elim (Option-cases (index_of_hash r.entries (hash_of sha256 r.salt c))) [
      | inl e ↦ inl (
        rw (k, e, remove),
        inr (sym (index_of_hash_finds r.entries (hash_of sha256 r.salt c) s) ∙ rw e),
      )
      | inr (i, e) ↦
          let (l, p) = index_of_hash_sound r.entries (hash_of sha256 r.salt c) i e in
          inr (
            i,
            l,
            p,
            sym (index_of_hash_finds r.entries (hash_of sha256 r.salt c) s) ∙ rw e,
            k,
            rw (k, e, remove),
          )
    ]
  ]

  -- remove keeps the hashes rising and the array within its room.
  pub remove-IsValid :
      (r : Roster) (c : List ℕ) (wrote : Bool) → IsValid r → IsValid (remove sha256 r c wrote).0
  remove-IsValid r c wrote v = elim (remove_cases r c wrote (Strict-Sorted r.entries v.strict)) [
    | inl (same, _) ↦ rw same v
    | inr (i, _, _, _, _, e) ↦ rw e (record {
      strict = Strict-remove_at r.entries i v.strict;
      fits = omega (arith, length-remove_at-le r.entries i);
    })
  ]

  -- On a roster whose hashes rise, removing a credential makes the door refuse it, leaves the
  -- decision on every credential with another hash as it was, and returns true exactly if the
  -- credential was allowed and the save succeeded.
  pub remove_decides :
      (r : Roster) (c d : List ℕ) (wrote : Bool)
      → IsValid r
      → is_empty c ≡ false
      → let (r', ok) = remove sha256 r c wrote in
        (allows sha256 r' d
          ≡ (allows sha256 r d && not (hash_of sha256 r.salt d == hash_of sha256 r.salt c)))
        × (ok ≡ (allows sha256 r c && wrote))
  remove_decides r c d wrote v k =
      let s = Strict-Sorted r.entries v.strict in
      let now = allows-has_hash sha256 r d s in
      let was = allows-has_hash sha256 r c s in
      elim (remove_cases r c wrote s) [
        | inl (same, why) ↦ rw (same, now, was, k) (absent why)
        | inr (i, l, p, there, _, e) ↦
            rw
              (
                e,
                now,
                was,
                k,
                there,
                allows-has_hash sha256 (record r { entries = remove_at i r.entries }) d
                    (Strict-Sorted _ (Strict-remove_at r.entries i v.strict)),
                has_hash-remove_at (hash_of sha256 r.salt d) r.entries i v.strict l,
                p,
              )
              (ground arith, refl)
      ]
    where
      absent :
          ((is_empty c ≡ true) ⊎ (has_hash (hash_of sha256 r.salt c) r.entries ≡ false))
          → ((not (is_empty d) && has_hash (hash_of sha256 r.salt d) r.entries) ≡ (
              (not (is_empty d) && has_hash (hash_of sha256 r.salt d) r.entries)
              && not (hash_of sha256 r.salt d == hash_of sha256 r.salt c)))
            × (false ≡ ((true && has_hash (hash_of sha256 r.salt c) r.entries) && wrote))
      absent why =
          let gone : has_hash (hash_of sha256 r.salt c) r.entries ≡ false = ground arith in
          ground
            (arith, same-has_hash (hash_of sha256 r.salt c) (hash_of sha256 r.salt d) r.entries)

  rename_cases :
      (r : Roster) (c n : List ℕ) (wrote : Bool)
      → (rename sha256 r c n wrote ≡ (r, false))
        ⊎ ((i : ℕ) × (rename sha256 r c n wrote
              ≡ (record r { entries = with_name r.entries i (copy_field max_name n) }, wrote)))
  unfolding rename
  rename_cases r c n wrote = elim (Bool-cases (is_empty c || is_empty n)) [
    | inl e ↦ inl (rw e)
    | inr k ↦ elim (Option-cases (index_of_hash r.entries (hash_of sha256 r.salt c))) [
      | inl e ↦ inl (rw (k, e, rename))
      | inr (i, e) ↦ inr (i, rw (k, e, rename))
    ]
  ]

  -- rename keeps the hashes rising and the array within its room, and changes no decision.
  pub rename_keeps :
      (r : Roster) (c n d : List ℕ) (wrote : Bool)
      → IsValid r
      → let r' = (rename sha256 r c n wrote).0 in
        IsValid r' × (allows sha256 r' d ≡ allows sha256 r d)
  rename_keeps r c n d wrote v = elim (rename_cases r c n wrote) [
    | inl same ↦ rw same (v, refl)
    | inr (i, e) ↦
        let es = with_name r.entries i (copy_field max_name n) in
        let s : Strict es = Strict-with_name r.entries i (copy_field max_name n) v.strict in
        rw e (
          record {
            strict = s;
            fits = rw (length-with_name r.entries i (copy_field max_name n)) v.fits;
          },
          allows-has_hash sha256 (record r { entries = es }) d (Strict-Sorted es s)
              ∙ ap (λ b. not (is_empty d) && b)
                  (has_hash-with_name (hash_of sha256 r.salt d) r.entries i (copy_field max_name n))
              ∙ sym (allows-has_hash sha256 r d (Strict-Sorted r.entries v.strict)),
        )
  ]
