-- ===== src/Access/Edits.antt =====
-- The edits of the roster: from the pages of the door, and from the cloud.
use rfid_access.Base.{
  ℕ, ◌≤◌, ◌≡◌, refl, ap, ◌∙◌, inl, inr, Bool, true, false, not, ◌&&◌, ◌||◌, List, [], ◌∷◌, arith,
  ltb, ◌==◌, length, Text, is_empty, Bool-cases,
}
use rfid_access.Roster.{allows, hash_of, max_entries, new_entry, replace_all}
use rfid_access.Roster.Search.{Sorted, has_hash}
use rfid_access.Roster.Replace.{replace_decides}
use rfid_access.Access.{Access, RosterUpdate, Stamp, text_of, staged, replace_roster, append_event}

-- Some row has a credential with this hash.
abbrev pub names_hash : (List ℕ → List ℕ) → ℕ → ℕ → List RosterUpdate → Bool
names_hash sha256 salt h [] = false
names_hash sha256 salt h (u ∷ us) =
    (not (is_empty (text_of u.cred)) && (hash_of sha256 salt (text_of u.cred) == h))
    || names_hash sha256 salt h us

module _ (sha256 : List ℕ → List ℕ) where
  has_hash-staged :
      (salt h : ℕ) (us : List RosterUpdate)
      → has_hash h (staged sha256 salt us) ≡ names_hash sha256 salt h us
  unfolding staged has_hash new_entry
  has_hash-staged salt h [] = refl
  has_hash-staged salt h (u ∷ us) = elim (Bool-cases (is_empty (text_of u.cred))) [
    | inl e ↦ rw e (has_hash-staged salt h us)
    | inr e ↦ rw (e, has_hash-staged salt h us) refl
  ]

  length-staged : (salt : ℕ) (us : List RosterUpdate) → length (staged sha256 salt us) ≤ length us
  unfolding staged
  length-staged salt [] = omega arith
  length-staged salt (u ∷ us) = ground (arith, length-staged salt us)

  replace_roster-parts :
      (a : Access) (us : List RosterUpdate) (rev : ℕ) (scratch wrote : Bool) (t : Stamp)
      → let (a', ok) = replace_roster sha256 a us rev true scratch wrote t in
        let (r, stored) = replace_all a.roster (staged sha256 a.roster.salt us) rev scratch wrote in
        (a'.roster ≡ r) × (ok ≡ stored)
  unfolding replace_roster append_event
  replace_roster-parts a us rev scratch wrote t =
      elim (Bool-cases
        (replace_all a.roster (staged sha256 a.roster.salt us) rev scratch wrote).1) [
          | inl e ↦ rw e (refl, refl)
          | inr e ↦ rw e (refl, refl)
        ]

  -- A list from the cloud of 512 rows at most replaces the roster, if there is memory: from then on
  -- the door allows a credential exactly if a row has a credential with its hash. Rows without a
  -- credential are skipped, the call returns whether the save succeeded, and the decisions are
  -- the new ones also when it did not.
  pub replace_roster_decides :
      (a : Access) (us : List RosterUpdate) (rev : ℕ) (wrote : Bool) (t : Stamp) (d : Text)
      → Sorted a.roster.entries
      → a.roster.allocated ≡ true
      → length us ≤ max_entries
      → let (a', ok) = replace_roster sha256 a us rev true true wrote t in
        (allows sha256 a'.roster d ≡ (
          not (is_empty d) && names_hash sha256 a.roster.salt (hash_of sha256 a.roster.salt d) us))
        × (ok ≡ wrote)
        × Sorted a'.roster.entries
  replace_roster_decides a us rev wrote t d s al len =
      let es = staged sha256 a.roster.salt us in
      let h = hash_of sha256 a.roster.salt d in
      let few = length-staged a.roster.salt us in
      let (decided, ok, sorted) = replace_decides sha256 a.roster es rev true wrote d s in
      let (roster, told) = replace_roster-parts a us rev true wrote t in
      let accepted : (not (ltb max_entries (length es))
            && a.roster.allocated
            && (not (ltb 0 (length es)) || true))
          ≡ true =
        ground arith in
      (
        ap (λ r. allows sha256 r d) roster
            ∙ decided
            ∙ rw accepted (ap (λ b. not (is_empty d) && b) (has_hash-staged a.roster.salt h us)),
        told ∙ ground arith,
        rw roster sorted,
      )
