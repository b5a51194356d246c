-- ===== src/Access/Migration.antt =====
-- The list of the firmware before, and when it comes back.
use rfid_access.Base.{
  ℕ, zero, suc, ◌≤◌, ◌≡◌, refl, sym, ap, ◌∙◌, ltb→ge, inl, inr, ◌⊎◌, subst, Option, Bool, true,
  false, not, ◌&&◌, ◌||◌, List, [], ◌∷◌, none, some, arith, ltb, ◌==◌, length, Text, is_empty,
  Bool-cases,
}
use rfid_access.Roster.{Entry, Roster, allows, hash_of, max_entries, new_entry}
use rfid_access.Roster.Search.{has_hash}
use rfid_access.Roster.Order.{allows-has_hash}
use rfid_access.Roster.Replace.{replace_decides}
use rfid_access.Roster.File.{begin, load, load_file, Disk, Outcome, save_ops, apply_ops, file_bytes}
use rfid_access.Roster.RoundTrip.{Fits}
use rfid_access.Roster.Crash.{cut, cut_live, load-none, loaded_admits}
use rfid_access.Access.{staged_old, migrate_from_nvs, init}

-- One of the rows has a credential with this hash.
abbrev pub lists_hash : (List ℕ → List ℕ) → ℕ → ℕ → List (Text × Text) → Bool
lists_hash sha256 salt h [] = false
lists_hash sha256 salt h ((uid, name) ∷ rows) =
    (not (is_empty uid) && (hash_of sha256 salt uid == h)) || lists_hash sha256 salt h rows

no_rows-has_hash : (h : ℕ) (es : List Entry) → ltb 0 (length es) ≡ false → has_hash h es ≡ false
unfolding has_hash
no_rows-has_hash h [] e = refl
no_rows-has_hash h (x ∷ es) e = absurd (omega (arith, ltb→ge 0 (length (x ∷ es)) e))

module _ (sha256 : List ℕ → List ℕ) where
  has_hash-staged_old :
      (salt h room : ℕ) (rows : List (Text × Text))
      → length rows ≤ room
      → has_hash h (staged_old sha256 salt room rows) ≡ lists_hash sha256 salt h rows
  unfolding staged_old has_hash new_entry
  has_hash-staged_old salt h zero [] e = refl
  has_hash-staged_old salt h zero (x ∷ rows) e = elim e [ ]
  has_hash-staged_old salt h (suc room) [] e = refl
  has_hash-staged_old salt h (suc room) ((uid, name) ∷ rows) e = elim (Bool-cases (is_empty uid)) [
    | inl k ↦ rw k (has_hash-staged_old salt h (suc room) rows (omega arith))
    | inr k ↦ rw (k, has_hash-staged_old salt h room rows (omega arith)) refl
  ]

  length-staged_old :
      (salt room : ℕ) (rows : List (Text × Text)) → length (staged_old sha256 salt room rows) ≤ room
  unfolding staged_old
  length-staged_old salt zero rows = omega arith
  length-staged_old salt (suc room) [] = omega arith
  length-staged_old salt (suc room) ((uid, name) ∷ rows) =
      ground (arith, length-staged_old salt (suc room) rows, length-staged_old salt room rows)

  -- A boot that finds no roster file admits exactly the credentials of the list that the old
  -- firmware kept, of 64 rows at most: also those that were removed from the roster since.
  pub migrated_decides :
      (r : Roster) (fresh : ℕ) (rows : List (Text × Text)) (wrote : Bool) (d : Text)
      → length rows ≤ 64
      → allows sha256 (init sha256 r true true none fresh (some rows) true wrote) d
        ≡ (not (is_empty d) && lists_hash sha256 fresh (hash_of sha256 fresh d) rows)
  unfolding init migrate_from_nvs begin load load_file has_hash
  migrated_decides r fresh rows wrote d len =
      let es = staged_old sha256 fresh 64 rows in
      let h = hash_of sha256 fresh d in
      let r' : Roster = record r {
        entries = [];
        rev = 0;
        salt = fresh;
        persistent = true;
        allocated = true;
      } in
      let few = length-staged_old fresh 64 rows in
      let by_hash : (not (is_empty d) && has_hash h es)
          ≡ (not (is_empty d) && lists_hash sha256 fresh h rows) =
        ap (λ b. not (is_empty d) && b) (has_hash-staged_old fresh h 64 rows len) in
      elim (Bool-cases (ltb 0 (length es))) [
        | inl some_rows ↦
            let (decided, _, _) = replace_decides sha256 r' es 0 true wrote d tt in
            let accepted : (not (ltb max_entries (length es))
                  && true
                  && (not (ltb 0 (length es)) || true))
                ≡ true =
              ground arith in
            rw some_rows (decided ∙ rw accepted by_hash)
        | inr no_rows ↦
            let nothing : has_hash h es ≡ false = no_rows-has_hash h es no_rows in
            rw no_rows (
              allows-has_hash sha256 r' d tt
              ∙ ap (λ b. not (is_empty d) && b) (sym nothing)
              ∙ by_hash)
      ]

  -- A boot on a mounted file system: `old` is the list of the firmware before, if NVS has one.
  abbrev pub boot : Roster → Option (List ℕ) → ℕ → Option (List (Text × Text)) → Bool → Roster
  boot s live fresh old wrote = init sha256 s true true live fresh old true wrote

  -- The list of the firmware before has a credential with this one's hash.
  abbrev pub OldList : ℕ → Option (List (Text × Text)) → Text → Type 0
  OldList fresh none d = ⊥
  OldList fresh (some rows) d = lists_hash sha256 fresh (hash_of sha256 fresh d) rows ≡ true

  abbrev pub ShortList : Option (List (Text × Text)) → Type 0
  ShortList none = Unit {0}
  ShortList (some rows) = length rows ≤ 64

  boot-none :
      (s : Roster) (fresh : ℕ) (old : Option (List (Text × Text))) (wrote : Bool) (d : Text)
      → ShortList old
      → allows sha256 (boot s none fresh old wrote) d ≡ true
      → OldList fresh old d
  unfolding init migrate_from_nvs begin
  boot-none s fresh none wrote d short h =
      let no_one : allows sha256 (load (record s { allocated = true }) true none fresh).0 d
          ≡ false =
        load-none sha256 (record s { allocated = true }) fresh d in
      cc
  boot-none s fresh (some rows) wrote d short h =
      let decided = migrated_decides s fresh rows wrote d short in ground arith

  pub boot-some :
      (s : Roster) (bs : List ℕ) (fresh : ℕ) (old : Option (List (Text × Text))) (wrote : Bool)
      → boot s (some bs) fresh old wrote
        ≡ (load (record s { allocated = true }) true (some bs) fresh).0
  unfolding init begin
  boot-some s bs fresh old wrote = refl

  -- After a power cut at any moment of a save, the boot from what is left, with its migration of the
  -- list that the firmware before kept, admits no credential but those that the boot from the old
  -- file would admit, those that the roster being saved admits, and those that share their hash with
  -- a row of that list, which has 64 rows at most.
  pub cut-boot_admits :
      (r s : Roster) (d : Disk) (o : Outcome) (k n fresh : ℕ) (old : Option (List (Text × Text)))
      (wrote : Bool) (c : Text)
      → Fits r
      → ShortList old
      → allows sha256 (boot s (apply_ops d (cut k n (save_ops r o).0)).live fresh old wrote) c
        ≡ true
      → (allows sha256 (boot s d.live fresh old wrote) c ≡ true)
        ⊎ (allows sha256 r c ≡ true)
        ⊎ OldList fresh old c
  cut-boot_admits r s d o k n fresh old wrote c f short h = elim (cut_live r d o k n) [
    | inl same ↦ inl (subst (λ l. allows sha256 (boot s l fresh old wrote) c ≡ true) same h)
    | inr (inl gone) ↦ inr (
        inr (
          boot-none s fresh old wrote c short
            (subst (λ l. allows sha256 (boot s l fresh old wrote) c ≡ true) gone h)))
    | inr (inr new) ↦
        let s' : Roster = record s { allocated = true } in
        let h' : allows sha256 (load s' true (some (file_bytes r)) fresh).0 c ≡ true =
          subst (λ (x : Roster). allows sha256 x c ≡ true)
            (boot-some s (file_bytes r) fresh old wrote)
            (subst (λ l. allows sha256 (boot s l fresh old wrote) c ≡ true) new h) in
        inr (inl (loaded_admits sha256 r s' fresh c f h'))
  ]
