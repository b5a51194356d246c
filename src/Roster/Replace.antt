-- ===== src/Roster/Replace.antt =====
-- Replacing the whole roster: the insertion sort, the decision afterwards, and what duplicate rows
-- do to a later removal.
use mathlib.Core.List.{Perm, perm_middle, append-nil}
use mathlib.Core.List.Perm
use rfid_access.Base.{
  is_empty, ℕ, ◌≤◌, ◌≡◌, refl, ap, ◌∙◌, inl, inr, Bool, not, ◌&&◌, ◌||◌, List, [], ◌∷◌, ◌++◌, arith,
  ltb, ◌==◌, length, All, Bool-cases, if◌then◌else◌,
}
use rfid_access.Roster.{
  Entry, Roster, shift_left, sort_from, sort_entries, reverse_onto, replace_all, allows, hash_of,
  max_entries,
}
use rfid_access.Roster.Search.{Sorted, has_hash}
use rfid_access.Roster.Order.{allows-has_hash}

-- Hashes do not rise along the reversed prefix.
abbrev Falling : List Entry → Type 0
Falling [] = Unit {0}
Falling (e ∷ es) = All (λ x. x.hash ≤ e.hash) es × Falling es

All-shift_left :
    (n : ℕ) (k : Entry) (ps : List Entry)
    → k.hash ≤ n
    → All (λ x. x.hash ≤ n) ps
    → All (λ x. x.hash ≤ n) (shift_left k ps)
unfolding shift_left
All-shift_left n k [] h a = (h, tt)
All-shift_left n k (p ∷ ps) h a = elim (Bool-cases (ltb k.hash p.hash)) [
  | inl lt ↦ rw lt (a.0, All-shift_left n k ps h a.1)
  | inr ge ↦ rw ge (h, a)
]

All-weaken :
    (m n : ℕ) (es : List Entry) → m ≤ n → All (λ x. x.hash ≤ m) es → All (λ x. x.hash ≤ n) es
All-weaken m n [] h a = tt
All-weaken m n (e ∷ es) h a = (omega arith, All-weaken m n es h a.1)

shift_left-Falling : (k : Entry) (ps : List Entry) → Falling ps → Falling (shift_left k ps)
unfolding shift_left
shift_left-Falling k [] f = (tt, tt)
shift_left-Falling k (p ∷ ps) f = elim (Bool-cases (ltb k.hash p.hash)) [
  | inl lt ↦ rw lt (All-shift_left p.hash k ps (ground arith) f.0, shift_left-Falling k ps f.1)
  | inr ge ↦
      let l : p.hash ≤ k.hash = ground arith in rw ge ((l, All-weaken p.hash k.hash ps l f.0), f)
]

sort_from-Falling : (ps es : List Entry) → Falling ps → Falling (sort_from ps es)
unfolding sort_from
sort_from-Falling ps [] f = f
sort_from-Falling ps (e ∷ es) f = sort_from-Falling (shift_left e ps) es (shift_left-Falling e ps f)

-- Each of the first list is at most each of the second.
abbrev Meets : List Entry → List Entry → Type 0
Meets [] ys = Unit {0}
Meets (x ∷ xs) ys = All (λ y. x.hash ≤ y.hash) ys × Meets xs ys

Meets-cons :
    (x : Entry) (xs ys : List Entry)
    → All (λ e. e.hash ≤ x.hash) xs
    → Meets xs ys
    → Meets xs (x ∷ ys)
Meets-cons x [] ys a m = tt
Meets-cons x (e ∷ xs) ys a m = ((a.0, m.0), Meets-cons x xs ys a.1 m.1)

reverse_onto-Sorted :
    (xs ys : List Entry) → Falling xs → Meets xs ys → Sorted ys → Sorted (reverse_onto xs ys)
reverse_onto-Sorted [] ys f m s = s
reverse_onto-Sorted (x ∷ xs) ys f m s =
    reverse_onto-Sorted xs (x ∷ ys) f.1 (Meets-cons x xs ys f.0 m.1) (m.0, s)

Meets-nil : (xs : List Entry) → Meets xs []
Meets-nil [] = tt
Meets-nil (x ∷ xs) = (tt, Meets-nil xs)

pub sort_entries-Sorted : (es : List Entry) → Sorted (sort_entries es)
unfolding sort_entries
sort_entries-Sorted es =
    reverse_onto-Sorted (sort_from [] es) [] (sort_from-Falling [] es tt) (Meets-nil _) tt

shift_left-perm : (k : Entry) (ps : List Entry) → Perm (shift_left k ps) (k ∷ ps)
unfolding shift_left
shift_left-perm k [] = Perm.refl (k ∷ [])
shift_left-perm k (p ∷ ps) = elim (Bool-cases (ltb k.hash p.hash)) [
  | inl lt ↦ rw lt (Perm.trans (Perm.cons p (shift_left-perm k ps)) (Perm.swap k p ps))
  | inr ge ↦ rw ge (Perm.refl (k ∷ (p ∷ ps)))
]

sort_from-perm : (ps es : List Entry) → Perm (sort_from ps es) (ps ++ es)
unfolding sort_from
sort_from-perm ps [] = rw append-nil (Perm.refl ps)
sort_from-perm ps (e ∷ es) =
    Perm.trans (sort_from-perm (shift_left e ps) es) (
      Perm.trans (Perm.append (shift_left-perm e ps) (Perm.refl es))
        (Perm.symm (perm_middle ps es)))

reverse_onto-perm : (xs ys : List Entry) → Perm (reverse_onto xs ys) (xs ++ ys)
reverse_onto-perm [] ys = Perm.refl ys
reverse_onto-perm (x ∷ xs) ys = Perm.trans (reverse_onto-perm xs (x ∷ ys)) (perm_middle xs ys)

pub sort_entries-perm : (es : List Entry) → Perm (sort_entries es) es
unfolding sort_entries
sort_entries-perm es =
    Perm.trans (reverse_onto-perm (sort_from [] es) []) (rw append-nil (sort_from-perm [] es))

has_hash-shift_left :
    (h : ℕ) (k : Entry) (ps : List Entry)
    → has_hash h (shift_left k ps) ≡ ((k.hash == h) || has_hash h ps)
unfolding has_hash shift_left
has_hash-shift_left h k [] = refl
has_hash-shift_left h k (p ∷ ps) = ground (arith, has_hash-shift_left h k ps)

has_hash-sort_from :
    (h : ℕ) (ps es : List Entry) → has_hash h (sort_from ps es) ≡ (has_hash h ps || has_hash h es)
unfolding has_hash sort_from
has_hash-sort_from h ps [] = ground arith
has_hash-sort_from h ps (e ∷ es) =
    ground (arith, has_hash-shift_left h e ps, has_hash-sort_from h (shift_left e ps) es)

has_hash-reverse_onto :
    (h : ℕ) (xs ys : List Entry)
    → has_hash h (reverse_onto xs ys) ≡ (has_hash h xs || has_hash h ys)
unfolding has_hash
has_hash-reverse_onto h [] ys = refl
has_hash-reverse_onto h (x ∷ xs) ys = ground (arith, has_hash-reverse_onto h xs (x ∷ ys))

pub has_hash-sort_entries : (h : ℕ) (es : List Entry) → has_hash h (sort_entries es) ≡ has_hash h es
unfolding sort_entries has_hash
has_hash-sort_entries h es =
    ground (arith, has_hash-reverse_onto h (sort_from [] es) [], has_hash-sort_from h [] es)

-- The sort of replaceAll yields the rows it was given, in the order of their hashes.
pub sort_entries_lem : (es : List Entry) → Sorted (sort_entries es) × Perm (sort_entries es) es
sort_entries_lem es = (sort_entries-Sorted es, sort_entries-perm es)

module _ (sha256 : List ℕ → List ℕ) where
  -- replaceAll refuses more than 512 rows, a roster whose array was never allocated, and rows for
  -- which there is no scratch memory, and then changes nothing. Else the door allows a
  -- credential from then on exactly if one of the rows has its hash, also when the save fails and
  -- false is returned.
  pub replace_decides :
      (r : Roster) (es : List Entry) (rev : ℕ) (scratch wrote : Bool) (d : List ℕ)
      → Sorted r.entries
      → let (r', ok) = replace_all r es rev scratch wrote in
        let accepted =
          not (ltb max_entries (length es))
          && r.allocated
          && (not (ltb 0 (length es)) || scratch) in
        (allows sha256 r' d ≡ (
          if accepted
          then not (is_empty d) && has_hash (hash_of sha256 r.salt d) es
          else allows sha256 r d))
        × (ok ≡ (accepted && wrote))
        × Sorted r'.entries
  unfolding replace_all
  replace_decides r es rev scratch wrote d s =
      let r' = record r { entries = sort_entries es; rev = rev } in
      let decided : allows sha256 r' d
          ≡ (not (is_empty d) && has_hash (hash_of sha256 r.salt d) es) =
        allows-has_hash sha256 r' d (sort_entries-Sorted es)
        ∙ ap (λ b. not (is_empty d) && b) (has_hash-sort_entries (hash_of sha256 r.salt d) es) in
      let sorted : Sorted (sort_entries es) = sort_entries-Sorted es in
      (ground arith, ground arith, ground arith)
