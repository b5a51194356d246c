-- ===== src/Roster/Crash.antt =====
-- A save that fails or is cut short by a loss of power, and what the door decides after it boots.
use rfid_access.Base.{
  ℕ, zero, suc, ◌≡◌, refl, sym, ap, ◌∙◌, ◌⊎◌, inl, inr, Bool, true, false, List, [], ◌∷◌, Option,
  none, some, arith, take, drop, Bool-cases,
}
use rfid_access.Roster.{Roster, allows, index_of_hash, search_loop}
use rfid_access.Roster.File.{
  Disk, Outcome, FsOp, remove_tmp, write_tmp, remove_live, rename_tmp, apply_ops, save_ops, save,
  file_bytes, load, load_file, load_body, understood, read_header, header_size, Header,
}
use rfid_access.Roster.RoundTrip.{Fits, load-file_bytes}

-- The power fails after `k` operations; a write that it interrupts leaves the first `n` bytes.
abbrev pub cut : ℕ → ℕ → List FsOp → List FsOp
cut k n [] = []
cut zero n (write_tmp bs ∷ ops) = write_tmp (take n bs) ∷ []
cut zero n (op ∷ ops) = []
cut (suc k) n (op ∷ ops) = op ∷ cut k n ops

-- A save that returns true has put the new file in place; one that returns false has left the file
-- as it was, or, if it was the rename that failed, has left the door without a file.
pub save_live :
    (r : Roster) (d : Disk) (o : Outcome)
    → let (d', ok) = save r d o in
      ((ok ≡ true) × (d'.live ≡ some (file_bytes r)))
      ⊎ ((ok ≡ false) × (d'.live ≡ d.live))
      ⊎ ((ok ≡ false) × (o.renamed ≡ false) × (d'.live ≡ none))
unfolding save save_ops apply_ops
save_live r d o = ground arith

-- The three files that a power cut during a save can leave.
abbrev pub Left : Roster → Disk → Option (List ℕ) → Type 0
Left r d f = (f ≡ d.live) ⊎ (f ≡ none) ⊎ (f ≡ some (file_bytes r))

four_ops :
    (r : Roster) (d : Disk) (k n : ℕ)
    → Left r d
        (apply_ops d
          (cut k n (remove_tmp ∷ write_tmp (file_bytes r) ∷ remove_live ∷ rename_tmp ∷ []))).live
unfolding apply_ops
four_ops r d zero n = inl refl
four_ops r d (suc zero) n = inl refl
four_ops r d (suc (suc zero)) n = inl refl
four_ops r d (suc (suc (suc zero))) n = inr (inl refl)
four_ops r d (suc (suc (suc (suc k)))) n = inr (inr refl)

three_ops :
    (r : Roster) (d : Disk) (k n : ℕ)
    → Left r d
        (apply_ops d (cut k n (remove_tmp ∷ write_tmp (file_bytes r) ∷ remove_live ∷ []))).live
unfolding apply_ops
three_ops r d zero n = inl refl
three_ops r d (suc zero) n = inl refl
three_ops r d (suc (suc zero)) n = inl refl
three_ops r d (suc (suc (suc k))) n = inr (inl refl)

tmp_ops :
    (r : Roster) (d : Disk) (k n : ℕ)
    → Left r d (apply_ops d (cut k n (remove_tmp ∷ remove_tmp ∷ []))).live
unfolding apply_ops
tmp_ops r d zero n = inl refl
tmp_ops r d (suc zero) n = inl refl
tmp_ops r d (suc (suc k)) n = inl refl

one_op : (r : Roster) (d : Disk) (k n : ℕ) → Left r d (apply_ops d (cut k n (remove_tmp ∷ []))).live
unfolding apply_ops
one_op r d zero n = inl refl
one_op r d (suc k) n = inl refl

no_ops : (r : Roster) (d : Disk) (k n : ℕ) → Left r d (apply_ops d (cut k n [])).live
unfolding apply_ops
no_ops r d k n = inl refl

save_ops_cases :
    (r : Roster) (o : Outcome)
    → ((save_ops r o).0 ≡ [])
      ⊎ ((save_ops r o).0 ≡ remove_tmp ∷ [])
      ⊎ ((save_ops r o).0 ≡ remove_tmp ∷ remove_tmp ∷ [])
      ⊎ ((save_ops r o).0 ≡ remove_tmp ∷ write_tmp (file_bytes r) ∷ remove_live ∷ [])
      ⊎ ((save_ops r o).0 ≡ remove_tmp ∷ write_tmp (file_bytes r) ∷ remove_live ∷ rename_tmp ∷ [])
unfolding save_ops
save_ops_cases r o = ground arith

-- Whenever the power fails during a save, and whatever the file system answered, the roster's file
-- is the old one, the complete new one, or missing: never a truncated one.
pub cut_live :
    (r : Roster) (d : Disk) (o : Outcome) (k n : ℕ)
    → Left r d (apply_ops d (cut k n (save_ops r o).0)).live
cut_live r d o k n = elim (save_ops_cases r o) [
  | inl e ↦ rw e (no_ops r d k n)
  | inr (inl e) ↦ rw e (one_op r d k n)
  | inr (inr (inl e)) ↦ rw e (tmp_ops r d k n)
  | inr (inr (inr (inl e))) ↦ rw e (three_ops r d k n)
  | inr (inr (inr (inr e))) ↦ rw e (four_ops r d k n)
]

load_body_rejects :
    (s : Roster) (h : Header) (body : List ℕ)
    → (load_body s h body).1 ≡ false
    → (load_body s h body).0.entries ≡ s.entries
unfolding load_body
load_body_rejects s h body e = ground arith

load_file_rejects :
    (s : Roster) (file : Option (List ℕ)) (fresh : ℕ)
    → (load_file s file fresh).1 ≡ false
    → (load_file s file fresh).0.entries ≡ s.entries
unfolding load_file
load_file_rejects s none fresh e = refl
load_file_rejects s (some bs) fresh e = elim (Bool-cases (understood bs)) [
  | inl good ↦
      rw (good, load_file)
        (load_body_rejects s (read_header bs) (drop header_size bs) (rw (good, load_file) at e))
  | inr bad ↦ rw (bad, load_file) refl
]

load_rejects_entries :
    (s : Roster) (mounted : Bool) (file : Option (List ℕ)) (fresh : ℕ)
    → (load s mounted file fresh).1 ≡ false
    → (load s mounted file fresh).0.entries ≡ []
unfolding load
load_rejects_entries s true file fresh e =
    load_file_rejects (record s { entries = []; rev = 0; persistent = true }) file fresh e
load_rejects_entries s false file fresh e = refl

module _ (sha256 : List ℕ → List ℕ) where
  allows-entries :
      (r s : Roster) (c : List ℕ)
      → r.entries ≡ s.entries
      → r.salt ≡ s.salt
      → allows sha256 r c ≡ allows sha256 s c
  unfolding allows
  allows-entries r s c p q = rw (p, q) refl

  allows-nobody : (r : Roster) (c : List ℕ) → r.entries ≡ [] → allows sha256 r c ≡ false
  unfolding allows index_of_hash search_loop
  allows-nobody r c p = rw p (ground arith)

  pub load-none :
      (s : Roster) (fresh : ℕ) (c : List ℕ) → allows sha256 (load s true none fresh).0 c ≡ false
  unfolding load load_file
  load-none s fresh c = allows-nobody _ c refl

  -- What is loaded from the new file admits what the roster admits.
  pub loaded_admits :
      (r s : Roster) (fresh : ℕ) (c : List ℕ)
      → Fits r
      → allows sha256 (load s true (some (file_bytes r)) fresh).0 c ≡ true
      → allows sha256 r c ≡ true
  loaded_admits r s fresh c f h =
      let e = load-file_bytes r s fresh f in
      allows-entries r (load s true (some (file_bytes r)) fresh).0 c
        (sym (ap (λ (y : Roster × Bool). y.0.entries) e))
        (sym (ap (λ (y : Roster × Bool). y.0.salt) e))
      ∙ h

  -- A power cut between the removal of the old file and the rename of the new one leaves neither:
  -- the door boots with no error, refuses every credential, and finds no roster file.
  pub cut_gap :
      (r s : Roster) (d : Disk) (o : Outcome) (n fresh : ℕ) (c : List ℕ)
      → r.persistent ≡ true
      → o.opened ≡ true
      → o.wrote_header ≡ true
      → o.wrote_entries ≡ true
      → let d' = apply_ops d (cut 3 n (save_ops r o).0) in
        (d'.live ≡ none)
        × ((load s true d'.live fresh).1 ≡ true)
        × (allows sha256 (load s true d'.live fresh).0 c ≡ false)
  cut_gap r s d o n fresh c p a b e =
      let gone = missing in
      (gone, rw gone (unfold load load_file in refl), rw gone (load-none s fresh c))
    where
      missing : (apply_ops d (cut 3 n (save_ops r o).0)).live ≡ none
      missing = unfold save_ops apply_ops in ground arith

  -- A file that load rejects leaves the roster empty: the door then refuses every credential.
  pub load_rejects :
      (s : Roster) (mounted : Bool) (file : Option (List ℕ)) (fresh : ℕ) (c : List ℕ)
      → (load s mounted file fresh).1 ≡ false
      → allows sha256 (load s mounted file fresh).0 c ≡ false
  load_rejects s mounted file fresh c h =
      allows-nobody _ c (load_rejects_entries s mounted file fresh h)
