-- ===== src/Spool/Cut.antt =====
-- lib/EventLog: a power cut within ack and the compaction that it does. What is in memory is lost;
-- the file and the counters in NVS stay as the operations before the cut left them.
use rfid_access.Base.{
  ℕ, zero, suc, ◌+◌, ◌/◌, ◌≤◌, ◌≡◌, refl, sym, ap, ◌∙◌, subst, min, Bool, true, false, List, [],
  ◌∷◌, none, some, arith, ltb, leb, if◌then◌else◌, length, drop, All, All-drop,
}
use rfid_access.Spool.{
  EventLog, record_size, compact_at, read_from, bytes_of, concat, count_covered, begin, scan_file,
}
use rfid_access.Spool.Records.{IsIntact, length-concat, drop-drop, read_from-concat}
use rfid_access.Spool.View.{Holds, Holds-read}

-- Where the power is cut: in the loop over the records, behind the write of the counter, also while
-- the temporary file is written; behind the removal of the file; and behind the rename.
pub data Stage : Type 0 where
  counting : Stage
  counted : Stage
  removed : Stage
  swapped : Stage

abbrev pub at_stage : EventLog → EventLog → Bool → List ℕ → Stage → EventLog
at_stage s t compacts kept counting = s
at_stage s t compacts kept counted = t
at_stage s t compacts kept removed = if compacts then record t { file = none } else t
at_stage s t compacts kept swapped = if compacts then record t { file = some kept } else t

-- The spool as the cut leaves it.
unfoldable pub cut_ack : EventLog → ℕ → ℕ → Stage → EventLog
cut_ack s boot idx stage =
    let n = s.acked + count_covered boot idx (read_from s.acked (bytes_of s.file)) in
    at_stage s (record s { nv_acked = n }) (leb compact_at n)
      (concat (read_from n (bytes_of s.file))) stage

drop-min : (m n : ℕ) (cs : List (List ℕ)) → m ≡ min n (length cs) → drop m cs ≡ drop n cs
drop-min zero zero cs e = refl
drop-min zero (suc n) [] e = refl
drop-min zero (suc n) (c ∷ cs) e = absurd (omega arith)
drop-min (suc m) zero cs e = absurd (omega arith)
drop-min (suc m) (suc n) [] e = refl
drop-min (suc m) (suc n) (c ∷ cs) e = drop-min m n cs (omega arith)

-- A restart goes by the file and by the counter in NVS.
begin-Holds :
    (s : EventLog) (cs : List (List ℕ)) (trimmed : Bool)
    → All IsIntact cs
    → s.file ≡ some (concat cs)
    → Holds (begin s true trimmed) (drop s.nv_acked cs)
unfolding begin
begin-Holds s cs trimmed i there =
    let r : read_from 0 (concat cs) ≡ cs = read_from-concat 0 cs i in
    let aligned : ltb (length cs) (length (concat cs) / record_size) ≡ false =
      ground (arith, length-concat cs i) in
    let m : ℕ = min s.nv_acked (length cs) in
    unfold scan_file in
    rw (there, r, aligned) (cs, i, refl, refl, omega arith, sym (drop-min m s.nv_acked cs refl))

begin-none-Holds : (s : EventLog) (trimmed : Bool) → s.file ≡ none → Holds (begin s true trimmed) []
unfolding begin
begin-none-Holds s trimmed gone =
    unfold scan_file in rw gone ([], tt, refl, refl, omega arith, refl)

-- A power cut within a confirmation that compacts the file, and the restart behind it, where the file
-- is a row of whole, intact records and the counter of confirmed records in NVS was up to date, as it
-- is not once a full spool has dropped an event since the last confirmation or boot. Up to the write of the counter, the queue is as before it; from then on to the removal of the file, exactly
-- the records at the front that the confirmation covers are gone. A cut between the removal and the rename loses the whole queue. A
-- cut between the rename and the reset of the counter skips as many records again as the counter
-- says, 512 or more, though none of them was confirmed.
pub begin-cut_ack :
    (s : EventLog) (q : List (List ℕ)) (bs : List ℕ) (boot idx : ℕ) (trimmed : Bool)
    → Holds s q
    → s.file ≡ some bs
    → s.nv_acked ≡ s.acked
    → compact_at ≤ s.acked + count_covered boot idx q
    → let k = count_covered boot idx q in
      let after = λ (stage : Stage). begin (cut_ack s boot idx stage) true trimmed in
      Holds (after counting) q
      × Holds (after counted) (drop k q)
      × Holds (after removed) []
      × Holds (after swapped) (drop (s.acked + k) (drop k q))
unfolding cut_ack
begin-cut_ack s q bs boot idx trimmed (cs, i, f, t, a, e) there same large =
    let r : read_from s.acked (bytes_of s.file) ≡ q = Holds-read s q (cs, i, f, t, a, e) in
    let k : ℕ = count_covered boot idx q in
    let n : ℕ = s.acked + k in
    let whole : s.file ≡ some (concat cs) = there ∙ ap some (sym (ap bytes_of there) ∙ f) in
    let left : drop n cs ≡ drop k q = drop-drop s.acked k cs ∙ ap (drop k) (sym e) in
    let kept : read_from n (bytes_of s.file) ≡ drop k q =
      ap (read_from n) f ∙ read_from-concat n cs i ∙ left in
    let fits : All IsIntact (drop k q) = subst (All IsIntact) left (All-drop IsIntact n cs i) in
    let compacts : leb compact_at n ≡ true = ground arith in
    let counter : EventLog = record s { nv_acked = n } in
    rw (r, compacts, kept)
      (
        subst (Holds (begin s true trimmed)) (ap (λ m. drop m cs) same ∙ sym e)
            (begin-Holds s cs trimmed i whole),
        subst (Holds (begin counter true trimmed)) left (begin-Holds counter cs trimmed i whole),
        begin-none-Holds (record counter { file = none }) trimmed refl,
        begin-Holds (record counter { file = some (concat (drop k q)) }) (drop k q) trimmed fits
            refl,
      )
