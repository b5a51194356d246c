-- ===== src/Spool/View.antt =====
-- What the spool holds: the records that are not yet confirmed, in order. The operations of the spool
-- are the operations of a queue on them.
use rfid_access.Base.{
  All-drop, All-append, ℕ, zero, suc, ◌+◌, ◌-◌, ◌/◌, ◌%◌, ◌≤◌, ◌<◌, ◌≡◌, refl, sym, ap, ◌∙◌, inl,
  inr, min, Bool, true, false, not, List, [], ◌∷◌, ◌++◌, Option, none, some, arith, ltb, leb,
  length-drop, if◌then◌else◌, length, take, drop, length-append, append_assoc, append-nil, All,
  length-replicate, length-take, replicate, Bool-cases, Option-cases, subst, u32_mod,
}
use rfid_access.Bytes.{take_short}
use rfid_access.Roster.{copy_field}
use rfid_access.Spool.{
  EventLog, Event, record_size, max_records, compact_at, record_bytes, read_from, bytes_of, concat,
  peek, append, make_room, write_record, new_record, count_covered, ack, compact_file, begin,
  scan_file, pending,
}
use rfid_access.Spool.Records.{
  IsIntact, length-concat, drop-drop, read_from-concat, record_bytes-IsIntact,
}

-- A spool of intact records holds those behind the cursor.
abbrev pub Holds : EventLog → List (List ℕ) → Type 0
Holds s q =
    (cs : List (List ℕ)) × All IsIntact cs
    × (bytes_of s.file ≡ concat cs)
    × (s.total ≡ length cs)
    × (s.acked ≤ length cs)
    × (q ≡ drop s.acked cs)

pub Holds-read :
    (s : EventLog) (q : List (List ℕ)) → Holds s q → read_from s.acked (bytes_of s.file) ≡ q
Holds-read s q (cs, i, f, t, a, e) =
    ap (read_from s.acked) f ∙ read_from-concat s.acked cs i ∙ sym e

-- peek yields the oldest records that are not confirmed, in order and at most as many as asked for,
-- and changes nothing; pending counts all of them.
pub peek_lem :
    (s : EventLog) (q : List (List ℕ)) (max : ℕ)
    → Holds s q
    → (peek s max ≡ take max q) × (pending s ≡ length q)
unfolding peek pending
peek_lem s q max h =
    let (cs, i, f, t, a, e) = h in
    (ap (take max) (Holds-read s q h), omega (arith, length-drop s.acked cs, ap length e))

-- A spool of 5000 unconfirmed records gives up the oldest.
abbrev pub room_in : List (List ℕ) → List (List ℕ)
room_in q = if leb max_records (length q) then drop 1 q else q

make_room-Holds : (s : EventLog) (q : List (List ℕ)) → Holds s q → Holds (make_room s) (room_in q)
unfolding make_room
make_room-Holds s q (cs, i, f, t, a, e) =
    let l : length q ≡ s.total - s.acked = omega (arith, length-drop s.acked cs, ap length e) in
    elim (Bool-cases (leb max_records (s.total - s.acked))) [
      | inl full ↦
          let step : drop 1 (drop s.acked cs) ≡ drop (s.acked + 1) cs =
            sym (drop-drop s.acked 1 cs) in
          rw (l, full) (cs, i, f, t, ground arith, ap (drop 1) e ∙ step)
      | inr free ↦ rw (l, free) (cs, i, f, t, a, e)
    ]

pub length-copy_field : (cap : ℕ) (src : List ℕ) → 0 < cap → length (copy_field cap src) ≡ cap
unfolding copy_field
length-copy_field cap src h =
    let t : List ℕ = take (cap - 1) src in
    omega (
      arith,
      length-append t (replicate (cap - length t) 0),
      length-replicate {A = ℕ} (cap - length t) 0,
      length-take (cap - 1) src,
    )

pub new_record-IsIntact : (s : EventLog) (e : Event) → IsIntact (record_bytes (new_record s e))
unfolding new_record
new_record-IsIntact s e =
    record_bytes-IsIntact (new_record s e) (length-copy_field 16 e.credential (omega arith))

concat-snoc : (cs : List (List ℕ)) (c : List ℕ) → concat cs ++ c ≡ concat (cs ++ (c ∷ []))
concat-snoc [] c = sym (append-nil c)
concat-snoc (d ∷ cs) c = append_assoc d (concat cs) c ∙ ap (λ z. d ++ z) (concat-snoc cs c)

drop-snoc :
    (k : ℕ) (cs : List (List ℕ)) (c : List ℕ)
    → k ≤ length cs
    → drop k (cs ++ (c ∷ [])) ≡ drop k cs ++ (c ∷ [])
drop-snoc zero cs c h = refl
drop-snoc (suc k) [] c h = absurd (omega arith)
drop-snoc (suc k) (d ∷ cs) c h = drop-snoc k cs c (omega arith)

write_record-Holds :
    (s : EventLog) (q : List (List ℕ)) (c : List ℕ) (n : ℕ)
    → IsIntact c
    → record_size ≤ n
    → Holds s q
    → ((write_record s c (some n)).1 ≡ true) × Holds (write_record s c (some n)).0 (q ++ (c ∷ []))
unfolding write_record
write_record-Holds s q c n i h (cs, j, f, t, a, e) =
    let whole : leb record_size n ≡ true = ground arith in
    let all : take n c ≡ c = take_short n c (omega (arith, i.0)) in
    let l : length (cs ++ (c ∷ [])) ≡ length cs + 1 = length-append cs (c ∷ []) in
    rw (whole, all)
      (
        refl,
        (
          cs ++ (c ∷ []),
          All-append IsIntact cs (c ∷ []) j (i, tt),
          ap (λ z. z ++ c) f ∙ concat-snoc cs c,
          omega (arith, l),
          omega (arith, l),
          ap (λ z. z ++ (c ∷ [])) e ∙ sym (drop-snoc s.acked cs c a),
        ),
      )

pub append_ready :
    (s : EventLog) (e : Event) (written : Option ℕ)
    → s.ready ≡ true
    → append s e written
      ≡ write_record
          (record (make_room s) { next_idx = (s.next_idx + 1) % u32_mod })
          (record_bytes (new_record s e))
          written
unfolding append
append_ready s e written r =
    ap
      (λ b.
        if not b
        then (s, false)
        else write_record (record (make_room s) { next_idx = (s.next_idx + 1) % u32_mod })
            (record_bytes (new_record s e)) written)
      r

-- append on a ready spool whose file is a row of whole, intact records (a spool that ends in a part of
-- a record is not one): if the whole record is written the call returns true and the
-- event stands last in the queue, behind the records that were there, but for the oldest one
-- of a full queue of 5000; if the file cannot be opened the call returns false, and a full
-- queue has lost its oldest record all the same.
pub append_lem :
    (s : EventLog) (q : List (List ℕ)) (e : Event) (n : ℕ)
    → s.ready ≡ true
    → record_size ≤ n
    → Holds s q
    → ((append s e (some n)).1 ≡ true)
      × Holds (append s e (some n)).0 (room_in q ++ (record_bytes (new_record s e) ∷ []))
      × ((append s e none).1 ≡ false)
      × Holds (append s e none).0 (room_in q)
unfolding write_record
append_lem s q e n r h v =
    let m = make_room-Holds s q v in
    let t : EventLog = record (make_room s) { next_idx = (s.next_idx + 1) % u32_mod } in
    let (ok, w) =
      write_record-Holds t (room_in q) (record_bytes (new_record s e)) n (new_record-IsIntact s e) h
        m in
    rw (append_ready s e (some n) r, append_ready s e none r) (ok, w, refl, m)

count_covered-le : (boot idx : ℕ) (cs : List (List ℕ)) → count_covered boot idx cs ≤ length cs
count_covered-le boot idx [] = omega arith
count_covered-le boot idx (c ∷ cs) = ground (arith, count_covered-le boot idx cs)

compact_some-Holds :
    (s : EventLog) (q : List (List ℕ)) (bs : List ℕ) (opened : Bool)
    → read_from s.acked bs ≡ q
    → Holds s q
    → Holds (compact_file s (some bs) opened true) q
unfolding compact_file
compact_some-Holds s q bs false kept h = h
compact_some-Holds s q bs true kept (cs, i, f, t, a, e) =
    let intact : All IsIntact q = rw e (All-drop IsIntact s.acked cs i) in
    rw kept (q, intact, refl, refl, omega arith, refl)

compact_none-Holds :
    (s : EventLog) (q : List (List ℕ)) (opened : Bool)
    → Holds s q
    → Holds (compact_file s none opened true) q
unfolding compact_file
compact_none-Holds s q opened h = h

compact_file-Holds :
    (s : EventLog) (q : List (List ℕ)) (opened : Bool)
    → Holds s q
    → Holds (compact_file s s.file opened true) q
compact_file-Holds s q opened h = elim (Option-cases s.file) [
  | inl missing ↦
      subst (λ f. Holds (compact_file s f opened true) q) (sym missing)
        (compact_none-Holds s q opened h)
  | inr (bs, there) ↦
      let kept : read_from s.acked bs ≡ q =
        ap (λ f. read_from s.acked (bytes_of f)) (sym there) ∙ Holds-read s q h in
      subst (λ f. Holds (compact_file s f opened true) q) (sym there)
        (compact_some-Holds s q bs opened kept h)
]

-- ack retires exactly the records at the front of the queue that are at or before the confirmed one,
-- and no others, whether or not it compacts the file; provided that a compaction's rename succeeds.
pub ack_lem :
    (s : EventLog) (q : List (List ℕ)) (boot idx : ℕ) (opened : Bool)
    → Holds s q
    → Holds (ack s boot idx opened true) (drop (count_covered boot idx q) q)
unfolding ack
ack_lem s q boot idx opened h =
    let (cs, i, f, t, a, e) = h in
    let k : ℕ = count_covered boot idx q in
    let r : read_from s.acked (bytes_of s.file) ≡ q = Holds-read s q h in
    let m : k ≤ length cs - s.acked =
      omega (arith, count_covered-le boot idx q, length-drop s.acked cs, ap length e) in
    let u : EventLog = record s { acked = s.acked + k; nv_acked = s.acked + k } in
    let v : Holds u (drop k q) =
      (cs, i, f, t, omega arith, ap (drop k) e ∙ sym (drop-drop s.acked k cs)) in
    elim (Bool-cases (leb compact_at (s.acked + k))) [
      | inl large ↦ rw (r, large) (compact_file-Holds u (drop k q) opened v)
      | inr small ↦ rw (r, small) v
    ]

-- A restart keeps the queue, if the number of confirmed records in NVS is up to date: begin on a
-- mounted file system counts the records that are in the file and holds the same ones back.
pub begin_lem :
    (s : EventLog) (q : List (List ℕ)) (trimmed : Bool)
    → s.nv_acked ≡ s.acked
    → Holds s q
    → (bs : List ℕ) → s.file ≡ some bs
    → Holds (begin s true trimmed) q × ((begin s true trimmed).file ≡ s.file)
unfolding begin
begin_lem s q trimmed n (cs, i, f, t, a, e) bs there =
    let whole : bs ≡ concat cs = ap bytes_of (sym there) ∙ f in
    let r : read_from 0 bs ≡ cs = ap (read_from 0) whole ∙ read_from-concat 0 cs i in
    let aligned : ltb (length cs) (length bs / record_size) ≡ false =
      ground (arith, ap length whole, length-concat cs i) in
    let same : min s.nv_acked (length cs) ≡ s.acked = omega arith in
    unfold scan_file in rw (there, r, aligned, same) ((cs, i, whole, refl, a, e), refl)
