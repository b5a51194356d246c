-- ===== src/Spool/Rising.antt =====
-- The order of the records is kept by every operation of the spool.
use rfid_access.Base.{
  ℕ, zero, suc, ◌+◌, ◌%◌, ◌≤◌, ◌<◌, ◌≡◌, refl, sym, ◌⊎◌, inl, inr, Bool, true, List, [], ◌∷◌, ◌++◌,
  Option, none, some, arith, leb, drop, length, All, All-append, All-drop, u32_mod, Bool-cases,
}
use rfid_access.Spool.{
  EventLog, Event, max_records, record_bytes, new_record, append, make_room, write_record, ack,
  count_covered, begin, scan_file, compact_file, compact_at, read_from, bytes_of,
}
use rfid_access.Spool.View.{room_in}
use rfid_access.Spool.Order.{boot_of, idx_of, Before, After, Rising, boot_of-record, idx_of-record}

-- The queue is in order, and the next event comes after all of it.
abbrev pub IsInOrder : EventLog → List (List ℕ) → Type 0
IsInOrder s q = Rising q × All (Before s.boot_id s.next_idx) q

drop-Rising : (k : ℕ) (q : List (List ℕ)) → Rising q → Rising (drop k q)
drop-Rising zero q h = h
drop-Rising (suc k) [] h = h
drop-Rising (suc k) (c ∷ cs) (p, h) = drop-Rising k cs h

snoc-Rising :
    (q : List (List ℕ)) (d : List ℕ)
    → Rising q
    → All (Before (boot_of d) (idx_of d)) q
    → Rising (q ++ (d ∷ []))
snoc-Rising [] d h k = (tt, tt)
snoc-Rising (c ∷ cs) d (p, h) (b, k) =
    (All-append (After c) cs (d ∷ []) p (b, tt), snoc-Rising cs d h k)

All-Before :
    (b i b' i' : ℕ) (q : List (List ℕ))
    → (b < b') ⊎ ((b ≡ b') × (i ≤ i'))
    → All (Before b i) q
    → All (Before b' i') q
All-Before b i b' i' [] h k = k
All-Before b i b' i' (c ∷ cs) h (p, k) = (ground arith, All-Before b i b' i' cs h k)

room_in-InOrder : (s : EventLog) (q : List (List ℕ)) → IsInOrder s q → IsInOrder s (room_in q)
room_in-InOrder s q (r, b) = elim (Bool-cases (leb max_records (length q))) [
  | inl k ↦ rw k (drop-Rising 1 q r, All-drop (Before s.boot_id s.next_idx) 1 q b)
  | inr k ↦ rw k (r, b)
]

append_frame :
    (s : EventLog) (e : Event) (n : ℕ)
    → s.ready ≡ true
    → ((append s e (some n)).0.boot_id ≡ s.boot_id)
      × ((append s e (some n)).0.next_idx ≡ (s.next_idx + 1) % u32_mod)
unfolding append write_record make_room
append_frame s e n r = (ground arith, ground arith)

scan_file_frame :
    (s : EventLog) (file : Option (List ℕ)) (trimmed : Bool)
    → ((scan_file s file trimmed).boot_id ≡ s.boot_id)
      × ((scan_file s file trimmed).next_idx ≡ s.next_idx)
unfolding scan_file
scan_file_frame s none trimmed = (refl, refl)
scan_file_frame s (some bs) trimmed = (refl, refl)

begin_frame :
    (s : EventLog) (trimmed : Bool)
    → ((begin s true trimmed).boot_id ≡ (s.nv_boot_id + 1) % u32_mod)
      × ((begin s true trimmed).next_idx ≡ 0)
unfolding begin
begin_frame s trimmed =
    let b : ℕ = (s.nv_boot_id + 1) % u32_mod in
    let t : EventLog = record s { boot_id = b; nv_boot_id = b; next_idx = 0 } in
    scan_file_frame t s.file trimmed

compact_file_frame :
    (s : EventLog) (file : Option (List ℕ)) (opened renamed : Bool)
    → ((compact_file s file opened renamed).boot_id ≡ s.boot_id)
      × ((compact_file s file opened renamed).next_idx ≡ s.next_idx)
unfolding compact_file
compact_file_frame s none opened renamed = (refl, refl)
compact_file_frame s (some bs) opened renamed = (ground arith, ground arith)

ack_frame :
    (s : EventLog) (boot idx : ℕ) (opened renamed : Bool)
    → ((ack s boot idx opened renamed).boot_id ≡ s.boot_id)
      × ((ack s boot idx opened renamed).next_idx ≡ s.next_idx)
unfolding ack
ack_frame s boot idx opened renamed =
    let n : ℕ = s.acked + count_covered boot idx (read_from s.acked (bytes_of s.file)) in
    let t : EventLog = record s { acked = n; nv_acked = n } in
    elim (Bool-cases (leb compact_at n)) [
      | inl k ↦ rw k (compact_file_frame t s.file opened renamed)
      | inr k ↦ rw k (refl, refl)
    ]

append-InOrder :
    (s : EventLog) (q : List (List ℕ)) (e : Event) (n : ℕ)
    → s.ready ≡ true
    → s.boot_id < u32_mod
    → s.next_idx + 1 < u32_mod
    → IsInOrder s q
    → IsInOrder (append s e (some n)).0 (room_in q ++ (record_bytes (new_record s e) ∷ []))
unfolding new_record
append-InOrder s q e n r boot idx h =
    let (up, before) = room_in-InOrder s q h in
    let d : List ℕ = record_bytes (new_record s e) in
    let b : boot_of d ≡ s.boot_id = boot_of-record (new_record s e) boot in
    let i : idx_of d ≡ s.next_idx = idx_of-record (new_record s e) (omega arith) in
    let (fb, fi) = append_frame s e n r in
    let next : (append s e (some n)).0.next_idx ≡ s.next_idx + 1 = omega (arith, fi) in
    (
      snoc-Rising (room_in q) d up (
          All-Before s.boot_id s.next_idx (boot_of d) (idx_of d) (room_in q)
            (inr (sym b, omega (arith, i))) before),
      rw (fb, next)
          (All-append (Before s.boot_id (s.next_idx + 1)) (room_in q) (d ∷ [])
            (All-Before s.boot_id s.next_idx s.boot_id (s.next_idx + 1) (room_in q)
              (inr (refl, omega arith)) before)
            (inr (b, omega (arith, i)), tt)),
    )

-- The spool stays in order: if its records rise by boot and index and the next event comes after
-- them, this is so again after an event was appended, after any confirmation, and after a restart on
-- a mounted file system; as long as neither the count of boots nor that of a boot's events wraps.
pub order_kept :
    (s : EventLog) (q : List (List ℕ)) (e : Event) (n boot idx : ℕ) (opened renamed trimmed : Bool)
    → s.ready ≡ true
    → s.boot_id + 1 < u32_mod
    → s.next_idx + 1 < u32_mod
    → s.nv_boot_id ≡ s.boot_id
    → IsInOrder s q
    → IsInOrder (append s e (some n)).0 (room_in q ++ (record_bytes (new_record s e) ∷ []))
      × IsInOrder (ack s boot idx opened renamed) (drop (count_covered boot idx q) q)
      × IsInOrder (begin s true trimmed) q
order_kept s q e n boot idx opened renamed trimmed r wide next same (up, before) =
    let (ab, ai) = ack_frame s boot idx opened renamed in
    let (bb, bi) = begin_frame s trimmed in
    let k : ℕ = count_covered boot idx q in
    let later : (begin s true trimmed).boot_id ≡ s.boot_id + 1 = omega (arith, bb) in
    (
      append-InOrder s q e n r (omega arith) next (up, before),
      rw (ab, ai) (drop-Rising k q up, All-drop (Before s.boot_id s.next_idx) k q before),
      rw (later, bi)
          (up, All-Before s.boot_id s.next_idx (s.boot_id + 1) 0 q (inl (omega arith)) before),
    )
