-- ===== src/Spool/Tail.antt =====
-- A write that stopped within a record: what scan counts, and what it trims.
use rfid_access.Base.{
  ℕ, zero, suc, ◌+◌, ◌-◌, ◌*◌, ◌/◌, ◌%◌, ◌≤◌, ◌<◌, ◌≡◌, refl, sym, ap, ◌∙◌, ◌⊎◌, inl, inr, min,
  Bool, true, false, List, [], ◌∷◌, ◌++◌, some, arith, ltb, leb, length, take, drop, length-append,
  append_assoc, All, u32_mod,
}
use rfid_access.Bytes.{take-append_left, drop-append_left, take_short}
use rfid_access.Spool.{
  EventLog, Event, record_size, record_bytes, valid, intact_from, read_from, concat, peek, append,
  make_room, write_record, new_record, begin, scan_file, pending, max_records,
}
use rfid_access.Spool.Records.{IsIntact, length-concat}
use rfid_access.Spool.View.{append_ready, new_record-IsIntact}

-- Where the loop over the records stops.
abbrev Stops : List ℕ → Type 0
Stops t = (length t < record_size) ⊎ (valid (take record_size t) ≡ false)

intact_from-Stops :
    (fuel : ℕ) (cs : List (List ℕ)) (t : List ℕ)
    → All IsIntact cs
    → Stops t
    → length cs ≤ fuel
    → intact_from fuel (concat cs ++ t) ≡ cs
unfolding intact_from
intact_from-Stops zero [] t h s f = refl
intact_from-Stops zero (c ∷ cs) t h s f = absurd (omega arith)
intact_from-Stops (suc fuel) [] t h (inl short) f =
    let k : ltb (length t) record_size ≡ true = ground arith in rw k refl
intact_from-Stops (suc fuel) [] t h (inr bad) f = elim (long_or_short t) [
  | inl k ↦ rw k refl
  | inr k ↦ rw (k, bad) refl
]
  where
    long_or_short :
        (t : List ℕ) → (ltb (length t) record_size ≡ true) ⊎ (ltb (length t) record_size ≡ false)
    long_or_short t = ground arith
intact_from-Stops (suc fuel) (c ∷ cs) t h s f =
    let assoc : (c ++ concat cs) ++ t ≡ c ++ (concat cs ++ t) = append_assoc c (concat cs) t in
    let front : take record_size (c ++ (concat cs ++ t)) ≡ c =
      take-append_left record_size c (concat cs ++ t) h.0.0 in
    let back : drop record_size (c ++ (concat cs ++ t)) ≡ concat cs ++ t =
      drop-append_left record_size c (concat cs ++ t) h.0.0 in
    let long : ltb (length (c ++ (concat cs ++ t))) record_size ≡ false =
      ground (arith, length-append c (concat cs ++ t), h.0.0) in
    rw (assoc, long, front, h.0.1, back)
      (ap (λ z. c ∷ z) (intact_from-Stops fuel cs t h.1 s (omega arith)))

-- A spool whose records are all confirmed, with a part of a record behind them.
module _ (s : EventLog) (cs : List (List ℕ)) (t : List ℕ) (trimmed : Bool) (i : All IsIntact cs)
    (there : s.file ≡ some (concat cs ++ t)) (some_tail : 0 < length t)
    (short : length t < record_size) (confirmed : s.nv_acked ≡ length cs) where
  booted : EventLog
  booted = begin s true trimmed

  booted_lem :
      (booted.file ≡ some (concat cs ++ t))
      × (booted.total ≡ length cs)
      × (booted.acked ≡ length cs)
      × (booted.ready ≡ true)
  unfolding booted begin scan_file
  booted_lem =
      let r : read_from 0 (concat cs ++ t) ≡ cs =
        unfold read_from in
        intact_from-Stops (length (concat cs ++ t)) cs t i (inl short)
          (omega (arith, length-append (concat cs) t, length-concat cs i)) in
      let aligned : ltb (length cs) (length (concat cs ++ t) / record_size) ≡ false =
        ground (arith, length-append (concat cs) t, length-concat cs i) in
      let same : min s.nv_acked (length cs) ≡ length cs = omega arith in
      rw (there, r, aligned, same) (refl, refl, refl, refl)

drop_records :
    (cs : List (List ℕ)) (t : List ℕ)
    → All IsIntact cs
    → drop (length cs * record_size) (concat cs ++ t) ≡ t
drop_records cs t h = drop-append_left (length cs * record_size) (concat cs) t (length-concat cs h)

-- A record behind such a tail is not found.
appended_lem :
    (b : EventLog) (cs : List (List ℕ)) (t c : List ℕ) (n max : ℕ)
    → All IsIntact cs
    → b.file ≡ some (concat cs ++ t)
    → b.total ≡ length cs
    → b.acked ≡ length cs
    → length c ≡ record_size
    → record_size ≤ n
    → valid (take record_size (t ++ c)) ≡ false
    → let after = write_record b c (some n) in
      (after.1 ≡ true) × (pending after.0 ≡ 1) × (peek after.0 max ≡ [])
unfolding write_record pending peek read_from
appended_lem b cs t c n max i there total acked l h bad =
    let whole : leb record_size n ≡ true = ground arith in
    let all : take n c ≡ c = take_short n c (omega (arith, l)) in
    let assoc : (concat cs ++ t) ++ c ≡ concat cs ++ (t ++ c) = append_assoc (concat cs) t c in
    let one : length cs + 1 - length cs ≡ 1 = omega arith in
    let found : intact_from (length (concat cs ++ (t ++ c))) (t ++ c) ≡ [] =
      intact_from-Stops (length (concat cs ++ (t ++ c))) [] (t ++ c) tt (inr bad) (omega arith) in
    rw (there, total, acked, whole, all, assoc, drop_records cs (t ++ c) i, found, one)
      (refl, refl, take_none max)
  where
    take_none : (k : ℕ) → take {A = List ℕ} k [] ≡ []
    take_none zero = refl
    take_none (suc k) = refl

make_room-none_waiting : (s : EventLog) → s.total ≡ s.acked → make_room s ≡ s
unfolding make_room
make_room-none_waiting s h =
    let room : leb max_records (s.total - s.acked) ≡ false = ground arith in rw room refl

-- A spool whose records are all confirmed, but that ends in a part of a record, keeps the part over
-- a restart. An event appended then is reported as written and counted as waiting, and peek
-- never yields it, if the 40 bytes behind the last good record do not happen to carry their CRC.
pub torn_tail :
    (s : EventLog) (cs : List (List ℕ)) (t : List ℕ) (trimmed : Bool) (e : Event) (n max : ℕ)
    → All IsIntact cs
    → s.file ≡ some (concat cs ++ t)
    → 0 < length t
    → length t < record_size
    → s.nv_acked ≡ length cs
    → record_size ≤ n
    → valid (take record_size (t ++ record_bytes (new_record (begin s true trimmed) e))) ≡ false
    → let after = append (begin s true trimmed) e (some n) in
      (after.1 ≡ true) × (pending after.0 ≡ 1) × (peek after.0 max ≡ [])
unfolding booted
torn_tail s cs t trimmed e n max i there some_tail short confirmed h bad =
    let b : EventLog = begin s true trimmed in
    let (f, total, acked, r) = booted_lem s cs t trimmed i there some_tail short confirmed in
    let c : List ℕ = record_bytes (new_record b e) in
    let room : make_room b ≡ b = make_room-none_waiting b (total ∙ sym acked) in
    rw (append_ready b e (some n) r, room)
      (appended_lem (record b { next_idx = (b.next_idx + 1) % u32_mod }) cs t c n max i f total
        acked (new_record-IsIntact b e).0 h bad)
