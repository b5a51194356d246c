-- ===== src/Spool/Tests.antt =====
-- Runs of the spool on concrete events, and instances of its theorems.
use rfid_access.Base.{
  ℕ, ◌≡◌, refl, true, false, List, [], ◌∷◌, ◌++◌, none, some, arith, take, drop, zero, suc, ◌+◌,
  length, replicate, length-replicate, All,
}
use rfid_access.Bytes.{little_endian, word, crc32}
use rfid_access.Roster.{copy_field}
use rfid_access.Spool.{
  EventLog, Event, record_bytes, body_bytes, new_record, append, peek, read_from, intact_from,
  concat, valid, ack, count_covered, begin, scan_file, pending,
}
use rfid_access.Spool.View.{Holds, room_in, new_record-IsIntact, append_lem}
use rfid_access.Spool.Tail.{torn_tail}
use rfid_access.Spool.Records.{IsIntact}
use rfid_access.Spool.Cut.{Stage, counting, counted, removed, swapped, cut_ack, begin-cut_ack}

abbrev fresh : EventLog
fresh = record {
  file = none;
  boot_id = 1;
  next_idx = 0;
  total = 0;
  acked = 0;
  overflow = false;
  ready = true;
  nv_boot_id = 1;
  nv_acked = 0;
}

abbrev tap : Event
tap = record {
  type = 1;
  reason = 1;
  granted = true;
  credential = b'1' ∷ b'7' ∷ [];
  uptime_ms = 5000;
  now = 0;
}

abbrev first : List ℕ
first = record_bytes (new_record fresh tap)

abbrev second : List ℕ
second = record_bytes (new_record (record fresh { next_idx = 1 }) tap)

abbrev two : EventLog
two = record fresh { file = some (first ++ (second ++ [])); total = 2; next_idx = 2 }

two-Holds : Holds two (first ∷ second ∷ [])
two-Holds = (
  first ∷ second ∷ [],
  (new_record-IsIntact fresh tap, (new_record-IsIntact (record fresh { next_idx = 1 }) tap, tt)),
  refl,
  refl,
  omega arith,
  refl,
)

append_lem_example :
    ((append two tap (some 40)).1 ≡ true)
    × Holds
        (append two tap (some 40)).0
        (room_in (first ∷ second ∷ []) ++ (record_bytes (new_record two tap) ∷ []))
    × ((append two tap none).1 ≡ false)
    × Holds (append two tap none).0 (room_in (first ∷ second ∷ []))
append_lem_example = append_lem two (first ∷ second ∷ []) tap 40 refl (omega arith) two-Holds

-- The first of the two is confirmed.
ack_one : (ack two 1 0 true true).acked ≡ 1
unfolding ack read_from intact_from valid record_bytes body_bytes new_record little_endian
    copy_field word crc32
ack_one = refl

abbrev torn : EventLog
torn = record fresh { file = some (1 ∷ 2 ∷ 3 ∷ []) }

torn_not_valid :
    valid (take 40 ((1 ∷ 2 ∷ 3 ∷ []) ++ record_bytes (new_record (begin torn true true) tap)))
    ≡ false
unfolding valid begin scan_file new_record record_bytes body_bytes little_endian copy_field word
    crc32
torn_not_valid = refl

torn_tail_example :
    let after = append (begin torn true true) tap (some 40) in
    (after.1 ≡ true) × (pending after.0 ≡ 1) × (peek after.0 9 ≡ [])
torn_tail_example =
    torn_tail torn [] (1 ∷ 2 ∷ 3 ∷ []) true tap 40 9 tt refl (omega arith) (omega arith) refl
      (omega arith) torn_not_valid

-- A spool of 600 events, of which 512 are confirmed.
abbrev many : List (List ℕ)
many = replicate 600 first

abbrev crowded : EventLog
crowded = record fresh {
  file = some (concat many);
  total = length many;
  acked = 512;
  nv_acked = 512;
}

All-replicate : (n : ℕ) (c : List ℕ) → IsIntact c → All IsIntact (replicate n c)
All-replicate zero c h = tt
All-replicate (suc n) c h = (h, All-replicate n c h)

crowded-Holds : Holds crowded (drop 512 many)
crowded-Holds = (
  many,
  All-replicate 600 first (new_record-IsIntact fresh tap),
  refl,
  refl,
  omega (arith, length-replicate 600 first),
  refl,
)

begin-cut_ack_example :
    let k = count_covered 1 0 (drop 512 many) in
    let after = λ (stage : Stage). begin (cut_ack crowded 1 0 stage) true true in
    Holds (after counting) (drop 512 many)
    × Holds (after counted) (drop k (drop 512 many))
    × Holds (after removed) []
    × Holds (after swapped) (drop (512 + k) (drop k (drop 512 many)))
begin-cut_ack_example =
    begin-cut_ack crowded (drop 512 many) (concat many) 1 0 true crowded-Holds refl refl
      (omega arith)
