-- ===== src/Spool.antt =====
-- lib/EventLog/EventLog.h and EventLog.cpp: the spool of access events on flash. The file is its
-- bytes, `none` where it cannot be opened; a record read from it is the 40 bytes of the struct. What
-- LittleFS answers is an argument, and a file that was written reads back as it was written.
pub mod Records
pub mod View
pub mod Tail
pub mod Cut
pub mod Order
pub mod Rising
mod Tests
use rfid_access.Base.{
  ℕ, zero, suc, ◌+◌, ◌-◌, ◌*◌, ◌/◌, ◌%◌, min, Bool, true, false, not, ◌&&◌, ◌||◌, List, [], ◌∷◌,
  ◌++◌, Option, none, some, ltb, leb, ◌==◌, if◌then◌else◌, length, take, drop, u32_mod,
}
use rfid_access.Bytes.{little_endian, word, crc32}
use rfid_access.Roster.{copy_field}

-- sizeof(Record), MAX_RECORDS and COMPACT_AT.
abbrev pub record_size : ℕ
record_size = 40

abbrev pub max_records : ℕ
max_records = 5000

abbrev pub compact_at : ℕ
compact_at = 512

-- EventLog::Record without its CRC; `cred` is the char array of 16 bytes.
pub record Record : Type 0 where
  pub boot_id : ℕ
  pub idx : ℕ
  pub uptime_ms : ℕ
  pub epoch : ℕ
  pub type : ℕ
  pub reason : ℕ
  pub flags : ℕ
  pub cred : List ℕ

-- The bytes in front of the CRC, with the byte of padding, and the whole record.
unfoldable pub body_bytes : Record → List ℕ
body_bytes r =
    little_endian 4 r.boot_id
    ++ (little_endian 4 r.idx
        ++ (little_endian 4 r.uptime_ms
            ++ (little_endian 4 r.epoch ++ ((r.type ∷ r.reason ∷ r.flags ∷ 0 ∷ []) ++ r.cred))))

unfoldable pub record_bytes : Record → List ℕ
record_bytes r = body_bytes r ++ little_endian 4 (crc32 (body_bytes r))

-- valid(): on the bytes of a record.
unfoldable pub valid : List ℕ → Bool
valid bs = word (drop 36 bs) == crc32 (take 36 bs)

-- The fields of the class, and the two values that it keeps in NVS. `_total` and `_acked` count
-- records of the file.
pub record EventLog : Type 0 where
  pub file : Option (List ℕ)
  pub boot_id : ℕ
  pub next_idx : ℕ
  pub total : ℕ
  pub acked : ℕ
  pub overflow : Bool
  pub ready : Bool
  pub nv_boot_id : ℕ
  pub nv_acked : ℕ

-- The loop over the records from a position on, up to the first that is short or not valid, on fuel.
unfoldable pub intact_from : ℕ → List ℕ → List (List ℕ)
intact_from zero bs = []
intact_from (suc fuel) bs =
    let rest = intact_from fuel (drop record_size bs) in
    if ltb (length bs) record_size
    then []
    else if not (valid (take record_size bs))
    then []
    else take record_size bs ∷ rest

-- The loop from the record at `pos` on; each record has a byte, so the length is enough fuel.
unfoldable pub read_from : ℕ → List ℕ → List (List ℕ)
read_from pos bs = intact_from (length bs) (drop (pos * record_size) bs)

abbrev pub bytes_of : Option (List ℕ) → List ℕ
bytes_of none = []
bytes_of (some bs) = bs

abbrev pub concat : List (List ℕ) → List ℕ
concat [] = []
concat (c ∷ cs) = c ++ concat cs

-- scan behind the mount test: `trimmed` is whether the temporary file could be opened and renamed.
unfoldable pub scan_file : EventLog → Option (List ℕ) → Bool → EventLog
scan_file s none trimmed = record s { total = 0; acked = 0; overflow = false; ready = true }
scan_file s (some bs) trimmed =
    let good = read_from 0 bs in
    record s {
      file =
          if ltb (length good) (length bs / record_size)
          then (if trimmed then some (concat good) else none)
          else some bs;
      total = length good;
      acked = min s.nv_acked (length good);
      overflow = false;
      ready = true;
    }

-- begin: the boot counter, then scan.
unfoldable pub begin : EventLog → Bool → Bool → EventLog
begin s mounted trimmed =
    let b = (s.nv_boot_id + 1) % u32_mod in
    let t = record s { boot_id = b; nv_boot_id = b; next_idx = 0 } in
    if mounted
    then scan_file t t.file trimmed
    else record t { total = 0; acked = 0; overflow = false; ready = false }

-- The flags of a record: granted, and whether its time is approximate.
abbrev pub flags_of : Bool → ℕ → ℕ
flags_of granted epoch = (if granted then 1 else 0) + (if epoch == 0 then 2 else 0)

-- time() as a record keeps it.
abbrev pub stamp : ℕ → ℕ
stamp now = if ltb 1700000000 now then now % u32_mod else 0

-- What append is told and reads: the event, millis() and time().
pub record Event : Type 0 where
  pub type : ℕ
  pub reason : ℕ
  pub granted : Bool
  pub credential : List ℕ
  pub uptime_ms : ℕ
  pub now : ℕ

unfoldable pub new_record : EventLog → Event → Record
new_record s e = record {
  boot_id = s.boot_id;
  idx = s.next_idx;
  uptime_ms = e.uptime_ms;
  epoch = stamp e.now;
  type = e.type;
  reason = e.reason;
  flags = flags_of e.granted (stamp e.now);
  cred = copy_field 16 e.credential;
}

-- The full spool drops its oldest event by counting it as confirmed.
unfoldable pub make_room : EventLog → EventLog
make_room s =
    if leb max_records (s.total - s.acked)
    then record s { overflow = true; acked = s.acked + 1 }
    else s

-- The write of append: `none` if the file cannot be opened, else how many bytes were written.
unfoldable pub write_record : EventLog → List ℕ → Option ℕ → EventLog × Bool
write_record s bs none = (s, false)
write_record s bs (some n) =
    let t = record s { file = some (bytes_of s.file ++ take n bs) } in
    if leb record_size n then (record t { total = s.total + 1 }, true) else (t, false)

unfoldable pub append : EventLog → Event → Option ℕ → EventLog × Bool
append s e written =
    if not s.ready
    then (s, false)
    else write_record (record (make_room s) { next_idx = (s.next_idx + 1) % u32_mod })
        (record_bytes (new_record s e)) written

-- peek: at most `max` records.
unfoldable pub peek : EventLog → ℕ → List (List ℕ)
peek s max = take max (read_from s.acked (bytes_of s.file))

-- A record at or before (boot, idx).
abbrev pub covered : ℕ → ℕ → List ℕ → Bool
covered boot idx c =
    let b = word (take 4 c) in
    let i = word (take 4 (drop 4 c)) in ltb b boot || ((b == boot) && leb i idx)

abbrev pub count_covered : ℕ → ℕ → List (List ℕ) → ℕ
count_covered boot idx [] = 0
count_covered boot idx (c ∷ cs) =
    let rest = count_covered boot idx cs in if covered boot idx c then suc rest else 0

-- compact: `opened` is whether the temporary file could be opened, `renamed` the answer of rename.
unfoldable pub compact_file : EventLog → Option (List ℕ) → Bool → Bool → EventLog
compact_file s none opened renamed = s
compact_file s (some bs) opened renamed =
    let kept = read_from s.acked bs in
    if not opened
    then s
    else if not renamed
    then record s { file = none }
    else record s { file = some (concat kept); total = length kept; acked = 0; nv_acked = 0 }

unfoldable pub ack : EventLog → ℕ → ℕ → Bool → Bool → EventLog
ack s boot idx opened renamed =
    let n = s.acked + count_covered boot idx (read_from s.acked (bytes_of s.file)) in
    let t = record s { acked = n; nv_acked = n } in
    if leb compact_at n then compact_file t t.file opened renamed else t

-- pending.
unfoldable pub pending : EventLog → ℕ
pending s = s.total - s.acked
