-- ===== src/Cloud/Batch.antt =====
-- lib/CloudSync: the events that a sync sends, and what their confirmation retires.
use rfid_access.Base.{
  ℕ, ◌/◌, ◌%◌, ◌<◌, ◌≡◌, refl, Bool, List, [], ◌∷◌, ◌++◌, map, ◌==◌, if◌then◌else◌, take, drop,
  get_or, length, Text, u32_mod,
}
use rfid_access.Bytes.{word, little_endian, crc32, take-append_left}
use rfid_access.Spool.{EventLog, Record, peek, record_bytes, body_bytes}
use rfid_access.Spool.Order.{record_bytes_fields, take-word, drop-word}
use rfid_access.Cloud.Sync.{max_events_per_sync}

-- One member of "events".
pub record Sent : Type 0 where
  pub boot_id : ℕ
  pub idx : ℕ
  pub uptime_ms : ℕ
  pub epoch : ℕ
  pub type : ℕ
  pub reason : ℕ
  pub granted : Bool
  pub time_approx : Bool
  pub cred : Text

-- The C string in a field of bytes.
abbrev pub c_string : List ℕ → Text
c_string [] = []
c_string (c ∷ cs) = let rest = c_string cs in if c == 0 then [] else c ∷ rest

-- The member that is made of a record, read as the struct lies in memory.
unfoldable pub sent : List ℕ → Sent
sent bs =
    let rest = drop 4 (drop 4 (drop 4 (drop 4 bs))) in
    let flags = get_or rest 2 0 in
    record {
      boot_id = word (take 4 bs);
      idx = word (take 4 (drop 4 bs));
      uptime_ms = word (take 4 (drop 4 (drop 4 bs)));
      epoch = word (take 4 (drop 4 (drop 4 (drop 4 bs))));
      type = get_or rest 0 0;
      reason = get_or rest 1 0;
      granted = flags % 2 == 1;
      time_approx = flags / 2 % 2 == 1;
      cred = c_string (take 16 (drop 4 rest));
    }

unfoldable pub batch : EventLog → List Sent
unfolding sent
batch s = map sent (peek s max_events_per_sync)

-- The fields of a record fit the words that they are stored in.
abbrev pub Fits : Record → Type 0
Fits r =
    (r.boot_id < u32_mod)
    × (r.idx < u32_mod)
    × (r.uptime_ms < u32_mod)
    × (r.epoch < u32_mod)
    × (length r.cred ≡ 16)

abbrev pub as_sent : Record → Sent
as_sent r = record {
  boot_id = r.boot_id;
  idx = r.idx;
  uptime_ms = r.uptime_ms;
  epoch = r.epoch;
  type = r.type;
  reason = r.reason;
  granted = r.flags % 2 == 1;
  time_approx = r.flags / 2 % 2 == 1;
  cred = c_string r.cred;
}

pub sent-record : (r : Record) → Fits r → sent (record_bytes r) ≡ as_sent r
unfolding sent
sent-record r (b, i, u, p, c) =
    let crc : List ℕ = little_endian 4 (crc32 (body_bytes r)) in
    let rest : List ℕ = r.type ∷ r.reason ∷ r.flags ∷ 0 ∷ (r.cred ++ crc) in
    let d : List ℕ = little_endian 4 r.epoch ++ rest in
    let e : List ℕ = little_endian 4 r.uptime_ms ++ d in
    let f : List ℕ = little_endian 4 r.idx ++ e in
    rw
      (
        record_bytes_fields r,
        take-word r.boot_id f b,
        drop-word r.boot_id f,
        take-word r.idx e i,
        drop-word r.idx e,
        take-word r.uptime_ms d u,
        drop-word r.uptime_ms d,
        take-word r.epoch rest p,
        drop-word r.epoch rest,
        take-append_left 16 r.cred crc c,
      )
      refl
