-- ===== src/Cloud/Kept.antt =====
-- The steps of a sync that leave the spooled events alone, or add one.
use rfid_access.Base.{
  false-true, ℕ, ◌+◌, ◌-◌, ◌%◌, ◌<◌, ◌≡◌, refl, sym, ap, ◌∙◌, inl, inr, Bool, true, false, List, [],
  ◌++◌, append-nil, Option, none, some, arith, leb, take, Text, eq_text, Bool-cases, u32_mod, ◌≤◌,
  suc, length, ◌∷◌, append_assoc,
}
use rfid_access.Spool.{
  EventLog, Event, max_records, bytes_of, append, make_room, write_record, record_bytes, new_record,
}
use rfid_access.Access.{
  Access, RosterUpdate, Stamp, append_event, replace_roster, staged, r_none, evt_config,
}
use rfid_access.Roster.{replace_all}
use rfid_access.Cloud.{CloudSync, request_sync_now}
use rfid_access.Cloud.Feed.{consider_release}
use rfid_access.Spool.View.{append_ready}
use rfid_access.Cloud.Sync.{
  Applied, fine, failed, no_memory, apply_rows, note_restart, note_release, slow_release,
  consider_offer, note_server_time, evt_fw_failed, is_fine, append_all, hand_config,
}
use rfid_access.Cloud.Answer.{Offer, DoorConfig, Response, Env, parse_config}
use rfid_access.Cloud.Gates.{safe_cases, before_offer, handed}
use rfid_access.Cloud.Offer.{apply_rows-cases}

-- The cursor stands where it stood, and the bytes of the file are still there, more behind them.
abbrev pub Keeps : EventLog → EventLog → Type 0
Keeps s t = (t.acked ≡ s.acked) × (x : List ℕ) × (bytes_of t.file ≡ bytes_of s.file ++ x)

pub Keeps-same : (s : EventLog) → Keeps s s
Keeps-same s = (refl, [], sym (append-nil (bytes_of s.file)))

write_record-Keeps :
    (s : EventLog) (bs : List ℕ) (written : Option ℕ) → Keeps s (write_record s bs written).0
unfolding write_record
write_record-Keeps s bs none = Keeps-same s
write_record-Keeps s bs (some n) = elim (Bool-cases (leb 40 n)) [
  | inl k ↦ rw k (refl, take n bs, refl)
  | inr k ↦ rw k (refl, take n bs, refl)
]

make_room_same : (s : EventLog) → s.total - s.acked < max_records → make_room s ≡ s
unfolding make_room
make_room_same s room =
    let free : leb max_records (s.total - s.acked) ≡ false = ground arith in rw free refl

append-Keeps :
    (s : EventLog) (e : Event) (written : Option ℕ)
    → s.total - s.acked < max_records
    → Keeps s (append s e written).0
unfolding append
append-Keeps s e written room = elim (Bool-cases s.ready) [
  | inr k ↦ rw k (Keeps-same s)
  | inl k ↦
      let t : EventLog = record s { next_idx = (s.next_idx + 1) % u32_mod } in
      rw (append_ready s e written k, make_room_same s room)
        (write_record-Keeps t (record_bytes (new_record s e)) written)
]

append_event-Keeps :
    (a : Access) (type reason : ℕ) (g : Bool) (c : Text) (t : Stamp)
    → a.spool.total - a.spool.acked < max_records
    → Keeps a.spool (append_event a type reason g c t).spool
unfolding append_event
append_event-Keeps a type reason g c t room =
    append-Keeps a.spool
      (record {
        type = type;
        reason = reason;
        granted = g;
        credential = c;
        uptime_ms = t.ms;
        now = t.now;
      })
      t.written room

pub Keeps-trans : (s t u : EventLog) → Keeps s t → Keeps t u → Keeps s u
Keeps-trans s t u (a, x, p) (b, y, q) =
    (b ∙ a, x ++ y, q ∙ ap (λ z. z ++ y) p ∙ append_assoc (bytes_of s.file) x y)

write_record-total :
    (s : EventLog) (bs : List ℕ) (written : Option ℕ)
    → (write_record s bs written).0.total ≤ suc s.total
unfolding write_record
write_record-total s bs none = omega arith
write_record-total s bs (some n) = elim (Bool-cases (leb 40 n)) [
  | inl k ↦ rw k (omega arith)
  | inr k ↦ rw k (omega arith)
]

append-total :
    (s : EventLog) (e : Event) (written : Option ℕ)
    → s.total - s.acked < max_records
    → (append s e written).0.total ≤ suc s.total
unfolding append
append-total s e written room = elim (Bool-cases s.ready) [
  | inr k ↦ rw k (omega arith)
  | inl k ↦
      let t : EventLog = record s { next_idx = (s.next_idx + 1) % u32_mod } in
      rw (append_ready s e written k, make_room_same s room)
        (write_record-total t (record_bytes (new_record s e)) written)
]

append_event-total :
    (a : Access) (type reason : ℕ) (g : Bool) (c : Text) (t : Stamp)
    → a.spool.total - a.spool.acked < max_records
    → (append_event a type reason g c t).spool.total ≤ suc a.spool.total
unfolding append_event
append_event-total a type reason g c t room =
    append-total a.spool
      (record {
        type = type;
        reason = reason;
        granted = g;
        credential = c;
        uptime_ms = t.ms;
        now = t.now;
      })
      t.written room

-- Calls of append for which there is room.
append_all-Keeps :
    (a : Access) (calls : List (Text × Stamp))
    → a.spool.total - a.spool.acked + length calls < max_records
    → Keeps a.spool (append_all a calls).spool
      × ((append_all a calls).spool.total - (append_all a calls).spool.acked < max_records)
unfolding append_all
append_all-Keeps a [] room = (Keeps-same a.spool, omega arith)
append_all-Keeps a ((text, t) ∷ calls) room =
    let free : a.spool.total - a.spool.acked < max_records = omega arith in
    let a' = append_event a evt_config r_none false text t in
    let (same, x, p) = append_event-Keeps a evt_config r_none false text t free in
    let grown : a'.spool.total ≤ suc a.spool.total =
      append_event-total a evt_config r_none false text t free in
    let (k, left) = append_all-Keeps a' calls (omega arith) in
    (Keeps-trans a.spool a'.spool (append_all a' calls).spool (same, x, p) k, left)

hand_config-Keeps :
    (c : CloudSync) (cfg : Option DoorConfig) (e : Env)
    → c.access.spool.total - c.access.spool.acked + length e.config_calls < max_records
    → let b = hand_config c cfg e in
      Keeps c.access.spool b.access.spool
      × (b.access.spool.total - b.access.spool.acked < max_records)
unfolding hand_config
hand_config-Keeps c none e room = (Keeps-same c.access.spool, omega arith)
hand_config-Keeps c (some cfg) e room = append_all-Keeps c.access e.config_calls room

pub consider_offer-Keeps :
    (c : CloudSync) (f : Option Offer) (e : Env)
    → c.access.spool.total - c.access.spool.acked < max_records
    → Keeps c.access.spool (consider_offer c f e).access.spool
unfolding consider_offer
consider_offer-Keeps c none e room = Keeps-same c.access.spool
consider_offer-Keeps c (some o) e room = elim (Bool-cases (eq_text o.board e.board)) [
  | inr b ↦ rw b (append_event-Keeps c.access evt_fw_failed r_none false o.version e.at_offer room)
  | inl b ↦ elim (Bool-cases (eq_text o.version e.running)) [
    | inl v ↦ rw (b, v) (Keeps-same c.access.spool)
    | inr v ↦ elim (safe_cases e.safe_to_update) [
      | inl k ↦ rw (b, v, k) (Keeps-same c.access.spool)
      | inr (inl k) ↦ rw (b, v, k) (Keeps-same c.access.spool)
      | inr (inr k) ↦ rw (b, v, k) (Keeps-same c.access.spool)
    ]
  ]
]

note_restart-access : (c : CloudSync) (id : Option Text) → (note_restart c id).access ≡ c.access
unfolding note_restart
note_restart-access c none = refl
note_restart-access c (some id) = ground arith

slow_release-access :
    (c : CloudSync) (r : Option (Text × ℕ)) (ms : ℕ) → (slow_release c r ms).0.access ≡ c.access
unfolding slow_release consider_release request_sync_now
slow_release-access c none ms = refl
slow_release-access c (some (id, exp)) ms = ground arith

note_release-access :
    (c : CloudSync) (r : Response) (e : Env) → (note_release c r e).0.access ≡ c.access
unfolding note_release
note_release-access c r e = elim (Bool-cases e.on_release) [
  | inl k ↦ rw k (slow_release-access c r.release e.ms)
  | inr k ↦ rw k refl
]

pub note_server_time-access :
    (c : CloudSync) (epoch ms : ℕ) → (note_server_time c epoch ms).access ≡ c.access
unfolding note_server_time
note_server_time-access c epoch ms = ground arith

module _ (sha256 : List ℕ → List ℕ) where
  replace_roster-spool :
      (a : Access) (us : List RosterUpdate) (rev : ℕ) (got scratch wrote : Bool) (t : Stamp)
      → (replace_roster sha256 a us rev got scratch wrote t).1 ≡ false
      → (replace_roster sha256 a us rev got scratch wrote t).0.spool ≡ a.spool
  unfolding replace_roster
  replace_roster-spool a us rev false scratch wrote t h = refl
  replace_roster-spool a us rev true scratch wrote t h =
      elim (Bool-cases
        (replace_all a.roster (staged sha256 a.roster.salt us) rev scratch wrote).1) [
          | inl k ↦ absurd (false-true (sym h ∙ rw k refl))
          | inr k ↦ rw k refl
        ]

  -- Rows that were not applied have left the spool alone.
  pub apply_rows-spool :
      (c : CloudSync) (us : Option (List RosterUpdate)) (rev : ℕ) (e : Env)
      → is_fine (apply_rows sha256 c us rev e).1 ≡ false
      → (apply_rows sha256 c us rev e).0.access.spool ≡ c.access.spool
  unfolding apply_rows
  apply_rows-spool c none rev e h = cc
  apply_rows-spool c (some us) rev e h = elim (apply_rows-cases sha256 c us rev e) [
    | inl (m, k) ↦ rw k refl
    | inr (inl (m, o, k)) ↦
        absurd (false-true (sym h ∙ ap (λ (x : CloudSync × Applied). is_fine x.1) k))
    | inr (inr (m, o, k)) ↦
        rw k (replace_roster-spool c.access us rev e.got_staged e.scratch e.wrote e.at_roster o)
  ]

-- What comes in front of the offer, where the roster was not applied: the events that the handler of
-- the configuration appends.
pub before_offer-Keeps :
    (c : CloudSync) (a : Applied) (r : Response) (e : Env) (n : ℕ)
    → is_fine a ≡ false
    → c.access.spool.total - c.access.spool.acked + length e.config_calls < max_records
    → let b = before_offer c a r e n in
      Keeps c.access.spool b.access.spool
      × (b.access.spool.total - b.access.spool.acked < max_records)
unfolding before_offer
before_offer-Keeps c no_memory r e n h room = (Keeps-same c.access.spool, omega arith)
before_offer-Keeps c fine r e n h room = cc
before_offer-Keeps c failed r e n h room =
    let c' = handed c r e in
    let same : (note_release (note_restart c' r.restart) r e).0.access ≡ c'.access =
      note_release-access (note_restart c' r.restart) r e ∙ note_restart-access c' r.restart in
    rw same (hand_config-Keeps c (parse_config r.config r.reader_mode e.on_config) e room)
