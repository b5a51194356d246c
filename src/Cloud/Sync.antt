-- ===== src/Cloud/Sync.antt =====
-- lib/CloudSync: one sync, syncOnce. What WiFi, the heap and HTTP answer is an argument. The
-- configuration of the door is handed to main.cpp, and is part of the result; of what its handler
-- does, the calls of eventLog.append are part of this step, and the rest is Config's.
use rfid_access.Base.{
  ℕ, Bool, true, false, not, ◌&&◌, ◌||◌, List, [], ◌∷◌, Option, none, some, ltb, ◌==◌,
  if◌then◌else◌, length, Text, eq_text, is_empty, add32,
}
use rfid_access.Spool.{peek, ack}
use rfid_access.Access.{
  Access, Stamp, RosterUpdate, replace_roster, append_event, evt_config, r_none,
}
use rfid_access.Cloud.{CloudSync, is_paired}
use rfid_access.Cloud.Feed.{consider_release}
use rfid_access.Cloud.Answer.{Offer, DoorConfig, Response, Env, parse_config}

abbrev pub max_events_per_sync : ℕ
max_events_per_sync = 40

abbrev pub min_free_heap : ℕ
min_free_heap = 60000

abbrev pub evt_fw_failed : ℕ
evt_fw_failed = 11

unfoldable pub note_server_time : CloudSync → ℕ → ℕ → CloudSync
note_server_time c epoch ms =
    if epoch == 0 then c else record c { srv_epoch = epoch; srv_at_ms = ms }

abbrev pub or_default : Option ℕ → ℕ → ℕ
or_default none d = d
or_default (some n) d = n

-- What became of the roster of an answer: none was there or it was applied, it failed, or there was
-- no memory for its rows.
pub data Applied : Type 0 where
  fine failed no_memory : Applied

-- acReplaceRoster from the answer, by what it returned.
unfoldable pub apply_rows :
    (List ℕ → List ℕ) → CloudSync → Option (List RosterUpdate) → ℕ → Env → CloudSync × Applied
apply_rows sha256 c none rev e = (c, fine)
apply_rows sha256 c (some us) rev e =
    let (a, ok) =
      replace_roster sha256 c.access us rev e.got_staged e.scratch e.wrote e.at_roster in
    let c' = record c { access = a } in
    if not e.got_updates then (c, no_memory) else if ok then (c', fine) else (c', failed)

unfoldable pub apply_roster : (List ℕ → List ℕ) → CloudSync → Response → Env → CloudSync × Applied
unfolding apply_rows
apply_roster sha256 c r e = apply_rows sha256 c r.roster (or_default r.roster_rev 0) e

-- The confirmation of the events, for a batch of `n`.
unfoldable pub ack_events : CloudSync → Response → Env → ℕ → CloudSync
ack_events c r e n =
    let confirmed = ltb 0 n && (not (r.ack_boot_id == 0) || not (r.ack_idx == 0)) in
    let spool =
      if confirmed
      then ack c.access.spool r.ack_boot_id r.ack_idx e.opened e.renamed
      else c.access.spool in
    record c {
      access = record c.access { spool = spool };
      events_sent = add32 c.events_sent n;
      roster_rev = or_default r.roster_rev c.roster_rev;
    }

unfoldable pub note_restart : CloudSync → Option Text → CloudSync
note_restart c none = c
note_restart c (some id) =
    if not (is_empty id) && not (eq_text id c.restart_id) && not (eq_text id c.pending_restart_id)
    then record c { pending_restart_id = id }
    else c

-- The slow path of a release.
unfoldable pub slow_release : CloudSync → Option (Text × ℕ) → ℕ → CloudSync × Bool
slow_release c none ms = (c, false)
slow_release c (some (id, exp)) ms = consider_release c id exp ms

unfoldable pub note_release : CloudSync → Response → Env → CloudSync × Bool
unfolding slow_release
note_release c r e =
    let (c', acted) = slow_release c r.release e.ms in
    let renewed = not (is_empty r.release_feed) && not (eq_text r.release_feed c'.feed_url) in
    if e.on_release
    then (
      record c' {
        feed_url = if renewed then r.release_feed else c'.feed_url;
        feed_etag = if renewed then [] else c'.feed_etag;
        feed_failures = 0;
      },
      acted,
    )
    else (c, false)

-- The firmware offer.
unfoldable pub consider_offer : CloudSync → Option Offer → Env → CloudSync
consider_offer c none e = c
consider_offer c (some o) e =
    if not (eq_text o.board e.board)
    then record c { access = append_event c.access evt_fw_failed r_none false o.version e.at_offer }
    else if eq_text o.version e.running
    then c
    else elim e.safe_to_update [
      | none ↦ c
      | some safe ↦
          if safe
          then record c { pending_fw = record { version = o.version; url = o.url; sha = o.sha } }
          else c
    ]

-- The result of a sync: whether it succeeded, the configuration handed on, and whether the door was
-- released.
pub record Outcome : Type 0 where
  pub ok : Bool
  pub config : Option DoorConfig
  pub released : Bool

abbrev pub is_fine : Applied → Bool
is_fine fine = true
is_fine failed = false
is_fine no_memory = false

abbrev pub refused : Outcome
refused = record { ok = false; config = none; released = false }

-- The calls of append that the handler of the configuration makes, in order.
unfoldable pub append_all : Access → List (Text × Stamp) → Access
unfolding append_event
append_all a [] = a
append_all a ((text, t) ∷ calls) = append_all (append_event a evt_config r_none false text t) calls

unfoldable pub hand_config : CloudSync → Option DoorConfig → Env → CloudSync
unfolding append_all
hand_config c none e = c
hand_config c (some cfg) e = record c { access = append_all c.access e.config_calls }

-- The part of syncOnce behind the roster.
unfoldable pub after_roster : CloudSync → Applied → Response → Env → ℕ → CloudSync × Outcome
unfolding note_restart note_release consider_offer ack_events parse_config hand_config
after_roster c no_memory r e n = (c, refused)
after_roster c a r e n =
    let c1 = if is_fine a then ack_events c r e n else c in
    let config = parse_config r.config r.reader_mode e.on_config in
    let c2 = note_restart (hand_config c1 config e) r.restart in
    let (c3, acted) = note_release c2 r e in
    (consider_offer c3 r.firmware e, record { ok = is_fine a; config = config; released = acted })

unfoldable pub apply_response :
    (List ℕ → List ℕ) → CloudSync → Response → Env → ℕ → CloudSync × Outcome
unfolding note_server_time apply_roster after_roster
apply_response sha256 c r e n =
    let (c', a) = apply_roster sha256 (note_server_time c r.server_epoch e.ms) r e in
    after_roster c' a r e n

-- What HTTP answers: the connection cannot be opened, or a status (not positive for the client's
-- own errors) and the body, `none` where it is no JSON.
pub data Reply : Type 0 where
  no_connection : Reply
  answered : Bool → ℕ → Option Response → Reply

unfoldable pub on_answer : (List ℕ → List ℕ) → CloudSync → Reply → Env → ℕ → CloudSync × Outcome
unfolding apply_response
on_answer sha256 c no_connection e n = (c, refused)
on_answer sha256 c (answered positive rc none) e n = (c, refused)
on_answer sha256 c (answered positive rc (some r)) e n =
    if not positive || not (rc == 200) then (c, refused) else apply_response sha256 c r e n

-- syncOnce.
unfoldable pub sync_once :
    (List ℕ → List ℕ) → CloudSync → Bool → ℕ → Reply → Env → CloudSync × Outcome
unfolding on_answer
sync_once sha256 c connected free_heap reply e =
    let n = length (peek c.access.spool max_events_per_sync) in
    if not connected || ltb free_heap min_free_heap || not (is_paired c)
    then (c, refused)
    else on_answer sha256 c reply e n
