-- ===== src/Cloud/Tests.antt =====
-- Runs of the cloud synchronisation on concrete answers, and instances of its theorems.
use rfid_access.Base.{
  ℕ, ◌≤◌, ◌<◌, ◌≡◌, refl, ◌⊎◌, inl, true, false, List, [], ◌∷◌, ◌++◌, none, some, arith, map, Text,
  is_empty, eq_text,
}
use rfid_access.Roster.{replace_all}
use rfid_access.Samples.{log, door, host, nv, idle, tap, wanted}
use rfid_access.Cloud.{CloudSync, start, begin, is_paired}
use rfid_access.Access.{Stamp, replace_roster}
use rfid_access.Cloud.Answer.{Offer, Response, Env}
use rfid_access.Cloud.Sync.{answered, sync_once}
use rfid_access.Cloud.Gates.{queued, Passes}
use rfid_access.Cloud.Offer.{offer_queued, queued_passed}
use rfid_access.Cloud.Kept.{Keeps}
use rfid_access.Cloud.Failed.{failed-Keeps}
use rfid_access.Cloud.Firmware.{
  Served, bytes, waiting, apply_firmware, committed, equals_ignore_case, hex_text, download,
}
use rfid_access.Cloud.Image.{sent, committed_checked, image_committed}
use rfid_access.Cloud.Pair
use rfid_access.Cloud.Pair.{
  Enrolled, Enrolment, pair, IsUnchanged, Asks, Accepts, IsPairedWith, pair_outcome,
}
use rfid_access.Spool.{append, record_bytes, new_record}
use rfid_access.Spool.View.{Holds}
use rfid_access.Spool.Order.{boot_of, idx_of}
use rfid_access.Cloud.Batch
use rfid_access.Cloud.Batch.{batch}
use rfid_access.Cloud.Delivery.{as_told, event_sent}
use rfid_access.Cloud.Once.{Apart, request, server_time, reboot, run, run-Apart}

abbrev timed : CloudSync
timed = record idle { srv_epoch = 1800000000; srv_at_ms = 1000 }

abbrev one : Text
one = b'1' ∷ []

abbrev two : Text
two = b'2' ∷ []

run-Apart_example :
    Apart nv.release_id
      (run (begin (start nv door) host) [] (
        server_time 1800000000 1000
        ∷ request one 1800000060 2000
        ∷ reboot host
        ∷ request one 1800000060 500
        ∷ [])).1
unfolding start
run-Apart_example = run-Apart idle host (
    server_time 1800000000 1000
    ∷ request one 1800000060 2000
    ∷ reboot host
    ∷ request one 1800000060 500
    ∷ [])

abbrev board : Text
board = b'a' ∷ []

abbrev offer : Offer
offer = record { board = board; version = two; url = host; sha = [] }

abbrev stamp : Stamp
stamp = record { ms = 5000; now = 0; written = some 40 }

abbrev response : Response
response = record {
  server_epoch = 1800000000;
  roster = none;
  roster_rev = none;
  ack_boot_id = 0;
  ack_idx = 0;
  config = none;
  reader_mode = none;
  restart = some one;
  release = none;
  release_feed = [];
  firmware = some offer;
}

abbrev env : Env
env = record {
  board = board;
  running = one;
  on_config = true;
  on_release = true;
  safe_to_update = some true;
  got_updates = true;
  got_staged = true;
  scratch = true;
  wrote = true;
  opened = true;
  renamed = true;
  ms = 5000;
  config_calls = (one, stamp) ∷ [];
  at_roster = stamp;
  at_offer = stamp;
}

abbrev echo : List ℕ → List ℕ
echo bs = bs

abbrev paired_door : CloudSync
paired_door = record timed { device_key = one; paired = true }

offer_queued_example :
    (sync_once echo paired_door true 90000 (answered true 200 (some response)) env).0.pending_fw
    ≡ queued offer
unfolding is_paired
offer_queued_example =
    offer_queued echo paired_door 90000 response env offer refl (omega arith) refl
      (refl, refl, refl) (inl refl)

queued_passed_example :
    let c' = (sync_once echo paired_door true 90000 (answered true 200 (some response)) env).0 in
    (c'.pending_fw ≡ paired_door.pending_fw)
    ⊎ ((o : Offer) × (some offer ≡ some o) × Passes o env × (c'.pending_fw ≡ queued o))
queued_passed_example =
    queued_passed echo paired_door true 90000 (answered true 200 (some response)) env

-- The new roster cannot be saved; the configuration is handed over all the same, and its event is
-- appended.
abbrev unsaved : Env
unsaved = record env { wrote = false }

failed-Keeps_example :
    Keeps log
      (sync_once echo paired_door true 90000
        (answered true 200 (some (record response { roster = some []; config = some wanted })))
        unsaved).0.access.spool
unfolding start sync_once is_paired replace_roster replace_all
failed-Keeps_example =
    failed-Keeps echo paired_door true 90000
      (answered true 200 (some (record response { roster = some []; config = some wanted })))
      unsaved (omega arith) refl

abbrev served : Served
served = record {
  rc = 200;
  board = board;
  size = 5;
  stream = bytes (1 ∷ 2 ∷ []) ∷ waiting ∷ bytes (3 ∷ 4 ∷ 5 ∷ []) ∷ [];
}

committed_checked_example :
    (served.rc ≡ 200)
    × ((is_empty board ≡ true) ⊎ (eq_text board board ≡ true))
    × ((rest : List ℕ) × ((1 ∷ 2 ∷ 3 ∷ 4 ∷ 5 ∷ []) ++ rest ≡ sent served.stream))
    × (0 < served.size)
    × (served.size ≤ 5)
    × ((is_empty [] ≡ true)
        ⊎ (equals_ignore_case [] (hex_text (echo (1 ∷ 2 ∷ 3 ∷ 4 ∷ 5 ∷ []))) ≡ true))
unfolding apply_firmware download
committed_checked_example =
    committed_checked echo board [] 90000 true served true true (1 ∷ 2 ∷ 3 ∷ 4 ∷ 5 ∷ []) refl

image_committed_example :
    apply_firmware echo board [] 90000 true served true true ≡ committed (sent served.stream)
image_committed_example =
    image_committed echo board [] 90000 served true (omega arith) refl refl (omega arith) tt refl
      refl

-- A key of 16 bytes for any code.
abbrev key : Text
key =
    b'k' ∷ b'k' ∷ b'k' ∷ b'k' ∷ b'k' ∷ b'k' ∷ b'k' ∷ b'k' ∷ b'k' ∷ b'k' ∷ b'k' ∷ b'k' ∷ b'k' ∷ b'k'
    ∷ b'k' ∷ b'k' ∷ []

abbrev accepted : Text → Text → Enrolled
accepted at code =
    Pair.answered true 200 (some (record { device_key = key; door_name = []; site = [] }))

abbrev code : Text
code = b'1' ∷ b'2' ∷ b'3' ∷ b'4' ∷ []

abbrev pointed : CloudSync
pointed = record idle { host = host }

pair_outcome_example :
    let p = pair accepted pointed code true 90000 in
    (IsUnchanged pointed p
      × ((a : Enrolment) → ¬ (Asks code true 90000 × Accepts (accepted pointed.host code) a)))
    ⊎ ((a : Enrolment) × Asks code true 90000
        × Accepts (accepted pointed.host code) a
        × IsPairedWith pointed a.device_key host p)
unfolding start
pair_outcome_example = pair_outcome accepted pointed code true 90000 host (inl (refl, refl))

log-Holds : Holds log []
log-Holds = ([], tt, refl, refl, omega arith, refl)

event_sent_example :
    batch (append log tap (some 40)).0 ≡ map Batch.sent [] ++ (as_told log tap ∷ [])
event_sent_example =
    event_sent log [] tap 40 refl (omega arith) log-Holds (omega arith) (omega arith) (omega arith)
      (omega arith)

-- The door of one tap, and the confirmation of its event.
abbrev tapped : CloudSync
tapped = record idle { access = record door { spool = (append log tap (some 40)).0 } }

abbrev the_record : List ℕ
the_record = record_bytes (new_record log tap)

abbrev confirmation : Response
confirmation = record response { ack_boot_id = boot_of the_record; ack_idx = idx_of the_record }
