-- ===== src/Access/Tests.antt =====
-- Taps and edits on a small roster, and instances of the theorems. SHA-256 is instantiated by a
-- function that repeats the credential.
use rfid_access.Base.{
  is_empty, ℕ, ◌≡◌, refl, true, false, not, ◌&&◌, List, [], ◌∷◌, ◌++◌, none, some, arith, drop,
  replicate, if◌then◌else◌, Text,
}
use rfid_access.Ring.{fresh}
use rfid_access.Ring.History
use rfid_access.Roster.{Roster, allows, hash_of}
use rfid_access.Roster.Search.{Sorted}
use rfid_access.Roster.Order.{IsValid}
use rfid_access.Spool.{EventLog, record_bytes, new_record}
use rfid_access.Spool.View
use rfid_access.Access.{Access, RosterUpdate, Stamp, log_size, process_event, replace_roster}
use rfid_access.Access.Decision.{no_tap, tap_event, process_event_lem}
use rfid_access.Access.Edits.{names_hash, replace_roster_decides}

abbrev echo : List ℕ → List ℕ
echo bs = drop 8 bs ++ replicate 32 0

abbrev blank : Roster
blank = record { entries = []; rev = 0; salt = 7; persistent = true; allocated = true }

abbrev log : EventLog
log = record {
  file = none;
  boot_id = 1;
  next_idx = 0;
  total = 0;
  acked = 0;
  overflow = false;
  ready = true;
  nv_boot_id = 1;
  nv_acked = 0;
}

abbrev door : Access
door = record { roster = blank; spool = log; taps = fresh log_size no_tap; last_unknown_uid = [] }

abbrev fob : Text
fob = b'4' ∷ b'2' ∷ []

abbrev ann : Text
ann = b'A' ∷ b'n' ∷ b'n' ∷ []

abbrev rows : List RosterUpdate
rows = record { cred = some fob; name = some ann } ∷ record { cred = none; name = none } ∷ []

abbrev stamp : Stamp
stamp = record { ms = 5000; now = 0; written = some 40 }

log-Holds : View.Holds log []
log-Holds = ([], tt, refl, refl, omega arith, refl)

taps-Holds : History.Holds log_size no_tap [] (fresh log_size no_tap)
taps-Holds = History.fresh-Holds log_size no_tap (omega arith)

blank-IsValid : IsValid blank
blank-IsValid = record { strict = tt; fits = omega arith }

process_event_lem_example :
    let granted = allows echo blank fob in
    let (a', verdict) = process_event echo door true fob ann stamp in
    (verdict ≡ granted)
    × (a'.roster ≡ blank)
    × (a'.last_unknown_uid ≡ (if granted then [] else fob))
    × History.Holds log_size no_tap
        (record { uid = fob; type = ann; granted = granted; ms = 5000 } ∷ [])
        a'.taps
    × View.Holds a'.spool
        (View.room_in [] ++ (record_bytes (new_record log (tap_event fob granted stamp)) ∷ []))
process_event_lem_example =
    process_event_lem echo door fob ann 5000 0 40 [] [] refl (omega arith) log-Holds taps-Holds

replace_roster_decides_example :
    let (a', ok) = replace_roster echo door rows 3 true true true stamp in
    (allows echo a'.roster fob
      ≡ (not (is_empty fob) && names_hash echo 7 (hash_of echo 7 fob) rows))
    × (ok ≡ true)
    × Sorted a'.roster.entries
replace_roster_decides_example =
    replace_roster_decides echo door rows 3 true stamp fob tt refl (omega arith)
