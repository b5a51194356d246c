-- ===== src/Door/Tests.antt =====
-- Runs of the door contact on concrete readings, and instances of its theorems.
use rfid_access.Base.{ℕ, ◌+◌, ◌≤◌, ◌≡◌, refl, Bool, true, false, List, [], ◌∷◌, arith}
use rfid_access.Door.{
  quiet, forced, held, held_closed, DoorContact, Sample, authorised, begin, update, run,
}
use rfid_access.Door.Trace.{begin-IsValid}
use rfid_access.Door.Balance.{count_held}
use rfid_access.Door.Excuse.{held_excused}
use rfid_access.Door.Alarm.{held_reported_once}

abbrev blank : DoorContact
blank = record {
  is_open = false;
  pending = false;
  pending_since = 0;
  opened_at = 0;
  held_timing = false;
  held_from = 0;
  held_reported = false;
  was_forced = false;
  last_open_ms = 0;
  held_limit_ms = 0;
}

abbrev reads : ℕ → Bool → Bool → Sample
reads t open_now excused = record {
  at = t;
  inputs = record { raw_open = open_now; released = excused; schedule_open = false };
}

-- Opened by a grant, left open past the limit of one second, then closed.
abbrev visit : List Sample
visit =
    reads 100 true true
    ∷ reads 300 true true
    ∷ reads 500 true false
    ∷ reads 1500 true false
    ∷ reads 1600 true false
    ∷ reads 1700 false false
    ∷ reads 1900 false false
    ∷ []

visit_events :
    (run (begin blank 0 false 1000) visit).1
    ≡ quiet ∷ quiet ∷ quiet ∷ held ∷ quiet ∷ quiet ∷ held_closed ∷ []
unfolding run begin update
visit_events = refl

-- Opened with nothing in effect.
break_in :
    (run (begin blank 0 false 0) (reads 100 true false ∷ reads 250 true false ∷ [])).1
    ≡ quiet ∷ forced ∷ []
unfolding run begin update
break_in = refl

held_excused_example : (300 + 1000 ≤ 1500) × (authorised (reads 1500 true false).inputs ≡ false)
unfolding run begin update
held_excused_example =
    held_excused blank 0 false 1000 (reads 100 true true ∷ []) (reads 300 true true)
      (reads 500 true false ∷ []) (reads 1500 true false) (omega arith) (omega arith) refl refl

held_reported_once_example :
    count_held
      (run
        (begin blank 0 true 1000)
        (reads 100 true false ∷ (reads 700 true false ∷ reads 1100 true false ∷ []))).1
    ≡ 1
unfolding begin
held_reported_once_example =
    held_reported_once 0 (begin blank 0 true 1000) (reads 100 true false)
      (reads 700 true false ∷ []) (reads 1100 true false) (begin-IsValid blank 0 true 1000) refl
      refl (omega arith) (omega arith)
      (
        record { open_now = refl; unexcused = refl },
        (
          record { open_now = refl; unexcused = refl },
          (record { open_now = refl; unexcused = refl }, tt),
        ),
      )
      (omega arith) (omega arith)
