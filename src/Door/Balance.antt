-- ===== src/Door/Balance.antt =====
-- The order of alarms and their ends over a run.
use rfid_access.Base.{ℕ, ◌+◌, ◌≡◌, Bool, List, [], ◌∷◌, arith, to_ℕ}
use rfid_access.Door.{Event, held, held_closed, Inputs, DoorContact, Sample, begin, update, run}
use rfid_access.Door.Trace.{IsValid, Ordered, begin-IsValid, update-IsValid}

abbrev pub is_held : Event → ℕ
is_held held = 1
is_held _ = 0

abbrev pub is_held_closed : Event → ℕ
is_held_closed held_closed = 1
is_held_closed _ = 0

abbrev pub count_held : List Event → ℕ
count_held [] = 0
count_held (e ∷ es) = is_held e + count_held es

abbrev pub count_held_closed : List Event → ℕ
count_held_closed [] = 0
count_held_closed (e ∷ es) = is_held_closed e + count_held_closed es

update_balance :
    (t : ℕ) (d : DoorContact) (now : ℕ) (i : Inputs)
    → IsValid t d
    → to_ℕ d.held_reported + is_held (update d now i).1
      ≡ to_ℕ (update d now i).0.held_reported + is_held_closed (update d now i).1
unfolding update
update_balance t d now i v = ground arith

run_balance :
    (t : ℕ) (d : DoorContact) (ss : List Sample)
    → Ordered t ss
    → IsValid t d
    → to_ℕ d.held_reported + count_held (run d ss).1
      ≡ to_ℕ (run d ss).0.held_reported + count_held_closed (run d ss).1
unfolding run
run_balance t d [] o v = omega arith
run_balance t d (s ∷ ss) o v = omega (
  arith,
  update_balance t d s.at s.inputs v,
  run_balance s.at (update d s.at s.inputs).0 ss o.1 (update-IsValid t d s.at s.inputs o.0 v),
)

-- Over any run from `begin` at times that do not go back, the HELD events are as many as the
-- HELD_CLOSED events, and one more while an alarm is standing.
pub held_balance :
    (d : DoorContact) (t : ℕ) (raw : Bool) (limit : ℕ) (ss : List Sample)
    → Ordered t ss
    → let (d', es) = run (begin d t raw limit) ss in
      count_held es ≡ count_held_closed es + to_ℕ d'.held_reported
unfolding begin
held_balance d t raw limit ss o =
    omega (arith, run_balance t (begin d t raw limit) ss o (begin-IsValid d t raw limit))
