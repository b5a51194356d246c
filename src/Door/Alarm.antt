-- ===== src/Door/Alarm.antt =====
-- The held-open alarm of a door that stays open unexcused.
use rfid_access.Base.{
  ℕ, ◌+◌, ◌≤◌, ◌<◌, ◌≡◌, refl, true, false, List, [], ◌∷◌, ◌++◌, ◌⊎◌, inl, inr, arith, u32_mod, All,
}
use rfid_access.Door.{DoorContact, Sample, authorised, update, run}
use rfid_access.Door.Trace.{IsValid, Ordered, update-IsValid, update-held_limit_ms}
use rfid_access.Door.Balance.{is_held, count_held}

-- The contact reads open and nothing excuses it.
pub record IsPropped (s : Sample) : Type 0 where
  pub open_now : s.inputs.raw_open ≡ true
  pub unexcused : authorised s.inputs ≡ false

update_reported :
    (d : DoorContact) (s : Sample)
    → d.is_open ≡ true
    → d.held_reported ≡ true
    → IsPropped s
    → ((update d s.at s.inputs).0.is_open ≡ true)
      × ((update d s.at s.inputs).0.held_reported ≡ true)
      × (is_held (update d s.at s.inputs).1 ≡ 0)
unfolding update
update_reported d s o r p = (ground arith, ground arith, ground arith)

run_reported :
    (d : DoorContact) (ss : List Sample)
    → d.is_open ≡ true
    → d.held_reported ≡ true
    → All IsPropped ss
    → count_held (run d ss).1 ≡ 0
unfolding run
run_reported d [] o r p = refl
run_reported d (s ∷ ss) o r p =
    let (o', r', n) = update_reported d s o r p.0 in
    omega (arith, n, run_reported (update d s.at s.inputs).0 ss o' r' p.1)

-- One unexcused tick of an open door: either the alarm is raised, or the clock runs on from where
-- it was, or from now if it was not running.
update_timing :
    (t : ℕ) (d : DoorContact) (s : Sample)
    → IsValid t d
    → d.is_open ≡ true
    → d.held_reported ≡ false
    → IsPropped s
    → t ≤ s.at
    → let (d', e) = update d s.at s.inputs in
      (d'.is_open ≡ true)
      × (((d'.held_reported ≡ true) × (is_held e ≡ 1))
          ⊎ ((d'.held_reported ≡ false)
              × (is_held e ≡ 0)
              × (d'.held_timing ≡ true)
              × (d'.held_from ≤ s.at)
              × (d.held_timing ≡ true → d'.held_from ≡ d.held_from)))
unfolding update
update_timing t d s v o r p h = (ground arith, ground arith)

-- A tick at which the limit has passed raises the alarm.
update_due :
    (t : ℕ) (d : DoorContact) (s : Sample)
    → IsValid t d
    → d.is_open ≡ true
    → d.held_reported ≡ false
    → d.held_timing ≡ true
    → 0 < d.held_limit_ms
    → d.held_from + d.held_limit_ms ≤ s.at
    → s.at < u32_mod
    → IsPropped s
    → is_held (update d s.at s.inputs).1 ≡ 1
unfolding update
update_due t d s v o r g l h w p = ground arith

run_timing :
    (t : ℕ) (d : DoorContact) (ss : List Sample) (s : Sample)
    → IsValid t d
    → d.is_open ≡ true
    → d.held_reported ≡ false
    → d.held_timing ≡ true
    → 0 < d.held_limit_ms
    → Ordered t (ss ++ (s ∷ []))
    → All IsPropped (ss ++ (s ∷ []))
    → d.held_from + d.held_limit_ms ≤ s.at
    → s.at < u32_mod
    → count_held (run d (ss ++ (s ∷ []))).1 ≡ 1
unfolding run
run_timing t d [] s v o r g l ord p h w = omega (arith, update_due t d s v o r g l h w p.0)
run_timing t d (x ∷ xs) s v o r g l ord p h w =
    let (o', cases) = update_timing t d x v o r p.0 ord.0 in
    let v' : IsValid x.at (update d x.at x.inputs).0 = update-IsValid t d x.at x.inputs ord.0 v in
    elim cases [
      | inl (r', n) ↦ omega (arith, n, run_reported (update d x.at x.inputs).0 _ o' r' p.1)
      | inr (r', n, g', f, k) ↦ omega (
        arith,
        n,
        run_timing x.at (update d x.at x.inputs).0 xs s v' o' r' g'
            (omega (arith, update-held_limit_ms d x.at x.inputs)) ord.1 p.1
            (omega (arith, k g, update-held_limit_ms d x.at x.inputs)) w,
      )
    ]

-- A door that is open and not yet reported, with a limit set, and that stays open with nothing to
-- excuse it over ticks at times that do not go back and have not wrapped, is reported held
-- open exactly once by the time that the limit has passed since the first of these ticks.
pub held_reported_once :
    (t : ℕ) (d : DoorContact) (x : Sample) (xs : List Sample) (s : Sample)
    → IsValid t d
    → d.is_open ≡ true
    → d.held_reported ≡ false
    → 0 < d.held_limit_ms
    → Ordered t (x ∷ (xs ++ (s ∷ [])))
    → All IsPropped (x ∷ (xs ++ (s ∷ [])))
    → x.at + d.held_limit_ms ≤ s.at
    → s.at < u32_mod
    → count_held (run d (x ∷ (xs ++ (s ∷ [])))).1 ≡ 1
unfolding run
held_reported_once t d x xs s v o r l ord p h w =
    let (o', cases) = update_timing t d x v o r p.0 ord.0 in
    let v' : IsValid x.at (update d x.at x.inputs).0 = update-IsValid t d x.at x.inputs ord.0 v in
    elim cases [
      | inl (r', n) ↦ omega (arith, n, run_reported (update d x.at x.inputs).0 _ o' r' p.1)
      | inr (r', n, g', f, k) ↦ omega (
        arith,
        n,
        run_timing x.at (update d x.at x.inputs).0 xs s v' o' r' g'
            (omega (arith, update-held_limit_ms d x.at x.inputs)) ord.1 p.1
            (omega (arith, f, update-held_limit_ms d x.at x.inputs)) w,
      )
    ]
