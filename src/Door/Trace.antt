-- ===== src/Door/Trace.antt =====
-- The invariant of the door state over any run, and the debounce over a run.
use rfid_access.Base.{
  ℕ, ◌+◌, ◌≤◌, ◌<◌, ◌≡◌, refl, ◌∙◌, Bool, true, false, List, [], ◌∷◌, ◌++◌, arith, u32_mod, All,
}
use rfid_access.Door.{Inputs, DoorContact, Sample, debounce_ms, begin, update, run}

-- What holds of the state at time `now`: an alarm, a forced mark and a running clock exist only
-- while the door is open, an alarm only with a limit, and the recorded times are not in the future.
pub record IsValid (now : ℕ) (d : DoorContact) : Type 0 where
  pub reported_open : d.held_reported ≡ true → d.is_open ≡ true
  pub forced_open : d.was_forced ≡ true → d.is_open ≡ true
  pub timing_open : d.held_timing ≡ true → d.is_open ≡ true
  pub reported_limit : d.held_reported ≡ true → 0 < d.held_limit_ms
  pub held_from_past : d.held_from ≤ now
  pub opened_at_past : d.opened_at ≤ now

-- The times of the samples do not go back.
abbrev pub Ordered : ℕ → List Sample → Type 0
Ordered t [] = Unit {0}
Ordered t (s ∷ ss) = (t ≤ s.at) × Ordered s.at ss

abbrev pub last_at : ℕ → List Sample → ℕ
last_at t [] = t
last_at t (s ∷ ss) = last_at s.at ss

pub begin-IsValid :
    (d : DoorContact) (now : ℕ) (raw : Bool) (limit : ℕ) → IsValid now (begin d now raw limit)
unfolding begin
begin-IsValid d now raw limit = ground arith

pub update-IsValid :
    (t : ℕ) (d : DoorContact) (now : ℕ) (i : Inputs)
    → t ≤ now
    → IsValid t d
    → IsValid now (update d now i).0
unfolding update
update-IsValid t d now i h v = ground arith

pub update-held_limit_ms :
    (d : DoorContact) (now : ℕ) (i : Inputs) → (update d now i).0.held_limit_ms ≡ d.held_limit_ms
unfolding update
update-held_limit_ms d now i = ground arith

pub run-held_limit_ms :
    (d : DoorContact) (ss : List Sample) → (run d ss).0.held_limit_ms ≡ d.held_limit_ms
unfolding run
run-held_limit_ms d [] = refl
run-held_limit_ms d (s ∷ ss) =
    ground
      (arith, run-held_limit_ms (update d s.at s.inputs).0 ss, update-held_limit_ms d s.at s.inputs)

pub run-IsValid' :
    (t : ℕ) (d : DoorContact) (ss : List Sample)
    → Ordered t ss
    → IsValid t d
    → IsValid (last_at t ss) (run d ss).0
unfolding run
run-IsValid' t d [] o v = v
run-IsValid' t d (s ∷ ss) o v =
    run-IsValid' s.at (update d s.at s.inputs).0 ss o.1 (update-IsValid t d s.at s.inputs o.0 v)

-- After `begin` and any calls of `update` at times that do not go back: an alarm, a forced mark
-- and a running clock exist only while the door is open, an alarm only if a limit is set, and the
-- recorded times are not in the future.
pub run-IsValid :
    (d : DoorContact) (t : ℕ) (raw : Bool) (limit : ℕ) (ss : List Sample)
    → Ordered t ss
    → IsValid (last_at t ss) (run (begin d t raw limit) ss).0
run-IsValid d t raw limit ss o = run-IsValid' t _ ss o (begin-IsValid d t raw limit)

-- A run over two lists, one after the other.
pub run-append :
    (d : DoorContact) (xs ys : List Sample) → (run d (xs ++ ys)).0 ≡ (run (run d xs).0 ys).0
unfolding run
run-append d [] ys = refl
run-append d (x ∷ xs) ys = run-append (update d x.at x.inputs).0 xs ys

step_bounce :
    (t : ℕ) (d : DoorContact) (now : ℕ) (i : Inputs)
    → (d.pending ≡ true → t ≤ d.pending_since)
    → t ≤ now
    → now < t + debounce_ms
    → now < u32_mod
    → d.pending_since ≤ now
    → ((update d now i).0.is_open ≡ d.is_open)
      × ((update d now i).0.pending ≡ true → t ≤ (update d now i).0.pending_since)
      × ((update d now i).0.pending_since ≤ now)
unfolding update
step_bounce t d now i h a b c e = (ground arith, ground arith, ground arith)

run_bounce :
    (t u : ℕ) (d : DoorContact) (ss : List Sample)
    → (d.pending ≡ true → t ≤ d.pending_since)
    → d.pending_since ≤ u
    → t ≤ u
    → Ordered u ss
    → All (λ s. s.at < t + debounce_ms) ss
    → t + debounce_ms ≤ u32_mod
    → (run d ss).0.is_open ≡ d.is_open
unfolding run
run_bounce t u d [] h k l o a m = refl
run_bounce t u d (s ∷ ss) h k l o a m =
    let (same, since, past) =
      step_bounce t d s.at s.inputs h (omega arith) a.0 (omega arith) (omega arith) in
    run_bounce t s.at (update d s.at s.inputs).0 ss since past (omega arith) o.1 a.1 m ∙ same

-- Contact chatter: from a state with no change pending, whatever the readings of a burst of ticks
-- shorter than 150 ms (with no wrap of the clock inside it), the debounced position stays.
pub bounce_ignored :
    (t : ℕ) (d : DoorContact) (ss : List Sample)
    → d.pending ≡ false
    → d.pending_since ≤ t
    → Ordered t ss
    → All (λ s. s.at < t + debounce_ms) ss
    → t + debounce_ms ≤ u32_mod
    → (run d ss).0.is_open ≡ d.is_open
bounce_ignored t d ss idle past o a m = run_bounce t t d ss (λ p. cc) past (omega arith) o a m
