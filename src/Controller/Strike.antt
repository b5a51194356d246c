-- ===== src/Controller/Strike.antt =====
-- The part of the state of main.cpp that a release is about, and what each step does to it.
use rfid_access.Base.{
  Option, none, some, ℕ, ◌≡◌, refl, ◌∙◌, ap, Bool, true, false, not, ◌&&◌, List, arith, add32,
  reached, ◌==◌,
}
use rfid_access.Controller.{
  Controller, AppEvent, take, finish, finish_from, pass, post, Readings, exit_poll, schedule_poll,
  relay_poll, contact_poll, result_poll, tick, take_from, step, door_release_grace_ms,
}
use rfid_access.Controller.Hold.{tick_polls}
use rfid_access.Controller.Safety.{unlocks, held_releases}

-- The part of the state that a release is about.
pub record Strike : Type 0 where
  pub relay : Bool
  pub relay_off_at : ℕ
  pub relay_hold_ms : ℕ
  pub release_until : ℕ
  pub release_armed : Bool
  pub sched_active : Bool

abbrev pub strike : Controller → Strike
strike c = record {
  relay = c.relay;
  relay_off_at = c.relay_off_at;
  relay_hold_ms = c.relay_hold_ms;
  release_until = c.release_until;
  release_armed = c.release_armed;
  sched_active = c.sched_active;
}

exit_poll-strike : (c : Controller) (now : ℕ) (b : Bool) → strike (exit_poll c now b) ≡ strike c
unfolding exit_poll
exit_poll-strike c now b = ground arith

contact_poll-strike :
    (c : Controller) (now : ℕ) (b : Bool) → strike (contact_poll c now b) ≡ strike c
unfolding contact_poll
contact_poll-strike c now b = ground arith

result_poll-strike : (c : Controller) (now : ℕ) → strike (result_poll c now) ≡ strike c
unfolding result_poll
result_poll-strike c now = ground arith

-- With no window open or opening, the schedule's block changes nothing.
schedule_poll-strike :
    (c : Controller) (now : ℕ)
    → (strike c).sched_active ≡ false
    → strike (schedule_poll c now false) ≡ strike c
unfolding schedule_poll
schedule_poll-strike c now h = ground arith

-- What the relay's block does to the strike of a door with no window open.
abbrev pub due : Strike → ℕ → Bool
due s now = not (s.relay_off_at == 0) && reached now s.relay_off_at

abbrev pub after_due : Bool → Strike → Strike
after_due true s = record s { relay_off_at = 0; relay = false }
after_due false s = s

relay_poll-strike :
    (c : Controller) (now : ℕ) (s : Strike)
    → strike c ≡ s
    → s.sched_active ≡ false
    → strike (relay_poll c now) ≡ after_due (due s now) s
unfolding relay_poll
relay_poll-strike c now s e h = ground arith

pub tick-strike :
    (c : Controller) (now : ℕ) (r : Readings)
    → r.window_active ≡ false
    → c.sched_active ≡ false
    → strike (tick c now r) ≡ after_due (due (strike c) now) (strike c)
tick-strike c now r w h =
    let c1 = exit_poll c now r.exit_pressed in
    let e1 = exit_poll-strike c now r.exit_pressed in
    let c2 = schedule_poll c1 now false in
    let e2 : strike c2 ≡ strike c =
      schedule_poll-strike c1 now (ap (λ (s : Strike). s.sched_active) e1 ∙ h) ∙ e1 in
    let c3 = relay_poll c2 now in
    let e3 = relay_poll-strike c2 now (strike c) e2 h in
    let c4 = contact_poll c3 now r.contact_open in
    rw (tick_polls c now r, w)
      (result_poll-strike c4 now ∙ contact_poll-strike c3 now r.contact_open ∙ e3)

take_from-strike :
    (h : Option (AppEvent × Bool)) (q : List AppEvent) (c : Controller) (granted : Bool)
    → strike (take_from h q c granted) ≡ strike c
unfolding take_from
take_from-strike h q c granted = ground arith

pub step-take-strike : (c : Controller) (granted : Bool) → strike (step c (take granted)) ≡ strike c
unfolding step
step-take-strike c granted = take_from-strike c.in_hand c.queue c granted

finish_from-strike :
    (h : Option (AppEvent × Bool)) (c : Controller) (now : ℕ)
    → held_releases h ≡ false
    → strike (finish_from h c now) ≡ strike c
unfolding finish_from
finish_from-strike none c now k = refl
finish_from-strike (some (e, granted)) c now k = ground arith

pub step-strike :
    (c : Controller) (now : ℕ)
    → unlocks c (finish now) ≡ false
    → strike (step c (finish now)) ≡ strike c
unfolding step
step-strike c now h = finish_from-strike c.in_hand c now h

pub step_pass-strike :
    (c : Controller) (now : ℕ) (r : Readings)
    → unlocks c (pass now r) ≡ false
    → c.sched_active ≡ false
    → strike (step c (pass now r)) ≡ after_due (due (strike c) now) (strike c)
unfolding step
step_pass-strike c now r w h = tick-strike c now r w h

pub step-post-strike : (c : Controller) (e : AppEvent) → strike (step c (post e)) ≡ strike c
unfolding step
step-post-strike c e = refl

-- The strike of a release at time `t` that has not ended, and of one that has.
abbrev pub Holding : ℕ → ℕ → Strike → Type 0
Holding t hold s =
    (s.relay ≡ true)
    × (s.sched_active ≡ false)
    × (s.relay_off_at ≡ add32 t hold)
    × (s.release_armed ≡ true)
    × (s.release_until ≡ add32 (add32 t hold) door_release_grace_ms)

abbrev pub Ended : ℕ → ℕ → Strike → Type 0
Ended t hold s =
    (s.relay ≡ false)
    × (s.sched_active ≡ false)
    × (s.relay_off_at ≡ 0)
    × (s.release_armed ≡ true)
    × (s.release_until ≡ add32 (add32 t hold) door_release_grace_ms)
