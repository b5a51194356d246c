-- ===== src/Controller/Hold.antt =====
-- One pass of loop() as the chain of its blocks, and the blocks that leave the hold time alone.
use rfid_access.Base.{Option, ℕ, ◌≡◌, Bool, List, arith, refl, ◌∙◌}
use rfid_access.Controller.{
  Controller, AppEvent, Step, take, finish, finish_from, pass, post, Readings, exit_poll,
  schedule_poll, relay_poll, contact_poll, result_poll, tick, take_from, step,
}

pub tick_polls :
    (c : Controller) (now : ℕ) (r : Readings)
    → tick c now r
      ≡ result_poll
          (contact_poll
            (relay_poll (schedule_poll (exit_poll c now r.exit_pressed) now r.window_active) now)
            now
            r.contact_open)
          now
unfolding tick
tick_polls c now r = refl

-- What the blocks of loop() leave alone.
pub exit_poll_frame :
    (c : Controller) (now : ℕ) (b : Bool)
    → ((exit_poll c now b).relay_hold_ms ≡ c.relay_hold_ms)
      × ((exit_poll c now b).relay ≡ c.relay)
      × ((exit_poll c now b).sched_active ≡ c.sched_active)
unfolding exit_poll
exit_poll_frame c now b = ground arith

schedule_poll_frame :
    (c : Controller) (now : ℕ) (b : Bool) → (schedule_poll c now b).relay_hold_ms ≡ c.relay_hold_ms
unfolding schedule_poll
schedule_poll_frame c now b = ground arith

relay_poll_frame : (c : Controller) (now : ℕ) → (relay_poll c now).relay_hold_ms ≡ c.relay_hold_ms
unfolding relay_poll
relay_poll_frame c now = ground arith

pub contact_poll_frame :
    (c : Controller) (now : ℕ) (b : Bool)
    → ((contact_poll c now b).relay_hold_ms ≡ c.relay_hold_ms)
      × ((contact_poll c now b).relay ≡ c.relay)
      × ((contact_poll c now b).sched_active ≡ c.sched_active)
unfolding contact_poll
contact_poll_frame c now b = ground arith

pub result_poll_frame :
    (c : Controller) (now : ℕ)
    → ((result_poll c now).relay_hold_ms ≡ c.relay_hold_ms)
      × ((result_poll c now).relay ≡ c.relay)
      × ((result_poll c now).sched_active ≡ c.sched_active)
unfolding result_poll
result_poll_frame c now = ground arith

tick-relay_hold_ms :
    (c : Controller) (now : ℕ) (r : Readings) → (tick c now r).relay_hold_ms ≡ c.relay_hold_ms
tick-relay_hold_ms c now r =
    let c1 = exit_poll c now r.exit_pressed in
    let c2 = schedule_poll c1 now r.window_active in
    let c3 = relay_poll c2 now in
    let c4 = contact_poll c3 now r.contact_open in
    rw (tick_polls c now r) (
      (result_poll_frame c4 now).0
      ∙ (contact_poll_frame c3 now r.contact_open).0
      ∙ relay_poll_frame c2 now
      ∙ schedule_poll_frame c1 now r.window_active
      ∙ (exit_poll_frame c now r.exit_pressed).0)

take_from-relay_hold_ms :
    (h : Option (AppEvent × Bool)) (q : List AppEvent) (c : Controller) (granted : Bool)
    → (take_from h q c granted).relay_hold_ms ≡ c.relay_hold_ms
unfolding take_from
take_from-relay_hold_ms h q c granted = ground arith

finish_from-relay_hold_ms :
    (h : Option (AppEvent × Bool)) (c : Controller) (now : ℕ)
    → (finish_from h c now).relay_hold_ms ≡ c.relay_hold_ms
unfolding finish_from
finish_from-relay_hold_ms h c now = ground arith

pub step-relay_hold_ms : (c : Controller) (s : Step) → (step c s).relay_hold_ms ≡ c.relay_hold_ms
unfolding step
step-relay_hold_ms c (take granted) = take_from-relay_hold_ms c.in_hand c.queue c granted
step-relay_hold_ms c (finish now) = finish_from-relay_hold_ms c.in_hand c now
step-relay_hold_ms c (pass now r) = tick-relay_hold_ms c now r
step-relay_hold_ms c (post e) = refl
