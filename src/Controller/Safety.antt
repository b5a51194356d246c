-- ===== src/Controller/Safety.antt =====
-- The reasons for which the relay is energised, and the runs in which there is none.
use rfid_access.Base.{
  Option, none, some, ℕ, ◌≡◌, ◌≢◌, ◌⊎◌, Bool, true, false, List, [], ◌∷◌, arith, add32, All, refl,
  ◌∙◌,
}
use rfid_access.Door.{DoorContact}
use rfid_access.Controller.{
  Controller, AppEvent, Step, take, finish, finish_from, pass, post, Readings, handle, exit_poll,
  schedule_poll, relay_poll, contact_poll, result_poll, tick, take_from, step, run, start,
  EventType, card_tap,
}
use rfid_access.Controller.Hold.{
  contact_poll_frame, result_poll_frame, exit_poll_frame, tick_polls, step-relay_hold_ms,
}

-- An energised relay has a deadline or an open unlock window, and either of them energises it.
pub record IsSafe (c : Controller) : Type 0 where
  pub relay_reason : c.relay ≡ true → (c.sched_active ≡ true) ⊎ (c.relay_off_at ≢ 0)
  pub window_open : c.sched_active ≡ true → c.relay ≡ true
  pub deadline_open : c.relay_off_at ≢ 0 → c.relay ≡ true

-- The deadline that a release at `now` would set does not wrap to 0, which means "none".
abbrev pub HasDeadline : Controller → ℕ → Type 0
HasDeadline c now = add32 now c.relay_hold_ms ≢ 0

pub handle-IsSafe :
    (c : Controller) (now : ℕ) (e : AppEvent) (granted : Bool)
    → HasDeadline c now
    → IsSafe c
    → IsSafe (handle c now e granted)
unfolding handle
handle-IsSafe c now e granted h s = ground arith

exit_poll-IsSafe : (c : Controller) (now : ℕ) (b : Bool) → IsSafe c → IsSafe (exit_poll c now b)
unfolding exit_poll
exit_poll-IsSafe c now b s = ground arith

schedule_poll-IsSafe :
    (c : Controller) (now : ℕ) (b : Bool) → IsSafe c → IsSafe (schedule_poll c now b)
unfolding schedule_poll
schedule_poll-IsSafe c now b s = ground arith

relay_poll-IsSafe : (c : Controller) (now : ℕ) → IsSafe c → IsSafe (relay_poll c now)
unfolding relay_poll
relay_poll-IsSafe c now s = ground arith

contact_poll-IsSafe :
    (c : Controller) (now : ℕ) (b : Bool) → IsSafe c → IsSafe (contact_poll c now b)
unfolding contact_poll
contact_poll-IsSafe c now b s = ground arith

result_poll-IsSafe : (c : Controller) (now : ℕ) → IsSafe c → IsSafe (result_poll c now)
unfolding result_poll
result_poll-IsSafe c now s = ground arith

tick-IsSafe : (c : Controller) (now : ℕ) (r : Readings) → IsSafe c → IsSafe (tick c now r)
tick-IsSafe c now r s = rw (tick_polls c now r) (
    result_poll-IsSafe _ now (
      contact_poll-IsSafe _ now r.contact_open (
        relay_poll-IsSafe _ now
          (schedule_poll-IsSafe _ now r.window_active (exit_poll-IsSafe c now r.exit_pressed s)))))

-- What a step must satisfy: a release sets a deadline.
abbrev pub Timely : ℕ → Step → Type 0
Timely hold (take granted) = Unit {0}
Timely hold (finish now) = add32 now hold ≢ 0
Timely hold (pass now r) = Unit {0}
Timely hold (post e) = Unit {0}

take_from-IsSafe :
    (h : Option (AppEvent × Bool)) (q : List AppEvent) (c : Controller) (granted : Bool)
    → IsSafe c
    → IsSafe (take_from h q c granted)
unfolding take_from
take_from-IsSafe h q c granted s = ground arith

finish_from-IsSafe :
    (h : Option (AppEvent × Bool)) (c : Controller) (now : ℕ)
    → HasDeadline c now
    → IsSafe c
    → IsSafe (finish_from h c now)
unfolding finish_from
finish_from-IsSafe none c now d s = s
finish_from-IsSafe (some (e, granted)) c now d s =
    handle-IsSafe (record c { in_hand = none }) now e granted d
      (record {
        relay_reason = s.relay_reason;
        window_open = s.window_open;
        deadline_open = s.deadline_open;
      })

pub step-IsSafe :
    (c : Controller) (s : Step) → Timely c.relay_hold_ms s → IsSafe c → IsSafe (step c s)
unfolding step
step-IsSafe c (take granted) h v = take_from-IsSafe c.in_hand c.queue c granted v
step-IsSafe c (finish now) h v = finish_from-IsSafe c.in_hand c now h v
step-IsSafe c (pass now r) h v = tick-IsSafe c now r v
step-IsSafe c (post e) h v = record {
  relay_reason = v.relay_reason;
  window_open = v.window_open;
  deadline_open = v.deadline_open;
}

pub run-IsSafe' :
    (c : Controller) (ss : List Step)
    → All (Timely c.relay_hold_ms) ss
    → IsSafe c
    → IsSafe (run c ss)
unfolding run
run-IsSafe' c [] h v = v
run-IsSafe' c (s ∷ ss) h v =
    run-IsSafe' (step c s) ss (rw (step-relay_hold_ms c s) h.1) (step-IsSafe c s h.0 v)

-- After boot and any interleaving of the access task's two parts of an event, passes of the main loop
-- and posted events, as long as the access task does not come back from the buzzer at a time at which
-- a deadline would wrap to 0: an energised relay has a deadline or an open unlock window, and each of
-- them energises it.
pub run-IsSafe :
    (d : DoorContact) (contact oled : Bool) (relay_hold result_hold : ℕ) (ss : List Step)
    → All (Timely relay_hold) ss
    → IsSafe (run (start d contact oled relay_hold result_hold) ss)
unfolding start
run-IsSafe d contact oled relay_hold result_hold ss h =
    run-IsSafe' (start d contact oled relay_hold result_hold) ss h (record {
      relay_reason = λ e. cc;
      window_open = λ e. cc;
      deadline_open = λ n. absurd (n refl);
    })

abbrev pub is_release : EventType → Bool → Bool
is_release card_tap granted = granted
is_release _ granted = true

abbrev pub held_releases : Option (AppEvent × Bool) → Bool
held_releases none = false
held_releases (some (e, granted)) = is_release e.type granted

-- A step that may unlock: a granted tap, an exit request or a remote release is behind the buzzer,
-- or the unlock window is open on a pass of the loop.
abbrev pub unlocks : Controller → Step → Bool
unlocks c (take granted) = false
unlocks c (finish now) = held_releases c.in_hand
unlocks c (pass now r) = r.window_active
unlocks c (post e) = false

abbrev pub NoUnlock : Controller → List Step → Type 0
NoUnlock c [] = Unit {0}
NoUnlock c (s ∷ ss) = (unlocks c s ≡ false) × NoUnlock (step c s) ss

abbrev IsLocked : Controller → Type 0
IsLocked c = (c.relay ≡ false) × (c.sched_active ≡ false)

schedule_poll-IsLocked :
    (c : Controller) (now : ℕ) → IsLocked c → IsLocked (schedule_poll c now false)
unfolding schedule_poll
schedule_poll-IsLocked c now v = (ground arith, ground arith)

relay_poll-IsLocked : (c : Controller) (now : ℕ) → IsLocked c → IsLocked (relay_poll c now)
unfolding relay_poll
relay_poll-IsLocked c now v = (ground arith, ground arith)

tick-IsLocked :
    (c : Controller) (now : ℕ) (r : Readings)
    → r.window_active ≡ false
    → IsLocked c
    → IsLocked (tick c now r)
tick-IsLocked c now r w v =
    let c1 = exit_poll c now r.exit_pressed in
    let (_, e1, e2) = exit_poll_frame c now r.exit_pressed in
    let c2 = schedule_poll c1 now false in
    let v2 : IsLocked c2 = schedule_poll-IsLocked c1 now (e1 ∙ v.0, e2 ∙ v.1) in
    let c3 = relay_poll c2 now in
    let v3 : IsLocked c3 = relay_poll-IsLocked c2 now v2 in
    let c4 = contact_poll c3 now r.contact_open in
    let (_, f1, f2) = contact_poll_frame c3 now r.contact_open in
    let (_, g1, g2) = result_poll_frame c4 now in
    rw (tick_polls c now r, w) (g1 ∙ f1 ∙ v3.0, g2 ∙ f2 ∙ v3.1)

take_from-IsLocked :
    (h : Option (AppEvent × Bool)) (q : List AppEvent) (c : Controller) (granted : Bool)
    → IsLocked c
    → IsLocked (take_from h q c granted)
unfolding take_from
take_from-IsLocked h q c granted v = (ground arith, ground arith)

finish_from-IsLocked :
    (h : Option (AppEvent × Bool)) (c : Controller) (now : ℕ)
    → held_releases h ≡ false
    → IsLocked c
    → IsLocked (finish_from h c now)
unfolding finish_from
finish_from-IsLocked none c now k v = v
finish_from-IsLocked (some (e, granted)) c now k v = (ground arith, ground arith)

step-IsLocked : (c : Controller) (s : Step) → unlocks c s ≡ false → IsLocked c → IsLocked (step c s)
unfolding step
step-IsLocked c (take granted) h v = take_from-IsLocked c.in_hand c.queue c granted v
step-IsLocked c (finish now) h v = finish_from-IsLocked c.in_hand c now h v
step-IsLocked c (pass now r) h v = tick-IsLocked c now r h v
step-IsLocked c (post e) h v = v

run-IsLocked : (c : Controller) (ss : List Step) → NoUnlock c ss → IsLocked c → IsLocked (run c ss)
unfolding run
run-IsLocked c [] h v = v
run-IsLocked c (s ∷ ss) h v = run-IsLocked (step c s) ss h.1 (step-IsLocked c s h.0 v)

-- A door is never released without a cause: from boot, as long as no granted tap, exit request or
-- remote release has been handled and no pass of the loop found the unlock window open, the
-- relay stays off, whatever is posted, denied, pressed or read from the contact.
pub unlock_needs_cause :
    (d : DoorContact) (contact oled : Bool) (relay_hold result_hold : ℕ) (ss : List Step)
    → NoUnlock (start d contact oled relay_hold result_hold) ss
    → (run (start d contact oled relay_hold result_hold) ss).relay ≡ false
unfolding start
unlock_needs_cause d contact oled relay_hold result_hold ss h =
    (run-IsLocked (start d contact oled relay_hold result_hold) ss h (refl, refl)).0
