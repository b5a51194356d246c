-- ===== src/Controller/Tests.antt =====
-- Runs of the controller on concrete events, and instances of its theorems.
use rfid_access.Base.{none, inr, ◌≡◌, refl, ◌≢◌, true, false, List, [], ◌∷◌, arith}
use rfid_access.Controller.Race.{
  Turn, access, loops, turns, at_boot, loop_alone, Locked, turns-Locked,
}
use rfid_access.Door
use rfid_access.Door.{DoorContact, forced}
use rfid_access.Controller.{
  Controller, AppEvent, dark, green_on, Step, take, finish, pass, post, Readings, card_tap, handle,
  tick, run, start, door_inputs, exit_button, sched_on, sched_off, step,
}
use rfid_access.Controller.Safety.{IsSafe, run-IsSafe, unlock_needs_cause}
use rfid_access.Controller.Release.{all_before, release_exact}
use rfid_access.Controller.Contact.{release_not_forced}

abbrev closed_door : DoorContact
closed_door = record {
  is_open = false;
  pending = false;
  pending_since = 0;
  opened_at = 0;
  held_timing = false;
  held_from = 0;
  held_reported = false;
  was_forced = false;
  last_open_ms = 0;
  held_limit_ms = 60000;
}

abbrev booted : Controller
booted = record {
  relay = false;
  relay_off_at = 0;
  relay_hold_ms = 3000;
  result_hold_ms = 4000;
  result_until = 0;
  release_until = 0;
  release_armed = false;
  sched_active = false;
  oled_ok = true;
  panel = dark;
  reader = dark;
  last_exit_ms = 0;
  queue = [];
  in_hand = none;
  contact_on = true;
  door = closed_door;
  sync_asked = false;
  last_sync_ask = 0;
  sync_requests = 0;
  spooled = [];
}

abbrev idle : Readings
idle = record { exit_pressed = false; window_active = false; contact_open = false }

abbrev pressed : Readings
pressed = record { exit_pressed = true; window_active = false; contact_open = false }

abbrev in_window : Readings
in_window = record { exit_pressed = false; window_active = true; contact_open = false }

abbrev fob : AppEvent
fob = record { type = card_tap; uid = b'4' ∷ b'2' ∷ [] }

-- The exit button is pressed and handled; the relay drops on the first pass after three seconds.
abbrev exit_visit : List Step
exit_visit =
    pass 2000 pressed
    ∷ take false
    ∷ pass 2050 idle
    ∷ finish 2090
    ∷ pass 2200 pressed
    ∷ pass 5080 idle
    ∷ pass 5090 idle
    ∷ []

-- While the buzzer sounds, the panel is green and the relay is off.
green_before_relay :
    let c = run booted (pass 2000 pressed ∷ take false ∷ pass 2050 idle ∷ []) in
    (c.panel ≡ green_on) × (c.relay ≡ false)
unfolding run step tick Door.update
green_before_relay = (refl, refl)

exit_visit_ends : (run booted exit_visit).relay ≡ false
unfolding run step tick Door.update
exit_visit_ends = refl

exit_visit_spools : (run booted exit_visit).spooled ≡ exit_button ∷ []
unfolding run step tick Door.update
exit_visit_spools = refl

window_spools :
    (run booted (pass 100 in_window ∷ pass 200 in_window ∷ pass 300 idle ∷ [])).spooled
    ≡ sched_off ∷ sched_on ∷ []
unfolding run step tick Door.update
window_spools = refl

run-IsSafe_example : IsSafe (run (start closed_door true true 3000 4000) exit_visit)
run-IsSafe_example = run-IsSafe closed_door true true 3000 4000 exit_visit (omega arith)

unlock_needs_cause_example :
    (run
      (start closed_door true true 3000 4000)
      (post fob ∷ take false ∷ finish 610 ∷ pass 620 pressed ∷ [])).relay
    ≡ false
unfolding start run step tick Door.update
unlock_needs_cause_example =
    unlock_needs_cause closed_door true true 3000 4000
      (post fob ∷ take false ∷ finish 610 ∷ pass 620 pressed ∷ [])
      (refl, (refl, (refl, (refl, tt))))

abbrev after_tap : List Step
after_tap = pass 1100 idle ∷ post fob ∷ take false ∷ finish 1800 ∷ pass 4000 idle ∷ []

release_exact_example :
    (run (handle booted 1000 fob true) after_tap).relay ≡ all_before 1000 3000 after_tap
unfolding start run step tick Door.update
release_exact_example =
    release_exact booted 1000 fob true after_tap refl refl (omega arith)
      (refl, (refl, (refl, (refl, (refl, tt))))) (omega arith)

release_not_forced_example :
    let c' = run (handle booted 1000 fob true) after_tap in
    ((door_inputs c' 5900 true).released ≡ true)
    × ((Door.update c'.door 5900 (door_inputs c' 5900 true)).1 ≢ forced)
unfolding start run step tick Door.update
release_not_forced_example =
    release_not_forced booted 1000 fob true after_tap 5900 true refl refl (omega arith)
      (refl, (refl, (refl, (refl, (refl, tt))))) (omega arith) (omega arith) (omega arith)

-- A grant whose writes fall between the test of an older deadline and its reset: the relay is off,
-- and the new deadline is gone.
abbrev overtaken : List Turn
overtaken =
    access 100
    ∷ access 100
    ∷ loops 200 false
    ∷ loops 200 false
    ∷ access 5000
    ∷ access 5000
    ∷ loops 200 false
    ∷ loops 200 false
    ∷ []

grant_lost :
    ((turns at_boot overtaken).relay ≡ false) × ((turns at_boot overtaken).relay_off_at ≡ 0)
unfolding turns
grant_lost = (refl, refl)

abbrev one_grant : List Turn
one_grant = access 5000 ∷ loops 200 false ∷ access 5000 ∷ []

turns-Locked_example : Locked (loop_alone 8 (turns at_boot one_grant) 6000)
unfolding turns
turns-Locked_example =
    turns-Locked one_grant 6000 (omega arith, (tt, (omega arith, tt))) refl (inr refl)
