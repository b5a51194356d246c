-- ===== src/Controller.antt =====
-- src/main.cpp: the access task and the main loop around the strike relay. The globals are a record,
-- the two parts of the access task's work on an event, before and behind the buzzer, and one pass of
-- loop() are functions on it. One pass reads
-- `millis()` several times; here it is one time `now`. Screens, beeps, log lines and the Wi-Fi
-- manager have no state that these parts read, and are left out.
pub mod Hold
pub mod Safety
pub mod Strike
pub mod Release
pub mod Contact
pub mod Race
mod Tests
use rfid_access.Base.{
  Option, none, some, ℕ, ◌+◌, Bool, true, false, not, ◌&&◌, ◌||◌, List, [], ◌∷◌, ◌++◌, ltb, ◌==◌,
  if◌then◌else◌, length, u32_mod, sub32, add32, reached,
}
use rfid_access.Door
use rfid_access.Door.{DoorContact, Inputs}

-- EventType of lib/Events/Events.h.
pub data EventType : Type 0 where
  card_tap exit_request remote_release : EventType

-- AppEvent: the credential or request id is the text of `card.uid`.
pub record AppEvent : Type 0 where
  pub type : EventType
  pub uid : List ℕ

-- The panel LED and the reader's LEDs, by the call that last set them.
pub data Light : Type 0 where
  dark red_on green_on : Light

-- The calls of eventLog.append that these tasks make.
pub data Spooled : Type 0 where
  tap : Bool → List ℕ → Spooled
  exit_button : Spooled
  remote : List ℕ → Spooled
  sched_on sched_off : Spooled
  door_forced door_held : Spooled
  door_closed : ℕ → Spooled

pub record Controller : Type 0 where
  pub relay : Bool
  pub relay_off_at : ℕ
  pub relay_hold_ms : ℕ
  pub result_hold_ms : ℕ
  pub result_until : ℕ
  pub release_until : ℕ
  pub release_armed : Bool
  pub sched_active : Bool
  pub oled_ok : Bool
  pub panel : Light
  pub reader : Light
  pub last_exit_ms : ℕ
  pub queue : List AppEvent
  pub in_hand : Option (AppEvent × Bool)
  pub contact_on : Bool
  pub door : DoorContact
  pub sync_asked : Bool
  pub last_sync_ask : ℕ
  pub sync_requests : ℕ
  pub spooled : List Spooled

abbrev pub door_release_grace_ms : ℕ
door_release_grace_ms = 2000

abbrev pub door_sync_min_gap_ms : ℕ
door_sync_min_gap_ms = 60000

abbrev pub queue_length : ℕ
queue_length = 10

-- clampRelayHold and clampResultHold.
unfoldable pub clamp_relay_hold : ℕ → ℕ
clamp_relay_hold v = if ltb v 250 then 250 else if ltb 30000 v then 30000 else v

unfoldable pub clamp_result_hold : ℕ → ℕ
clamp_result_hold v = if ltb v 500 then 500 else if ltb 30000 v then 30000 else v

-- xQueueSend with no wait: a full queue drops the event.
unfoldable pub send : List AppEvent → AppEvent → List AppEvent
send q e = if ltb (length q) queue_length then q ++ (e ∷ []) else q

abbrev spool : Controller → Spooled → Controller
spool c e = record c { spooled = e ∷ c.spooled }

-- relayGrantedNonBlocking.
unfoldable pub relay_granted : Controller → ℕ → Controller
relay_granted c now = record c {
  relay = true;
  relay_off_at = add32 now c.relay_hold_ms;
  release_until = add32 (add32 now c.relay_hold_ms) door_release_grace_ms;
  release_armed = true;
}

-- oledShowResult: with no display it returns before it sets the deadline.
unfoldable pub show_result : Controller → ℕ → Controller
show_result c now = if c.oled_ok then record c { result_until = add32 now c.result_hold_ms } else c

-- accessTask handles an event in two parts, between which it waits for the buzzer, 80 ms or more, while
-- loop() goes on. The first part; `granted` is the verdict of acProcessEvent, which has also spooled
-- the tap.
unfoldable pub signal_type : EventType → Controller → Bool → List ℕ → Controller
signal_type exit_request c granted uid = record c { reader = green_on; panel = green_on }
signal_type remote_release c granted uid = record c { reader = green_on; panel = green_on }
signal_type card_tap c granted uid = record (spool c (tap granted uid)) {
  reader = if granted then green_on else red_on;
}

unfoldable pub signal : Controller → AppEvent → Bool → Controller
unfolding signal_type
signal c e granted = signal_type e.type c granted e.uid

-- The part behind the buzzer.
unfoldable pub handle_type : EventType → Controller → ℕ → Bool → List ℕ → Controller
unfolding relay_granted show_result
handle_type exit_request c now granted uid =
    show_result (spool (relay_granted c now) exit_button) now
handle_type remote_release c now granted uid =
    show_result (spool (relay_granted c now) (remote uid)) now
handle_type card_tap c now granted uid =
    show_result
      (if granted
        then record (relay_granted c now) { panel = green_on }
        else record c { panel = red_on })
      now

unfoldable pub handle : Controller → ℕ → AppEvent → Bool → Controller
unfolding handle_type
handle c now e granted = handle_type e.type c now granted e.uid

-- The exit button's block of loop(): `pressed` is the pin reading LOW.
unfoldable pub exit_poll : Controller → ℕ → Bool → Controller
unfolding send
exit_poll c now pressed =
    if pressed && ltb 1500 (sub32 now c.last_exit_ms)
    then record c {
      last_exit_ms = now;
      queue = send c.queue (record { type = exit_request; uid = [] });
    }
    else c

-- The unlock window's block of loop(): `active` is unlockSchedule.isActiveNow().
unfoldable pub schedule_poll : Controller → ℕ → Bool → Controller
schedule_poll c now active =
    if Door.xor_bool active c.sched_active
    then (if active
        then spool
            (record c { sched_active = true; relay = true; panel = green_on; reader = green_on })
            sched_on
        else spool
            (record c {
              sched_active = false;
              relay_off_at = 0;
              release_until = add32 now door_release_grace_ms;
              release_armed = true;
              relay = false;
              panel = dark;
              reader = dark;
            })
            sched_off)
    else c

-- The relay's block of loop(). `dark` is the panel off, and the reader on its idle amber.
unfoldable pub relay_poll : Controller → ℕ → Controller
relay_poll c now =
    if not (c.relay_off_at == 0) && reached now c.relay_off_at
    then (if c.sched_active
        then record c { relay_off_at = 0 }
        else record c { relay_off_at = 0; relay = false; panel = dark; reader = dark })
    else c

-- The inputs that doorContactPoll gives the contact's state machine.
unfoldable pub door_inputs : Controller → ℕ → Bool → Inputs
door_inputs c now raw_open = record {
  raw_open = raw_open;
  released = not (c.relay_off_at == 0) || (c.release_armed && not (reached now c.release_until));
  schedule_open = c.sched_active;
}

-- cloudSync.requestSyncNow() after a forced opening, at most once a minute.
unfoldable pub ask_sync : Controller → ℕ → Controller
ask_sync c now =
    if not c.sync_asked || not (ltb (sub32 now c.last_sync_ask) door_sync_min_gap_ms)
    then record c { sync_asked = true; last_sync_ask = now; sync_requests = c.sync_requests + 1 }
    else c

-- The switch of doorContactPoll.
unfoldable pub on_door : Controller → ℕ → Door.Event → Controller
unfolding ask_sync
on_door c now Door.quiet = c
on_door c now Door.forced = ask_sync (spool c door_forced) now
on_door c now Door.held = spool c door_held
on_door c now Door.held_closed = spool c (door_closed c.door.last_open_ms)

-- doorContactPoll.
unfoldable pub door_poll : Controller → ℕ → Bool → Controller
unfolding door_inputs on_door
door_poll c now raw_open =
    let (d, e) = Door.update c.door now (door_inputs c now raw_open) in
    on_door (record c { door = d }) now e

-- The door contact's line of loop(): it is polled only where one is fitted.
unfoldable pub contact_poll : Controller → ℕ → Bool → Controller
unfolding door_poll
contact_poll c now raw_open = if c.contact_on then door_poll c now raw_open else c

-- The result screen's block of loop().
unfoldable pub result_poll : Controller → ℕ → Controller
result_poll c now =
    if not (c.result_until == 0) && reached now c.result_until
    then (if c.sched_active
        then record c { result_until = 0; panel = green_on; reader = green_on }
        else record c { result_until = 0; panel = dark; reader = dark })
    else c

-- What one pass of loop() reads from outside.
pub record Readings : Type 0 where
  pub exit_pressed : Bool
  pub window_active : Bool
  pub contact_open : Bool

-- loop(), without the reload of the contact's settings and the setup access point.
unfoldable pub tick : Controller → ℕ → Readings → Controller
unfolding exit_poll schedule_poll relay_poll contact_poll result_poll
tick c now r =
    let c1 = exit_poll c now r.exit_pressed in
    let c2 = schedule_poll c1 now r.window_active in
    let c3 = relay_poll c2 now in let c4 = contact_poll c3 now r.contact_open in result_poll c4 now

-- The steps of the two tasks: the access task takes the event at the queue's front, and comes back
-- from the buzzer; one pass of loop(); and an event that another task posts.
pub data Step : Type 0 where
  take : Bool → Step
  finish : ℕ → Step
  pass : ℕ → Readings → Step
  post : AppEvent → Step

-- A task that waits for the buzzer takes no event.
unfoldable pub take_from : Option (AppEvent × Bool) → List AppEvent → Controller → Bool → Controller
unfolding signal
take_from (some held) q c granted = c
take_from none [] c granted = c
take_from none (e ∷ es) c granted =
    signal (record c { queue = es; in_hand = some (e, granted) }) e granted

unfoldable pub finish_from : Option (AppEvent × Bool) → Controller → ℕ → Controller
unfolding handle
finish_from none c now = c
finish_from (some (e, granted)) c now = handle (record c { in_hand = none }) now e granted

unfoldable pub step : Controller → Step → Controller
unfolding take_from finish_from tick
step c (take granted) = take_from c.in_hand c.queue c granted
step c (finish now) = finish_from c.in_hand c now
step c (pass now r) = tick c now r
step c (post e) = record c { queue = send c.queue e }

unfoldable pub run : Controller → List Step → Controller
run c [] = c
run c (s ∷ ss) = run (step c s) ss

-- After setup(): the relay is driven LOW first.
unfoldable pub start : DoorContact → Bool → Bool → ℕ → ℕ → Controller
start d contact oled relay_hold result_hold = record {
  relay = false;
  relay_off_at = 0;
  relay_hold_ms = relay_hold;
  result_hold_ms = result_hold;
  result_until = 0;
  release_until = 0;
  release_armed = false;
  sched_active = false;
  oled_ok = oled;
  panel = dark;
  reader = dark;
  last_exit_ms = 0;
  queue = [];
  in_hand = none;
  contact_on = contact;
  door = d;
  sync_asked = false;
  last_sync_ask = 0;
  sync_requests = 0;
  spooled = [];
}
