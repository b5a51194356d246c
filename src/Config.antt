-- ===== src/Config.antt =====
-- src/main.cpp: the configuration that arrives with every sync (the handler of cloudSync's
-- configuration, on a board with a door contact), and the reader's task in front of the queue of
-- events. The settings store is bound; a key that was never written reads as its default.
pub mod Applied
pub mod Repeats
pub mod SetupAp
mod Tests
use rfid_access.Base.{
  ℕ, ◌-◌, Bool, true, false, not, ◌&&◌, ◌||◌, List, [], ◌∷◌, ◌++◌, Option, none, some, ltb, leb,
  ◌==◌, if◌then◌else◌, take, Text, eq_text, sub32,
}
use rfid_access.Schedule.{UnlockSchedule, Prefs, set}
use rfid_access.Controller.{clamp_relay_hold, clamp_result_hold}
use rfid_access.Cloud.Answer.{DoorConfig, Window}

-- What is in effect, what NVS holds, and the calls of eventLog.append that were made: their texts,
-- the last one first. The source ignores what append answers; whether an event then stands in the
-- spool, or a full spool loses its oldest, is the matter of Spool. A reader's format is whether it is
-- Wiegand; `reader_mode` is the one attached at boot.
pub record Config : Type 0 where
  pub relay_hold_ms : ℕ
  pub nv_relay_hold_ms : ℕ
  pub result_hold_ms : ℕ
  pub nv_result_hold_ms : ℕ
  pub schedule : UnlockSchedule
  pub prefs : Prefs
  pub nv_door_contact : Bool
  pub nv_door_held_sec : ℕ
  pub door_reload : Bool
  pub nv_setup_ap_req : Bool
  pub nv_setup_ap : Bool
  pub nv_reader_wiegand : Bool
  pub reader_wiegand : Bool
  pub reader_reboot_pending : Bool
  pub append_calls : List Text

abbrev pub same_bool : Bool → Bool → Bool
same_bool true b = b
same_bool false b = not b

-- A value of the configuration that is given and, made fit by `f`, is not the current one; and the
-- value that is in effect behind that test.
abbrev pub differs : (ℕ → ℕ) → Option ℕ → ℕ → Bool
differs f none current = false
differs f (some v) current = not (f v == current)

abbrev pub value_of : (ℕ → ℕ) → Option ℕ → ℕ → ℕ
value_of f none current = current
value_of f (some v) current = f v

abbrev pub flips : Option Bool → Bool → Bool
flips none current = false
flips (some b) current = not (same_bool b current)

abbrev pub flag_of : Option Bool → Bool → Bool
flag_of none current = current
flag_of (some b) current = b

abbrev pub window_differs : Option Window → UnlockSchedule → Bool
window_differs none u = false
window_differs (some w) u =
    not (same_bool w.enabled u.is_enabled)
    || not (w.start_min == u.start_min)
    || not (w.end_min == u.end_min)
    || not (w.days_mask == u.days_mask)

abbrev pub set_window : Option Window → UnlockSchedule × Prefs → UnlockSchedule × Prefs
set_window none current = current
set_window (some w) current = set w.enabled w.start_min w.end_min w.days_mask

abbrev pub at_most_an_hour : ℕ → ℕ
at_most_an_hour sec = if ltb 3600 sec then 3600 else sec

-- Each block of the handler: the state, and whether it changed something.
unfoldable pub set_relay_hold : Config → Option ℕ → Config × Bool
set_relay_hold s o =
    let changed = differs clamp_relay_hold o s.relay_hold_ms in
    let v = value_of clamp_relay_hold o s.relay_hold_ms in
    (
      record s {
        relay_hold_ms = if changed then v else s.relay_hold_ms;
        nv_relay_hold_ms = if changed then v else s.nv_relay_hold_ms;
      },
      changed,
    )

unfoldable pub set_result_hold : Config → Option ℕ → Config × Bool
set_result_hold s o =
    let changed = differs clamp_result_hold o s.result_hold_ms in
    let v = value_of clamp_result_hold o s.result_hold_ms in
    (
      record s {
        result_hold_ms = if changed then v else s.result_hold_ms;
        nv_result_hold_ms = if changed then v else s.nv_result_hold_ms;
      },
      changed,
    )

unfoldable pub set_schedule : Config → Option Window → Config × Bool
set_schedule s o =
    let changed = window_differs o s.schedule in
    let (u, p) = set_window o (s.schedule, s.prefs) in
    (
      record s {
        schedule = if changed then u else s.schedule;
        prefs = if changed then p else s.prefs;
      },
      changed,
    )

unfoldable pub set_door_contact : Config → Option Bool → Config × Bool
set_door_contact s o =
    let changed = flips o s.nv_door_contact in
    (
      record s {
        nv_door_contact = if changed then flag_of o s.nv_door_contact else s.nv_door_contact;
        door_reload = if changed then true else s.door_reload;
      },
      changed,
    )

unfoldable pub set_door_held : Config → Option ℕ → Config × Bool
set_door_held s o =
    let changed = differs at_most_an_hour o s.nv_door_held_sec in
    let v = value_of at_most_an_hour o s.nv_door_held_sec in
    (
      record s {
        nv_door_held_sec = if changed then v else s.nv_door_held_sec;
        door_reload = if changed then true else s.door_reload;
      },
      changed,
    )

unfoldable pub set_setup_ap : Config → Option Bool → Config × Bool
set_setup_ap s o =
    let changed = flips o s.nv_setup_ap_req in
    (
      record s {
        nv_setup_ap_req = if changed then flag_of o s.nv_setup_ap_req else s.nv_setup_ap_req;
        nv_setup_ap = if changed then flag_of o s.nv_setup_ap_req else s.nv_setup_ap;
      },
      changed,
    )

abbrev pub pending_of : Option Bool → Bool → Bool → Bool
pending_of none attached current = current
pending_of (some want) attached current = not (same_bool want attached)

-- "reader=wiegand", "reader=cnd" and "cloud".
abbrev pub reader_text : Bool → Text
reader_text wiegand =
    b'r'
    ∷ b'e'
    ∷ b'a'
    ∷ b'd'
    ∷ b'e'
    ∷ b'r'
    ∷ b'='
    ∷ (if wiegand
        then b'w' ∷ b'i' ∷ b'e' ∷ b'g' ∷ b'a' ∷ b'n' ∷ b'd' ∷ []
        else b'c' ∷ b'n' ∷ b'd' ∷ [])

abbrev pub cloud_text : Text
cloud_text = b'c' ∷ b'l' ∷ b'o' ∷ b'u' ∷ b'd' ∷ []

unfoldable pub set_reader : Config → Option Bool → Config
set_reader s o =
    let changed = flips o s.nv_reader_wiegand in
    let want = flag_of o s.nv_reader_wiegand in
    record s {
      nv_reader_wiegand = if changed then want else s.nv_reader_wiegand;
      append_calls = if changed then reader_text want ∷ s.append_calls else s.append_calls;
      reader_reboot_pending = pending_of o s.reader_wiegand s.reader_reboot_pending;
    }

-- The handler.
unfoldable pub apply_config : Config → DoorConfig → Config
unfolding set_relay_hold set_result_hold set_schedule set_door_contact set_door_held set_setup_ap
    set_reader
apply_config s c =
    let (s1, b1) = set_relay_hold s c.relay_hold_ms in
    let (s2, b2) = set_result_hold s1 c.result_hold_ms in
    let (s3, b3) = set_schedule s2 c.schedule in
    let (s4, b4) = set_door_contact s3 c.door_contact in
    let (s5, b5) = set_door_held s4 c.door_held_sec in
    let (s6, b6) = set_setup_ap s5 c.setup_ap in
    let s7 = set_reader s6 c.reader_wiegand in
    let changed = b1 || b2 || b3 || b4 || b5 || b6 in
    record s7 { append_calls = if changed then cloud_text ∷ s7.append_calls else s7.append_calls }

-- readerTask: the last credential that went on, and when.
pub record ReaderTask : Type 0 where
  pub last_cred : Text
  pub last_cred_ms : ℕ

abbrev pub repeat_ms : ℕ
repeat_ms = 1500

-- A credential that was read: the state, and whether it goes to the queue.
unfoldable pub on_credential : ReaderTask → Text → ℕ → ReaderTask × Bool
on_credential r number now =
    if eq_text number r.last_cred && ltb (sub32 now r.last_cred_ms) repeat_ms
    then (r, false)
    else (record { last_cred = number; last_cred_ms = now }, true)
