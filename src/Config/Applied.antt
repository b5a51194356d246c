-- ===== src/Config/Applied.antt =====
-- What a configuration does when it arrives once and when it arrives again.
use rfid_access.Base.{
  ℕ, zero, suc, ◌+◌, length, Bool-cases, ◌%◌, ◌≤◌, ◌<◌, ◌≡◌, refl, ap, ◌∙◌, inl, inr, min, Bool,
  true, false, ◌∷◌, Option, none, some, arith, ◌==◌, if◌then◌else◌,
}
use rfid_access.Schedule.{UnlockSchedule, Prefs, set}
use rfid_access.Controller.{clamp_relay_hold, clamp_result_hold}
use rfid_access.Cloud.Answer.{DoorConfig, Window}
use rfid_access.Config.{
  Config, differs, value_of, flips, flag_of, window_differs, set_window, at_most_an_hour,
  apply_config, cloud_text,
}

-- What was made fit is in effect from then on, and does not differ again.
settled :
    (f : ℕ → ℕ) (o : Option ℕ) (current : ℕ)
    → differs f o (if differs f o current then value_of f o current else current) ≡ false
settled f none current = refl
settled f (some v) current = ground arith

flag_settled :
    (o : Option Bool) (current : Bool)
    → flips o (if flips o current then flag_of o current else current) ≡ false
flag_settled none current = refl
flag_settled (some true) true = refl
flag_settled (some true) false = refl
flag_settled (some false) true = refl
flag_settled (some false) false = refl

-- The minutes are within a day and the days within a week.
abbrev pub InRange : Option Window → Type 0
InRange none = Unit {0}
InRange (some w) = (w.start_min ≤ 1439) × (w.end_min ≤ 1439) × (w.days_mask ≤ 127)

relay_bounds :
    (o : Option ℕ) (v : ℕ)
    → (250 ≤ v) × (v ≤ 30000)
    → let t = if differs clamp_relay_hold o v then value_of clamp_relay_hold o v else v in
      (250 ≤ t) × (t ≤ 30000)
unfolding clamp_relay_hold
relay_bounds none v h = h
relay_bounds (some x) v h = ground arith

result_bounds :
    (o : Option ℕ) (v : ℕ)
    → (500 ≤ v) × (v ≤ 30000)
    → let t = if differs clamp_result_hold o v then value_of clamp_result_hold o v else v in
      (500 ≤ t) × (t ≤ 30000)
unfolding clamp_result_hold
result_bounds none v h = h
result_bounds (some x) v h = ground arith

held_bounds :
    (o : Option ℕ) (v : ℕ)
    → v ≤ 3600
    → (if differs at_most_an_hour o v then value_of at_most_an_hour o v else v) ≤ 3600
held_bounds none v h = h
held_bounds (some x) v h = ground arith

-- A window in range is set as it was given.
window_kept :
    (w : Window) (p : UnlockSchedule × Prefs)
    → InRange (some w)
    → window_differs (some w) (set_window (some w) p).0 ≡ false
unfolding set
window_kept w p (a, b, c) =
    let ea : min w.start_min 1439 ≡ w.start_min = omega arith in
    let eb : min w.end_min 1439 ≡ w.end_min = omega arith in
    let ec : w.days_mask % 128 ≡ w.days_mask = omega arith in ground arith

window_settled :
    (o : Option Window) (s : Config)
    → InRange o
    → window_differs o
        (if window_differs o s.schedule then (set_window o (s.schedule, s.prefs)).0 else s.schedule)
      ≡ false
window_settled none s h = refl
window_settled (some w) s h = elim (Bool-cases (window_differs (some w) s.schedule)) [
  | inl e ↦
      ap
        (λ (b : Bool).
          window_differs (some w)
            (if b then (set_window (some w) (s.schedule, s.prefs)).0 else s.schedule))
        e
      ∙ window_kept w (s.schedule, s.prefs) h
  | inr e ↦
      ap
        (λ (b : Bool).
          window_differs (some w)
            (if b then (set_window (some w) (s.schedule, s.prefs)).0 else s.schedule))
        e
      ∙ e
]

-- A configuration whose unlock window has its minutes within a day and its days within a week is
-- applied once: when the same one arrives again, eventLog.append is not called, and the holds, the schedule,
-- the door contact, its limit and the reader's format stay as the first one left them.
pub applied_once :
    (s : Config) (c : DoorConfig)
    → InRange c.schedule
    → let once = apply_config s c in
      let twice = apply_config once c in
      (twice.append_calls ≡ once.append_calls)
      × (twice.relay_hold_ms ≡ once.relay_hold_ms)
      × (twice.result_hold_ms ≡ once.result_hold_ms)
      × (twice.schedule ≡ once.schedule)
      × (twice.nv_door_contact ≡ once.nv_door_contact)
      × (twice.nv_door_held_sec ≡ once.nv_door_held_sec)
      × (twice.nv_reader_wiegand ≡ once.nv_reader_wiegand)
unfolding apply_config
applied_once s c h =
    rw
      (
        settled clamp_relay_hold c.relay_hold_ms s.relay_hold_ms,
        settled clamp_result_hold c.result_hold_ms s.result_hold_ms,
        window_settled c.schedule s h,
        flag_settled c.door_contact s.nv_door_contact,
        settled at_most_an_hour c.door_held_sec s.nv_door_held_sec,
        flag_settled c.setup_ap s.nv_setup_ap_req,
        flag_settled c.reader_wiegand s.nv_reader_wiegand,
      )
      (refl, refl, refl, refl, refl, refl, refl)

-- Only an unlock window.
abbrev pub only_window : Window → DoorConfig
only_window w = record {
  relay_hold_ms = none;
  result_hold_ms = none;
  schedule = some w;
  door_contact = none;
  door_held_sec = none;
  setup_ap = none;
  reader_wiegand = none;
}

abbrev pub Within : UnlockSchedule → Type 0
Within u = (u.start_min ≤ 1439) × (u.end_min ≤ 1439) × (u.days_mask ≤ 127)

-- The same configuration, `n` times.
unfoldable pub apply_times : ℕ → Config → DoorConfig → Config
apply_times zero s c = s
apply_times (suc n) s c = apply_times n (apply_config s c) c

-- The start of the window is past the last minute of the day.
once_more :
    (s : Config) (w : Window)
    → Within s.schedule
    → 1439 < w.start_min
    → ((apply_config s (only_window w)).append_calls ≡ cloud_text ∷ s.append_calls)
      × Within (apply_config s (only_window w)).schedule
unfolding apply_config set
once_more s w (a, b, d) h =
    let other : (w.start_min == s.schedule.start_min) ≡ false = ground arith in
    let changed : window_differs (some w) s.schedule ≡ true = ground arith in
    rw changed (refl, (omega arith, omega arith, omega arith))

-- A window that starts past the last minute of the day is stored as the last minute, and so is never
-- found applied: the same configuration calls eventLog.append each time it arrives.
pub never_applied :
    (n : ℕ) (s : Config) (w : Window)
    → Within s.schedule
    → 1439 < w.start_min
    → length (apply_times n s (only_window w)).append_calls ≡ n + length s.append_calls
unfolding apply_times
never_applied zero s w u h = omega arith
never_applied (suc n) s w u h =
    let (e, v) = once_more s w u h in
    never_applied n (apply_config s (only_window w)) w v h ∙ omega (arith, ap length e)

-- The time that a configuration holds the strike is between a quarter of a second and 30 s, the
-- result between half a second and 30 s, and the limit of an open door an hour at most, if they
-- were so before.
pub config_bounds :
    (s : Config) (c : DoorConfig)
    → (250 ≤ s.relay_hold_ms) × (s.relay_hold_ms ≤ 30000)
    → (500 ≤ s.result_hold_ms) × (s.result_hold_ms ≤ 30000)
    → s.nv_door_held_sec ≤ 3600
    → let t = apply_config s c in
      ((250 ≤ t.relay_hold_ms) × (t.relay_hold_ms ≤ 30000))
      × ((500 ≤ t.result_hold_ms) × (t.result_hold_ms ≤ 30000))
      × (t.nv_door_held_sec ≤ 3600)
unfolding apply_config clamp_relay_hold clamp_result_hold
config_bounds s c a b h = (
  relay_bounds c.relay_hold_ms s.relay_hold_ms a,
  result_bounds c.result_hold_ms s.result_hold_ms b,
  held_bounds c.door_held_sec s.nv_door_held_sec h,
)
