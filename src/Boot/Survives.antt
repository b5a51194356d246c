-- ===== src/Boot/Survives.antt =====
-- What of a door's settings survives a restart.
use rfid_access.Base.{
  ℕ, ◌≡◌, refl, sym, ap, subst, inl, inr, Bool, true, false, List, [], ◌∷◌, Option, none, some,
  if◌then◌else◌, Text,
}
use rfid_access.Schedule
use rfid_access.Schedule.{UnlockSchedule, Prefs}
use rfid_access.Schedule.Stored.{begin-set}
use rfid_access.Controller.{clamp_relay_hold, clamp_result_hold}
use rfid_access.Config.{
  Config, set_relay_hold, set_result_hold, set_schedule, apply_config, set_window, window_differs,
  differs, value_of,
}
use rfid_access.Cloud.Answer.{DoorConfig, Window}
use rfid_access.Setup.{Env, save_reader, save_relay, save_result, save_contact, save_config}
use rfid_access.Setup.Blocks.{
  save_reader-cases, save_relay-cases, save_result-cases, save_contact-cases,
}
use rfid_access.Boot.{boot, Change, synced, posted, booted, change, changes}

-- What is in effect is what NVS holds.
abbrev pub Persisted : Config → Type 0
Persisted c =
    (c.relay_hold_ms ≡ c.nv_relay_hold_ms)
    × (c.result_hold_ms ≡ c.nv_result_hold_ms)
    × (Schedule.begin c.prefs ≡ c.schedule)

relay-Persisted : (c : Config) (o : Option ℕ) → Persisted c → Persisted (set_relay_hold c o).0
unfolding set_relay_hold
relay-Persisted c o (a, b, s) = (
  ap
      (λ v.
        if differs clamp_relay_hold o c.relay_hold_ms
        then value_of clamp_relay_hold o c.relay_hold_ms
        else v)
      a,
  b,
  s,
)

result-Persisted : (c : Config) (o : Option ℕ) → Persisted c → Persisted (set_result_hold c o).0
unfolding set_result_hold
result-Persisted c o (a, b, s) = (
  a,
  ap
      (λ v.
        if differs clamp_result_hold o c.result_hold_ms
        then value_of clamp_result_hold o c.result_hold_ms
        else v)
      b,
  s,
)

set_window-begin :
    (o : Option Window) (u : UnlockSchedule) (p : Prefs)
    → Schedule.begin p ≡ u
    → Schedule.begin (set_window o (u, p)).1 ≡ (set_window o (u, p)).0
set_window-begin none u p h = h
set_window-begin (some w) u p h = (begin-set w.enabled w.start_min w.end_min w.days_mask).0

either :
    (b : Bool) (u v : UnlockSchedule) (p q : Prefs)
    → Schedule.begin p ≡ u
    → Schedule.begin q ≡ v
    → Schedule.begin (if b then p else q) ≡ (if b then u else v)
either true u v p q h k = h
either false u v p q h k = k

schedule-Persisted : (c : Config) (o : Option Window) → Persisted c → Persisted (set_schedule c o).0
unfolding set_schedule
schedule-Persisted c o (a, b, s) =
    let set_to = set_window o (c.schedule, c.prefs) in
    (
      a,
      b,
      either (window_differs o c.schedule) set_to.0 c.schedule set_to.1 c.prefs
          (set_window-begin o c.schedule c.prefs s) s,
    )

apply-Persisted : (c : Config) (d : DoorConfig) → Persisted c → Persisted (apply_config c d)
unfolding apply_config
apply-Persisted c d h =
    let c1 : Config = (set_relay_hold c d.relay_hold_ms).0 in
    let c2 : Config = (set_result_hold c1 d.result_hold_ms).0 in
    schedule-Persisted c2 d.schedule
      (result-Persisted c1 d.result_hold_ms (relay-Persisted c d.relay_hold_ms h))

save_reader-Persisted :
    (p : Bool) (c : Config) (o : Option Text) → Persisted c → Persisted (save_reader p c o)
save_reader-Persisted p c o h = elim (save_reader-cases p c o) [
  | inl s ↦ subst Persisted (sym s) h
  | inr (_, _, _, s) ↦ subst Persisted (sym s) h
]

save_relay-Persisted :
    (e : Env) (p : Bool) (c : Config) (o : Option Text)
    → Persisted c
    → Persisted (save_relay e p c o)
save_relay-Persisted e p c o (a, b, k) = elim (save_relay-cases e p c o) [
  | inl s ↦ subst Persisted (sym s) (a, b, k)
  | inr (_, _, s) ↦ subst Persisted (sym s) (refl, b, k)
]

save_result-Persisted :
    (e : Env) (p : Bool) (c : Config) (o : Option Text)
    → Persisted c
    → Persisted (save_result e p c o)
save_result-Persisted e p c o (a, b, k) = elim (save_result-cases e p c o) [
  | inl s ↦ subst Persisted (sym s) (a, b, k)
  | inr (_, _, s) ↦ subst Persisted (sym s) (a, refl, k)
]

save_contact-Persisted :
    (e : Env) (p : Bool) (c : Config) (o held : Option Text)
    → Persisted c
    → Persisted (save_contact e p c o held)
save_contact-Persisted e p c o held h = elim (save_contact-cases e p c o held) [
  | inl s ↦ subst Persisted (sym s) h
  | inr (_, _, _, _, s) ↦ subst Persisted (sym s) h
]

change-Persisted : (c : Config) (x : Change) → Persisted c → Persisted (change c x)
unfolding change boot save_config
change-Persisted c (synced d) h = apply-Persisted c d h
change-Persisted c booted h = (refl, refl, refl)
change-Persisted c (posted e paired f) h =
    let c1 : Config = save_reader paired c f.reader_mode in
    let c2 : Config = save_relay e paired c1 f.relay_hold_ms in
    let c3 : Config = save_result e paired c2 f.result_hold_ms in
    save_contact-Persisted e paired c3 f.door_contact f.door_held_sec (
      save_result-Persisted e paired c2 f.result_hold_ms (
        save_relay-Persisted e paired c1 f.relay_hold_ms
          (save_reader-Persisted paired c f.reader_mode h)))

changes-Persisted : (c : Config) (xs : List Change) → Persisted c → Persisted (changes c xs)
unfolding changes
changes-Persisted c [] h = h
changes-Persisted c (x ∷ xs) h = changes-Persisted (change c x) xs (change-Persisted c x h)

-- From a boot on, whatever configurations come from the cloud, whatever is posted to /setup, and
-- however often the door restarts in between: the next restart leaves the holds of the strike and of
-- the result, the unlock schedule, the door contact and its limit as they are, and the reader runs
-- with the format that was last set.
pub settings_survive :
    (c : Config) (xs : List Change)
    → let now = changes (boot c) xs in
      let later = boot now in
      (later.relay_hold_ms ≡ now.relay_hold_ms)
      × (later.result_hold_ms ≡ now.result_hold_ms)
      × (later.schedule ≡ now.schedule)
      × (later.nv_door_contact ≡ now.nv_door_contact)
      × (later.nv_door_held_sec ≡ now.nv_door_held_sec)
      × (later.reader_wiegand ≡ now.nv_reader_wiegand)
unfolding boot
settings_survive c xs =
    let (a, b, s) = changes-Persisted (boot c) xs (refl, refl, refl) in
    (sym a, sym b, s, refl, refl, refl)
