-- ===== src/Setup/Blocks.antt =====
-- What each block of the /setup handler changes.
use rfid_access.Base.{
  ℕ, ◌≤◌, ◌≡◌, refl, ◌⊎◌, inl, inr, Bool, true, false, not, ◌&&◌, ◌||◌, ◌∷◌, Option, none, some,
  arith, ◌==◌, if_then, if_else, Text, eq_text, Bool-cases,
}
use rfid_access.Controller.{clamp_relay_hold, clamp_result_hold}
use rfid_access.Config.{Config, same_bool, reader_text}
use rfid_access.Setup.{
  Env, save_reader, save_relay, save_result, save_contact, relay_text, contact_text, one, is_one,
  is_given, held_of, at_least_zero,
}

-- Each block leaves the settings as they are, or changes its own.
pub save_reader-cases :
    (p : Bool) (c : Config) (o : Option Text)
    → (save_reader p c o ≡ c)
      ⊎ ((now : Bool) × (pending : Bool) × (p ≡ false)
          × (save_reader p c o ≡ record c {
            nv_reader_wiegand = now;
            append_calls = reader_text now ∷ c.append_calls;
            reader_reboot_pending = pending;
          }))
unfolding save_reader
save_reader-cases p c none = inl refl
save_reader-cases true c (some arg) = inl refl
save_reader-cases false c (some arg) =
    let now : Bool = eq_text arg one in
    let new : Config = record c {
      nv_reader_wiegand = now;
      append_calls = reader_text now ∷ c.append_calls;
      reader_reboot_pending = not (same_bool now c.reader_wiegand);
    } in
    elim (Bool-cases (same_bool now c.nv_reader_wiegand)) [
      | inl s ↦ inl (if_then (same_bool now c.nv_reader_wiegand) c new s)
      | inr d ↦ inr (
        now,
        not (same_bool now c.reader_wiegand),
        refl,
        if_else (same_bool now c.nv_reader_wiegand) c new d,
      )
    ]

pub save_relay-cases :
    (e : Env) (p : Bool) (c : Config) (o : Option Text)
    → (save_relay e p c o ≡ c)
      ⊎ ((n : ℕ) × (p ≡ false)
          × (save_relay e p c o ≡ record c {
            relay_hold_ms = clamp_relay_hold n;
            nv_relay_hold_ms = clamp_relay_hold n;
            append_calls = relay_text (clamp_relay_hold n) ∷ c.append_calls;
          }))
unfolding save_relay
save_relay-cases e p c none = inl refl
save_relay-cases e true c (some arg) = inl refl
save_relay-cases e false c (some arg) =
    let n : ℕ = at_least_zero (e.to_int arg) in
    let v : ℕ = clamp_relay_hold n in
    let new : Config = record c {
      relay_hold_ms = v;
      nv_relay_hold_ms = v;
      append_calls = relay_text v ∷ c.append_calls;
    } in
    elim (Bool-cases (v == c.relay_hold_ms)) [
      | inl s ↦ inl (if_then (v == c.relay_hold_ms) c new s)
      | inr d ↦ inr (n, refl, if_else (v == c.relay_hold_ms) c new d)
    ]

pub save_result-cases :
    (e : Env) (p : Bool) (c : Config) (o : Option Text)
    → (save_result e p c o ≡ c)
      ⊎ ((n : ℕ) × (p ≡ false)
          × (save_result e p c o ≡ record c {
            result_hold_ms = clamp_result_hold n;
            nv_result_hold_ms = clamp_result_hold n;
          }))
unfolding save_result
save_result-cases e p c none = inl refl
save_result-cases e true c (some arg) = inl refl
save_result-cases e false c (some arg) =
    let n : ℕ = at_least_zero (e.to_int arg) in
    let v : ℕ = clamp_result_hold n in
    let new : Config = record c { result_hold_ms = v; nv_result_hold_ms = v } in
    elim (Bool-cases (v == c.result_hold_ms)) [
      | inl s ↦ inl (if_then (v == c.result_hold_ms) c new s)
      | inr d ↦ inr (n, refl, if_else (v == c.result_hold_ms) c new d)
    ]

held_of_bound : (e : Env) (o : Option Text) (n : ℕ) → held_of e o n ≤ 3600
held_of_bound e none n = ground arith
held_of_bound e (some arg) n = ground arith

pub save_contact-cases :
    (e : Env) (p : Bool) (c : Config) (o h : Option Text)
    → (save_contact e p c o h ≡ c)
      ⊎ ((on : Bool) × (held : ℕ) × (p ≡ false)
          × (held ≤ 3600)
          × (save_contact e p c o h ≡ record c {
            nv_door_contact = on;
            nv_door_held_sec = held;
            append_calls = contact_text on held ∷ c.append_calls;
            door_reload = true;
          }))
unfolding save_contact
save_contact-cases e true c o h = inl refl
save_contact-cases e false c o h =
    let on : Bool = is_one o c.nv_door_contact in
    let held : ℕ = held_of e h c.nv_door_held_sec in
    let stay : Bool =
      not (is_given o || is_given h)
      || (same_bool on c.nv_door_contact && (held == c.nv_door_held_sec)) in
    let new : Config = record c {
      nv_door_contact = on;
      nv_door_held_sec = held;
      append_calls = contact_text on held ∷ c.append_calls;
      door_reload = true;
    } in
    elim (Bool-cases stay) [
      | inl s ↦ inl (if_then stay c new s)
      | inr d ↦ inr (on, held, refl, held_of_bound e h c.nv_door_held_sec, if_else stay c new d)
    ]
