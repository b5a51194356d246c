-- ===== src/Setup/Unedited.antt =====
-- The /setup page as it shows the settings of a door that is not paired, and a post of it with nothing
-- edited. 49 is the digit one.
use rfid_access.Base.{
  ℕ, ◌≤◌, ◌<◌, ◌≡◌, refl, Bool, true, false, ◌&&◌, [], ◌∷◌, none, some, arith, ◌==◌, if◌then◌else◌,
  Text, eq_text,
}
use rfid_access.Reader.{number_text}
use rfid_access.Controller.{clamp_relay_hold, clamp_result_hold}
use rfid_access.Config.{Config, same_bool, at_most_an_hour}
use rfid_access.Setup.{
  Form, Env, one, save_reader, save_relay, save_result, save_contact, save_config,
}
use rfid_access.Setup.Managed.{Bounded}

-- The value of the option that a select has selected.
abbrev pub selected : Bool → Text
selected on = (if on then b'1' else b'0') ∷ []

-- The settings as the page shows them and a browser posts them; nothing else is filled in.
unfoldable pub page_form : Config → Form
page_form c = record {
  door_name = none;
  site_name = none;
  wifi_ssid = some [];
  wifi_pass = [];
  reader_mode = some (selected c.nv_reader_wiegand);
  relay_hold_ms = some (number_text c.relay_hold_ms);
  result_hold_ms = some (number_text c.result_hold_ms);
  door_contact = some (selected c.nv_door_contact);
  door_held_sec = some (number_text c.nv_door_held_sec);
  cloud_host = none;
  pair_code = [];
}

-- String::toInt reads decimal digits back, up to the largest `long`.
abbrev pub ReadsDecimal : (Text → Bool × ℕ) → Type 0
ReadsDecimal to_int = (n : ℕ) → n < 2147483648 → to_int (number_text n) ≡ (false, n)

selected_same : (b : Bool) → same_bool (eq_text (selected b) one) b ≡ true
selected_same true = refl
selected_same false = refl

reader_same : (c : Config) → save_reader false c (some (selected c.nv_reader_wiegand)) ≡ c
unfolding save_reader
reader_same c = rw (selected_same c.nv_reader_wiegand) refl

clamp_relay_same : (n : ℕ) → 250 ≤ n → n ≤ 30000 → (clamp_relay_hold n == n) ≡ true
unfolding clamp_relay_hold
clamp_relay_same n h k = ground arith

clamp_result_same : (n : ℕ) → 500 ≤ n → n ≤ 30000 → (clamp_result_hold n == n) ≡ true
unfolding clamp_result_hold
clamp_result_same n h k = ground arith

hour_same : (n : ℕ) → n ≤ 3600 → (at_most_an_hour n == n) ≡ true
hour_same n h = ground arith

same_and : (a b : Bool) → a ≡ true → b ≡ true → (a && b) ≡ true
same_and a b h k = ground arith

relay_same :
    (e : Env) (c : Config)
    → ReadsDecimal e.to_int
    → 250 ≤ c.relay_hold_ms
    → c.relay_hold_ms ≤ 30000
    → save_relay e false c (some (number_text c.relay_hold_ms)) ≡ c
unfolding save_relay
relay_same e c r h k =
    rw (r c.relay_hold_ms (omega arith), clamp_relay_same c.relay_hold_ms h k) refl

result_same :
    (e : Env) (c : Config)
    → ReadsDecimal e.to_int
    → 500 ≤ c.result_hold_ms
    → c.result_hold_ms ≤ 30000
    → save_result e false c (some (number_text c.result_hold_ms)) ≡ c
unfolding save_result
result_same e c r h k =
    rw (r c.result_hold_ms (omega arith), clamp_result_same c.result_hold_ms h k) refl

contact_same :
    (e : Env) (c : Config)
    → ReadsDecimal e.to_int
    → c.nv_door_held_sec ≤ 3600
    → save_contact e false c
        (some (selected c.nv_door_contact))
        (some (number_text c.nv_door_held_sec))
      ≡ c
unfolding save_contact
contact_same e c r h =
    rw
      (
        r c.nv_door_held_sec (omega arith),
        same_and (same_bool (eq_text (selected c.nv_door_contact) one) c.nv_door_contact)
            (at_most_an_hour c.nv_door_held_sec == c.nv_door_held_sec)
            (selected_same c.nv_door_contact) (hour_same c.nv_door_held_sec h),
      )
      refl

-- Saving the page of an unpaired door with nothing edited changes no setting and calls append for none, if
-- the times are within their bounds and String::toInt reads decimal digits back.
pub unedited_saved :
    (e : Env) (c : Config)
    → ReadsDecimal e.to_int
    → Bounded c
    → save_config e false c (page_form c) ≡ c
unfolding save_config page_form
unedited_saved e c r (a, b, x, y, h) =
    rw (reader_same c, relay_same e c r a b, result_same e c r x y) (contact_same e c r h)
