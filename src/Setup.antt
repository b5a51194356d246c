-- ===== src/Setup.antt =====
-- src/main.cpp: the handler that saves what the /setup page posts, on a board with a door contact.
-- It stands over the configuration, the cloud synchronisation and the Wi-Fi manager. What
-- String::toInt makes of a text, its sign and its size, is the argument `to_int`.
pub mod Blocks
pub mod Managed
pub mod Paired
pub mod Hosts
pub mod Unedited
mod Tests
use rfid_access.Base.{
  ℕ, Bool, true, false, not, ◌&&◌, ◌||◌, List, [], ◌∷◌, ◌++◌, Option, none, some, ltb, ◌==◌,
  if◌then◌else◌, Text, eq_text, is_empty, behind,
}
use rfid_access.Reader.{number_text}
use rfid_access.Controller.{clamp_relay_hold, clamp_result_hold}
use rfid_access.Config.{Config, same_bool, reader_text, at_most_an_hour}
use rfid_access.Wifi.{WifiManager, change_network}
use rfid_access.Cloud.{CloudSync, trim, set_host, is_paired}
use rfid_access.Cloud.Pair.{Enrolled, Pairing, pair}

-- The arguments of the request; one that is read without a test of its presence is empty where it
-- is missing.
pub record Form : Type 0 where
  pub door_name : Option Text
  pub site_name : Option Text
  pub wifi_ssid : Option Text
  pub wifi_pass : Text
  pub reader_mode : Option Text
  pub relay_hold_ms : Option Text
  pub result_hold_ms : Option Text
  pub door_contact : Option Text
  pub door_held_sec : Option Text
  pub cloud_host : Option Text
  pub pair_code : Text

pub record Device : Type 0 where
  pub door_name : Text
  pub site_name : Text
  pub wifi : WifiManager
  pub config : Config
  pub cloud : CloudSync

-- What the network and the library answer meanwhile; `joined` is the name of the network.
pub record Env : Type 0 where
  pub joined : Text
  pub connected : Bool
  pub free_heap : ℕ
  pub to_int : Text → Bool × ℕ
  pub enroll : Text → Text → Enrolled

abbrev pub or_else : Option Text → Text → Text
or_else none t = t
or_else (some u) t = u

abbrev pub wifi_text : Text
wifi_text = b'w' ∷ b'i' ∷ b'f' ∷ b'i' ∷ []

-- The move to another network: the manager, and whether it took the request.
unfoldable pub ask_wifi : Env → WifiManager → Option Text → Text → WifiManager × Bool
ask_wifi e w none pass = (w, false)
ask_wifi e w (some arg) pass =
    let ssid = trim arg in
    if not (is_empty ssid) && not (eq_text ssid e.joined)
    then change_network w (record { ssid = ssid; pass = pass })
    else (w, false)

abbrev pub note_event : Config → Bool → Text → Config
note_event c noted text = record c {
  append_calls = if noted then text ∷ c.append_calls else c.append_calls;
}

abbrev pub one : Text
one = b'1' ∷ []

-- The blocks that a paired door does not enter.
unfoldable pub save_reader : Bool → Config → Option Text → Config
save_reader paired c none = c
save_reader paired c (some arg) =
    let now = eq_text arg one in
    if paired || same_bool now c.nv_reader_wiegand then c else record c {
      nv_reader_wiegand = now;
      append_calls = reader_text now ∷ c.append_calls;
      reader_reboot_pending = not (same_bool now c.reader_wiegand);
    }

-- max(0L, toInt()).
abbrev pub at_least_zero : Bool × ℕ → ℕ
at_least_zero (negative, n) = if negative then 0 else n

-- "relay=%lums".
abbrev pub relay_text : ℕ → Text
relay_text v = b'r' ∷ b'e' ∷ b'l' ∷ b'a' ∷ b'y' ∷ b'=' ∷ (number_text v ++ (b'm' ∷ b's' ∷ []))

unfoldable pub save_relay : Env → Bool → Config → Option Text → Config
save_relay e paired c none = c
save_relay e paired c (some arg) =
    let v = clamp_relay_hold (at_least_zero (e.to_int arg)) in
    if paired || (v == c.relay_hold_ms) then c else record c {
      relay_hold_ms = v;
      nv_relay_hold_ms = v;
      append_calls = relay_text v ∷ c.append_calls;
    }

unfoldable pub save_result : Env → Bool → Config → Option Text → Config
save_result e paired c none = c
save_result e paired c (some arg) =
    let v = clamp_result_hold (at_least_zero (e.to_int arg)) in
    if paired || (v == c.result_hold_ms)
    then c
    else record c { result_hold_ms = v; nv_result_hold_ms = v }

-- "contact=%d,%lds".
abbrev pub contact_text : Bool → ℕ → Text
contact_text on held =
    b'c'
    ∷ b'o'
    ∷ b'n'
    ∷ b't'
    ∷ b'a'
    ∷ b'c'
    ∷ b't'
    ∷ b'='
    ∷ (if on then b'1' else b'0')
    ∷ b','
    ∷ (number_text held ++ (b's' ∷ []))

abbrev pub is_one : Option Text → Bool → Bool
is_one none current = current
is_one (some arg) current = eq_text arg one

abbrev pub held_of : Env → Option Text → ℕ → ℕ
held_of e none current = at_most_an_hour current
held_of e (some arg) current = at_most_an_hour (at_least_zero (e.to_int arg))

abbrev pub is_given : Option Text → Bool
is_given none = false
is_given (some arg) = true

unfoldable pub save_contact : Env → Bool → Config → Option Text → Option Text → Config
save_contact e paired c contact held_sec =
    let on = is_one contact c.nv_door_contact in
    let held = held_of e held_sec c.nv_door_held_sec in
    let given = is_given contact || is_given held_sec in
    let same = same_bool on c.nv_door_contact && (held == c.nv_door_held_sec) in
    if paired || not given || same then c else record c {
      nv_door_contact = on;
      nv_door_held_sec = held;
      append_calls = contact_text on held ∷ c.append_calls;
      door_reload = true;
    }

-- The settings of the door, behind the request for another network.
unfoldable pub save_config : Env → Bool → Config → Form → Config
unfolding save_reader save_relay save_result save_contact
save_config e paired c f =
    let c1 = save_reader paired c f.reader_mode in
    let c2 = save_relay e paired c1 f.relay_hold_ms in
    let c3 = save_result e paired c2 f.result_hold_ms in
    save_contact e paired c3 f.door_contact f.door_held_sec

-- "https://" and "http://".
abbrev pub https : Text
https = b'h' ∷ b't' ∷ b't' ∷ b'p' ∷ b's' ∷ b':' ∷ b'/' ∷ b'/' ∷ []

abbrev pub http : Text
http = b'h' ∷ b't' ∷ b't' ∷ b'p' ∷ b':' ∷ b'/' ∷ b'/' ∷ []

abbrev pub before_slash : Text → Text
before_slash [] = []
before_slash (c ∷ cs) = let rest = before_slash cs in if c == b'/' then [] else c ∷ rest

unfoldable pub clean_host : Text → Text
clean_host arg =
    let h = trim arg in before_slash (or_else (behind https h) (or_else (behind http h) h))

unfoldable pub save_host : CloudSync → Option Text → CloudSync
unfolding clean_host
save_host c none = c
save_host c (some arg) = let h = clean_host arg in if is_empty h then c else (set_host c h).0

-- The code comes last; names that the backend gives replace the door's.
unfoldable pub save_pairing : Env → Device → Text → Device
save_pairing e d arg =
    let code = trim arg in
    let p = pair e.enroll d.cloud code e.connected e.free_heap in
    if is_empty code then d else record d {
      cloud = p.cloud;
      door_name = or_else p.door_name d.door_name;
      site_name = or_else p.site_name d.site_name;
    }

-- The handler.
unfoldable pub save : Env → Device → Form → Device
unfolding ask_wifi save_config save_host save_pairing
save e d f =
    let (wifi, taken) = ask_wifi e d.wifi f.wifi_ssid f.wifi_pass in
    let config = save_config e (is_paired d.cloud) (note_event d.config taken wifi_text) f in
    save_pairing e
      (record {
        door_name = or_else f.door_name d.door_name;
        site_name = or_else f.site_name d.site_name;
        wifi = wifi;
        config = config;
        cloud = save_host d.cloud f.cloud_host;
      })
      f.pair_code
