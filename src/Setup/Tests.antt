-- ===== src/Setup/Tests.antt =====
-- Posts of the /setup page to a paired and an unpaired door, and instances of the theorems.
use rfid_access.Base.{◌≡◌, refl, ◌⊎◌, true, false, List, [], ◌∷◌, none, some, arith, Text, eq_text}
use rfid_access.Samples.{host, idle, online, quiet_door}
use rfid_access.Cloud.{trim, is_paired, start}
use rfid_access.Cloud.Pair.{Enrolled, answered}
use rfid_access.Controller.{clamp_relay_hold}
use rfid_access.Setup.{
  Form, Device, Env, save, save_config, save_reader, save_relay, save_result, save_contact,
  clean_host, wifi_text,
}
use rfid_access.Setup.Managed.{Traced, Bounded, save_config-Traced}
use rfid_access.Setup.Paired.{paired_managed}
use rfid_access.Setup.Hosts.{PairedAt, setup_pairs}
use rfid_access.Base.{inl, inr, if◌then◌else◌}
use rfid_access.Cloud.Pair.{no_connection}
use rfid_access.Setup.{https}

-- A key of 16 bytes for any code.
abbrev key : Text
key =
    b'k' ∷ b'k' ∷ b'k' ∷ b'k' ∷ b'k' ∷ b'k' ∷ b'k' ∷ b'k' ∷ b'k' ∷ b'k' ∷ b'k' ∷ b'k' ∷ b'k' ∷ b'k'
    ∷ b'k' ∷ b'k' ∷ []

abbrev backend : Text → Text → Enrolled
backend at code = answered true 200 (some (record { device_key = key; door_name = []; site = [] }))

-- Every number is read as 5000.
abbrev net : Env
net = record {
  joined = b'n' ∷ [];
  connected = true;
  free_heap = 90000;
  to_int = λ t. (false, 5000);
  enroll = backend;
}

abbrev code : Text
code = b'1' ∷ b'2' ∷ b'3' ∷ b'4' ∷ []

-- "https://h2/a "
abbrev pasted : Text
pasted =
    b'h' ∷ b't' ∷ b't' ∷ b'p' ∷ b's' ∷ b':' ∷ b'/' ∷ b'/' ∷ b'h' ∷ b'2' ∷ b'/' ∷ b'a' ∷ b' ' ∷ []

abbrev form : Form
form = record {
  door_name = none;
  site_name = none;
  wifi_ssid = some (b'w' ∷ []);
  wifi_pass = [];
  reader_mode = some (b'1' ∷ []);
  relay_hold_ms = some (b'9' ∷ []);
  result_hold_ms = none;
  door_contact = none;
  door_held_sec = none;
  cloud_host = some pasted;
  pair_code = code;
}

abbrev unit : Device
unit = record {
  door_name = [];
  site_name = [];
  wifi = online;
  config = quiet_door;
  cloud = record idle { device_key = key; paired = true };
}

pasted_cleaned : clean_host pasted ≡ b'h' ∷ b'2' ∷ []
unfolding clean_host trim
pasted_cleaned = refl

hold_changed : (save_config net false quiet_door form).relay_hold_ms ≡ 5000
unfolding save_config save_relay save_result save_contact save_reader clamp_relay_hold
hold_changed = refl

save_config-Traced_example :
    (es : List Text) × Traced quiet_door es (save_config net false quiet_door form)
    × Bounded (save_config net false quiet_door form)
save_config-Traced_example =
    save_config-Traced net false quiet_door form
      (omega arith, omega arith, omega arith, omega arith, omega arith)

paired_managed_example :
    ((save net unit form).config ≡ quiet_door)
    ⊎ ((save net unit form).config
        ≡ record quiet_door { append_calls = wifi_text ∷ quiet_door.append_calls })
unfolding is_paired start
paired_managed_example = paired_managed net unit form refl

-- The backend at h2 takes the code, and no other does.
abbrev only_h2 : Env
only_h2 = record net {
  enroll = λ at code. if eq_text at (b'h' ∷ b'2' ∷ []) then backend at code else no_connection;
}

setup_pairs_example : PairedAt (b'h' ∷ b'2' ∷ []) key host (save only_h2 unit form).cloud
unfolding trim
setup_pairs_example =
    setup_pairs only_h2 unit form [] https (b'h' ∷ b'2' ∷ []) (b'/' ∷ b'a' ∷ b' ' ∷ []) host
      (record { device_key = key; door_name = []; site = [] }) tt (inl refl)
      ((λ h. absurd (omega (arith, h)), refl), ((λ h. absurd (omega (arith, h)), refl), tt)) refl
      (inr (b'a' ∷ b' ' ∷ [], refl)) refl (omega arith, refl, omega arith) (refl, omega arith)
