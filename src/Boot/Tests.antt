-- ===== src/Boot/Tests.antt =====
-- A door whose settings are changed by the cloud and on the page, with restarts between.
use rfid_access.Base.{◌≡◌, true, false, List, [], ◌∷◌, none, some}
use rfid_access.Samples.{quiet_door}
use rfid_access.Cloud.Pair.{no_connection}
use rfid_access.Cloud.Answer.{DoorConfig}
use rfid_access.Setup.{Env, Form}
use rfid_access.Boot.{boot, Change, synced, posted, booted, changes}
use rfid_access.Boot.Survives.{settings_survive}

abbrev pushed : DoorConfig
pushed = record {
  relay_hold_ms = some 6000;
  result_hold_ms = none;
  schedule = some (record { enabled = true; start_min = 480; end_min = 1020; days_mask = 62 });
  door_contact = none;
  door_held_sec = none;
  setup_ap = none;
  reader_wiegand = none;
}

-- Every number is read as 45.
abbrev net : Env
net = record {
  joined = [];
  connected = false;
  free_heap = 0;
  to_int = λ t. (false, 45);
  enroll = λ at code. no_connection;
}

abbrev form : Form
form = record {
  door_name = none;
  site_name = none;
  wifi_ssid = none;
  wifi_pass = [];
  reader_mode = none;
  relay_hold_ms = none;
  result_hold_ms = none;
  door_contact = some (b'1' ∷ []);
  door_held_sec = some (b'4' ∷ b'5' ∷ []);
  cloud_host = none;
  pair_code = [];
}

abbrev history : List Change
history = synced pushed ∷ booted ∷ posted net false form ∷ []

settings_survive_example :
    let now = changes (boot quiet_door) history in
    let later = boot now in
    (later.relay_hold_ms ≡ now.relay_hold_ms)
    × (later.result_hold_ms ≡ now.result_hold_ms)
    × (later.schedule ≡ now.schedule)
    × (later.nv_door_contact ≡ now.nv_door_contact)
    × (later.nv_door_held_sec ≡ now.nv_door_held_sec)
    × (later.reader_wiegand ≡ now.nv_reader_wiegand)
settings_survive_example = settings_survive quiet_door history
