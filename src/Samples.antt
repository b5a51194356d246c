-- ===== src/Samples.antt =====
-- Data that the tests of several modules share: a door with no cards and an empty spool, its
-- settings, its network, and a configuration from the cloud.
use rfid_access.Base.{true, false, [], ◌∷◌, none, some, Text}
use rfid_access.Ring.{fresh}
use rfid_access.Roster.{Roster}
use rfid_access.Spool.{EventLog, Event}
use rfid_access.Access.{Access, log_size}
use rfid_access.Access.Decision.{no_tap}
use rfid_access.Cloud.{CloudSync, Stored, start}
use rfid_access.Cloud.Answer.{DoorConfig, Window}
use rfid_access.Config.{Config}
use rfid_access.Wifi.{WifiManager}
use rfid_access.Wifi

abbrev pub blank : Roster
blank = record { entries = []; rev = 0; salt = 7; persistent = true; allocated = true }

abbrev pub log : EventLog
log = record {
  file = none;
  boot_id = 1;
  next_idx = 0;
  total = 0;
  acked = 0;
  overflow = false;
  ready = true;
  nv_boot_id = 1;
  nv_acked = 0;
}

abbrev pub door : Access
door = record { roster = blank; spool = log; taps = fresh log_size no_tap; last_unknown_uid = [] }

abbrev pub host : Text
host = b'h' ∷ []

abbrev pub nv : Stored
nv = record { host = host; device_key = b'k' ∷ []; restart_id = []; release_id = b'z' ∷ [] }

abbrev pub idle : CloudSync
idle = start nv door

abbrev pub quiet_door : Config
quiet_door = record {
  relay_hold_ms = 4000;
  nv_relay_hold_ms = 4000;
  result_hold_ms = 3000;
  nv_result_hold_ms = 3000;
  schedule = record { is_enabled = false; start_min = 0; end_min = 0; days_mask = 0 };
  prefs = record { en = none; start = none; stop = none; days = none };
  nv_door_contact = false;
  nv_door_held_sec = 30;
  door_reload = false;
  nv_setup_ap_req = false;
  nv_setup_ap = false;
  nv_reader_wiegand = false;
  reader_wiegand = false;
  reader_reboot_pending = false;
  append_calls = [];
}

abbrev pub online : WifiManager
online = record {
  portal = false;
  force_portal = false;
  setup_ap = false;
  change = Wifi.idle;
  next = Wifi.no_credentials;
  old = Wifi.no_credentials;
  change_started_ms = 0;
  change_pending = false;
  was_connected = true;
  last_check = 0;
  retry_started_ms = 0;
  last_retry_end_ms = 0;
  last_portal_use_ms = 0;
  recovery = false;
  saved = Wifi.no_credentials;
  joining = Wifi.no_credentials;
}

abbrev pub tap : Event
tap = record {
  type = 1;
  reason = 1;
  granted = true;
  credential = b'1' ∷ b'7' ∷ [];
  uptime_ms = 5000;
  now = 1800000000;
}

abbrev office_hours : Window
office_hours = record { enabled = true; start_min = 480; end_min = 1020; days_mask = 62 }

abbrev pub wanted : DoorConfig
wanted = record {
  relay_hold_ms = some 90000;
  result_hold_ms = none;
  schedule = some office_hours;
  door_contact = some true;
  door_held_sec = some 7200;
  setup_ap = none;
  reader_wiegand = some true;
}
