-- ===== src/Wifi/Tests.antt =====
-- A move to another network that the radio never joins, and instances of the theorems.
use rfid_access.Base.{refl, true, false, [], ◌∷◌, arith}
use rfid_access.Wifi.{WifiManager, Credentials, idle, no_credentials, change_network, pass}
use rfid_access.Wifi.Change.{Moving, run, moves_safely}
use rfid_access.Wifi.Ends.{IsOver, change_ends}

abbrev home : Credentials
home = record { ssid = b'h' ∷ []; pass = b'p' ∷ [] }

abbrev away : Credentials
away = record { ssid = b'a' ∷ []; pass = [] }

abbrev settled : WifiManager
settled = record {
  portal = false;
  force_portal = false;
  setup_ap = false;
  change = idle;
  next = no_credentials;
  old = no_credentials;
  change_started_ms = 0;
  change_pending = false;
  was_connected = true;
  last_check = 0;
  retry_started_ms = 0;
  last_retry_end_ms = 0;
  last_portal_use_ms = 0;
  recovery = false;
  saved = home;
  joining = home;
}

moves_safely_example : Moving home away (
    run
      (change_network settled away).0
      ((1000, false) ∷ (5000, false) ∷ (27000, false) ∷ (28000, true) ∷ []))
moves_safely_example =
    moves_safely settled away 1000 false ((5000, false) ∷ (27000, false) ∷ (28000, true) ∷ []) refl
      refl refl refl refl

change_ends_example :
    IsOver
      (pass
        (run
          (pass
            (run (change_network settled away).0 ((1000, false) ∷ (5000, false) ∷ []))
            27000
            false).0
          ((30000, false) ∷ []))
        60000
        false).0
change_ends_example =
    change_ends settled away 1000 27000 60000 false false false ((5000, false) ∷ [])
      ((30000, false) ∷ []) refl refl refl refl refl (omega arith) (omega arith) (omega arith)
      (omega arith)
