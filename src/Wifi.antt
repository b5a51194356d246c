-- ===== src/Wifi.antt =====
-- lib/WiFiManager/WiFiManager.h and WiFiManager.cpp: the saved network, the portal's retry of it, and
-- the move to another network. The radio is what WiFi.status() answers at a pass, and the name that
-- WiFi.begin was last given; the web server of the portal, DNS, mDNS and NTP are left out.
pub mod Change
pub mod Ends
pub mod Portal
mod Tests
use rfid_access.Base.{
  ℕ, ◌+◌, ◌-◌, Bool, true, false, not, ◌&&◌, ◌||◌, List, [], ◌∷◌, ltb, leb, ◌==◌, if◌then◌else◌,
  Text, is_empty, sub32,
}

abbrev pub retry_interval_ms : ℕ
retry_interval_ms = 60000

abbrev pub retry_window_ms : ℕ
retry_window_ms = 15000

abbrev pub portal_in_use_ms : ℕ
portal_in_use_ms = 180000

abbrev pub change_try_ms : ℕ
change_try_ms = 25000

abbrev pub change_revert_ms : ℕ
change_revert_ms = 25000

pub data ChangeState : Type 0 where
  idle trying reverting done failed : ChangeState

-- A network's name and password.
pub record Credentials : Type 0 where
  pub ssid : Text
  pub pass : Text

abbrev pub no_credentials : Credentials
no_credentials = record { ssid = []; pass = [] }

-- The fields of the class; `portal` is STATE_AP, `saved` what NVS holds, `joining` the last argument of
-- WiFi.begin, and `recovery` the mark that survives a restart.
pub record WifiManager : Type 0 where
  pub portal : Bool
  pub force_portal : Bool
  pub setup_ap : Bool
  pub change : ChangeState
  pub next : Credentials
  pub old : Credentials
  pub change_started_ms : ℕ
  pub change_pending : Bool
  pub was_connected : Bool
  pub last_check : ℕ
  pub retry_started_ms : ℕ
  pub last_retry_end_ms : ℕ
  pub last_portal_use_ms : ℕ
  pub recovery : Bool
  pub saved : Credentials
  pub joining : Credentials

unfoldable pub save_credentials : WifiManager → Credentials → WifiManager
save_credentials w c = record w { saved = c }

-- loadCredentials into the old credentials of a change.
abbrev pub loaded : Credentials → Credentials
loaded c = if is_empty c.ssid then no_credentials else c

-- begin: `joined` is whether the saved network was joined in time.
unfoldable pub begin : WifiManager → Bool → WifiManager
begin w joined =
    let w' = record w { recovery = false } in
    if w.force_portal
    then record w' { portal = true }
    else if is_empty w.saved.ssid
    then record w' { portal = true }
    else if joined
    then record w' { portal = false; was_connected = true; joining = w.saved }
    else record w' { portal = true; joining = w.saved }

-- How long begin waits for the saved network.
unfoldable pub connect_timeout : WifiManager → ℕ → ℕ
connect_timeout w timeout = if w.recovery && ltb timeout 60000 then 60000 else timeout

-- retrySavedNetwork; the Boolean is the restart.
unfoldable pub retry_saved_network : WifiManager → ℕ → Bool → WifiManager × Bool
retry_saved_network w now connected =
    if w.force_portal
    then (w, false)
    else if connected
    then (record w { recovery = true }, true)
    else if not (w.retry_started_ms == 0)
    then (if ltb (sub32 now w.retry_started_ms) retry_window_ms
        then (w, false)
        else (record w { retry_started_ms = 0; last_retry_end_ms = now }, false))
    else if ltb (sub32 now w.last_retry_end_ms) retry_interval_ms
    then (w, false)
    else if not (w.last_portal_use_ms == 0) && ltb (sub32 now w.last_portal_use_ms) portal_in_use_ms
    then (w, false)
    else if is_empty w.saved.ssid
    then (w, false)
    else (record w { retry_started_ms = if now == 0 then 1 else now; joining = w.saved }, false)

-- The two cases of driveNetworkChange in which something happens.
unfoldable pub drive_trying : WifiManager → ℕ → Bool → WifiManager
unfolding save_credentials
drive_trying w now connected =
    if connected
    then save_credentials (record w { change = done; was_connected = true }) w.next
    else if ltb (sub32 now w.change_started_ms) change_try_ms
    then w
    else record (save_credentials w w.old) {
      joining = w.old;
      change_started_ms = now;
      change = reverting;
    }

unfoldable pub drive_reverting : WifiManager → ℕ → Bool → WifiManager
drive_reverting w now connected =
    if connected
    then record w { change = failed; was_connected = true }
    else if ltb (sub32 now w.change_started_ms) change_revert_ms
    then w
    else record w { change = failed }

-- changeNetwork.
abbrev pub is_running : ChangeState → Bool
is_running idle = false
is_running trying = true
is_running reverting = true
is_running done = false
is_running failed = false

unfoldable pub change_network : WifiManager → Credentials → WifiManager × Bool
change_network w c =
    if is_empty c.ssid
    then (w, false)
    else if w.change_pending || is_running w.change
    then (w, false)
    else (record w { next = c; change_pending = true }, true)

unfoldable pub open_setup_ap : WifiManager → WifiManager
open_setup_ap w = if w.setup_ap || w.portal then w else record w { setup_ap = true }

unfoldable pub close_setup_ap : WifiManager → WifiManager
close_setup_ap w = record w { setup_ap = false }

-- The block of loop() that starts a requested change.
unfoldable pub start_change : WifiManager → ℕ → WifiManager
start_change w now =
    if w.change_pending
    then record w {
      change_pending = false;
      old = loaded w.saved;
      joining = w.next;
      change_started_ms = now;
      change = trying;
      was_connected = false;
    }
    else w

-- The reconnect supervision of loop().
unfoldable pub supervise : WifiManager → ℕ → Bool → WifiManager
supervise w now connected =
    let w' = record w { last_check = now } in
    if ltb (sub32 now w.last_check) 5000
    then w
    else if connected && not w.was_connected
    then record w' { was_connected = true }
    else if not connected && w.was_connected
    then record w' {
      was_connected = false;
      joining = if is_empty w.saved.ssid then w.joining else w.saved;
    }
    else w'

-- loop() behind the start of a change.
unfoldable pub drive : ChangeState → WifiManager → ℕ → Bool → WifiManager
unfolding drive_trying drive_reverting supervise
drive trying w now connected = drive_trying w now connected
drive reverting w now connected = drive_reverting w now connected
drive idle w now connected = supervise w now connected
drive done w now connected = supervise w now connected
drive failed w now connected = supervise w now connected

-- loop().
unfoldable pub pass : WifiManager → ℕ → Bool → WifiManager × Bool
unfolding retry_saved_network start_change drive
pass w now connected =
    let w' = start_change w now in
    if w.portal
    then retry_saved_network w now connected
    else (drive w'.change w' now connected, false)
