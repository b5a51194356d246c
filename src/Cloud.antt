-- ===== src/Cloud.antt =====
-- lib/CloudSync/CloudSync.h and CloudSync.cpp: the state of the cloud synchronisation and its small
-- operations. The settings store is bound, and its keys "cloudHost", "deviceKey", "restartId" and
-- "releaseId" are the record Stored. The messages of log and status are left out, and so are the
-- reported texts; HTTP, TLS and JSON stand behind arguments.
pub mod Feed
pub mod Once
pub mod Answer
pub mod Sync
pub mod Gates
pub mod Offer
pub mod Kept
pub mod Failed
pub mod Firmware
pub mod Image
pub mod Task
pub mod Restart
pub mod Backoff
pub mod Hosts
pub mod Pair
pub mod Batch
pub mod Delivery
pub mod Request
mod Tests
use rfid_access.Base.{
  ℕ, ◌+◌, ◌-◌, ◌/◌, Bool, true, false, not, ◌&&◌, ◌||◌, List, [], ◌∷◌, ltb, leb, ◌==◌,
  if◌then◌else◌, Text, eq_text, is_empty, sub32, add32,
}
use rfid_access.Access.{Access}

abbrev pub stale_after_ms : ℕ
stale_after_ms = 21600000

-- What NVS holds of the class; a key that was never written reads as the empty default.
pub record Stored : Type 0 where
  pub host : Text
  pub device_key : Text
  pub restart_id : Text
  pub release_id : Text

-- An offer that the task is to download.
pub record Pending : Type 0 where
  pub version : Text
  pub url : Text
  pub sha : Text

pub record CloudSync : Type 0 where
  pub host : Text
  pub device_key : Text
  pub paired : Bool
  pub ever_synced : Bool
  pub failures : ℕ
  pub last_success_ms : ℕ
  pub events_sent : ℕ
  pub roster_rev : ℕ
  pub restart_id : Text
  pub pending_restart_id : Text
  pub release_id : Text
  pub lapsed_release_id : Text
  pub feed_url : Text
  pub feed_etag : Text
  pub feed_failures : ℕ
  pub feed_open : Bool
  pub srv_epoch : ℕ
  pub srv_at_ms : ℕ
  pub pending_fw : Pending
  pub sync_now : Bool
  pub next_attempt_at_ms : ℕ
  pub current_wait_ms : ℕ
  pub stored : Stored
  pub access : Access

abbrev pub no_fw : Pending
no_fw = record { version = []; url = []; sha = [] }

-- The initial values of the fields, with what survives a restart: NVS, the roster and the spool.
unfoldable pub start : Stored → Access → CloudSync
start nv a = record {
  host = [];
  device_key = [];
  paired = false;
  ever_synced = false;
  failures = 0;
  last_success_ms = 0;
  events_sent = 0;
  roster_rev = 0;
  restart_id = [];
  pending_restart_id = [];
  release_id = [];
  lapsed_release_id = [];
  feed_url = [];
  feed_etag = [];
  feed_failures = 0;
  feed_open = false;
  srv_epoch = 0;
  srv_at_ms = 0;
  pending_fw = no_fw;
  sync_now = false;
  next_attempt_at_ms = 0;
  current_wait_ms = 0;
  stored = nv;
  access = a;
}

-- begin. A host that was never stored is the default one.
unfoldable pub begin : CloudSync → Text → CloudSync
begin c default_host = record c {
  host = if is_empty c.stored.host then default_host else c.stored.host;
  device_key = c.stored.device_key;
  restart_id = c.stored.restart_id;
  release_id = c.stored.release_id;
  paired = not (is_empty c.stored.device_key);
}

-- String::trim: the blanks at both ends; isspace of the C locale.
abbrev pub is_space : ℕ → Bool
is_space ch = (ch == 32) || (leb 9 ch && leb ch 13)

abbrev pub trim_left : Text → Text
trim_left [] = []
trim_left (ch ∷ cs) = let rest = trim_left cs in if is_space ch then rest else ch ∷ cs

abbrev pub trim_right : Text → Text
trim_right [] = []
trim_right (ch ∷ cs) =
    let rest = trim_right cs in if is_empty rest && is_space ch then [] else ch ∷ rest

unfoldable pub trim : Text → Text
trim t = trim_right (trim_left t)

-- setHost: whether the host changed.
unfoldable pub set_host : CloudSync → Text → CloudSync × Bool
set_host c text =
    let h = trim text in
    let changed = not (eq_text h c.host) in
    let c' = record c { host = h; stored = record c.stored { host = h } } in
    if is_empty h
    then (c, false)
    else if changed && not (is_empty c.device_key)
    then (
      record c' {
        device_key = [];
        stored = record c'.stored { device_key = [] };
        paired = false;
        ever_synced = false;
      },
      changed,
    )
    else (c', changed)

unfoldable pub is_paired : CloudSync → Bool
is_paired c = not (is_empty c.device_key)

unfoldable pub request_sync_now : CloudSync → CloudSync
request_sync_now c = record c { sync_now = true }

unfoldable pub unpair : CloudSync → CloudSync
unpair c = record c {
  device_key = [];
  paired = false;
  stored = record c.stored { device_key = [] };
}

-- The times of status().
pub record Status : Type 0 where
  pub backoff_secs : ℕ
  pub next_attempt_secs : ℕ
  pub secs_since_success : ℕ
  pub stale : Bool

unfoldable pub status : CloudSync → ℕ → Status
status c now = record {
  backoff_secs = c.current_wait_ms / 1000;
  next_attempt_secs =
      if ltb now c.next_attempt_at_ms then (c.next_attempt_at_ms - now) / 1000 else 0;
  secs_since_success =
      if not (c.last_success_ms == 0) then sub32 now c.last_success_ms / 1000 else 0;
  stale =
      if not (c.last_success_ms == 0)
      then ltb stale_after_ms (sub32 now c.last_success_ms)
      else c.paired && ltb stale_after_ms now;
}

-- bootEpoch: `now` is time() and `ms` millis().
unfoldable pub boot_epoch : ℕ → ℕ → ℕ
boot_epoch now ms = if ltb now 1700000000 then 0 else sub32 now (ms / 1000)

-- serverNow: the server's clock, carried on by millis(); 0 before the first answer.
unfoldable pub server_now : CloudSync → ℕ → ℕ
server_now c ms = if c.srv_epoch == 0 then 0 else add32 c.srv_epoch (sub32 ms c.srv_at_ms / 1000)
