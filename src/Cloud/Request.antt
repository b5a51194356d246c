-- ===== src/Cloud/Request.antt =====
-- lib/CloudSync: the body of a sync's request, as the members that are set in it, and the status text
-- that goes up now and then.
use rfid_access.Base.{
  ℕ, Bool, ◌&&◌, ◌||◌, List, Option, none, some, leb, ◌==◌, if◌then◌else◌, Text, is_empty, sub32,
}
use rfid_access.Cloud.{CloudSync, boot_epoch}
use rfid_access.Cloud.Batch.{Sent, batch}

abbrev pub status_every_ms : ℕ
status_every_ms = 300000

abbrev pub sync_min_block : ℕ
sync_min_block = 45000

-- What the app has told the class, and what the environment answers: `status` is the text of the
-- status page where a source is wired, `block` the largest free block of memory.
pub record Told : Type 0 where
  pub device_id : Text
  pub board : Text
  pub running : Text
  pub reader_mode : Text
  pub has_contact : Option Bool
  pub on_release : Bool
  pub status : Option Text
  pub block : ℕ
  pub now : ℕ
  pub ms : ℕ
  pub ip : Text

pub record Request : Type 0 where
  pub device_id : Text
  pub board : Text
  pub firmware : Text
  pub boot_id : ℕ
  pub boot_epoch : ℕ
  pub roster_rev : ℕ
  pub reader_mode : Option Text
  pub has_door_contact : Option Bool
  pub restart_id : Option Text
  pub remote_release : Bool
  pub release_id : Option Text
  pub status : Option Text
  pub ip : Text
  pub events : List Sent

abbrev pub if_any : Text → Option Text
if_any t = if is_empty t then none else some t

-- Whether the status text goes up with the sync at `ms`, when it went up last at `last`, 0 for never.
unfoldable pub status_due : ℕ → ℕ → ℕ → Bool
status_due last block ms =
    leb sync_min_block block && ((last == 0) || leb status_every_ms (sub32 ms last))

abbrev pub sent_at : Bool → Option Text → ℕ → ℕ → ℕ
sent_at due none last ms = last
sent_at due (some text) last ms = if due then ms else last

abbrev pub if_due : Bool → Option Text → Option Text
if_due due text = if due then text else none

-- The request, and when the status text went up last.
unfoldable pub request : CloudSync → Told → ℕ → Request × ℕ
unfolding status_due batch
request c t last =
    let due = status_due last t.block t.ms in
    (
      record {
        device_id = t.device_id;
        board = t.board;
        firmware = t.running;
        boot_id = c.access.spool.boot_id;
        boot_epoch = boot_epoch t.now t.ms;
        roster_rev = c.access.roster.rev;
        reader_mode = if_any t.reader_mode;
        has_door_contact = t.has_contact;
        restart_id = if_any c.restart_id;
        remote_release = t.on_release;
        release_id = if_any c.release_id;
        status = if_due due t.status;
        ip = t.ip;
        events = batch c.access.spool;
      },
      sent_at due t.status last t.ms,
    )
