-- ===== src/Boot.antt =====
-- src/main.cpp, setup(): what a boot reads back of the settings, and the door contact that it starts.
-- The settings store is bound; a key that was never written reads as its default.
pub mod Survives
mod Tests
use rfid_access.Base.{
  ℕ, ◌+◌, ◌-◌, ◌*◌, Bool, true, false, not, ◌&&◌, List, [], ◌∷◌, ltb, if◌then◌else◌, sub32,
}
use rfid_access.Schedule
use rfid_access.Door
use rfid_access.Door.{DoorContact}
use rfid_access.Config.{Config, apply_config}
use rfid_access.Cloud.Answer.{DoorConfig}
use rfid_access.Setup.{Env, Form, save_config}

-- The reader's format, the two holds, and unlockSchedule.begin(); the marks for a reload and for a
-- reboot begin as false.
unfoldable pub boot : Config → Config
boot c = record c {
  reader_wiegand = c.nv_reader_wiegand;
  reader_reboot_pending = false;
  door_reload = false;
  relay_hold_ms = c.nv_relay_hold_ms;
  result_hold_ms = c.nv_result_hold_ms;
  schedule = Schedule.begin c.prefs;
}

-- doorContactLoad: whether the contact is on, and its state machine.
unfoldable pub door_contact_load : Config → DoorContact → ℕ → Bool → Bool × DoorContact
door_contact_load c d now reads_open =
    if c.nv_door_contact
    then (true, Door.begin d now reads_open (c.nv_door_held_sec * 1000))
    else (false, d)

-- What happens to the settings: a configuration from the cloud, a post of /setup, a boot.
pub data Change : Type 0 where
  synced : DoorConfig → Change
  posted : Env → Bool → Form → Change
  booted : Change

unfoldable pub change : Config → Change → Config
unfolding boot
change c (synced d) = apply_config c d
change c (posted e paired f) = save_config e paired c f
change c booted = boot c

unfoldable pub changes : Config → List Change → Config
unfolding change
changes c [] = c
changes c (x ∷ xs) = changes (change c x) xs
