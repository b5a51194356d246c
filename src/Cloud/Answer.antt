-- ===== src/Cloud/Answer.antt =====
-- lib/CloudSync: what the answer to a sync holds, as the source reads it from the JSON, and what the
-- environment answers meanwhile. A member that is missing or of another type is `none`.
use rfid_access.Base.{
  ℕ, Bool, true, false, List, [], ◌∷◌, map, Option, none, some, if◌then◌else◌, Text, eq_text,
}
use rfid_access.Identity.{to_lower}
use rfid_access.Access.{RosterUpdate, Stamp}

-- The object "firmware"; a missing text is empty.
pub record Offer : Type 0 where
  pub board : Text
  pub version : Text
  pub url : Text
  pub sha : Text

-- The object "schedule" of the configuration, with its defaults.
pub record Window : Type 0 where
  pub enabled : Bool
  pub start_min : ℕ
  pub end_min : ℕ
  pub days_mask : ℕ

-- DoorConfig; `none` where its flag is not set. `reader_mode` is the text of the answer.
pub record DoorConfig : Type 0 where
  pub relay_hold_ms : Option ℕ
  pub result_hold_ms : Option ℕ
  pub schedule : Option Window
  pub door_contact : Option Bool
  pub door_held_sec : Option ℕ
  pub setup_ap : Option Bool
  pub reader_wiegand : Option Bool

-- The answer, with the configuration as it was parsed but for the reader's format.
pub record Response : Type 0 where
  pub server_epoch : ℕ
  pub roster : Option (List RosterUpdate)
  pub roster_rev : Option ℕ
  pub ack_boot_id : ℕ
  pub ack_idx : ℕ
  pub config : Option DoorConfig
  pub reader_mode : Option Text
  pub restart : Option Text
  pub release : Option (Text × ℕ)
  pub release_feed : Text
  pub firmware : Option Offer

-- What the app has wired, the board, the running version, and what the environment answers within
-- one sync: memory for the rows, for replaceAll and for its scratch, the save of the roster, the
-- compaction of the spool, and clock and write at the two calls of append of its own. `config_calls`
-- are the calls of append that the handler of the configuration makes, which Config models: their
-- texts, and clock and write at each.
pub record Env : Type 0 where
  pub board : Text
  pub running : Text
  pub on_config : Bool
  pub on_release : Bool
  pub safe_to_update : Option Bool
  pub got_updates : Bool
  pub got_staged : Bool
  pub scratch : Bool
  pub wrote : Bool
  pub opened : Bool
  pub renamed : Bool
  pub ms : ℕ
  pub config_calls : List (Text × Stamp)
  pub at_roster : Stamp
  pub at_offer : Stamp

-- "wiegand" and "cnd".
abbrev pub wiegand_text : Text
wiegand_text = b'w' ∷ b'i' ∷ b'e' ∷ b'g' ∷ b'a' ∷ b'n' ∷ b'd' ∷ []

abbrev pub cnd_text : Text
cnd_text = b'c' ∷ b'n' ∷ b'd' ∷ []

-- The reader's format of the configuration: one of two texts, whatever their case.
unfoldable pub reader_format : Option Text → Option Bool
reader_format none = none
reader_format (some t) =
    let m = map to_lower t in
    if eq_text m wiegand_text then some true else if eq_text m cnd_text then some false else none

unfoldable pub parse_config : Option DoorConfig → Option Text → Bool → Option DoorConfig
unfolding reader_format
parse_config none mode wired = none
parse_config (some cfg) mode wired =
    if wired then some (record cfg { reader_wiegand = reader_format mode }) else none
