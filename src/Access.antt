-- ===== src/Access.antt =====
-- lib/AccessControl/AccessControl.h and AccessControl.cpp: the decision about a card and its records,
-- the edits of the roster, and the migration of the old list. The state is the roster, the event
-- spool, the ring of the last taps and the last unknown credential. The access of /api/... in
-- lib/WebHandlers stands in Access.Handlers.
pub mod Decision
pub mod Edits
pub mod Migration
pub mod Handlers
mod Tests
use mathlib.Core.Option.{map as map_option}
use rfid_access.Base.{
  ℕ, zero, suc, ◌+◌, ◌≡◌, Bool, true, false, not, ◌&&◌, ◌||◌, List, [], ◌∷◌, Option, none, some,
  ltb, leb, ◌==◌, if◌then◌else◌, length, get_elem?, take, Text, eq_text, is_empty,
}
use rfid_access.Ring.{Ring, push}
use rfid_access.Roster.{
  Entry, Roster, hash_of, copy_field, max_cred, max_name, find_by_credential, add, rename, remove,
  replace_all, is_some, new_entry,
}
use rfid_access.Roster.File.{begin}
use rfid_access.Spool.{EventLog, Event, append}

abbrev pub log_size : ℕ
log_size = 20

-- EventLog's numbers of events and reasons.
abbrev pub evt_tap : ℕ
evt_tap = 1

abbrev pub evt_config : ℕ
evt_config = 6

abbrev pub r_none : ℕ
r_none = 0

abbrev pub r_enrolled : ℕ
r_enrolled = 1

abbrev pub r_not_enrolled : ℕ
r_not_enrolled = 2

pub record TapRecord : Type 0 where
  pub uid : Text
  pub type : Text
  pub granted : Bool
  pub ms : ℕ

-- The globals of the file, and the event spool.
pub record Access : Type 0 where
  pub roster : Roster
  pub spool : EventLog
  pub taps : Ring TapRecord
  pub last_unknown_uid : Text

-- millis(), time(), and the write of the spool.
pub record Stamp : Type 0 where
  pub ms : ℕ
  pub now : ℕ
  pub written : Option ℕ

-- eventLog.append at a stamp.
unfoldable pub append_event : Access → ℕ → ℕ → Bool → Text → Stamp → Access
append_event a type reason granted credential t = record a {
  spool =
      (append a.spool
        (record {
          type = type;
          reason = reason;
          granted = granted;
          credential = credential;
          uptime_ms = t.ms;
          now = t.now;
        })
        t.written).0;
}

-- A row of acReplaceRoster's argument; `none` is a null pointer.
pub record RosterUpdate : Type 0 where
  pub cred : Option Text
  pub name : Option Text

abbrev pub text_of : Option Text → Text
text_of none = []
text_of (some t) = t

module _ (sha256 : List ℕ → List ℕ) where
  -- acProcessEvent on a tap; `tapped` is whether the event is one.
  unfoldable pub process_event : Access → Bool → Text → Text → Stamp → Access × Bool
  unfolding append_event
  process_event a tapped uid type t =
      if not tapped
      then (a, false)
      else let granted = is_some (find_by_credential sha256 a.roster uid) in
        let a' = record a {
          taps =
              push log_size (record { uid = uid; type = type; granted = granted; ms = t.ms })
                a.taps;
          last_unknown_uid = if not granted then uid else a.last_unknown_uid;
        } in
        (
          append_event a' evt_tap (if granted then r_enrolled else r_not_enrolled) granted uid t,
          granted,
        )

  -- acAddEntry; `none` where the roster's add writes through a null pointer.
  abbrev pub after_add : Access → Text → Roster × Bool → Access
  after_add a uid (r, ok) =
      if ok
      then record a {
        roster = r;
        last_unknown_uid = if eq_text a.last_unknown_uid uid then [] else a.last_unknown_uid;
      }
      else record a { roster = r }

  unfoldable pub add_entry : Access → Text → Text → Bool → Option Access
  add_entry a uid name wrote =
      if is_empty uid
      then some a
      else map_option (after_add a uid) (add sha256 a.roster uid name wrote)

  unfoldable pub rename_entry : Access → Text → Text → Bool → Access
  rename_entry a uid name wrote = record a { roster = (rename sha256 a.roster uid name wrote).0 }

  unfoldable pub remove_entry : Access → Text → Bool → Access
  remove_entry a uid wrote = record a { roster = (remove sha256 a.roster uid wrote).0 }

  -- The loop of acReplaceRoster: the rows that have a credential.
  unfoldable pub staged : ℕ → List RosterUpdate → List Entry
  staged salt [] = []
  staged salt (u ∷ us) =
      let rest = staged salt us in
      if is_empty (text_of u.cred)
      then rest
      else new_entry sha256 salt (text_of u.cred) (text_of u.name) ∷ rest

  -- acReplaceRoster: `got_staged` and `scratch` are whether calloc and the malloc of replaceAll
  -- succeeded.
  unfoldable pub replace_roster :
      Access → List RosterUpdate → ℕ → Bool → Bool → Bool → Stamp → Access × Bool
  unfolding staged append_event
  replace_roster a us rev got_staged scratch wrote t =
      let (r, ok) = replace_all a.roster (staged a.roster.salt us) rev scratch wrote in
      let a' = record a { roster = r } in
      if not got_staged
      then (a, false)
      else if ok
      then (append_event a' evt_config r_none false [] t, true)
      else (a', false)

  -- The loop of migrateFromNvs over the rows of the old list, at most `room` more.
  unfoldable pub staged_old : ℕ → ℕ → List (Text × Text) → List Entry
  staged_old salt zero rows = []
  staged_old salt (suc room) [] = []
  staged_old salt (suc room) ((uid, name) ∷ rows) =
      if is_empty uid
      then staged_old salt (suc room) rows
      else new_entry sha256 salt uid name ∷ staged_old salt room rows

  -- migrateFromNvs: `old` is the list that was stored, `none` where it is no JSON array.
  unfoldable pub migrate_from_nvs : Roster → Option (List (Text × Text)) → Bool → Bool → Roster
  unfolding staged_old
  migrate_from_nvs r none scratch wrote = r
  migrate_from_nvs r (some rows) scratch wrote =
      let es = staged_old r.salt 64 rows in
      if ltb 0 (length es) then (replace_all r es 0 scratch wrote).0 else r

  -- acInit. `file` is the roster file, of which LittleFS.exists tells whether it is there.
  unfoldable pub init :
      Roster
      → Bool
      → Bool
      → Option (List ℕ)
      → ℕ
      → Option (List (Text × Text))
      → Bool
      → Bool
      → Roster
  unfolding migrate_from_nvs
  init r got_array mounted file fresh old scratch wrote =
      let r' = (begin r got_array mounted file fresh).0 in
      let migrated = migrate_from_nvs r' old scratch wrote in
      if not (is_some file) then migrated else r'
