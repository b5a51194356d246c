-- ===== src/Access/Handlers.antt =====
-- lib/WebHandlers/WebHandlers.cpp: the requests of the door's own pages that read the taps and that
-- change the roster or the schedule. A body is what ArduinoJson reads from it, `none` where it is no
-- JSON; `managed` is whether the door is paired with the cloud.
use mathlib.Core.Option.{map as map_option}
use rfid_access.Base.{
  ℕ, ◌≡◌, ap, Bool, List, [], Option, none, some, if◌then◌else◌, take, map, Text,
}
use rfid_access.Ring.{newest_first}
use rfid_access.Ring.History
use rfid_access.Roster.{find_by_credential}
use rfid_access.Schedule.{UnlockSchedule, Prefs, set}
use rfid_access.Access.{Access, TapRecord, log_size, add_entry, rename_entry, remove_entry}
use rfid_access.Access.Decision.{no_tap}

-- The bodies of the POST requests.
pub data Edit : Type 0 where
  add_card : Text → Text → Edit
  rename_card : Text → Text → Edit
  remove_card : Text → Edit
  set_schedule : Bool → ℕ → ℕ → ℕ → Edit

-- What the requests change.
pub record Door : Type 0 where
  pub access : Access
  pub schedule : UnlockSchedule
  pub prefs : Prefs

-- A row of the answer to /api/taps.
pub record TapRow : Type 0 where
  pub tap : TapRecord
  pub name : Text

module _ (sha256 : List ℕ → List ℕ) where
  -- acNameFor as the handler uses it.
  unfoldable pub name_for : Access → Text → Text
  name_for a uid = elim (find_by_credential sha256 a.roster uid) [ none ↦ [] | some e ↦ e.name ]

  unfoldable pub api_taps : Access → List TapRow
  unfolding name_for
  api_taps a =
      map (λ (r : TapRecord). record { tap = r; name = name_for a r.uid })
        (newest_first log_size no_tap a.taps)

  -- `none` where the roster's add writes through a null pointer.
  unfoldable pub apply_edit : Door → Edit → Bool → Option Door
  apply_edit d (add_card uid name) wrote =
      map_option (λ a. record d { access = a }) (add_entry sha256 d.access uid name wrote)
  apply_edit d (rename_card uid name) wrote =
      some (record d { access = rename_entry sha256 d.access uid name wrote })
  apply_edit d (remove_card uid) wrote =
      some (record d { access = remove_entry sha256 d.access uid wrote })
  apply_edit d (set_schedule enabled start stop days) wrote =
      let (s, p) = set enabled start stop days in some (record d { schedule = s; prefs = p })

  unfoldable pub apply_body : Door → Option Edit → Bool → Option (Door × ℕ)
  unfolding apply_edit
  apply_body d none wrote = some (d, 400)
  apply_body d (some e) wrote = map_option (λ d'. (d', 200)) (apply_edit d e wrote)

  -- A POST request: the door afterwards, and the status of the answer.
  unfoldable pub post : Door → Bool → Option Edit → Bool → Option (Door × ℕ)
  unfolding apply_body
  post d managed body wrote = if managed then some (d, 409) else apply_body d body wrote

  -- The answer to /api/taps lists the last taps, 20 at most and the latest first, each with the name
  -- that the roster has for its credential now.
  pub api_taps_lem :
      (a : Access) (h : List TapRecord)
      → History.Holds log_size no_tap h a.taps
      → api_taps a
        ≡ map (λ (r : TapRecord). record { tap = r; name = name_for a r.uid }) (take log_size h)
  unfolding api_taps
  api_taps_lem a h holds =
      ap (map (λ (r : TapRecord). record { tap = r; name = name_for a r.uid }))
        (History.newest_first-take log_size no_tap h a.taps holds)
