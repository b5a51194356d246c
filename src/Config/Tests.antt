-- ===== src/Config/Tests.antt =====
-- A configuration that arrives twice, a card that is held to the reader, a setup access point that
-- was asked for, and instances of the theorems.
use rfid_access.Base.{ℕ, ◌≡◌, refl, true, false, List, [], ◌∷◌, arith, Text}
use rfid_access.Samples.{quiet_door, online, wanted}
use rfid_access.Config.{ReaderTask, on_credential, apply_config}
use rfid_access.Config.Applied.{applied_once}
use rfid_access.Config.SetupAp.{SetupAp, raise_setup_ap, loop_pass, loop_passes, setup_ap_closes}
use rfid_access.Base.{if◌then◌else◌, add32}
use rfid_access.Wifi.{is_running, pass}
use rfid_access.Config.Repeats.{run}

applied_once_example :
    let once = apply_config quiet_door wanted in
    let twice = apply_config once wanted in
    (twice.append_calls ≡ once.append_calls)
    × (twice.relay_hold_ms ≡ once.relay_hold_ms)
    × (twice.result_hold_ms ≡ once.result_hold_ms)
    × (twice.schedule ≡ once.schedule)
    × (twice.nv_door_contact ≡ once.nv_door_contact)
    × (twice.nv_door_held_sec ≡ once.nv_door_held_sec)
    × (twice.nv_reader_wiegand ≡ once.nv_reader_wiegand)
applied_once_example = applied_once quiet_door wanted (omega arith, omega arith, omega arith)

abbrev card : Text
card = b'7' ∷ []

abbrev held_card : List (Text × ℕ)
held_card = (card, 1000) ∷ (card, 1400) ∷ (card, 2600) ∷ []

abbrev waiting : ReaderTask
waiting = record { last_cred = []; last_cred_ms = 0 }

held_card_queued : (run waiting [] held_card).1 ≡ (card, 2600) ∷ (card, 1000) ∷ []
unfolding run on_credential
held_card_queued = refl

abbrev asked : SetupAp
asked = record { config = record quiet_door { nv_setup_ap = true }; wifi = online; close_at = 0 }

setup_ap_closes_example :
    let early = loop_passes (raise_setup_ap asked 9000) ((20000, true) ∷ (1700000, false) ∷ []) in
    let late = loop_pass early (1809000, false) in
    let running = is_running (pass early.wifi 1809000 false).0.change in
    (early.wifi.setup_ap ≡ true)
    × (early.config.nv_setup_ap ≡ false)
    × (late.wifi.setup_ap ≡ running)
    × (late.close_at ≡ (if running then add32 1809000 60000 else 0))
unfolding pass loop_passes raise_setup_ap
setup_ap_closes_example =
    setup_ap_closes asked 9000 1809000 false ((20000, true) ∷ (1700000, false) ∷ []) refl refl
      ((omega arith, omega arith), ((omega arith, omega arith), tt)) (omega arith) (omega arith)
      (omega arith)
