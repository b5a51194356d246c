-- ===== src/Cloud/Restart.antt =====
-- When the task restarts the door.
use rfid_access.Base.{
  ℕ, ◌≡◌, refl, Bool, true, false, [], Option, some, arith, Text, eq_text, is_empty, eq_text_refl,
}
use rfid_access.Access.{Stamp, append_event, r_none}
use rfid_access.Cloud.{CloudSync, start, begin, no_fw}
use rfid_access.Cloud.Sync.{note_restart, evt_fw_failed}
use rfid_access.Cloud.Task.{
  End, goes_on, restarts, Round, note_result, take_pending, consume_restart, try_update,
  log_restart, try_restart, round, remote_text, continue_with,
}

try_update_idle :
    (c : CloudSync) (updated : Bool) (t : Stamp)
    → is_empty c.pending_fw.version ≡ true
    → try_update c updated t ≡ (record c { pending_fw = no_fw }, [], goes_on)
unfolding try_update take_pending
try_update_idle c updated t f = rw f refl

-- The state after a request was taken as honoured.
abbrev honoured : CloudSync → CloudSync
honoured c = record c {
  pending_restart_id = [];
  restart_id = c.pending_restart_id;
  stored = record c.stored { restart_id = c.pending_restart_id };
}

consume_restart-pending :
    (c : CloudSync)
    → is_empty c.pending_restart_id ≡ false
    → consume_restart c ≡ (honoured c, c.pending_restart_id)
unfolding consume_restart
consume_restart-pending c p = rw p refl

after_failed : CloudSync → Stamp → CloudSync
after_failed c t =
    let c' = honoured (record c { pending_fw = no_fw }) in
    record c' { access = append_event c'.access evt_fw_failed r_none false c.pending_fw.version t }

after_failed-pending :
    (c : CloudSync) (t : Stamp) → is_empty (after_failed c t).pending_restart_id ≡ true
unfolding after_failed
after_failed-pending c t = refl

try_update_failed :
    (c : CloudSync) (updated : Bool) (t : Stamp)
    → is_empty c.pending_fw.version ≡ false
    → is_empty c.pending_restart_id ≡ false
    → updated ≡ false
    → try_update c updated t ≡ (after_failed c t, c.pending_restart_id, goes_on)
unfolding try_update take_pending after_failed
try_update_failed c updated t f p u =
    rw (f, u, consume_restart-pending (record c { pending_fw = no_fw }) p) refl

try_restart_safe :
    (c : CloudSync) (safe : Option Bool) (t : Stamp)
    → is_empty c.pending_restart_id ≡ false
    → safe ≡ some true
    → try_restart c [] safe t ≡ (log_restart (honoured c) remote_text t, restarts)
unfolding try_restart
try_restart_safe c safe t p s = rw (s, p) refl

try_restart_owed :
    (c : CloudSync) (owed : Text) (safe : Option Bool) (t : Stamp)
    → is_empty c.pending_restart_id ≡ true
    → is_empty owed ≡ false
    → safe ≡ some false
    → try_restart c owed safe t ≡ (log_restart c remote_text t, restarts)
unfolding try_restart
try_restart_owed c owed safe t p o s = rw (s, p, o) refl

note_restart_known : (c : CloudSync) (id : Text) → c.restart_id ≡ id → note_restart c (some id) ≡ c
unfolding note_restart
note_restart_known c id e =
    let same : eq_text id c.restart_id ≡ true = rw e (eq_text_refl id) in ground arith

-- With nothing queued for download, a remote restart that is pending happens in a round in which the
-- app says that it is safe, and a request with the same id leaves no restart pending after it.
pub restart_once :
    (c : CloudSync) (ok : Bool) (r : Round) (j : ℕ) (host : Text)
    → is_empty c.pending_fw.version ≡ true
    → is_empty c.pending_restart_id ≡ false
    → r.safe_to_restart ≡ some true
    → let (c', end) = round c ok r j in
      let booted = begin (start c'.stored c'.access) host in
      (end ≡ restarts)
      × (booted.restart_id ≡ c.pending_restart_id)
      × (note_restart booted (some c.pending_restart_id) ≡ booted)
unfolding round note_result log_restart append_event start begin
restart_once c true r j host f p s =
    let c0 = note_result c true r.now in
    rw
      (
        try_update_idle c0 r.updated r.at_update f,
        try_restart_safe (record c0 { pending_fw = no_fw }) r.safe_to_restart r.at_restart p s,
      )
      (refl, refl, note_restart_known _ c.pending_restart_id refl)
restart_once c false r j host f p s =
    let c0 = note_result c false r.now in
    rw
      (
        try_update_idle c0 r.updated r.at_update f,
        try_restart_safe (record c0 { pending_fw = no_fw }) r.safe_to_restart r.at_restart p s,
      )
      (refl, refl, note_restart_known _ c.pending_restart_id refl)

owed_restart :
    (c : CloudSync) (updated : Bool) (t : Stamp) (safe : Option Bool) (t' : Stamp)
    → is_empty c.pending_fw.version ≡ false
    → is_empty c.pending_restart_id ≡ false
    → updated ≡ false
    → safe ≡ some false
    → let (c1, owed, e1) = try_update c updated t in
      (e1 ≡ goes_on) × ((try_restart c1 owed safe t').1 ≡ restarts)
owed_restart c updated t safe t' f p u s =
    rw
      (
        try_update_failed c updated t f p u,
        try_restart_owed (after_failed c t) c.pending_restart_id safe t' (after_failed-pending c t)
            p s,
      )
      (refl, refl)

continue_restarts :
    (e1 e2 : End) (c1 c2 : CloudSync) (next : CloudSync × End)
    → e1 ≡ goes_on
    → e2 ≡ restarts
    → (continue_with e1 c1 (continue_with e2 c2 next)).1 ≡ restarts
continue_restarts restarts e2 c1 c2 next h k = refl
continue_restarts goes_on restarts c1 c2 next h k = refl
continue_restarts goes_on goes_on c1 c2 next h k = cc

-- A restart that a failed update owes happens whatever the app says about its safety: an update is
-- queued and a restart is pending, the update fails, and the door restarts in the same round.
pub owed_restart_unasked :
    (c : CloudSync) (ok : Bool) (r : Round) (j : ℕ)
    → is_empty c.pending_fw.version ≡ false
    → is_empty c.pending_restart_id ≡ false
    → r.updated ≡ false
    → r.safe_to_restart ≡ some false
    → (round c ok r j).1 ≡ restarts
unfolding round note_result
owed_restart_unasked c true r j f p u s =
    let (a, b) =
      owed_restart (note_result c true r.now) r.updated r.at_update r.safe_to_restart r.at_restart f
        p u s in
    continue_restarts _ _ _ _ _ a b
owed_restart_unasked c false r j f p u s =
    let (a, b) =
      owed_restart (note_result c false r.now) r.updated r.at_update r.safe_to_restart r.at_restart
        f p u s in
    continue_restarts _ _ _ _ _ a b
