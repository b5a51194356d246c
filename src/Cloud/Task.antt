-- ===== src/Cloud/Task.antt =====
-- lib/CloudSync: one round of the task, from the end of a sync to the next. What the app says about
-- the safety of a restart is an argument, `none` where no function is wired.
use rfid_access.Base.{
  ℕ, ◌+◌, ◌-◌, ◌*◌, ◌%◌, ◌^◌, min, Bool, true, false, not, ◌&&◌, ◌||◌, List, [], ◌∷◌, Option, none,
  some, ltb, leb, if◌then◌else◌, Text, is_empty, sub32, add32, u32_mod,
}
use rfid_access.Access.{Stamp, append_event, r_none, evt_config}
use rfid_access.Cloud.{CloudSync, Pending, no_fw}
use rfid_access.Cloud.Sync.{evt_fw_failed}

abbrev pub poll_interval_ms : ℕ
poll_interval_ms = 30000

abbrev pub backoff_min_ms : ℕ
backoff_min_ms = 30000

abbrev pub backoff_max_ms : ℕ
backoff_max_ms = 900000

abbrev pub sync_min_block : ℕ
sync_min_block = 45000

abbrev pub heal_after_ms : ℕ
heal_after_ms = 900000

-- The seed of the waits, from the device's name.
unfoldable pub fold_id : ℕ → Text → ℕ
fold_id j [] = j
fold_id j (c ∷ cs) = fold_id ((j * 31 + c) % u32_mod) cs

unfoldable pub jitter : Text → ℕ
unfolding fold_id
jitter id = fold_id 0 id % 7000

-- The status after a sync, and the queued download taken from it.
unfoldable pub note_result : CloudSync → Bool → ℕ → CloudSync
note_result c ok now =
    if ok
    then record c { last_success_ms = now; ever_synced = true; failures = 0 }
    else record c { failures = if ltb c.failures 65535 then c.failures + 1 else c.failures }

unfoldable pub take_pending : CloudSync → CloudSync × Pending
take_pending c = (record c { pending_fw = no_fw }, c.pending_fw)

-- consumeRestart.
unfoldable pub consume_restart : CloudSync → CloudSync × Text
consume_restart c =
    let id = c.pending_restart_id in
    let c' = record c { pending_restart_id = [] } in
    if is_empty id
    then (c', [])
    else (record c' { restart_id = id; stored = record c'.stored { restart_id = id } }, id)

-- How a round of the task ends: it goes on, or the door restarts.
pub data End : Type 0 where
  goes_on restarts : End

-- The download of a queued offer: `updated` is whether applyFirmware restarted into the new image.
-- The text is the restart that a failed update owes.
unfoldable pub try_update : CloudSync → Bool → Stamp → CloudSync × Text × End
unfolding take_pending consume_restart
try_update c updated t =
    let (c1, fw) = take_pending c in
    let (c2, owed) = consume_restart c1 in
    if is_empty fw.version then (c1, [], goes_on) else if updated then (c2, owed, restarts) else (
      record c2 { access = append_event c2.access evt_fw_failed r_none false fw.version t },
      owed,
      goes_on,
    )

-- "restart=remote" and "restart=heap" in the spool.
abbrev pub remote_text : Text
remote_text =
    b'r' ∷ b'e' ∷ b's' ∷ b't' ∷ b'a' ∷ b'r' ∷ b't' ∷ b'=' ∷ b'r' ∷ b'e' ∷ b'm' ∷ b'o' ∷ b't' ∷ b'e'
    ∷ []

abbrev pub heap_text : Text
heap_text = b'r' ∷ b'e' ∷ b's' ∷ b't' ∷ b'a' ∷ b'r' ∷ b't' ∷ b'=' ∷ b'h' ∷ b'e' ∷ b'a' ∷ b'p' ∷ []

unfoldable pub log_restart : CloudSync → Text → Stamp → CloudSync
log_restart c text t = record c { access = append_event c.access evt_config r_none false text t }

-- The remote restart, with what an update owes.
unfoldable pub try_restart : CloudSync → Text → Option Bool → Stamp → CloudSync × End
unfolding consume_restart log_restart
try_restart c owed none t =
    if not (is_empty c.pending_restart_id)
    then (record c { pending_restart_id = [] }, goes_on)
    else if not (is_empty owed)
    then (log_restart c remote_text t, restarts)
    else (c, goes_on)
try_restart c owed (some safe) t =
    let pending = not (is_empty c.pending_restart_id) in
    let c' = if is_empty owed then (consume_restart c).0 else c in
    if pending && not safe
    then (c, goes_on)
    else if pending || not (is_empty owed)
    then (log_restart c' remote_text t, restarts)
    else (c, goes_on)

-- The self-heal: `block` is the largest free block.
unfoldable pub try_heal : CloudSync → Bool → ℕ → ℕ → ℕ → Option Bool → Stamp → CloudSync × End
unfolding log_restart
try_heal c ok block now last_ok none t = (c, goes_on)
try_heal c ok block now last_ok (some safe) t =
    if not ok && ltb block sync_min_block && leb heal_after_ms (sub32 now last_ok) && safe
    then (log_restart c heap_text t, restarts)
    else (c, goes_on)

-- How long to wait for the next sync.
unfoldable pub next_wait : ℕ → ℕ → ℕ
next_wait failures jitter =
    let shift = if ltb 5 failures then 5 else failures - 1 in
    if ltb 0 failures
    then min (backoff_min_ms * 2 ^ shift) backoff_max_ms + jitter
    else poll_interval_ms + jitter

unfoldable pub schedule_next : CloudSync → ℕ → ℕ → CloudSync
unfolding next_wait
schedule_next c now jitter =
    let wait = next_wait c.failures jitter in
    record c {
      current_wait_ms = if ltb 0 c.failures then wait else 0;
      next_attempt_at_ms = add32 now wait;
    }

-- What the environment answers in one round: the image, the clocks and writes of the spool, and the
-- largest block.
pub record Round : Type 0 where
  pub updated : Bool
  pub safe_to_restart : Option Bool
  pub now : ℕ
  pub block : ℕ
  pub at_update : Stamp
  pub at_restart : Stamp

-- A restart ends the round.
abbrev pub continue_with : End → CloudSync → CloudSync × End → CloudSync × End
continue_with restarts c next = (c, restarts)
continue_with goes_on c next = next

-- A round behind syncOnce, up to the wait.
unfoldable pub round : CloudSync → Bool → Round → ℕ → CloudSync × End
unfolding note_result try_update try_restart try_heal schedule_next
round c ok r jitter =
    let c0 = note_result c ok r.now in
    let (c1, owed, e1) = try_update c0 r.updated r.at_update in
    let (c2, e2) = try_restart c1 owed r.safe_to_restart r.at_restart in
    let (c3, e3) = try_heal c2 ok r.block r.now c0.last_success_ms r.safe_to_restart r.at_restart in
    continue_with e1 c1
      (continue_with e2 c2 (continue_with e3 c3 (schedule_next c3 r.now jitter, goes_on)))

-- One pass of the wait: how long it took, with its delay of 250 ms and the poll of the feed, and
-- whether a sync was asked for at its start.
pub record Pass : Type 0 where
  pub took : ℕ
  pub asked : Bool

-- The loop of the wait: how long it waited, `none` if the passes do not suffice.
unfoldable pub wait_loop : ℕ → ℕ → List Pass → Option ℕ
wait_loop wait elapsed [] = if ltb elapsed wait then none else some elapsed
wait_loop wait elapsed (p ∷ ps) =
    let later = wait_loop wait (elapsed + p.took) ps in
    if not (ltb elapsed wait) then some elapsed else if p.asked then some elapsed else later
