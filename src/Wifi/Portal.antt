-- ===== src/Wifi/Portal.antt =====
-- lib/WiFiManager: the portal's pages, "/" and "/save", and the retry of the saved network while
-- somebody uses them. The pages' texts and the scan are left out.
use rfid_access.Base.{
  ℕ, ◌<◌, ◌≡◌, refl, sym, ap, ◌∙◌, subst, Bool, true, false, not, ◌&&◌, List, [], ◌∷◌, map, arith,
  ltb, ◌==◌, if◌then◌else◌, if_then, Text, is_empty, sub32, All,
}
use rfid_access.Wifi.{
  WifiManager, idle, no_credentials, save_credentials, begin, retry_saved_network, pass,
  retry_interval_ms, retry_window_ms, portal_in_use_ms, start_change, drive,
}
use rfid_access.Wifi.Change.{run}

-- millis() as the time of use; 0 means "never".
abbrev pub used_at : ℕ → ℕ
used_at now = if now == 0 then 1 else now

unfoldable pub portal_root : WifiManager → ℕ → WifiManager
portal_root w now = record w { last_portal_use_ms = used_at now }

-- "/save": the state, and whether the door restarts.
unfoldable pub portal_save : WifiManager → ℕ → Text → Text → WifiManager × Bool
unfolding portal_root save_credentials
portal_save w now ssid password =
    let w' = portal_root w now in
    if is_empty ssid
    then (w', false)
    else (save_credentials w' (record { ssid = ssid; pass = password }), true)

-- The fields as they are constructed, with what survives a restart.
unfoldable pub restarted : WifiManager → WifiManager
restarted w = record {
  portal = false;
  force_portal = false;
  setup_ap = false;
  change = idle;
  next = no_credentials;
  old = no_credentials;
  change_started_ms = 0;
  change_pending = false;
  was_connected = false;
  last_check = 0;
  retry_started_ms = 0;
  last_retry_end_ms = 0;
  last_portal_use_ms = 0;
  recovery = w.recovery;
  saved = w.saved;
  joining = w.joining;
}

-- A network that is saved in the portal is the one that the door joins after its restart, and it
-- leaves the portal if it joins in time.
pub portal_rejoins :
    (w : WifiManager) (now : ℕ) (ssid password : Text) (joined : Bool)
    → is_empty ssid ≡ false
    → let (w', restart) = portal_save w now ssid password in
      let booted = begin (restarted w') joined in
      (restart ≡ true)
      × (booted.saved ≡ record { ssid = ssid; pass = password })
      × (booted.joining ≡ record { ssid = ssid; pass = password })
      × (booted.portal ≡ not joined)
unfolding portal_save begin restarted
portal_rejoins w now [] password joined h = cc
portal_rejoins w now (c ∷ cs) password true h = (refl, refl, refl, refl)
portal_rejoins w now (c ∷ cs) password false h = (refl, refl, refl, refl)

is_busy :
    (t now : ℕ)
    → sub32 now (used_at t) < portal_in_use_ms
    → (not (used_at t == 0) && ltb (sub32 now (used_at t)) portal_in_use_ms) ≡ true
is_busy t now h = ground arith

abbrev pub InUse : ℕ → ℕ → Type 0
InUse t now = sub32 now (used_at t) < portal_in_use_ms

rests :
    (force started idling busy : Bool) (a x y : WifiManager × Bool)
    → started ≡ false
    → busy ≡ true
    → (if force then a else if started then x else if idling then a else if busy then a else y) ≡ a
rests true started idling busy a x y h k = refl
rests false true idling busy a x y h k = cc
rests false false true busy a x y h k = refl
rests false false false true a x y h k = refl
rests false false false false a x y h k = cc

used_pass :
    (w : WifiManager) (t now : ℕ)
    → w.portal ≡ true
    → w.retry_started_ms ≡ 0
    → w.last_portal_use_ms ≡ used_at t
    → InUse t now
    → pass w now false ≡ (w, false)
unfolding pass retry_saved_network
used_pass w t now p r u h =
    let started : Bool = not (w.retry_started_ms == 0) in
    let busy : Bool =
      not (w.last_portal_use_ms == 0) && ltb (sub32 now w.last_portal_use_ms) portal_in_use_ms in
    let not_started : started ≡ false = ap (λ n. not (n == 0)) r in
    let in_use : busy ≡ true =
      subst (λ n. (not (n == 0) && ltb (sub32 now n) portal_in_use_ms) ≡ true) (sym u)
        (is_busy t now h) in
    let w' = start_change w now in
    if_then w.portal (retry_saved_network w now false) (drive w'.change w' now false, false) p
    ∙ rests w.force_portal started (ltb (sub32 now w.last_retry_end_ms) retry_interval_ms) busy
        (w, false)
        (if ltb (sub32 now w.retry_started_ms) retry_window_ms
          then (w, false)
          else (record w { retry_started_ms = 0; last_retry_end_ms = now }, false))
        (if is_empty w.saved.ssid then (w, false) else (
          record w { retry_started_ms = if now == 0 then 1 else now; joining = w.saved },
          false,
        ))
        not_started in_use

-- Whoever uses the portal is left alone: where no attempt to join the saved network is underway when
-- the page is opened at time `t`, none is made at any pass in the next 180 s that finds the radio
-- not connected, so that the scan and the page's access point are not disturbed, and the door does
-- not restart.
pub portal_left_alone :
    (w : WifiManager) (t : ℕ) (times : List ℕ)
    → w.portal ≡ true
    → w.retry_started_ms ≡ 0
    → All (InUse t) times
    → (run (portal_root w t) (map (λ now. (now, false)) times) ≡ portal_root w t)
      × All (λ now. (pass (portal_root w t) now false).1 ≡ false) times
unfolding run portal_root
portal_left_alone w t [] p r h = (refl, tt)
portal_left_alone w t (now ∷ times) p r (h, k) =
    let w' : WifiManager = record w { last_portal_use_ms = used_at t } in
    let same : pass w' now false ≡ (w', false) = used_pass w' t now p r refl h in
    let (rest, calm) = portal_left_alone w t times p r k in
    (ap (λ v. run v.0 (map (λ now. (now, false)) times)) same ∙ rest, (ap (λ v. v.1) same, calm))
