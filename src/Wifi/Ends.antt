-- ===== src/Wifi/Ends.antt =====
-- How long a move to another network lasts.
use rfid_access.Base.{
  ℕ, ◌≤◌, ◌<◌, ◌≡◌, refl, sym, subst, lt→ltb, ◌∙◌, ◌⊎◌, inl, inr, Bool, true, false, List, [], ◌∷◌,
  arith, ltb, sub32, is_empty, All,
}
use rfid_access.Wifi.{
  WifiManager, Credentials, ChangeState, trying, reverting, done, failed, save_credentials,
  drive_trying, drive_reverting, drive, supervise, pass, change_network, is_running, change_try_ms,
  change_revert_ms,
}
use rfid_access.Wifi.Change.{run, pass_drives, first_pass, started}

-- On the station side, with no request pending.
abbrev Steady : WifiManager → Type 0
Steady w = (w.portal ≡ false) × (w.change_pending ≡ false)

abbrev pub IsOver : WifiManager → Type 0
IsOver w = (w.change ≡ done) ⊎ (w.change ≡ failed)

-- In the state `s` of a change since `t`, or behind the change.
abbrev Since : ChangeState → ℕ → WifiManager → Type 0
Since s t w = Steady w × (((w.change ≡ s) × (w.change_started_ms ≡ t)) ⊎ IsOver w)

-- What a pass of the loop does in each state, as one call of drive.
by_drive :
    (P : WifiManager → Type 0) (w : WifiManager) (s : ChangeState) (now : ℕ) (connected : Bool)
    → Steady w
    → w.change ≡ s
    → P (drive s w now connected)
    → P (pass w now connected).0
by_drive P w s now connected (p, q) e h =
    subst (λ (v : WifiManager × Bool). P v.0) (sym (pass_drives w now connected p q))
      (subst (λ (k : ChangeState). P (drive k w now connected)) (sym e) h)

supervise-Steady :
    (w : WifiManager) (now : ℕ) (connected : Bool)
    → Steady w
    → Steady (supervise w now connected) × ((supervise w now connected).change ≡ w.change)
unfolding supervise
supervise-Steady w now connected (p, q) = (ground arith, ground arith)

IsOver-pass :
    (w : WifiManager) (now : ℕ) (connected : Bool)
    → Steady w
    → IsOver w
    → Steady (pass w now connected).0 × IsOver (pass w now connected).0
unfolding drive
IsOver-pass w now connected s (inl e) =
    let (t, c) = supervise-Steady w now connected s in
    by_drive (λ (v : WifiManager). Steady v × IsOver v) w done now connected s e (t, inl (c ∙ e))
IsOver-pass w now connected s (inr e) =
    let (t, c) = supervise-Steady w now connected s in
    by_drive (λ (v : WifiManager). Steady v × IsOver v) w failed now connected s e (t, inr (c ∙ e))

drive_trying-early :
    (w : WifiManager) (t now : ℕ) (connected : Bool)
    → Steady w
    → w.change ≡ trying
    → w.change_started_ms ≡ t
    → sub32 now t < change_try_ms
    → Since trying t (drive_trying w now connected)
unfolding drive_trying save_credentials
drive_trying-early w t now true s e k h = (s, inr (inl refl))
drive_trying-early w t now false s e k h =
    let early : ltb (sub32 now w.change_started_ms) change_try_ms ≡ true = lt→ltb _ _ (rw k h) in
    rw early (s, inl (e, k))

drive_trying-late :
    (w : WifiManager) (t now : ℕ) (connected : Bool)
    → Steady w
    → w.change_started_ms ≡ t
    → change_try_ms ≤ sub32 now t
    → Since reverting now (drive_trying w now connected)
unfolding drive_trying save_credentials
drive_trying-late w t now true s k h = (s, inr (inl refl))
drive_trying-late w t now false s k h =
    let late : ltb (sub32 now w.change_started_ms) change_try_ms ≡ false = rw k (ground arith) in
    rw late (s, inl (refl, refl))

drive_reverting-early :
    (w : WifiManager) (t now : ℕ) (connected : Bool)
    → Steady w
    → w.change ≡ reverting
    → w.change_started_ms ≡ t
    → sub32 now t < change_revert_ms
    → Since reverting t (drive_reverting w now connected)
unfolding drive_reverting
drive_reverting-early w t now true s e k h = (s, inr (inr refl))
drive_reverting-early w t now false s e k h =
    let early : ltb (sub32 now w.change_started_ms) change_revert_ms ≡ true = lt→ltb _ _ (rw k h) in
    rw early (s, inl (e, k))

drive_reverting-late :
    (w : WifiManager) (t now : ℕ) (connected : Bool)
    → w.change_started_ms ≡ t
    → change_revert_ms ≤ sub32 now t
    → IsOver (drive_reverting w now connected)
unfolding drive_reverting
drive_reverting-late w t now true k h = inr refl
drive_reverting-late w t now false k h =
    let late : ltb (sub32 now w.change_started_ms) change_revert_ms ≡ false = rw k (ground arith) in
    rw late (inr refl)

abbrev pub Within : ℕ → List (ℕ × Bool) → Type 0
Within t ps = All (λ (p : ℕ × Bool). sub32 p.0 t < change_try_ms) ps

run-trying :
    (w : WifiManager) (t : ℕ) (ps : List (ℕ × Bool))
    → Since trying t w
    → Within t ps
    → Since trying t (run w ps)
unfolding run drive
run-trying w t [] h a = h
run-trying w t ((now, connected) ∷ ps) (s, inr o) a =
    run-trying (pass w now connected).0 t ps
      (let (s', o') = IsOver-pass w now connected s o in (s', inr o')) a.1
run-trying w t ((now, connected) ∷ ps) (s, inl (e, k)) a =
    run-trying (pass w now connected).0 t ps
      (by_drive (Since trying t) w trying now connected s e
        (drive_trying-early w t now connected s e k a.0))
      a.1

run-reverting :
    (w : WifiManager) (t : ℕ) (ps : List (ℕ × Bool))
    → Since reverting t w
    → Within t ps
    → Since reverting t (run w ps)
unfolding run drive
run-reverting w t [] h a = h
run-reverting w t ((now, connected) ∷ ps) (s, inr o) a =
    run-reverting (pass w now connected).0 t ps
      (let (s', o') = IsOver-pass w now connected s o in (s', inr o')) a.1
run-reverting w t ((now, connected) ∷ ps) (s, inl (e, k)) a =
    run-reverting (pass w now connected).0 t ps
      (by_drive (Since reverting t) w reverting now connected s e
        (drive_reverting-early w t now connected s e k a.0))
      a.1

trying-late :
    (w : WifiManager) (t now : ℕ) (connected : Bool)
    → Since trying t w
    → change_try_ms ≤ sub32 now t
    → Since reverting now (pass w now connected).0
unfolding drive
trying-late w t now connected (s, inr o) h =
    let (s', o') = IsOver-pass w now connected s o in (s', inr o')
trying-late w t now connected (s, inl (e, k)) h =
    by_drive (Since reverting now) w trying now connected s e
      (drive_trying-late w t now connected s k h)

reverting-late :
    (w : WifiManager) (t now : ℕ) (connected : Bool)
    → Since reverting t w
    → change_revert_ms ≤ sub32 now t
    → IsOver (pass w now connected).0
unfolding drive
reverting-late w t now connected (s, inr o) h = (IsOver-pass w now connected s o).1
reverting-late w t now connected (s, inl (e, k)) h =
    by_drive IsOver w reverting now connected s e (drive_reverting-late w t now connected k h)

-- A move that was accepted comes to an end, with success or failure, whatever the radio answers: at the
-- first pass 25 s or more after the first pass 25 s or more after the one that started it, however
-- many passes there are before and between.
pub change_ends :
    (w : WifiManager) (c : Credentials) (t0 t1 t2 : ℕ) (c0 c1 c2 : Bool)
    (first second : List (ℕ × Bool))
    → w.portal ≡ false
    → w.change_pending ≡ false
    → is_running w.change ≡ false
    → is_empty c.ssid ≡ false
    → is_empty w.saved.ssid ≡ false
    → Within t0 first
    → change_try_ms ≤ sub32 t1 t0
    → Within t1 second
    → change_revert_ms ≤ sub32 t2 t1
    → IsOver
        (pass (run (pass (run (change_network w c).0 ((t0, c0) ∷ first)) t1 c1).0 second) t2 c2).0
unfolding run
change_ends w c t0 t1 t2 c0 c1 c2 first second p q r e s a h b k =
    let w1 = drive_trying (started w c t0) t0 c0 in
    let begun : Since trying t0 w1 =
      drive_trying-early (started w c t0) t0 t0 c0 (p, refl) refl refl (omega arith) in
    let w2 = run w1 first in
    let tried : Since trying t0 w2 = run-trying w1 t0 first begun a in
    let late : Since reverting t1 (pass w2 t1 c1).0 = trying-late w2 t0 t1 c1 tried h in
    let back : Since reverting t1 (run (pass w2 t1 c1).0 second) =
      run-reverting (pass w2 t1 c1).0 t1 second late b in
    subst
      (λ (v : WifiManager × Bool).
        IsOver (pass (run (pass (run v.0 first) t1 c1).0 second) t2 c2).0)
      (sym (first_pass w c t0 c0 p q r e s))
      (reverting-late (run (pass w2 t1 c1).0 second) t1 t2 c2 back k)
