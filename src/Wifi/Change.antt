-- ===== src/Wifi/Change.antt =====
-- Which network the door knows, during and after a move to another.
use rfid_access.Base.{
  ℕ, ◌≡◌, refl, sym, ap, subst, if_else, ◌∙◌, ◌⊎◌, inl, inr, Bool, false, List, [], ◌∷◌, arith, ltb,
  sub32, is_empty, Bool-cases,
}
use rfid_access.Wifi.{
  WifiManager, Credentials, ChangeState, trying, reverting, done, failed, save_credentials,
  drive_trying, drive_reverting, drive, supervise, start_change, pass, change_network, is_running,
}

-- A move from `old` to `next`: until it has succeeded NVS holds the old credentials, and the new ones
-- from then on.
abbrev pub Moving : Credentials → Credentials → WifiManager → Type 0
Moving old next w =
    (w.portal ≡ false)
    × (w.change_pending ≡ false)
    × (w.next ≡ next)
    × (((w.change ≡ trying) × (w.saved ≡ old) × (w.old ≡ old))
        ⊎ ((w.change ≡ reverting) × (w.saved ≡ old) × (w.old ≡ old))
        ⊎ ((w.change ≡ failed) × (w.saved ≡ old))
        ⊎ ((w.change ≡ done) × (w.saved ≡ next)))

-- The passes of loop(): the time, and whether the radio is connected.
unfoldable pub run : WifiManager → List (ℕ × Bool) → WifiManager
unfolding pass
run w [] = w
run w ((now, connected) ∷ rest) = run (pass w now connected).0 rest

trying-Moving :
    (o n : Credentials) (w : WifiManager) (now : ℕ) (connected : Bool)
    → w.portal ≡ false
    → w.change_pending ≡ false
    → w.next ≡ n
    → w.saved ≡ o
    → w.old ≡ o
    → w.change ≡ trying
    → Moving o n (drive_trying w now connected)
unfolding drive_trying save_credentials
trying-Moving o n w now connected p q e s l c = elim (Bool-cases connected) [
  | inl k ↦ rw k (p, q, e, inr (inr (inr (refl, e))))
  | inr k ↦ elim (Bool-cases (ltb (sub32 now w.change_started_ms) 25000)) [
    | inl t ↦ rw (k, t) (p, q, e, inl (c, s, l))
    | inr t ↦ rw (k, t) (p, q, e, inr (inl (refl, l, l)))
  ]
]

reverting-Moving :
    (o n : Credentials) (w : WifiManager) (now : ℕ) (connected : Bool)
    → w.portal ≡ false
    → w.change_pending ≡ false
    → w.next ≡ n
    → w.saved ≡ o
    → w.old ≡ o
    → w.change ≡ reverting
    → Moving o n (drive_reverting w now connected)
unfolding drive_reverting
reverting-Moving o n w now connected p q e s l c = elim (Bool-cases connected) [
  | inl k ↦ rw k (p, q, e, inr (inr (inl (refl, s))))
  | inr k ↦ elim (Bool-cases (ltb (sub32 now w.change_started_ms) 25000)) [
    | inl t ↦ rw (k, t) (p, q, e, inr (inl (c, s, l)))
    | inr t ↦ rw (k, t) (p, q, e, inr (inr (inl (refl, s))))
  ]
]

-- The supervision leaves the change and the credentials alone.
supervise-same :
    (w : WifiManager) (now : ℕ) (connected : Bool)
    → let w' = supervise w now connected in
      (w'.portal ≡ w.portal)
      × (w'.change_pending ≡ w.change_pending)
      × (w'.next ≡ w.next)
      × (w'.saved ≡ w.saved)
      × (w'.change ≡ w.change)
unfolding supervise
supervise-same w now connected = ground arith

start_change-none : (w : WifiManager) (now : ℕ) → w.change_pending ≡ false → start_change w now ≡ w
unfolding start_change
start_change-none w now q = rw q refl

drive-Moving :
    (o n : Credentials) (w : WifiManager) (now : ℕ) (connected : Bool)
    → Moving o n w
    → Moving o n (drive w.change w now connected)
unfolding drive
drive-Moving o n w now connected (p, q, e, inl (c, s, l)) =
    subst (λ (k : ChangeState). Moving o n (drive k w now connected)) (sym c)
      (trying-Moving o n w now connected p q e s l c)
drive-Moving o n w now connected (p, q, e, inr (inl (c, s, l))) =
    subst (λ (k : ChangeState). Moving o n (drive k w now connected)) (sym c)
      (reverting-Moving o n w now connected p q e s l c)
drive-Moving o n w now connected (p, q, e, inr (inr (inl (c, s)))) =
    let (p', q', e', s', c') = supervise-same w now connected in
    subst (λ (k : ChangeState). Moving o n (drive k w now connected)) (sym c)
      (p' ∙ p, q' ∙ q, e' ∙ e, inr (inr (inl (c' ∙ c, s' ∙ s))))
drive-Moving o n w now connected (p, q, e, inr (inr (inr (c, s)))) =
    let (p', q', e', s', c') = supervise-same w now connected in
    subst (λ (k : ChangeState). Moving o n (drive k w now connected)) (sym c)
      (p' ∙ p, q' ∙ q, e' ∙ e, inr (inr (inr (c' ∙ c, s' ∙ s))))

pub pass_drives :
    (w : WifiManager) (now : ℕ) (connected : Bool)
    → w.portal ≡ false
    → w.change_pending ≡ false
    → pass w now connected ≡ (drive w.change w now connected, false)
unfolding pass
pass_drives w now connected p q =
    if_else w.portal _ _ p
    ∙ ap (λ (v : WifiManager). (drive v.change v now connected, false)) (start_change-none w now q)

run-Moving :
    (o n : Credentials) (w : WifiManager) (passes : List (ℕ × Bool))
    → Moving o n w
    → Moving o n (run w passes)
unfolding run
run-Moving o n w [] m = m
run-Moving o n w ((now, connected) ∷ rest) (p, q, e, m) =
    let moved : Moving o n (drive w.change w now connected) =
      drive-Moving o n w now connected (p, q, e, m) in
    subst (λ (v : WifiManager × Bool). Moving o n (run v.0 rest))
      (sym (pass_drives w now connected p q))
      (run-Moving o n (drive w.change w now connected) rest moved)

-- The state in which the first pass after an accepted request tries the new network.
abbrev pub started : WifiManager → Credentials → ℕ → WifiManager
started w c now = record w {
  next = c;
  change_pending = false;
  old = w.saved;
  joining = c;
  change_started_ms = now;
  change = trying;
  was_connected = false;
}

pub first_pass :
    (w : WifiManager) (c : Credentials) (now : ℕ) (connected : Bool)
    → w.portal ≡ false
    → w.change_pending ≡ false
    → is_running w.change ≡ false
    → is_empty c.ssid ≡ false
    → is_empty w.saved.ssid ≡ false
    → pass (change_network w c).0 now connected
      ≡ (drive_trying (started w c now) now connected, false)
unfolding pass change_network start_change drive
first_pass w c now connected p q r e s = rw (e, q, r, p, s) refl

-- A door on its network that is told to move to another, with no move running, knows its old network
-- until it has joined the new one, and the new one from then on: at every pass of the loop from the
-- first one after the request, whatever the radio answers at each, NVS holds the new credentials if
-- the move has succeeded, and else those that it held before.
pub moves_safely :
    (w : WifiManager) (c : Credentials) (now : ℕ) (connected : Bool) (passes : List (ℕ × Bool))
    → w.portal ≡ false
    → w.change_pending ≡ false
    → is_running w.change ≡ false
    → is_empty c.ssid ≡ false
    → is_empty w.saved.ssid ≡ false
    → Moving w.saved c (run (change_network w c).0 ((now, connected) ∷ passes))
unfolding run
moves_safely w c now connected passes p q r e s =
    subst (λ (v : WifiManager × Bool). Moving w.saved c (run v.0 passes))
      (sym (first_pass w c now connected p q r e s))
      (run-Moving w.saved c (drive_trying (started w c now) now connected) passes
        (trying-Moving w.saved c (started w c now) now connected p refl refl refl refl refl))
