-- ===== src/Config/SetupAp.antt =====
-- src/main.cpp: the setup access point that the cloud asks for: raised at boot, and closed by a timer
-- of loop(), behind the Wi-Fi manager's own pass.
use rfid_access.Base.{
  ℕ, ◌+◌, ◌≤◌, ◌<◌, ◌≡◌, refl, sym, subst, Bool, true, false, not, ◌&&◌, List, [], ◌∷◌, ◌==◌, arith,
  if◌then◌else◌, if_else, Text, Bool-cases, inl, inr, add32, u32_mod, reached, All,
}
use rfid_access.Config.{Config}
use rfid_access.Wifi.{
  WifiManager, ChangeState, idle, trying, reverting, done, failed, open_setup_ap, close_setup_ap,
  is_running, start_change, drive, drive_trying, drive_reverting, supervise, save_credentials, pass,
  retry_saved_network,
}

abbrev pub setup_ap_timeout_ms : ℕ
setup_ap_timeout_ms = 1800000

-- "setupAP=on".
abbrev pub setup_ap_text : Text
setup_ap_text = b's' ∷ b'e' ∷ b't' ∷ b'u' ∷ b'p' ∷ b'A' ∷ b'P' ∷ b'=' ∷ b'o' ∷ b'n' ∷ []

-- What setup() and loop() keep of it: the settings, the Wi-Fi manager, and when to close.
pub record SetupAp : Type 0 where
  pub config : Config
  pub wifi : WifiManager
  pub close_at : ℕ

-- The block of setup().
unfoldable pub raise_setup_ap : SetupAp → ℕ → SetupAp
unfolding open_setup_ap
raise_setup_ap s now =
    if not s.wifi.portal && s.config.nv_setup_ap
    then record {
      config = record s.config {
        nv_setup_ap = false;
        append_calls = setup_ap_text ∷ s.config.append_calls;
      };
      wifi = open_setup_ap s.wifi;
      close_at = add32 now setup_ap_timeout_ms;
    }
    else s

-- The block of loop().
unfoldable pub setup_ap_poll : SetupAp → ℕ → SetupAp
unfolding close_setup_ap
setup_ap_poll s now =
    if not (s.close_at == 0) && reached now s.close_at
    then (if is_running s.wifi.change
        then record s { close_at = add32 now 60000 }
        else record s { close_at = 0; wifi = close_setup_ap s.wifi })
    else s

-- A pass of loop(): the Wi-Fi manager first, then the timer.
unfoldable pub loop_pass : SetupAp → ℕ × Bool → SetupAp
unfolding pass setup_ap_poll
loop_pass s (now, connected) = setup_ap_poll (record s { wifi = (pass s.wifi now connected).0 }) now

unfoldable pub loop_passes : SetupAp → List (ℕ × Bool) → SetupAp
unfolding loop_pass
loop_passes s [] = s
loop_passes s (p ∷ ps) = loop_passes (loop_pass s p) ps

-- On its network, with the access point open.
abbrev IsOpen : WifiManager → Type 0
IsOpen w = (w.portal ≡ false) × (w.setup_ap ≡ true)

start_change-IsOpen : (w : WifiManager) (now : ℕ) → IsOpen w → IsOpen (start_change w now)
unfolding start_change
start_change-IsOpen w now h = (ground arith, ground arith)

supervise-IsOpen :
    (w : WifiManager) (now : ℕ) (connected : Bool) → IsOpen w → IsOpen (supervise w now connected)
unfolding supervise
supervise-IsOpen w now connected h = (ground arith, ground arith)

drive-IsOpen :
    (state : ChangeState) (w : WifiManager) (now : ℕ) (connected : Bool)
    → IsOpen w
    → IsOpen (drive state w now connected)
unfolding drive drive_trying drive_reverting save_credentials
drive-IsOpen trying w now connected h = (ground arith, ground arith)
drive-IsOpen reverting w now connected h = (ground arith, ground arith)
drive-IsOpen idle w now connected h = supervise-IsOpen w now connected h
drive-IsOpen done w now connected h = supervise-IsOpen w now connected h
drive-IsOpen failed w now connected h = supervise-IsOpen w now connected h

pass-IsOpen :
    (w : WifiManager) (now : ℕ) (connected : Bool) → IsOpen w → IsOpen (pass w now connected).0
unfolding pass
pass-IsOpen w now connected h =
    let w' = start_change w now in
    let after : WifiManager × Bool = (drive w'.change w' now connected, false) in
    subst (λ (v : WifiManager × Bool). IsOpen v.0)
      (sym (if_else w.portal (retry_saved_network w now connected) after h.0))
      (drive-IsOpen w'.change w' now connected (start_change-IsOpen w now h))

not_reached :
    (now t : ℕ)
    → t ≤ now
    → now < t + setup_ap_timeout_ms
    → t + setup_ap_timeout_ms < u32_mod
    → reached now (add32 t setup_ap_timeout_ms) ≡ false
not_reached now t l e f = ground arith

is_reached :
    (now t : ℕ)
    → t + setup_ap_timeout_ms ≤ now
    → now < u32_mod
    → now < t + setup_ap_timeout_ms + 2147483648
    → reached now (add32 t setup_ap_timeout_ms) ≡ true
is_reached now t l e f = ground arith

is_set : (t : ℕ) → t + setup_ap_timeout_ms < u32_mod → (add32 t setup_ap_timeout_ms == 0) ≡ false
is_set t h = ground arith

both_false : (a b : Bool) → b ≡ false → (a && b) ≡ false
both_false a b h = ground arith

poll_early : (s : SetupAp) (now : ℕ) → reached now s.close_at ≡ false → setup_ap_poll s now ≡ s
unfolding setup_ap_poll
poll_early s now h =
    if_else (not (s.close_at == 0) && reached now s.close_at)
      (if is_running s.wifi.change
        then record s { close_at = add32 now 60000 }
        else record s { close_at = 0; wifi = close_setup_ap s.wifi })
      s (both_false (not (s.close_at == 0)) (reached now s.close_at) h)

poll_late :
    (s : SetupAp) (now : ℕ)
    → (s.close_at == 0) ≡ false
    → reached now s.close_at ≡ true
    → s.wifi.setup_ap ≡ true
    → let running = is_running s.wifi.change in
      ((setup_ap_poll s now).wifi.setup_ap ≡ running)
      × ((setup_ap_poll s now).close_at ≡ (if running then add32 now 60000 else 0))
unfolding setup_ap_poll close_setup_ap
poll_late s now z d o = elim (Bool-cases (is_running s.wifi.change)) [
  | inl r ↦ rw (z, d, r) (o, refl)
  | inr r ↦ rw (z, d, r) (refl, refl)
]

-- The access point is open, the request is used up, and the timer runs from `t`.
abbrev Waiting : SetupAp → ℕ → Type 0
Waiting s t =
    IsOpen s.wifi × (s.close_at ≡ add32 t setup_ap_timeout_ms) × (s.config.nv_setup_ap ≡ false)

raise-Waiting :
    (s : SetupAp) (t : ℕ)
    → s.wifi.portal ≡ false
    → s.config.nv_setup_ap ≡ true
    → Waiting (raise_setup_ap s t) t
unfolding raise_setup_ap open_setup_ap
raise-Waiting s t p n = ((ground arith, ground arith), ground arith, ground arith)

loop_pass-Waiting :
    (s : SetupAp) (t now : ℕ) (connected : Bool)
    → reached now (add32 t setup_ap_timeout_ms) ≡ false
    → Waiting s t
    → Waiting (loop_pass s (now, connected)) t
unfolding loop_pass
loop_pass-Waiting s t now connected h (o, c, n) =
    let s' : SetupAp = record s { wifi = (pass s.wifi now connected).0 } in
    subst (λ v. Waiting v t)
      (sym (poll_early s' now (subst (λ d. reached now d ≡ false) (sym c) h)))
      (pass-IsOpen s.wifi now connected o, c, n)

abbrev pub Within : ℕ → ℕ × Bool → Type 0
Within t (now, connected) = (t ≤ now) × (now < t + setup_ap_timeout_ms)

loop_passes-Waiting :
    (s : SetupAp) (t : ℕ) (ps : List (ℕ × Bool))
    → t + setup_ap_timeout_ms < u32_mod
    → All (Within t) ps
    → Waiting s t
    → Waiting (loop_passes s ps) t
unfolding loop_passes
loop_passes-Waiting s t [] m h w = w
loop_passes-Waiting s t ((now, connected) ∷ ps) m ((a, b), h) w =
    loop_passes-Waiting (loop_pass s (now, connected)) t ps m h
      (loop_pass-Waiting s t now connected (not_reached now t a b m) w)

-- An access point that the cloud asked for, raised at time `t` on a door with a network, stays open
-- for half an hour, whatever the radio answers, and the stored request is cleared. The first pass
-- behind the half hour closes it if no move to another network runs then, and else keeps it open and
-- asks again a minute later; if that pass comes within 2 ^ 31 ms and the times have not wrapped.
pub setup_ap_closes :
    (s : SetupAp) (t now : ℕ) (connected : Bool) (ps : List (ℕ × Bool))
    → s.wifi.portal ≡ false
    → s.config.nv_setup_ap ≡ true
    → All (Within t) ps
    → t + setup_ap_timeout_ms ≤ now
    → now < u32_mod
    → now < t + setup_ap_timeout_ms + 2147483648
    → let early = loop_passes (raise_setup_ap s t) ps in
      let late = loop_pass early (now, connected) in
      let running = is_running (pass early.wifi now connected).0.change in
      (early.wifi.setup_ap ≡ true)
      × (early.config.nv_setup_ap ≡ false)
      × (late.wifi.setup_ap ≡ running)
      × (late.close_at ≡ (if running then add32 now 60000 else 0))
unfolding loop_pass
setup_ap_closes s t now connected ps p n h from small near =
    let early : SetupAp = loop_passes (raise_setup_ap s t) ps in
    let (o, c, used) =
      loop_passes-Waiting (raise_setup_ap s t) t ps (omega arith) h (raise-Waiting s t p n) in
    let s' : SetupAp = record early { wifi = (pass early.wifi now connected).0 } in
    let due : reached now s'.close_at ≡ true =
      subst (λ d. reached now d ≡ true) (sym c) (is_reached now t from small near) in
    let set : (s'.close_at == 0) ≡ false =
      subst (λ d. (d == 0) ≡ false) (sym c) (is_set t (omega arith)) in
    let still : s'.wifi.setup_ap ≡ true = (pass-IsOpen early.wifi now connected o).1 in
    let (closed, off) = poll_late s' now set due still in (o.1, used, closed, off)
