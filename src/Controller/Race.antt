-- ===== src/Controller/Race.antt =====
-- src/main.cpp: the writes of accessTask and of loop() to the strike relay and its deadline. The
-- access task has the higher priority and is bound to no core, and neither takes a lock, so the writes
-- interleave one by one. A step is one write, or the test of a block, in the order of the source; the
-- lights, the screens and the rest of the two tasks do not write these values.
use rfid_access.Base.{
  ℕ, zero, suc, ◌≡◌, ◌≢◌, refl, sym, subst, ◌⊎◌, inl, inr, Bool, true, false, not, ◌&&◌, List, [],
  ◌∷◌, arith, ◌==◌, if◌then◌else◌, if_else, reached, Bool-cases, All, ==_iff,
}
use rfid_access.Door

-- Between two grants, or between the relay's HIGH and the deadline in relayGrantedNonBlocking.
pub data AccessAt : Type 0 where
  resting : AccessAt
  energised : AccessAt

-- The next thing that loop() does: the test of the unlock window; the relay's HIGH where it began; the
-- reset of the deadline and the relay's LOW where it ended; the test of the deadline; the reset, and
-- the relay's LOW, where it has passed.
pub data LoopAt : Type 0 where
  window : LoopAt
  opening : LoopAt
  closing : LoopAt
  locking : LoopAt
  deadline : LoopAt
  due : LoopAt
  expired : LoopAt

pub record Shared : Type 0 where
  pub relay : Bool
  pub relay_off_at : ℕ
  pub sched_active : Bool
  pub access_at : AccessAt
  pub loop_at : LoopAt

-- relayGrantedNonBlocking: `off_at` is the deadline that it computes.
unfoldable pub access_step : AccessAt → Shared → ℕ → Shared
access_step resting s off_at = record s { relay = true; access_at = energised }
access_step energised s off_at = record s { relay_off_at = off_at; access_at = resting }

-- loop(), the blocks of the unlock window and of the relay.
unfoldable pub loop_step : LoopAt → Shared → ℕ → Bool → Shared
loop_step window s now active =
    if Door.xor_bool active s.sched_active
    then record s { sched_active = active; loop_at = if active then opening else closing }
    else record s { loop_at = deadline }
loop_step opening s now active = record s { relay = true; loop_at = deadline }
loop_step closing s now active = record s { relay_off_at = 0; loop_at = locking }
loop_step locking s now active = record s { relay = false; loop_at = deadline }
loop_step deadline s now active = record s {
  loop_at = if not (s.relay_off_at == 0) && reached now s.relay_off_at then due else window;
}
loop_step due s now active = record s { relay_off_at = 0; loop_at = expired }
loop_step expired s now active = record s {
  relay = if s.sched_active then s.relay else false;
  loop_at = window;
}

-- Whose step is next, with what it reads.
pub data Turn : Type 0 where
  access : ℕ → Turn
  loops : ℕ → Bool → Turn

unfoldable pub turn : Shared → Turn → Shared
unfolding access_step loop_step
turn s (access off_at) = access_step s.access_at s off_at
turn s (loops now active) = loop_step s.loop_at s now active

unfoldable pub turns : Shared → List Turn → Shared
unfolding turn
turns s [] = s
turns s (t ∷ ts) = turns (turn s t) ts

abbrev pub at_boot : Shared
at_boot = record {
  relay = false;
  relay_off_at = 0;
  sched_active = false;
  access_at = resting;
  loop_at = window;
}

-- Passes of loop() alone, outside every window.
abbrev pub loop_alone : ℕ → Shared → ℕ → Shared
loop_alone zero s now = s
loop_alone (suc n) s now = loop_alone n (turn s (loops now false)) now

-- An energised relay is somebody's business: a deadline stands, the window is open, or a task is
-- between its writes.
abbrev pub Attended : Shared → Type 0
Attended s =
    (s.relay ≡ false)
    ⊎ (s.relay_off_at ≢ 0)
    ⊎ (s.sched_active ≡ true)
    ⊎ (s.access_at ≡ energised)
    ⊎ (s.loop_at ≡ closing)
    ⊎ (s.loop_at ≡ locking)
    ⊎ (s.loop_at ≡ expired)

abbrev Minded : Shared → Type 0
Minded s = ((s.loop_at ≡ opening) → (s.sched_active ≡ true)) × Attended s

-- A deadline that a grant computes is not 0.
abbrev pub Dated : Turn → Type 0
Dated (access off_at) = off_at ≢ 0
Dated (loops now active) = Unit {0}

access_step-Minded :
    (a : AccessAt) (s : Shared) (off_at : ℕ)
    → off_at ≢ 0
    → Minded s
    → Minded (access_step a s off_at)
unfolding access_step
access_step-Minded resting s off_at h (o, m) = (o, inr (inr (inr (inl refl))))
access_step-Minded energised s off_at h (o, m) = (o, inr (inl h))

-- The shared values under a test, by its outcome.
moved-Minded :
    (s : Shared) (b : Bool)
    → s.loop_at ≡ deadline
    → Minded s
    → Minded (record s { loop_at = if b then due else window })
moved-Minded s true h (o, m) = (λ e. cc, ground arith)
moved-Minded s false h (o, m) = (λ e. cc, ground arith)

window-Minded :
    (s : Shared) (changed active : Bool)
    → s.loop_at ≡ window
    → Minded s
    → Minded (
        if changed
        then record s { sched_active = active; loop_at = if active then opening else closing }
        else record s { loop_at = deadline })
window-Minded s true true h m = (λ e. refl, inr (inr (inl refl)))
window-Minded s true false h m = (λ e. cc, inr (inr (inr (inr (inl refl)))))
window-Minded s false active h (o, m) = (λ e. cc, ground arith)

loop_step-Minded :
    (l : LoopAt) (s : Shared) (now : ℕ) (active : Bool)
    → s.loop_at ≡ l
    → Minded s
    → Minded (loop_step l s now active)
unfolding loop_step
loop_step-Minded window s now active h m =
    window-Minded s (Door.xor_bool active s.sched_active) active h m
loop_step-Minded opening s now active h (o, m) = (λ e. cc, inr (inr (inl (o h))))
loop_step-Minded closing s now active h (o, m) = (λ e. cc, inr (inr (inr (inr (inr (inl refl))))))
loop_step-Minded locking s now active h (o, m) = (λ e. cc, inl refl)
loop_step-Minded deadline s now active h (o, m) =
    moved-Minded s (not (s.relay_off_at == 0) && reached now s.relay_off_at) h (o, m)
loop_step-Minded due s now active h (o, m) = (λ e. cc, inr (inr (inr (inr (inr (inr refl))))))
loop_step-Minded expired s now active h (o, m) = elim (Bool-cases s.sched_active) [
  | inl held ↦ (λ e. cc, inr (inr (inl held)))
  | inr shut ↦ (λ e. cc, inl (if_else s.sched_active s.relay false shut))
]

turn-Minded : (s : Shared) (t : Turn) → Dated t → Minded s → Minded (turn s t)
unfolding turn
turn-Minded s (access off_at) h m = access_step-Minded s.access_at s off_at h m
turn-Minded s (loops now active) h m = loop_step-Minded s.loop_at s now active refl m

turns-Minded : (s : Shared) (ts : List Turn) → All Dated ts → Minded s → Minded (turns s ts)
unfolding turns
turns-Minded s [] h m = m
turns-Minded s (t ∷ ts) (h, k) m = turns-Minded (turn s t) ts k (turn-Minded s t h m)

-- Eight steps of loop() outside every window lock the door: without a deadline, and with one that
-- has passed.
abbrev pub Locked : Shared → Type 0
Locked s = (s.relay ≡ false) × (s.relay_off_at ≡ 0) × (s.sched_active ≡ false)

idle-Locked :
    (l : LoopAt) (relay sched : Bool) (now : ℕ)
    → ((l ≡ opening) → (sched ≡ true))
    → (relay ≡ false) ⊎ (sched ≡ true) ⊎ (l ≡ closing) ⊎ (l ≡ locking) ⊎ (l ≡ expired)
    → Locked (
        loop_alone 8
          (record {
            relay = relay;
            relay_off_at = 0;
            sched_active = sched;
            access_at = resting;
            loop_at = l;
          })
          now)
unfolding turn
idle-Locked window relay true now o m = (refl, refl, refl)
idle-Locked window relay false now o m = (ground arith, refl, refl)
idle-Locked opening relay true now o m = (refl, refl, refl)
idle-Locked opening relay false now o m = absurd (ground (arith, o refl))
idle-Locked closing relay true now o m = (refl, refl, refl)
idle-Locked closing relay false now o m = (refl, refl, refl)
idle-Locked locking relay true now o m = (refl, refl, refl)
idle-Locked locking relay false now o m = (refl, refl, refl)
idle-Locked deadline relay true now o m = (refl, refl, refl)
idle-Locked deadline relay false now o m = (ground arith, refl, refl)
idle-Locked due relay true now o m = (refl, refl, refl)
idle-Locked due relay false now o m = (refl, refl, refl)
idle-Locked expired relay true now o m = (refl, refl, refl)
idle-Locked expired relay false now o m = (refl, refl, refl)

due-Locked :
    (l : LoopAt) (relay sched : Bool) (off_at now : ℕ)
    → (not (off_at == 0) && reached now off_at) ≡ true
    → ((l ≡ opening) → (sched ≡ true))
    → Locked (
        loop_alone 8
          (record {
            relay = relay;
            relay_off_at = off_at;
            sched_active = sched;
            access_at = resting;
            loop_at = l;
          })
          now)
unfolding turn
due-Locked window relay true off_at now h o = (refl, refl, refl)
due-Locked window relay false off_at now h o = rw h (refl, refl, refl)
due-Locked opening relay true off_at now h o = rw h (refl, refl, refl)
due-Locked opening relay false off_at now h o = absurd (ground (arith, o refl))
due-Locked closing relay true off_at now h o = (refl, refl, refl)
due-Locked closing relay false off_at now h o = (refl, refl, refl)
due-Locked locking relay true off_at now h o = rw h (refl, refl, refl)
due-Locked locking relay false off_at now h o = rw h (refl, refl, refl)
due-Locked deadline relay true off_at now h o = rw h (refl, refl, refl)
due-Locked deadline relay false off_at now h o = rw h (refl, refl, refl)
due-Locked due relay true off_at now h o = (refl, refl, refl)
due-Locked due relay false off_at now h o = (refl, refl, refl)
due-Locked expired relay true off_at now h o = (refl, refl, refl)
due-Locked expired relay false off_at now h o = rw h (refl, refl, refl)

-- The state with other values of the deadline and of the access task's place.
abbrev with_values : Shared → ℕ → AccessAt → Shared
with_values s off_at a = record s { relay_off_at = off_at; access_at = a }

settled :
    (s : Shared) (now : ℕ)
    → Minded s
    → s.access_at ≡ resting
    → (s.relay_off_at ≡ 0) ⊎ (reached now s.relay_off_at ≡ true)
    → Locked (loop_alone 8 s now)
settled s now (o, m) r d = elim (Bool-cases (s.relay_off_at == 0)) [
  | inl none_set ↦
      let unset : s.relay_off_at ≡ 0 = (==_iff s.relay_off_at 0).0 none_set in
      subst (λ a. Locked (loop_alone 8 (with_values s s.relay_off_at a) now)) (sym r)
        (subst (λ n. Locked (loop_alone 8 (with_values s n resting) now)) (sym unset)
          (idle-Locked s.loop_at s.relay s.sched_active now o (ground arith)))
  | inr is_set ↦
      subst (λ a. Locked (loop_alone 8 (with_values s s.relay_off_at a) now)) (sym r)
        (due-Locked s.loop_at s.relay s.sched_active s.relay_off_at now (ground arith) o)
]

-- However the writes of the two tasks interleave from a boot on, in grants with deadlines that are
-- not 0 and in windows: where the relay is energised, a deadline stands, the window is open, or a task
-- is between its writes.
pub turns-Attended : (ts : List Turn) → All Dated ts → Attended (turns at_boot ts)
turns-Attended ts h = (turns-Minded at_boot ts h (λ e. cc, inl refl)).1

-- However the writes of accessTask and of loop() interleave from a boot on, in grants with deadlines
-- that are not 0 and in windows: if no grant is half done then, and the deadline, where one stands,
-- has passed, then eight steps of loop() outside every window leave the relay off, with no deadline
-- and no window.
pub turns-Locked :
    (ts : List Turn) (now : ℕ)
    → All Dated ts
    → (turns at_boot ts).access_at ≡ resting
    → ((turns at_boot ts).relay_off_at ≡ 0) ⊎ (reached now (turns at_boot ts).relay_off_at ≡ true)
    → Locked (loop_alone 8 (turns at_boot ts) now)
turns-Locked ts now h r d =
    settled (turns at_boot ts) now (turns-Minded at_boot ts h (λ e. cc, inl refl)) r d
