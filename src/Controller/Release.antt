-- ===== src/Controller/Release.antt =====
-- How long one release lasts.
use rfid_access.Base.{
  ℕ, ◌<◌, ◌≡◌, refl, sym, subst, ◌∙◌, ap, ◌≢◌, Bool, true, false, ◌&&◌, List, [], ◌∷◌, arith, add32,
  sub32, u32_mod, ltb, Bool-cases, inl, inr,
}
use rfid_access.Controller.{Controller, AppEvent, Step, take, finish, pass, post, handle, step, run}
use rfid_access.Controller.Safety.{is_release, NoUnlock}
use rfid_access.Controller.Strike.{
  Strike, strike, due, after_due, step-strike, step-take-strike, step_pass-strike, step-post-strike,
  Holding, Ended,
}

-- All passes of the loop are within 2 ^ 31 ms after `t`, by the wrapping clock.
abbrev pub Within : ℕ → List Step → Type 0
Within t [] = Unit {0}
Within t (pass now r ∷ ss) = (now < u32_mod) × (sub32 now t < 2147483648) × Within t ss
Within t (_ ∷ ss) = Within t ss

-- No pass of the loop has come `hold` ms or more after `t`.
abbrev pub all_before : ℕ → ℕ → List Step → Bool
all_before t hold [] = true
all_before t hold (pass now r ∷ ss) = ltb (sub32 now t) hold && all_before t hold ss
all_before t hold (_ ∷ ss) = all_before t hold ss

abbrev pub Phase : ℕ → ℕ → Bool → Strike → Type 0
Phase t hold true s = Holding t hold s
Phase t hold false s = Ended t hold s

-- The clock condition of a release: its times are words, and its deadline is not 0.
abbrev pub IsTimed : ℕ → ℕ → Type 0
IsTimed t hold = (t < u32_mod) × (0 < hold) × (hold < 2147481648) × (add32 t hold ≢ 0)

Phase-pass :
    (t hold : ℕ) (b : Bool) (s : Strike) (now : ℕ)
    → IsTimed t hold
    → now < u32_mod
    → sub32 now t < 2147483648
    → Phase t hold b s
    → Phase t hold (ltb (sub32 now t) hold && b) (after_due (due s now) s)
Phase-pass t hold true s now k w h p = elim (Bool-cases (ltb (sub32 now t) hold)) [
  | inl e ↦ rw (e, early e) p
  | inr e ↦ rw (e, late e) (refl, p.1, refl, p.3, p.4)
]
  where
    early : ltb (sub32 now t) hold ≡ true → due s now ≡ false
    early e = ground arith

    late : ltb (sub32 now t) hold ≡ false → due s now ≡ true
    late e = ground arith
Phase-pass t hold false s now k w h p = rw (over, ended) p
  where
    over : (ltb (sub32 now t) hold && false) ≡ false
    over = ground arith

    ended : due s now ≡ false
    ended = ground arith

and_shuffle : (x y b : Bool) → ((x && y) && b) ≡ (y && (x && b))
and_shuffle x y b = ground arith

run-Phase :
    (t hold : ℕ) (b : Bool) (c : Controller) (ss : List Step)
    → IsTimed t hold
    → NoUnlock c ss
    → Within t ss
    → Phase t hold b (strike c)
    → Phase t hold (all_before t hold ss && b) (strike (run c ss))
unfolding run
run-Phase t hold b c [] k n w p = p
run-Phase t hold b c (pass now r ∷ ss) k n w p =
    rw (and_shuffle (ltb (sub32 now t) hold) (all_before t hold ss) b) (
      run-Phase t hold (ltb (sub32 now t) hold && b) (step c (pass now r)) ss k n.1 w.2 (
        subst (Phase t hold (ltb (sub32 now t) hold && b))
          (sym (step_pass-strike c now r n.0 (idle b p)))
          (Phase-pass t hold b (strike c) now k w.0 w.1 p)))
  where
    idle : (b : Bool) → Phase t hold b (strike c) → c.sched_active ≡ false
    idle true p = p.1
    idle false p = p.1
run-Phase t hold b c (take granted ∷ ss) k n w p =
    run-Phase t hold b (step c (take granted)) ss k n.1 w
      (subst (Phase t hold b) (sym (step-take-strike c granted)) p)
run-Phase t hold b c (finish now ∷ ss) k n w p =
    run-Phase t hold b (step c (finish now)) ss k n.1 w
      (subst (Phase t hold b) (sym (step-strike c now n.0)) p)
run-Phase t hold b c (post e ∷ ss) k n w p =
    run-Phase t hold b (step c (post e)) ss k n.1 w
      (subst (Phase t hold b) (sym (step-post-strike c e)) p)

handle-Holding :
    (c : Controller) (t : ℕ) (e : AppEvent) (granted : Bool)
    → is_release e.type granted ≡ true
    → c.sched_active ≡ false
    → Holding t c.relay_hold_ms (strike (handle c t e granted))
unfolding handle
handle-Holding c t e granted r h = ground arith

pub released-Phase :
    (c : Controller) (t : ℕ) (e : AppEvent) (granted : Bool) (ss : List Step)
    → is_release e.type granted ≡ true
    → c.sched_active ≡ false
    → IsTimed t c.relay_hold_ms
    → NoUnlock (handle c t e granted) ss
    → Within t ss
    → Phase t c.relay_hold_ms
        (all_before t c.relay_hold_ms ss)
        (strike (run (handle c t e granted) ss))
released-Phase c t e granted ss r h k n w = rw (and_true (all_before t c.relay_hold_ms ss)) at (
    run-Phase t c.relay_hold_ms true (handle c t e granted) ss k n w
      (handle-Holding c t e granted r h))
  where
    and_true : (b : Bool) → (b && true) ≡ b
    and_true b = ground arith

Phase-relay : (t hold : ℕ) (b : Bool) (s : Strike) → Phase t hold b s → s.relay ≡ b
Phase-relay t hold true s p = p.0
Phase-relay t hold false s p = p.0

-- A granted tap, an exit request or a remote release, of which the access task comes back from the
-- buzzer at time `t`, with no unlock window
-- open and with a deadline that does not wrap to 0, energises the relay until exactly the first
-- pass of the loop that comes the hold time or more after `t`, whatever taps are denied, events
-- posted and contacts read meanwhile, if nothing else releases the door in the 2 ^ 31 ms after.
pub release_exact :
    (c : Controller) (t : ℕ) (e : AppEvent) (granted : Bool) (ss : List Step)
    → is_release e.type granted ≡ true
    → c.sched_active ≡ false
    → IsTimed t c.relay_hold_ms
    → NoUnlock (handle c t e granted) ss
    → Within t ss
    → (run (handle c t e granted) ss).relay ≡ all_before t c.relay_hold_ms ss
release_exact c t e granted ss r h k n w =
    Phase-relay t c.relay_hold_ms _ _ (released-Phase c t e granted ss r h k n w)

-- An energised relay with no deadline and no unlock window.
abbrev IsStuck : Strike → Type 0
IsStuck s = (s.relay ≡ true) × (s.sched_active ≡ false) × (s.relay_off_at ≡ 0)

not_due : (s : Strike) (now : ℕ) → IsStuck s → after_due (due s now) s ≡ s
not_due s now k = ap (λ x. after_due x s) no_deadline
  where
    no_deadline : due s now ≡ false
    no_deadline = ground arith

run-IsStuck :
    (c : Controller) (ss : List Step)
    → NoUnlock c ss
    → IsStuck (strike c)
    → IsStuck (strike (run c ss))
unfolding run
run-IsStuck c [] n k = k
run-IsStuck c (pass now r ∷ ss) n k =
    run-IsStuck (step c (pass now r)) ss n.1
      (subst IsStuck (sym (step_pass-strike c now r n.0 k.1 ∙ not_due (strike c) now k)) k)
run-IsStuck c (take granted ∷ ss) n k =
    run-IsStuck (step c (take granted)) ss n.1 (subst IsStuck (sym (step-take-strike c granted)) k)
run-IsStuck c (finish now ∷ ss) n k =
    run-IsStuck (step c (finish now)) ss n.1 (subst IsStuck (sym (step-strike c now n.0)) k)
run-IsStuck c (post e ∷ ss) n k =
    run-IsStuck (step c (post e)) ss n.1 (subst IsStuck (sym (step-post-strike c e)) k)

-- A release at a time whose deadline wraps to exactly 0 never ends by itself: the relay stays
-- energised over every run in which nothing else releases the door or opens the unlock window.
pub unending_release :
    (c : Controller) (t : ℕ) (e : AppEvent) (granted : Bool) (ss : List Step)
    → is_release e.type granted ≡ true
    → c.sched_active ≡ false
    → add32 t c.relay_hold_ms ≡ 0
    → NoUnlock (handle c t e granted) ss
    → (run (handle c t e granted) ss).relay ≡ true
unending_release c t e granted ss r h z n =
    let p = handle-Holding c t e granted r h in
    (run-IsStuck (handle c t e granted) ss n (p.0, p.1, p.2 ∙ z)).0
