-- ===== src/Web/Device.antt =====
-- lib/WebService and lib/DeviceSettings: what a post of /setup saves of the settings that every device
-- has, and the restart that /reboot asks for. The settings store is bound; what String::toInt makes of
-- a text, its sign and its size, is the argument `to_int`.
use rfid_access.Base.{
  ℕ, ◌+◌, ◌≤◌, ◌<◌, ◌≡◌, refl, sym, ap, subst, Bool, true, false, not, ◌&&◌, List, [], ◌∷◌, Option,
  none, some, arith, ltb, ◌==◌, if◌then◌else◌, if_then, if_else, Text, is_empty, add32, u32_mod,
  reached, All,
}

-- What NVS holds, the label in use, and when to restart, 0 for never.
pub record Pages : Type 0 where
  pub splash_hold_sec : ℕ
  pub diag_hold_sec : ℕ
  pub board : Text
  pub hostname : Text
  pub label : Text
  pub reboot_at : ℕ

pub record Posted : Type 0 where
  pub splash_hold : Option Text
  pub diag_hold : Option Text
  pub board : Option Text
  pub hostname : Option Text

abbrev pub at_most_60 : Bool × ℕ → ℕ
at_most_60 (negative, n) = if negative then 0 else if ltb 60 n then 60 else n

abbrev pub saved_sec : (Text → Bool × ℕ) → Option Text → ℕ → ℕ
saved_sec to_int none current = current
saved_sec to_int (some arg) current = at_most_60 (to_int arg)

abbrev pub saved_text : Option Text → Text → Text
saved_text none current = current
saved_text (some arg) current = arg

abbrev pub relabelled : Option Text → Text → Text
relabelled none current = current
relabelled (some arg) current = if is_empty arg then current else arg

-- handleSetupPost, in front of the project's own fields.
unfoldable pub handle_setup_post : (Text → Bool × ℕ) → Pages → Posted → Pages
handle_setup_post to_int p f = record p {
  splash_hold_sec = saved_sec to_int f.splash_hold p.splash_hold_sec;
  diag_hold_sec = saved_sec to_int f.diag_hold p.diag_hold_sec;
  board = saved_text f.board p.board;
  hostname = saved_text f.hostname p.hostname;
  label = relabelled f.hostname p.label;
}

unfoldable pub handle_reboot_post : Pages → ℕ → Pages
handle_reboot_post p now = record p { reboot_at = add32 now 1200 }

-- The block of driverTask: the state, and whether the device restarts.
unfoldable pub reboot_poll : Pages → ℕ → Pages × Bool
reboot_poll p now =
    if not (p.reboot_at == 0) && reached now p.reboot_at
    then (record p { reboot_at = 0 }, true)
    else (p, false)

-- The rounds of the task, up to a restart: whether there is one.
unfoldable pub rounds : Pages → List ℕ → Bool
unfolding reboot_poll
rounds p [] = false
rounds p (now ∷ times) =
    let (p', restart) = reboot_poll p now in
    let rest = rounds p' times in if restart then true else rest

poll_waits :
    (p : Pages) (now : ℕ) → reached now p.reboot_at ≡ false → reboot_poll p now ≡ (p, false)
unfolding reboot_poll
poll_waits p now h =
    if_else (not (p.reboot_at == 0) && reached now p.reboot_at) (record p { reboot_at = 0 }, true)
      (p, false) (and_false (not (p.reboot_at == 0)) (reached now p.reboot_at) h)
  where
    and_false : (a b : Bool) → b ≡ false → (a && b) ≡ false
    and_false true b h = h
    and_false false b h = refl

abbrev pub Within : ℕ → ℕ → Type 0
Within t now = (t ≤ now) × (now < t + 1200)

waits : (t now : ℕ) → Within t now → t + 1200 < u32_mod → reached now (add32 t 1200) ≡ false
waits t now h k = ground arith

due :
    (t now : ℕ)
    → t + 1200 ≤ now
    → now < u32_mod
    → now < t + 1200 + 2147483648
    → (not (add32 t 1200 == 0) && reached now (add32 t 1200)) ≡ true
due t now a b c = ground arith

rounds-wait :
    (p : Pages) (t : ℕ) (times : List ℕ)
    → p.reboot_at ≡ add32 t 1200
    → t + 1200 < u32_mod
    → All (Within t) times
    → rounds p times ≡ false
unfolding rounds
rounds-wait p t [] e k h = refl
rounds-wait p t (now ∷ times) e k (w, h) =
    rw (poll_waits p now (subst (λ d. reached now d ≡ false) (sym e) (waits t now w k)))
      (rounds-wait p t times e k h)

-- A restart that is asked for at time `t` does not come in the 1.2 s after, in which the answer goes
-- out, and comes with the first round of the task from then on, if that is less than 2 ^ 31 ms later
-- and the times have not wrapped.
pub reboot_comes :
    (p : Pages) (t now : ℕ) (times : List ℕ)
    → All (Within t) times
    → t + 1200 ≤ now
    → now < u32_mod
    → now < t + 1200 + 2147483648
    → let asked = handle_reboot_post p t in
      (rounds asked times ≡ false) × ((reboot_poll asked now).1 ≡ true)
unfolding handle_reboot_post reboot_poll
reboot_comes p t now times h a b c = (
  rounds-wait (record p { reboot_at = add32 t 1200 }) t times refl (omega arith) h,
  ap (λ (v : Pages × Bool). v.1)
      (if_then (not (add32 t 1200 == 0) && reached now (add32 t 1200))
        (record p { reboot_at = 0 }, true) (record p { reboot_at = add32 t 1200 }, false)
        (due t now a b c)),
)
