-- ===== src/Controller/Contact.antt =====
-- The door contact around a release of the strike.
use rfid_access.Base.{ℕ, ◌+◌, ◌<◌, ◌≡◌, ◌≢◌, Bool, true, false, List, arith, sub32, u32_mod}
use rfid_access.Door
use rfid_access.Door.{DoorContact, forced}
use rfid_access.Door.Rules.{forced_iff}
use rfid_access.Controller.{
  Controller, AppEvent, Step, handle, run, door_inputs, door_release_grace_ms,
}
use rfid_access.Controller.Safety.{is_release, NoUnlock}
use rfid_access.Controller.Strike.{strike}
use rfid_access.Controller.Release.{Phase, Within, IsTimed, released-Phase}

Phase-released :
    (t hold : ℕ) (b : Bool) (c : Controller) (now : ℕ) (raw : Bool)
    → IsTimed t hold
    → now < u32_mod
    → sub32 now t < hold + door_release_grace_ms
    → Phase t hold b (strike c)
    → (door_inputs c now raw).released ≡ true
unfolding door_inputs
Phase-released t hold true c now raw k w l p = ground arith
Phase-released t hold false c now raw k w l p = ground arith

-- After a granted tap, an exit request or a remote release handled at time `t`, with no unlock
-- window open and a deadline that does not wrap to 0, and over any run in which nothing else
-- releases the door: a reading of the contact less than the hold time and two seconds of grace
-- after `t` counts as released, so that the contact never reports the door as forced.
pub release_not_forced :
    (c : Controller) (t : ℕ) (e : AppEvent) (granted : Bool) (ss : List Step) (now : ℕ) (raw : Bool)
    → is_release e.type granted ≡ true
    → c.sched_active ≡ false
    → IsTimed t c.relay_hold_ms
    → NoUnlock (handle c t e granted) ss
    → Within t ss
    → now < u32_mod
    → sub32 now t < c.relay_hold_ms + door_release_grace_ms
    → let c' = run (handle c t e granted) ss in
      ((door_inputs c' now raw).released ≡ true)
      × ((Door.update c'.door now (door_inputs c' now raw)).1 ≢ forced)
release_not_forced c t e granted ss now raw r h k n w m l =
    let c' = run (handle c t e granted) ss in
    let p =
      Phase-released t c.relay_hold_ms _ c' now raw k m l
        (released-Phase c t e granted ss r h k n w) in
    (p, λ f. excuse p ((forced_iff c'.door now (door_inputs c' now raw)).0 f).2)
  where
    excuse : {b : Bool} → b ≡ true → b ≡ false → ⊥
    excuse p q = cc
