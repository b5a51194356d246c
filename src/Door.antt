-- ===== src/Door.antt =====
-- lib/DoorContact/DoorContact.h and DoorContact.cpp: the debounced door position, and the decision
-- whether the door was forced, is held open, or has closed after being held. Times are `uint32_t`
-- milliseconds, and differences of times wrap.
pub mod Rules
pub mod Trace
pub mod Balance
pub mod Excuse
pub mod Alarm
mod Tests
use rfid_access.Base.{
  ℕ, ◌≡◌, Bool, true, false, not, ◌&&◌, ◌||◌, List, [], ◌∷◌, leb, ltb, if◌then◌else◌, sub32,
}

-- DoorContact::Event; `quiet` is the source's NONE.
pub data Event : Type 0 where
  quiet forced held held_closed : Event

-- DoorContact::Inputs.
pub record Inputs : Type 0 where
  pub raw_open : Bool
  pub released : Bool
  pub schedule_open : Bool

-- The private fields of the class, without the underscores.
pub record DoorContact : Type 0 where
  pub is_open : Bool
  pub pending : Bool
  pub pending_since : ℕ
  pub opened_at : ℕ
  pub held_timing : Bool
  pub held_from : ℕ
  pub held_reported : Bool
  pub was_forced : Bool
  pub last_open_ms : ℕ
  pub held_limit_ms : ℕ

abbrev pub debounce_ms : ℕ
debounce_ms = 150

unfoldable pub begin : DoorContact → ℕ → Bool → ℕ → DoorContact
begin d now raw limit = record d {
  is_open = raw;
  pending = false;
  opened_at = now;
  held_timing = raw;
  held_from = now;
  held_reported = false;
  was_forced = false;
  last_open_ms = 0;
  held_limit_ms = limit;
}

abbrev pub xor_bool : Bool → Bool → Bool
xor_bool true b = not b
xor_bool false b = b

abbrev pub authorised : Inputs → Bool
authorised i = i.released || i.schedule_open

-- The debounce block: the new state, and whether the debounced position changed.
unfoldable pub debounce : DoorContact → ℕ → Inputs → DoorContact × Bool
debounce d now i =
    if xor_bool i.raw_open d.is_open
    then (if not d.pending
        then (record d { pending = true; pending_since = now }, false)
        else if leb debounce_ms (sub32 now d.pending_since)
        then (record d { pending = false; is_open = i.raw_open }, true)
        else (d, false))
    else (record d { pending = false }, false)

-- The "opened" block.
unfoldable pub on_opened : DoorContact → ℕ → Inputs → DoorContact × Event
on_opened d now i =
    let unauthorised = not (authorised i) in
    (
      record d {
        opened_at = now;
        held_reported = false;
        was_forced = unauthorised;
        held_timing = unauthorised;
        held_from = now;
      },
      if unauthorised then forced else quiet,
    )

-- The "closed" block.
unfoldable pub on_closed : DoorContact → ℕ → DoorContact × Event
on_closed d now = (
  record d {
    last_open_ms = sub32 now d.opened_at;
    held_timing = false;
    held_reported = false;
    was_forced = false;
  },
  if d.held_reported then held_closed else quiet,
)

-- The clock of the "still open" block: stopped while authorised, else started if it is not running.
unfoldable pub time_held : DoorContact → ℕ → Inputs → DoorContact
time_held d now i =
    if authorised i
    then record d { held_timing = false }
    else if not d.held_timing
    then record d { held_timing = true; held_from = now }
    else d

-- The rest of the "still open" block.
unfoldable pub still_open : DoorContact → ℕ → Inputs → DoorContact × Event
unfolding time_held
still_open d now i =
    let t = time_held d now i in
    if t.held_timing
      && not t.held_reported
      && ltb 0 t.held_limit_ms
      && leb t.held_limit_ms (sub32 now t.held_from)
    then (record t { held_reported = true }, held)
    else (t, quiet)

-- DoorContact::update behind the debounce.
unfoldable pub decide : DoorContact → Bool → ℕ → Inputs → DoorContact × Event
unfolding on_opened on_closed still_open
decide d changed now i =
    if changed && d.is_open
    then on_opened d now i
    else if changed && not d.is_open
    then on_closed d now
    else if d.is_open
    then still_open d now i
    else (d, quiet)

-- DoorContact::update.
unfoldable pub update : DoorContact → ℕ → Inputs → DoorContact × Event
unfolding debounce decide
update d now i = let (d', changed) = debounce d now i in decide d' changed now i

-- openForMs.
unfoldable pub open_for_ms : DoorContact → ℕ → ℕ
open_for_ms d now = if d.is_open then sub32 now d.opened_at else 0

-- One call of `update` with the time that it reads.
pub record Sample : Type 0 where
  pub at : ℕ
  pub inputs : Inputs

-- The calls of `update` in order, and the events that they return.
unfoldable pub run : DoorContact → List Sample → DoorContact × List Event
run d [] = (d, [])
run d (s ∷ ss) = let (d', e) = update d s.at s.inputs in let (d'', es) = run d' ss in (d'', e ∷ es)
