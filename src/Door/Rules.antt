-- ===== src/Door/Rules.antt =====
-- What one call of `update` decides.
use rfid_access.Base.{ℕ, ◌≤◌, ◌≡◌, ◌↔◌, true, false, not, arith, sub32}
use rfid_access.Door.{forced, held_closed, Inputs, DoorContact, debounce_ms, update}

-- FORCED is returned exactly when the debounced position goes from closed to open on a tick at
-- which neither a release nor an unlock window is in effect.
pub forced_iff :
    (d : DoorContact) (now : ℕ) (i : Inputs)
    → ((update d now i).1 ≡ forced) ↔ (
        (d.is_open ≡ false)
        × ((update d now i).0.is_open ≡ true)
        × (i.released ≡ false)
        × (i.schedule_open ≡ false))
unfolding update
forced_iff d now i = (ground arith, ground arith)

-- The debounced position changes on a tick exactly when the raw reading disagrees with it, the
-- disagreement was already pending, and it has been pending for at least 150 ms; then the new
-- position is the raw reading.
pub debounce_iff :
    (d : DoorContact) (now : ℕ) (i : Inputs)
    → ((update d now i).0.is_open ≡ not d.is_open) ↔ (
        (i.raw_open ≡ not d.is_open)
        × (d.pending ≡ true)
        × (debounce_ms ≤ sub32 now d.pending_since))
unfolding update
debounce_iff d now i = (ground arith, ground arith)

-- HELD_CLOSED is returned exactly when a door that was reported held open goes to closed.
pub held_closed_iff :
    (d : DoorContact) (now : ℕ) (i : Inputs)
    → ((update d now i).1 ≡ held_closed)
      ↔ ((d.is_open ≡ true) × ((update d now i).0.is_open ≡ false) × (d.held_reported ≡ true))
unfolding update
held_closed_iff d now i = (ground arith, ground arith)
