-- ===== src/Schedule/Stored.antt =====
-- What the stored schedule is after a change and after a restart.
use rfid_access.Base.{ℕ, ◌≤◌, ◌≡◌, refl, Bool, arith}
use rfid_access.Schedule.{begin, set, save}

-- A schedule that was set has its minutes within a day and its days within a week, and is the one
-- that the next boot reads back.
pub begin-set :
    (enabled : Bool) (start stop days : ℕ)
    → let (s, stored) = set enabled start stop days in
      (begin stored ≡ s) × (s.start_min ≤ 1439) × (s.end_min ≤ 1439) × (s.days_mask ≤ 127)
unfolding begin set save
begin-set enabled start stop days = (refl, omega arith, omega arith, omega arith)
