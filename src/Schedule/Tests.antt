-- ===== src/Schedule/Tests.antt =====
-- A schedule from 22:00 to 06:00 on Sundays and Fridays, and instances of the theorems.
use rfid_access.Base.{◌<◌, ◌≡◌, refl, ◌↔◌, true, false, arith}
use rfid_access.Schedule.{UnlockSchedule, Moment, shift_right, on_day, is_active_now}
use rfid_access.Schedule.Week.{Covered, active_iff}

abbrev nights : UnlockSchedule
nights = record { is_enabled = true; start_min = 1320; end_min = 360; days_mask = 33 }

-- Saturday, 05:59, the morning after Friday.
abbrev saturday : Moment
saturday = record { now = 1800000000; hour = 5; minute = 59; wday = 6 }

saturday_active : is_active_now nights saturday ≡ true
unfolding is_active_now on_day shift_right
saturday_active = refl

saturday_late : is_active_now nights (record saturday { hour = 6; minute = 0 }) ≡ false
unfolding is_active_now on_day shift_right
saturday_late = refl

unsynchronised : is_active_now nights (record saturday { now = 100 }) ≡ false
unfolding is_active_now on_day shift_right
unsynchronised = refl

active_iff_example :
    (is_active_now nights saturday ≡ true)
    ↔ ((true ≡ true) × (1700000000 < 1800000000) × Covered 33 6 359 1320 360)
active_iff_example =
    active_iff nights saturday (omega arith) (omega arith) (omega arith) (omega arith) (omega arith)
