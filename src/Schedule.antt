-- ===== src/Schedule.antt =====
-- lib/UnlockSchedule/UnlockSchedule.h and UnlockSchedule.cpp: the daily window in which the door is
-- held unlocked. What time() and localtime_r() answer is an argument. Preferences keeps what was
-- put and answers the default for a key that was never put.
pub mod Week
pub mod Stored
mod Tests
use rfid_access.Base.{
  ℕ, zero, suc, ◌+◌, ◌*◌, ◌/◌, ◌%◌, min, Bool, true, false, not, ◌&&◌, ◌||◌, Option, none, some,
  ltb, leb, ◌==◌, if◌then◌else◌,
}

-- The private fields of the class.
pub record UnlockSchedule : Type 0 where
  pub is_enabled : Bool
  pub start_min : ℕ
  pub end_min : ℕ
  pub days_mask : ℕ

-- The keys "en", "start", "end" and "days" of the name space "sched".
pub record Prefs : Type 0 where
  pub en : Option Bool
  pub start : Option ℕ
  pub stop : Option ℕ
  pub days : Option ℕ

-- time(), and tm_hour, tm_min and tm_wday of localtime_r(); 0 is Sunday.
pub record Moment : Type 0 where
  pub now : ℕ
  pub hour : ℕ
  pub minute : ℕ
  pub wday : ℕ

abbrev pub get_default {ℓ} : {A : Type ℓ} → Option A → A → A
get_default none d = d
get_default (some a) d = a

unfoldable pub begin : Prefs → UnlockSchedule
begin p = record {
  is_enabled = get_default p.en false;
  start_min = get_default p.start 0;
  end_min = get_default p.stop 0;
  days_mask = get_default p.days 0;
}

unfoldable pub save : UnlockSchedule → Prefs
save s = record {
  en = some s.is_enabled;
  start = some s.start_min;
  stop = some s.end_min;
  days = some s.days_mask;
}

-- set: the schedule, and what NVS holds from then on; `& 0x7F` is the remainder by 128.
unfoldable pub set : Bool → ℕ → ℕ → ℕ → UnlockSchedule × Prefs
unfolding save
set enabled start_min end_min days_mask =
    let s : UnlockSchedule = record {
      is_enabled = enabled;
      start_min = min start_min 1439;
      end_min = min end_min 1439;
      days_mask = days_mask % 128;
    } in
    (s, save s)

abbrev pub time_valid : ℕ → Bool
time_valid now = ltb 1700000000 now

unfoldable pub shift_right : ℕ → ℕ → ℕ
shift_right mask zero = mask
shift_right mask (suc k) = shift_right (mask / 2) k

-- `(_daysMask >> day) & 1`.
unfoldable pub on_day : ℕ → ℕ → Bool
on_day mask day = shift_right mask day % 2 == 1

unfoldable pub is_active_now : UnlockSchedule → Moment → Bool
is_active_now s m =
    let cur = m.hour * 60 + m.minute in
    let yesterday = (m.wday + 6) % 7 in
    if not s.is_enabled || s.days_mask == 0 || s.start_min == s.end_min
    then false
    else if not (time_valid m.now)
    then false
    else if ltb s.start_min s.end_min
    then on_day s.days_mask m.wday && leb s.start_min cur && ltb cur s.end_min
    else (on_day s.days_mask m.wday && leb s.start_min cur)
      || (on_day s.days_mask yesterday && ltb cur s.end_min)
