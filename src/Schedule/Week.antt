-- ===== src/Schedule/Week.antt =====
-- The unlock window against the minutes of a week.
use rfid_access.Base.{
  false-true, ℕ, zero, suc, ◌+◌, ◌-◌, ◌*◌, ◌%◌, ◌≤◌, ◌<◌, ◌≡◌, refl, sym, ap, ◌∙◌, ◌↔◌, ◌⊎◌, inl,
  inr, Bool, true, false, ◌&&◌, ◌||◌, arith, ltb, leb, ◌==◌, Bool-cases, if◌then◌else◌,
}
use rfid_access.Schedule.{UnlockSchedule, Moment, shift_right, on_day, is_active_now}

abbrev pub week_minutes : ℕ
week_minutes = 10080

-- The minute of the week, counted from Sunday's midnight.
abbrev pub week_minute : ℕ → ℕ → ℕ
week_minute day minute = day * 1440 + minute

-- How long ago, within the week, minute `b` was at minute `a`.
abbrev pub since : ℕ → ℕ → ℕ
since a b = (a + week_minutes - b) % week_minutes

-- The length of a window; one whose end is its start is empty.
abbrev pub window_length : ℕ → ℕ → ℕ
window_length start stop = (stop + 1440 - start) % 1440

shift_right-zero : (k : ℕ) → shift_right 0 k ≡ 0
unfolding shift_right
shift_right-zero zero = refl
shift_right-zero (suc k) = shift_right-zero k

on_day-zero : (day : ℕ) → on_day 0 day ≡ false
unfolding on_day
on_day-zero day = rw (shift_right-zero day) refl

-- Within a day's window: on the day itself, or on the morning after where the window passes
-- midnight.
abbrev Within : ℕ → ℕ → ℕ → ℕ → ℕ → Type 0
Within today cur day start stop =
    since (week_minute today cur) (week_minute day start) < window_length start stop

same_day :
    (today cur day start stop : ℕ)
    → today < 7
    → cur < 1440
    → day < 7
    → start < stop
    → stop < 1440
    → Within today cur day start stop ↔ ((day ≡ today) × (start ≤ cur) × (cur < stop))
same_day today cur day start stop ht hc hd hs he = ground arith

overnight :
    (today cur day start stop : ℕ)
    → today < 7
    → cur < 1440
    → day < 7
    → stop < start
    → start < 1440
    → Within today cur day start stop
      ↔ (((day ≡ today) × (start ≤ cur)) ⊎ ((day ≡ (today + 6) % 7) × (cur < stop)))
overnight today cur day start stop ht hc hd hs he = ground arith

-- Some enabled day's window holds the minute.
abbrev pub Covered : ℕ → ℕ → ℕ → ℕ → ℕ → Type 0
Covered days today cur start stop =
    (day : ℕ) × (day < 7)
    × (on_day days day ≡ true)
    × (since (week_minute today cur) (week_minute day start) < window_length start stop)

Covered-same_day :
    (days today cur start stop : ℕ)
    → today < 7
    → cur < 1440
    → start < stop
    → stop < 1440
    → Covered days today cur start stop
      ↔ ((on_day days today && (leb start cur && ltb cur stop)) ≡ true)
Covered-same_day days today cur start stop ht hc hs he = (
  λ (day, hd, on, w).
      let e = (same_day today cur day start stop ht hc hd hs he).0 w in
      ground (arith, ap (on_day days) e.0),
  λ h. (
    today,
    ht,
    ground arith,
    (same_day today cur today start stop ht hc ht hs he).1 (refl, ground arith, ground arith),
  ),
)

Covered-overnight :
    (days today cur start stop : ℕ)
    → today < 7
    → cur < 1440
    → stop < start
    → start < 1440
    → Covered days today cur start stop ↔ (
        ((on_day days today && leb start cur) || (on_day days ((today + 6) % 7) && ltb cur stop))
        ≡ true)
Covered-overnight days today cur start stop ht hc hs he = (
  λ (day, hd, on, w). elim ((overnight today cur day start stop ht hc hd hs he).0 w) [
    | inl a ↦ ground (arith, ap (on_day days) a.0)
    | inr b ↦ ground (arith, ap (on_day days) b.0)
  ],
  λ h. elim (Bool-cases (on_day days today && leb start cur)) [
    | inl e ↦ (
      today,
      ht,
      ground arith,
      (overnight today cur today start stop ht hc ht hs he).1 (inl (refl, ground arith)),
    )
    | inr e ↦
        let hy : (today + 6) % 7 < 7 = omega arith in
        (
          (today + 6) % 7,
          hy,
          ground arith,
          (overnight today cur ((today + 6) % 7) start stop ht hc hy hs he).1
              (inr (refl, ground arith)),
        )
  ],
)

three_way : (a b : ℕ) → (a < b) ⊎ ((a ≡ b) ⊎ (b < a))
three_way a b = ground arith

Covered-no_days : (today cur start stop : ℕ) → Covered 0 today cur start stop → false ≡ true
Covered-no_days today cur start stop (day, hd, on, w) = sym (on_day-zero day) ∙ on

Covered-empty :
    (days today cur start stop : ℕ)
    → start ≡ stop
    → Covered days today cur start stop
    → false ≡ true
Covered-empty days today cur start stop e (day, hd, on, w) = ground arith

-- The tests of isActiveNow behind the enabled flag and the clock.
abbrev window_test : ℕ → ℕ → ℕ → ℕ → ℕ → Bool
window_test days today cur start stop =
    if days == 0 || start == stop
    then false
    else if ltb start stop
    then on_day days today && leb start cur && ltb cur stop
    else (on_day days today && leb start cur) || (on_day days ((today + 6) % 7) && ltb cur stop)

Covered-test :
    (days today cur start stop : ℕ)
    → today < 7
    → cur < 1440
    → start < 1440
    → stop < 1440
    → Covered days today cur start stop
    → window_test days today cur start stop ≡ true
Covered-test zero today cur start stop ht hc hs he c = Covered-no_days today cur start stop c
Covered-test (suc d) today cur start stop ht hc hs he c = elim (three_way start stop) [
  | inl lt ↦ ground (arith, (Covered-same_day (suc d) today cur start stop ht hc lt he).0 c)
  | inr (inl eq) ↦ absurd (false-true (Covered-empty (suc d) today cur start stop eq c))
  | inr (inr gt) ↦ ground (arith, (Covered-overnight (suc d) today cur start stop ht hc gt hs).0 c)
]

test_Covered :
    (days today cur start stop : ℕ)
    → today < 7
    → cur < 1440
    → start < 1440
    → stop < 1440
    → window_test days today cur start stop ≡ true
    → Covered days today cur start stop
test_Covered days today cur start stop ht hc hs he h = elim (three_way start stop) [
  | inl lt ↦ (Covered-same_day days today cur start stop ht hc lt he).1 (ground arith)
  | inr (inl eq) ↦ absurd (false-true (ground arith))
  | inr (inr gt) ↦ (Covered-overnight days today cur start stop ht hc gt hs).1 (ground arith)
]

-- The door is held unlocked exactly when the schedule is enabled, the clock was synchronised, and
-- the minute of the week lies in a window that began on an enabled day, at the start minute, and
-- lasts to the end minute, past midnight where that is the earlier one.
pub active_iff :
    (s : UnlockSchedule) (m : Moment)
    → s.start_min < 1440
    → s.end_min < 1440
    → m.wday < 7
    → m.hour < 24
    → m.minute < 60
    → (is_active_now s m ≡ true) ↔ (
        (s.is_enabled ≡ true)
        × (1700000000 < m.now)
        × Covered s.days_mask m.wday (m.hour * 60 + m.minute) s.start_min s.end_min)
unfolding is_active_now
active_iff s m hs he hw hh hm =
    let cur = m.hour * 60 + m.minute in
    let hc : cur < 1440 = omega arith in
    (
      λ h. (
        ground arith,
        ground arith,
        test_Covered s.days_mask m.wday cur s.start_min s.end_min hw hc hs he (ground arith),
      ),
      λ (en, valid, c).
          ground (arith, Covered-test s.days_mask m.wday cur s.start_min s.end_min hw hc hs he c),
    )
