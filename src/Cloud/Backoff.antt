-- ===== src/Cloud/Backoff.antt =====
-- How long the task waits for the next sync.
use rfid_access.Base.{
  ℕ, zero, suc, ◌+◌, ◌*◌, ◌%◌, ◌≤◌, ◌<◌, ◌≡◌, refl, ◌⊎◌, inl, inr, Bool, true, false, ◌||◌, List,
  [], ◌∷◌, some, arith, ltb, length, All, Text, Bool-cases, ltb→ge,
}
use rfid_access.Cloud.Task.{next_wait, jitter, fold_id, Pass, wait_loop}

-- The waits without the jitter, for 0, 1, 2 … failures in a row.
abbrev base_wait : ℕ → ℕ
base_wait zero = 30000
base_wait (suc zero) = 30000
base_wait (suc (suc zero)) = 60000
base_wait (suc (suc (suc zero))) = 120000
base_wait (suc (suc (suc (suc zero)))) = 240000
base_wait (suc (suc (suc (suc (suc zero))))) = 480000
base_wait (suc (suc (suc (suc (suc (suc n)))))) = 900000

next_wait-base : (failures j : ℕ) → next_wait failures j ≡ base_wait failures + j
unfolding next_wait
next_wait-base zero j = refl
next_wait-base (suc zero) j = refl
next_wait-base (suc (suc zero)) j = refl
next_wait-base (suc (suc (suc zero))) j = refl
next_wait-base (suc (suc (suc (suc zero)))) j = refl
next_wait-base (suc (suc (suc (suc (suc zero))))) j = refl
next_wait-base (suc (suc (suc (suc (suc (suc n)))))) j =
    let many : ltb 5 (suc (suc (suc (suc (suc (suc n)))))) ≡ true = ground arith in
    let failing : ltb 0 (suc (suc (suc (suc (suc (suc n)))))) ≡ true = ground arith in
    rw (many, failing) refl

base_wait-bounds : (n : ℕ) → (30000 ≤ base_wait n) × (base_wait n ≤ 900000)
base_wait-bounds zero = omega arith
base_wait-bounds (suc zero) = omega arith
base_wait-bounds (suc (suc zero)) = omega arith
base_wait-bounds (suc (suc (suc zero))) = omega arith
base_wait-bounds (suc (suc (suc (suc zero)))) = omega arith
base_wait-bounds (suc (suc (suc (suc (suc zero))))) = omega arith
base_wait-bounds (suc (suc (suc (suc (suc (suc n)))))) = omega arith

base_wait-step : (n : ℕ) → base_wait n ≤ base_wait (suc n)
base_wait-step zero = omega arith
base_wait-step (suc zero) = omega arith
base_wait-step (suc (suc zero)) = omega arith
base_wait-step (suc (suc (suc zero))) = omega arith
base_wait-step (suc (suc (suc (suc zero)))) = omega arith
base_wait-step (suc (suc (suc (suc (suc zero))))) = omega arith
base_wait-step (suc (suc (suc (suc (suc (suc n)))))) = omega arith

-- A door waits between 30 seconds and 15 minutes, with its jitter of less than 7 seconds on top; one
-- more failure never shortens the wait, and without failures it is the 30 seconds.
pub next_wait_bounds :
    (failures : ℕ) (id : Text)
    → let wait = next_wait failures (jitter id) in
      (30000 ≤ wait)
      × (wait < 907000)
      × (wait ≤ next_wait (suc failures) (jitter id))
      × (next_wait 0 (jitter id) < 37000)
unfolding jitter
next_wait_bounds failures id =
    let j = fold_id 0 id % 7000 in
    let (lo, hi) = base_wait-bounds failures in
    let up = base_wait-step failures in
    rw (next_wait-base failures j, next_wait-base (suc failures) j, next_wait-base 0 j)
      (omega arith, omega arith, omega arith, omega arith)

abbrev pub any_asked : List Pass → Bool
any_asked [] = false
any_asked (p ∷ ps) = p.asked || any_asked ps

wait_loop-from :
    (wait elapsed : ℕ) (ps : List Pass)
    → All (λ (p : Pass). 250 ≤ p.took) ps
    → wait ≤ elapsed + length ps * 250
    → (e : ℕ) × (wait_loop wait elapsed ps ≡ some e) × ((wait ≤ e) ⊎ (any_asked ps ≡ true))
unfolding wait_loop
wait_loop-from wait elapsed [] a h =
    let over : ltb elapsed wait ≡ false = ground arith in
    rw over (elapsed, refl, inl (ltb→ge elapsed wait over))
wait_loop-from wait elapsed (p ∷ ps) a h = elim (Bool-cases (ltb elapsed wait)) [
  | inr over ↦ rw over (elapsed, refl, inl (ltb→ge elapsed wait over))
  | inl early ↦ elim (Bool-cases p.asked) [
    | inl k ↦ rw (early, k) (elapsed, refl, inr refl)
    | inr k ↦
        let (e, found, why) = wait_loop-from wait (elapsed + p.took) ps a.1 (omega (arith, a.0)) in
        rw (early, k) (e, found, why)
  ]
]

-- The wait for the next sync ends: where each pass takes its 250 ms or more, within as many passes as
-- these make up the wait, and it ends before the wait is over only if a sync was asked for.
pub wait_ends :
    (failures : ℕ) (id : Text) (ps : List Pass)
    → All (λ (p : Pass). 250 ≤ p.took) ps
    → next_wait failures (jitter id) ≤ length ps * 250
    → (e : ℕ) × (wait_loop (next_wait failures (jitter id)) 0 ps ≡ some e)
      × ((next_wait failures (jitter id) ≤ e) ⊎ (any_asked ps ≡ true))
wait_ends failures id ps a h =
    wait_loop-from (next_wait failures (jitter id)) 0 ps a (omega (arith, h))
