-- ===== src/Ring/Index.antt =====
-- Positions in a ring, without remainders.
use native.Mathlib.Nat.{mod-eq_of_lt, mod-eq-sub-mod}
use rfid_access.Base.{
  ℕ, suc, ◌+◌, ◌-◌, ◌%◌, ◌≤◌, ◌<◌, ◌≡◌, ◌∙◌, inl, inr, arith, ltb, ◌==◌, if◌then◌else◌, Bool-cases,
  ltb→lt,
}

mod_wrap : (a n : ℕ) → n ≤ a → a < n + n → a % n ≡ a - n
mod_wrap a n h k = mod-eq-sub-mod h ∙ mod-eq_of_lt (omega arith)

-- The position `i + 1` places before the head.
abbrev pub back : ℕ → ℕ → ℕ → ℕ
back size head i = if ltb i head then head - (i + 1) else head + size - (i + 1)

pub back_lem :
    (size head i : ℕ) → head < size → i < size → (head + size - (i + 1)) % size ≡ back size head i
back_lem size head i h k = elim (Bool-cases (ltb i head)) [
  | inl e ↦
      rw e (mod_wrap (head + size - (i + 1)) size (ground arith) (ground arith) ∙ ground arith)
  | inr e ↦ rw e (mod-eq_of_lt (ground arith))
]

abbrev pub next : ℕ → ℕ → ℕ
next size head = if head + 1 == size then 0 else head + 1

pub next_lem : (size head : ℕ) → head < size → (head + 1) % size ≡ next size head
next_lem size head h = elim (Bool-cases (head + 1 == size)) [
  | inl e ↦ rw e (mod_wrap (head + 1) size (ground arith) (ground arith) ∙ ground arith)
  | inr e ↦ rw e (mod-eq_of_lt (ground arith))
]

pub front_lem :
    (size start i : ℕ)
    → start < size
    → i < size
    → (start + i) % size ≡ (if ltb (start + i) size then start + i else start + i - size)
front_lem size start i h k = elim (Bool-cases (ltb (start + i) size)) [
  | inl e ↦ rw e (mod-eq_of_lt (ground arith))
  | inr e ↦ rw e (mod_wrap (start + i) size (ground arith) (omega arith))
]

pub back-next_zero : (size head : ℕ) → head < size → back size (next size head) 0 ≡ head
back-next_zero size head h = ground arith

pub back-next_suc :
    (size head j : ℕ)
    → head < size
    → suc j < size
    → back size (next size head) (suc j) ≡ back size head j
back-next_suc size head j h k = ground arith

pub back_ne : (size head j : ℕ) → head < size → suc j < size → head ≡ back size head j → ⊥
back_ne size head j h k e = ground arith

-- The first entry stands at 0 until the ring is full, and at the head from then on.
pub back-first :
    (size head count i : ℕ)
    → head < size
    → count ≤ size
    → (count < size → head ≡ count)
    → i < count
    → ((if ltb count size then 0 else head) + i) % size ≡ back size head (count - suc i)
back-first size head count i hd ct full h = elim (Bool-cases (ltb count size)) [
  | inl e ↦ let eq = full (ltb→lt count size e) in rw e (mod-eq_of_lt (omega arith) ∙ ground arith)
  | inr e ↦ rw (e, front_lem size head i hd (omega arith)) (ground arith)
]
