-- ===== src/Ring.antt =====
-- The ring buffers of lib/AccessControl (the last taps) and lib/WebService (the last log lines): an
-- array of fixed size, the position of the next write, and the number of entries written so far, up
-- to the size. `blank` is what the array is initialised with.
pub mod Index
pub mod History
mod Tests
use rfid_access.Base.{
  ℕ, zero, suc, ◌+◌, ◌-◌, ◌%◌, List, [], ◌∷◌, ltb, if◌then◌else◌, get_or, set, replicate,
}

pub record Ring (A : Type 0) : Type 0 where
  pub slots : List A
  pub head : ℕ
  pub count : ℕ

module _ {A : Type 0} where
  unfoldable pub fresh : ℕ → A → Ring A
  fresh size blank = record { slots = replicate size blank; head = 0; count = 0 }

  -- The three statements that write an entry.
  unfoldable pub push : ℕ → A → Ring A → Ring A
  push size a r = record {
    slots = set r.slots r.head a;
    head = (r.head + 1) % size;
    count = if ltb r.count size then r.count + 1 else r.count;
  }

  -- Entries written in order.
  unfoldable pub push_all : ℕ → List A → Ring A → Ring A
  unfolding push
  push_all size [] r = r
  push_all size (e ∷ es) r = push_all size es (push size e r)

  -- The loop from `i` on over the `k` entries that are left, the last written first.
  unfoldable pub newest_from : ℕ → A → Ring A → ℕ → ℕ → List A
  newest_from size blank r i zero = []
  newest_from size blank r i (suc k) =
      get_or r.slots ((r.head + size - (i + 1)) % size) blank ∷ newest_from size blank r (suc i) k

  unfoldable pub newest_first : ℕ → A → Ring A → List A
  unfolding newest_from
  newest_first size blank r = newest_from size blank r 0 r.count

  -- The loop from `i` on over the `k` entries that are left, the first written first.
  unfoldable pub oldest_from : ℕ → A → Ring A → ℕ → ℕ → List A
  oldest_from size blank r i zero = []
  oldest_from size blank r i (suc k) =
      let start = if ltb r.count size then 0 else r.head in
      get_or r.slots ((start + i) % size) blank ∷ oldest_from size blank r (suc i) k

  unfoldable pub oldest_first : ℕ → A → Ring A → List A
  unfolding oldest_from
  oldest_first size blank r = oldest_from size blank r 0 r.count
