-- ===== src/Ring/History.antt =====
-- A ring against the list of all that was written to it.
use mathlib.Core.List.{reverse, reverse_aux, reverse-append}
use rfid_access.Base.{
  ℕ, zero, suc, ◌+◌, ◌-◌, ◌≤◌, ◌<◌, ◌≡◌, refl, sym, ap, ◌∙◌, min, List, [], ◌∷◌, ◌++◌, arith,
  get_or, set, take, drop, length, length-set, length-replicate,
}
use rfid_access.Ring.{
  Ring, fresh, push, push_all, newest_first, newest_from, oldest_first, oldest_from,
}
use rfid_access.Ring.Index.{
  back, back_lem, next, next_lem, back-next_zero, back-next_suc, back_ne, back-first,
}

module _ {A : Type 0} (size : ℕ) (blank : A) where
  -- The ring after the entries `h` have been written, the last one first.
  abbrev pub Holds : List A → Ring A → Type 0
  Holds h r =
      (length r.slots ≡ size)
      × (r.head < size)
      × (r.count ≡ min size (length h))
      × (r.count < size → r.head ≡ r.count)
      × ((i : ℕ) → i < r.count → get_or r.slots (back size r.head i) blank ≡ get_or h i blank)

  pub fresh-Holds : 0 < size → Holds [] (fresh size blank)
  unfolding fresh
  fresh-Holds h =
      (length-replicate size blank, h, omega arith, λ k. refl, λ i k. absurd (omega arith))

get_or-set_self :
    {A : Type 0} (xs : List A) (i : ℕ) (v d : A) → i < length xs → get_or (set xs i v) i d ≡ v
get_or-set_self [] i v d h = elim h [ ]
get_or-set_self (x ∷ xs) zero v d h = refl
get_or-set_self (x ∷ xs) (suc i) v d h = get_or-set_self xs i v d (omega arith)

get_or-set_ne :
    {A : Type 0} (xs : List A) (i j : ℕ) (v d : A)
    → (i ≡ j → ⊥)
    → get_or (set xs i v) j d ≡ get_or xs j d
get_or-set_ne [] i j v d h = refl
get_or-set_ne (x ∷ xs) zero zero v d h = absurd (h refl)
get_or-set_ne (x ∷ xs) zero (suc j) v d h = refl
get_or-set_ne (x ∷ xs) (suc i) zero v d h = refl
get_or-set_ne (x ∷ xs) (suc i) (suc j) v d h = get_or-set_ne xs i j v d (λ e. h (ap suc e))

take-drop :
    {A : Type 0} (h : List A) (i k : ℕ) (d : A)
    → i < length h
    → take (suc k) (drop i h) ≡ get_or h i d ∷ take k (drop (suc i) h)
take-drop [] i k d l = elim l [ ]
take-drop (x ∷ h) zero k d l = refl
take-drop (x ∷ h) (suc i) k d l = take-drop h i k d (omega arith)

take-min : {A : Type 0} (m n : ℕ) (h : List A) → m ≡ min n (length h) → take m h ≡ take n h
take-min zero zero h e = refl
take-min zero (suc n) [] e = refl
take-min zero (suc n) (x ∷ h) e = absurd (omega arith)
take-min (suc m) zero h e = absurd (omega arith)
take-min (suc m) (suc n) [] e = refl
take-min (suc m) (suc n) (x ∷ h) e = ap (λ t. x ∷ t) (take-min m n h (omega arith))

module _ {A : Type 0} (size : ℕ) (blank : A) where
  push-at :
      (h : List A) (r : Ring A) (a : A) (i : ℕ)
      → Holds size blank h r
      → i < min size (suc (length h))
      → get_or (set r.slots r.head a) (back size (next size r.head) i) blank
        ≡ get_or (a ∷ h) i blank
  push-at h r a zero (l, hd, ct, full, at) k =
      rw (back-next_zero size r.head hd) (get_or-set_self r.slots r.head a blank (omega arith))
  push-at h r a (suc j) (l, hd, ct, full, at) k =
      rw (back-next_suc size r.head j hd (omega arith)) (
        get_or-set_ne r.slots r.head (back size r.head j) a blank
          (back_ne size r.head j hd (omega arith))
        ∙ at j (omega arith))

  -- Writing an entry puts it in front of the history that the ring holds.
  pub push-Holds :
      (h : List A) (r : Ring A) (a : A)
      → Holds size blank h r
      → Holds size blank (a ∷ h) (push size a r)
  unfolding push
  push-Holds h r a (l, hd, ct, full, at) =
      let held : Holds size blank h r = (l, hd, ct, full, at) in
      rw (next_lem size r.head hd) (
        length-set r.slots r.head a ∙ l,
        ground arith,
        ground arith,
        λ k. ground (arith, full),
        λ i k. push-at h r a i held (ground arith),
      )

  newest_from-take :
      (h : List A) (r : Ring A) (i k : ℕ)
      → Holds size blank h r
      → i + k ≡ r.count
      → newest_from size blank r i k ≡ take k (drop i h)
  unfolding newest_from
  newest_from-take h r i zero hold e = refl
  newest_from-take h r i (suc k) (l, hd, ct, full, at) e =
      rw
        (
          back_lem size r.head i hd (omega arith),
          at i (omega arith),
          newest_from-take h r (suc i) k (l, hd, ct, full, at) (omega arith),
        )
        (sym (take-drop h i k blank (omega arith)))

  pub newest_first-take :
      (h : List A) (r : Ring A) → Holds size blank h r → newest_first size blank r ≡ take size h
  unfolding newest_first
  newest_first-take h r (l, hd, ct, full, at) =
      newest_from-take h r 0 r.count (l, hd, ct, full, at) (omega arith)
      ∙ take-min r.count size h ct

-- The `k` last entries, the oldest of them first.
down : {A : Type 0} → List A → A → ℕ → List A
down h d zero = []
down h d (suc k) = get_or h k d ∷ down h d k

take-suc :
    {A : Type 0} (h : List A) (d : A) (k : ℕ)
    → k < length h
    → take (suc k) h ≡ take k h ++ (get_or h k d ∷ [])
take-suc [] d k e = elim e [ ]
take-suc (x ∷ h) d zero e = refl
take-suc (x ∷ h) d (suc k) e = ap (λ t. x ∷ t) (take-suc h d k (omega arith))

down-reverse :
    {A : Type 0} (h : List A) (d : A) (k : ℕ) → k ≤ length h → down h d k ≡ reverse (take k h)
unfolding down
down-reverse h d zero e = refl
down-reverse h d (suc k) e =
    rw (take-suc h d k (omega arith), down-reverse h d k (omega arith))
      (sym (reverse-append (take k h) (get_or h k d ∷ [])))

module _ {A : Type 0} (size : ℕ) (blank : A) where
  oldest_from-down :
      (h : List A) (r : Ring A) (i k : ℕ)
      → Holds size blank h r
      → i + k ≡ r.count
      → oldest_from size blank r i k ≡ down h blank k
  unfolding oldest_from down
  oldest_from-down h r i zero hold e = refl
  oldest_from-down h r i (suc k) (l, hd, ct, full, at) e =
      let k_eq : r.count - suc i ≡ k = omega arith in
      rw
        (
          back-first size r.head r.count i hd (omega arith) full (omega arith),
          k_eq,
          at k (omega arith),
          oldest_from-down h r (suc i) k (l, hd, ct, full, at) (omega arith),
        )
        refl

  pub held_lists :
      (h : List A) (r : Ring A)
      → Holds size blank h r
      → (newest_first size blank r ≡ take size h)
        × (oldest_first size blank r ≡ reverse (take size h))
  unfolding oldest_first
  held_lists h r (l, hd, ct, full, at) = (
    newest_first-take size blank h r (l, hd, ct, full, at),
    oldest_from-down h r 0 r.count (l, hd, ct, full, at) (omega arith)
        ∙ down-reverse h blank r.count (omega arith)
        ∙ ap reverse (take-min r.count size h ct),
  )

  push_all-Holds :
      (es h : List A) (r : Ring A)
      → Holds size blank h r
      → Holds size blank (reverse_aux es h) (push_all size es r)
  unfolding push_all
  push_all-Holds [] h r hold = hold
  push_all-Holds (e ∷ es) h r hold =
      push_all-Holds es (e ∷ h) (push size e r) (push-Holds size blank h r e hold)

  -- After any entries have been written to an empty ring, it lists the last of them, as many as it
  -- has room for: /api/taps with the last first, the rendered log in the order of writing.
  pub ring_lists :
      (es : List A)
      → 0 < size
      → let r = push_all size es (fresh size blank) in
        (newest_first size blank r ≡ take size (reverse es))
        × (oldest_first size blank r ≡ reverse (take size (reverse es)))
  ring_lists es h =
      held_lists (reverse es) (push_all size es (fresh size blank))
        (push_all-Holds es [] (fresh size blank) (fresh-Holds size blank h))
