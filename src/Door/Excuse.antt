-- ===== src/Door/Excuse.antt =====
-- The time that a door is excused, and the held-open alarm.
use rfid_access.Base.{ℕ, ◌+◌, ◌≤◌, ◌<◌, ◌≡◌, Bool, true, false, List, [], ◌∷◌, ◌++◌, arith, u32_mod}
use rfid_access.Door.{held, Inputs, DoorContact, Sample, authorised, begin, update, run}
use rfid_access.Door.Trace.{
  IsValid, Ordered, last_at, begin-IsValid, update-IsValid, run-IsValid', run-held_limit_ms,
  update-held_limit_ms, run-append,
}

-- The clock, if it runs, was started no earlier than `t`.
abbrev Since : ℕ → DoorContact → Type 0
Since t d = d.held_timing ≡ true → t ≤ d.held_from

update-Since :
    (t : ℕ) (d : DoorContact) (now : ℕ) (i : Inputs)
    → t ≤ now
    → Since t d
    → Since t (update d now i).0
unfolding update
update-Since t d now i h s = ground arith

authorised-Since :
    (t : ℕ) (d : DoorContact) (now : ℕ) (i : Inputs)
    → IsValid t d
    → authorised i ≡ true
    → Since now (update d now i).0
unfolding update
authorised-Since t d now i v a = ground arith

run-Since :
    (t u : ℕ) (d : DoorContact) (ss : List Sample)
    → t ≤ u
    → Ordered u ss
    → Since t d
    → Since t (run d ss).0
unfolding run
run-Since t u d [] h o s = s
run-Since t u d (x ∷ xs) h o s =
    run-Since t x.at (update d x.at x.inputs).0 xs (omega arith) o.1
      (update-Since t d x.at x.inputs (omega arith) s)

held_late :
    (t u : ℕ) (d : DoorContact) (now : ℕ) (i : Inputs)
    → Since t d
    → IsValid u d
    → u ≤ now
    → now < u32_mod
    → (update d now i).1 ≡ held
    → (t + d.held_limit_ms ≤ now) × (authorised i ≡ false)
unfolding update
held_late t u d now i s v h w e = ground arith

Ordered-split :
    (t : ℕ) (xs ys : List Sample) → Ordered t (xs ++ ys) → Ordered t xs × Ordered (last_at t xs) ys
Ordered-split t [] ys o = (tt, o)
Ordered-split t (x ∷ xs) ys o = let (a, b) = Ordered-split x.at xs ys o.1 in ((o.0, a), b)

last-at-le : (t : ℕ) (xs : List Sample) → Ordered t xs → t ≤ last_at t xs
last-at-le t [] o = omega arith
last-at-le t (x ∷ xs) o = omega (arith, last-at-le x.at xs o.1)

excused_from :
    (u : ℕ) (d : DoorContact) (p : Sample) (mid : List Sample) (s : Sample)
    → IsValid u d
    → Ordered u (p ∷ (mid ++ (s ∷ [])))
    → s.at < u32_mod
    → authorised p.inputs ≡ true
    → (update (run d (p ∷ mid)).0 s.at s.inputs).1 ≡ held
    → (p.at + d.held_limit_ms ≤ s.at) × (authorised s.inputs ≡ false)
unfolding run
excused_from u d p mid s v o w a e =
    let (o3, o4) = Ordered-split p.at mid (s ∷ []) o.1 in
    let d1 = (update d p.at p.inputs).0 in
    let v1 : IsValid p.at d1 = update-IsValid u d p.at p.inputs o.0 v in
    let since : Since p.at (run d1 mid).0 =
      run-Since p.at p.at d1 mid (omega arith) o3 (authorised-Since u d p.at p.inputs v a) in
    let v2 : IsValid (last_at p.at mid) (run d1 mid).0 = run-IsValid' p.at d1 mid o3 v1 in
    ground (
      arith,
      held_late p.at _ (run d1 mid).0 s.at s.inputs since v2 o4.0 w e,
      run-held_limit_ms d1 mid,
      update-held_limit_ms d p.at p.inputs,
    )

-- In a run from `begin` at times that do not go back and have not wrapped, HELD is returned only
-- on a tick with no release and no unlock window, and only when the whole limit has passed since
-- every earlier tick `p` at which one of them was in effect.
pub held_excused :
    (d : DoorContact) (t : ℕ) (raw : Bool) (limit : ℕ)
    → (pre : List Sample) (p : Sample) (mid : List Sample) (s : Sample)
    → Ordered t (pre ++ (p ∷ (mid ++ (s ∷ []))))
    → s.at < u32_mod
    → authorised p.inputs ≡ true
    → let d' = (run (begin d t raw limit) (pre ++ (p ∷ mid))).0 in
      (update d' s.at s.inputs).1 ≡ held → (p.at + limit ≤ s.at) × (authorised s.inputs ≡ false)
unfolding begin
held_excused d t raw limit pre p mid s o w a e =
    let start = begin d t raw limit in
    let (o1, o2) = Ordered-split t pre (p ∷ (mid ++ (s ∷ []))) o in
    let v : IsValid (last_at t pre) (run start pre).0 =
      run-IsValid' t start pre o1 (begin-IsValid d t raw limit) in
    ground (
      arith,
      excused_from _ (run start pre).0 p mid s v o2 w a (rw (run-append start pre (p ∷ mid)) at e),
      run-held_limit_ms start pre,
    )
