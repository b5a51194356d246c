-- ===== src/Config/Repeats.antt =====
-- A card that stays in the field of the reader.
use rfid_access.Base.{
  ℕ, ◌≤◌, ◌≡◌, refl, ap, sym, subst, ◌∙◌, ◌⊎◌, inl, inr, Bool, true, false, List, [], ◌∷◌, ltb,
  if◌then◌else◌, Text, eq_text, sub32, Bool-cases, ltb→ge,
}
use rfid_access.Config.{ReaderTask, on_credential, repeat_ms}

-- The credentials that go to the queue, with their times, the last one first, onto those before.
unfoldable pub run : ReaderTask → List (Text × ℕ) → List (Text × ℕ) → ReaderTask × List (Text × ℕ)
unfolding on_credential
run r past [] = (r, past)
run r past ((number, now) ∷ reads) =
    let (r', queued) = on_credential r number now in
    run r' (if queued then (number, now) ∷ past else past) reads

-- Where an entry repeats the one before it, 1.5 s lie between them.
abbrev pub Spaced : List (Text × ℕ) → Type 0
Spaced [] = Unit {0}
Spaced ((n, t) ∷ []) = Unit {0}
Spaced ((n, t) ∷ (m, s) ∷ rest) =
    ((eq_text n m ≡ false) ⊎ (repeat_ms ≤ sub32 t s)) × Spaced ((m, s) ∷ rest)

-- The task remembers the last entry.
Remembers : ReaderTask → List (Text × ℕ) → Type 0
Remembers r [] = Unit {0}
Remembers r ((n, t) ∷ rest) = (r.last_cred ≡ n) × (r.last_cred_ms ≡ t)

on_credential-cases :
    (r : ReaderTask) (number : Text) (now : ℕ)
    → (on_credential r number now ≡ (r, false))
      ⊎ ((on_credential r number now ≡ (record { last_cred = number; last_cred_ms = now }, true))
          × ((eq_text number r.last_cred ≡ false) ⊎ (repeat_ms ≤ sub32 now r.last_cred_ms)))
unfolding on_credential
on_credential-cases r number now = elim (Bool-cases (eq_text number r.last_cred)) [
  | inr k ↦ rw k (inr (refl, inl refl))
  | inl k ↦ elim (Bool-cases (ltb (sub32 now r.last_cred_ms) repeat_ms)) [
    | inl t ↦ rw (k, t) (inl refl)
    | inr t ↦ rw (k, t) (inr (refl, inr (ltb→ge (sub32 now r.last_cred_ms) repeat_ms t)))
  ]
]

queued-Spaced :
    (r : ReaderTask) (past : List (Text × ℕ)) (number : Text) (now : ℕ)
    → Remembers r past
    → Spaced past
    → (eq_text number r.last_cred ≡ false) ⊎ (repeat_ms ≤ sub32 now r.last_cred_ms)
    → Spaced ((number, now) ∷ past)
unfolding Remembers
queued-Spaced r [] number now m s h = tt
queued-Spaced r ((n, t) ∷ past) number now (a, b) s (inl h) =
    (inl (ap (eq_text number) (sym a) ∙ h), s)
queued-Spaced r ((n, t) ∷ past) number now (a, b) s (inr h) =
    (inr (subst (λ (x : ℕ). repeat_ms ≤ sub32 now x) b h), s)

abbrev After : List (Text × ℕ) → Text → ℕ → List (Text × ℕ) → ReaderTask × Bool → Type 0
After past number now reads v =
    Spaced (run v.0 (if v.1 then (number, now) ∷ past else past) reads).1

run-Spaced :
    (r : ReaderTask) (past reads : List (Text × ℕ))
    → Remembers r past
    → Spaced past
    → Spaced (run r past reads).1
unfolding run Remembers
run-Spaced r past [] m s = s
run-Spaced r past ((number, now) ∷ reads) m s = elim (on_credential-cases r number now) [
  | inl same ↦ subst (After past number now reads) (sym same) (run-Spaced r past reads m s)
  | inr (new, h) ↦ subst (After past number now reads) (sym new) (
      run-Spaced (record { last_cred = number; last_cred_ms = now }) ((number, now) ∷ past) reads
        (refl, refl) (queued-Spaced r past number now m s h))
]

-- Whatever the reader reads, where the queue gets the same credential twice in a row there are 1.5 s
-- or more between the two.
pub repeats-Spaced : (r : ReaderTask) (reads : List (Text × ℕ)) → Spaced (run r [] reads).1
unfolding Remembers
repeats-Spaced r reads = run-Spaced r [] reads tt tt
