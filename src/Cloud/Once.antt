-- ===== src/Cloud/Once.antt =====
-- Which remote releases are acted on, over requests, answers of the server and restarts.
use rfid_access.Base.{
  false-true, ℕ, ◌≤◌, ◌<◌, ◌≡◌, ◌≢◌, refl, sym, ap, ◌∙◌, inl, inr, true, false, List, [], ◌∷◌, ◌++◌,
  arith, ltb, ◌==◌, if◌then◌else◌, Text, eq_text, is_empty, eq_text_refl, map, ◌⊎◌,
}
use rfid_access.Cloud.{CloudSync, start, begin, server_now, request_sync_now}
use rfid_access.Cloud.Feed.{consider_release}

-- A request that arrives, by sync or by feed; the time that an answer of the server carries; a
-- restart of the door, after which the clock of the server is not known.
pub data Step : Type 0 where
  request : Text → ℕ → ℕ → Step
  server_time : ℕ → ℕ → Step
  reboot : Text → Step

-- A release that was acted on: its id, its expiry and the server's time.
pub record Acted : Type 0 where
  pub id : Text
  pub exp : ℕ
  pub now : ℕ

unfoldable pub step : CloudSync → Step → CloudSync × List Acted
step c (request id exp ms) =
    let (c', acted) = consider_release c id exp ms in
    (c', if acted then record { id = id; exp = exp; now = server_now c ms } ∷ [] else [])
step c (server_time epoch ms) =
    (if epoch == 0 then c else record c { srv_epoch = epoch; srv_at_ms = ms }, [])
step c (reboot host) = (begin (start c.stored c.access) host, [])

-- The releases that a run acts on, the last one first, onto those before.
unfoldable pub run : CloudSync → List Acted → List Step → CloudSync × List Acted
unfolding step
run c past [] = (c, past)
run c past (s ∷ ss) = let (c', acted) = step c s in run c' (acted ++ past) ss

-- No id stands next to itself, and each was in date by a clock that was known.
abbrev pub last_id : List Acted → Text → Text
last_id [] d = d
last_id (a ∷ as') d = a.id

abbrev pub InDate : Acted → Type 0
InDate a = (is_empty a.id ≡ false) × (0 < a.now) × (a.now ≤ a.exp)

abbrev pub Apart : Text → List Acted → Type 0
Apart before [] = Unit {0}
Apart before (a ∷ as') = InDate a × (a.id ≢ last_id as' before) × Apart before as'

Known : Text → CloudSync → List Acted → Type 0
Known before c past =
    (c.release_id ≡ last_id past before)
    × (c.stored.release_id ≡ last_id past before)
    × Apart before past

consider_cases :
    (c : CloudSync) (id : Text) (exp ms : ℕ)
    → let (c', acted) = consider_release c id exp ms in
      ((acted ≡ false)
        × (c'.release_id ≡ c.release_id)
        × (c'.stored.release_id ≡ c.stored.release_id))
      ⊎ ((acted ≡ true)
          × (c'.release_id ≡ id)
          × (c'.stored.release_id ≡ id)
          × (is_empty id ≡ false)
          × (eq_text id c.release_id ≡ false)
          × (0 < server_now c ms)
          × (server_now c ms ≤ exp))
unfolding consider_release request_sync_now
consider_cases c id exp ms = ground arith

step-Known :
    (before : Text) (c : CloudSync) (past : List Acted) (s : Step)
    → Known before c past
    → let (c', acted) = step c s in Known before c' (acted ++ past)
unfolding step Known begin start
step-Known before c past (request id exp ms) (r, n, a) = elim (consider_cases c id exp ms) [
  | inl (no_act, r', n') ↦ rw no_act (r' ∙ r, n' ∙ n, a)
  | inr (act, r', n', full, other, pos, due) ↦
      let apart : id ≢ last_id past before =
        λ e. false-true (sym other ∙ ap (eq_text id) (r ∙ sym e) ∙ eq_text_refl id) in
      rw act (r', n', ((full, pos, due), apart, a))
]
step-Known before c past (server_time epoch ms) (r, n, a) = ground arith
step-Known before c past (reboot host) (r, n, a) = (n, n, a)

run-Known :
    (before : Text) (c : CloudSync) (past : List Acted) (ss : List Step)
    → Known before c past
    → let (c', all) = run c past ss in Known before c' all
unfolding run
run-Known before c past [] k = k
run-Known before c past (s ∷ ss) k =
    run-Known before (step c s).0 ((step c s).1 ++ past) ss (step-Known before c past s k)

-- From a boot on, over any requests by both paths, answers of the server and restarts: a release is
-- acted on only with an id, only while the server's clock is known and not past its expiry, and
-- never when the release acted on last, the one stored before the boot included, has the same id.
pub run-Apart :
    (nv : CloudSync) (host : Text) (ss : List Step)
    → Apart nv.stored.release_id (run (begin (start nv.stored nv.access) host) [] ss).1
unfolding Known begin start
run-Apart nv host ss =
    (run-Known nv.stored.release_id (begin (start nv.stored nv.access) host) [] ss
      (refl, refl, tt)).2

abbrev released : CloudSync → Text → CloudSync
released c id = record c {
  release_id = id;
  stored = record c.stored { release_id = id };
  sync_now = true;
}

consider_acts :
    (c : CloudSync) (id : Text) (exp ms : ℕ)
    → is_empty id ≡ false
    → eq_text id c.release_id ≡ false
    → eq_text id c.lapsed_release_id ≡ false
    → (server_now c ms == 0) ≡ false
    → server_now c ms ≤ exp
    → consider_release c id exp ms ≡ (released c id, true)
unfolding consider_release request_sync_now
consider_acts c id exp ms e r l known due =
    let in_date : ltb exp (server_now c ms) ≡ false = ground arith in
    rw (e, r, l, known, in_date) refl

-- A request that alternates with another is acted on again: in date, ids `a`, `b` and again `a`
-- release the door three times, if the last release before had neither id.
pub alternating_repeats :
    (c : CloudSync) (a b : Text) (exp ms : ℕ)
    → is_empty a ≡ false
    → is_empty b ≡ false
    → eq_text a b ≡ false
    → eq_text b a ≡ false
    → eq_text a c.release_id ≡ false
    → eq_text a c.lapsed_release_id ≡ false
    → eq_text b c.lapsed_release_id ≡ false
    → (server_now c ms == 0) ≡ false
    → server_now c ms ≤ exp
    → map
        (λ (x : Acted). x.id)
        (run c [] (request a exp ms ∷ request b exp ms ∷ request a exp ms ∷ [])).1
      ≡ a ∷ b ∷ a ∷ []
unfolding run step server_now
alternating_repeats c a b exp ms ea eb ab ba ac al bl known due =
    rw
      (
        consider_acts c a exp ms ea ac al known due,
        consider_acts (released c a) b exp ms eb ba bl known due,
        consider_acts (released (released c a) b) a exp ms ea ab al known due,
      )
      refl
