-- ===== src/Cloud/Failed.antt =====
-- The spooled events during a sync that fails.
use rfid_access.Base.{
  ℕ, ◌+◌, ◌-◌, ◌<◌, ◌≡◌, sym, ap, ◌∙◌, subst, inl, inr, Bool, false, not, ◌||◌, List, none, some,
  refl, ltb, ◌==◌, length, Bool-cases,
}
use rfid_access.Spool.{EventLog, max_records, peek}
use rfid_access.Cloud.{CloudSync, is_paired}
use rfid_access.Cloud.Sync.{
  Applied, fine, failed, no_memory, Reply, answered, no_connection, apply_roster, after_roster,
  apply_response, note_server_time, on_answer, sync_once, min_free_heap, max_events_per_sync,
  or_default, is_fine, consider_offer,
}
use rfid_access.Cloud.Answer.{Response, Env}
use rfid_access.Cloud.Gates.{before_offer, offer_of}
use rfid_access.Cloud.Offer.{response-offer}
use rfid_access.Cloud.Kept.{
  Keeps, Keeps-same, consider_offer-Keeps, note_server_time-access, apply_rows-spool,
  before_offer-Keeps, Keeps-trans,
}

after_roster-ok :
    (c : CloudSync) (a : Applied) (r : Response) (e : Env) (n : ℕ)
    → (after_roster c a r e n).1.ok ≡ is_fine a
unfolding after_roster
after_roster-ok c fine r e n = refl
after_roster-ok c failed r e n = refl
after_roster-ok c no_memory r e n = refl

abbrev Room : EventLog → Env → Type 0
Room s e = s.total - s.acked + length e.config_calls < max_records

module _ (sha256 : List ℕ → List ℕ) where
  response-Keeps :
      (c : CloudSync) (r : Response) (e : Env) (n : ℕ)
      → Room c.access.spool e
      → (apply_response sha256 c r e n).1.ok ≡ false
      → Keeps c.access.spool (apply_response sha256 c r e n).0.access.spool
  unfolding apply_response apply_roster
  response-Keeps c r e n room h =
      let c0 = note_server_time c r.server_epoch e.ms in
      let (c', a) = apply_roster sha256 c0 r e in
      let bad : is_fine a ≡ false = sym (after_roster-ok c' a r e n) ∙ h in
      let b = before_offer c' a r e n in
      let same : c'.access.spool ≡ c.access.spool =
        apply_rows-spool sha256 c0 r.roster (or_default r.roster_rev 0) e bad
        ∙ ap (λ x. x.spool) (note_server_time-access c r.server_epoch e.ms) in
      let (kept, left) =
        before_offer-Keeps c' a r e n bad (subst (λ (s : EventLog). Room s e) (sym same) room) in
      subst (λ (x : CloudSync). Keeps c.access.spool x.access.spool)
        (sym (response-offer sha256 c r e n))
        (subst (λ (s : EventLog). Keeps s (consider_offer b (offer_of a r) e).access.spool) same
          (Keeps-trans c'.access.spool b.access.spool
            (consider_offer b (offer_of a r) e).access.spool kept
            (consider_offer-Keeps b (offer_of a r) e left)))

  answer-Keeps :
      (c : CloudSync) (reply : Reply) (e : Env) (n : ℕ)
      → Room c.access.spool e
      → (on_answer sha256 c reply e n).1.ok ≡ false
      → Keeps c.access.spool (on_answer sha256 c reply e n).0.access.spool
  unfolding on_answer
  answer-Keeps c no_connection e n room = λ h. Keeps-same c.access.spool
  answer-Keeps c (answered positive rc none) e n room = λ h. Keeps-same c.access.spool
  answer-Keeps c (answered positive rc (some r)) e n room =
      elim (Bool-cases (not positive || not (rc == 200))) [
        | inl k ↦ rw k (λ h. Keeps-same c.access.spool)
        | inr k ↦ rw k (response-Keeps c r e n room)
      ]

  -- A sync that fails, for want of a connection, of memory or of a saved roster, or because the
  -- answer was no success, confirms no event of a spool that has room for what the configuration's
  -- handler appends and for one event more: the cursor stands where it stood, and all that was in the
  -- file still is.
  pub failed-Keeps :
      (c : CloudSync) (connected : Bool) (heap : ℕ) (reply : Reply) (e : Env)
      → c.access.spool.total - c.access.spool.acked + length e.config_calls < max_records
      → (sync_once sha256 c connected heap reply e).1.ok ≡ false
      → Keeps c.access.spool (sync_once sha256 c connected heap reply e).0.access.spool
  unfolding sync_once
  failed-Keeps c connected heap reply e room =
      elim (Bool-cases (not connected || ltb heap min_free_heap || not (is_paired c))) [
        | inl k ↦ rw k (λ h. Keeps-same c.access.spool)
        | inr k ↦
            rw k (answer-Keeps c reply e (length (peek c.access.spool max_events_per_sync)) room)
      ]
