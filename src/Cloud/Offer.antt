-- ===== src/Cloud/Offer.antt =====
-- Which firmware offers are queued for download.
use rfid_access.Base.{
  ℕ, ◌≤◌, ◌≡◌, refl, ap, ◌∙◌, ◌⊎◌, inl, inr, Bool, true, false, not, ◌||◌, List, Option, none, some,
  arith, ltb, ◌==◌, length, Bool-cases,
}
use rfid_access.Spool.{peek}
use rfid_access.Access.{Access, RosterUpdate, replace_roster}
use rfid_access.Cloud.{CloudSync, is_paired}
use rfid_access.Cloud.Sync.{
  Applied, fine, failed, no_memory, Reply, answered, no_connection, apply_rows, apply_roster,
  consider_offer, apply_response, note_server_time, on_answer, sync_once, min_free_heap,
  max_events_per_sync, or_default,
}
use rfid_access.Cloud.Answer.{Offer, Response, Env}
use rfid_access.Cloud.Gates.{
  Passes, queued, before_offer, before_offer-fw, offer_of, after_roster-offer,
  consider_offer-queued, consider_offer-cases, note_server_time-fw,
}

module _ (sha256 : List ℕ → List ℕ) where
  -- The rows of the answer, if there are any, find memory.
  abbrev pub HasMemory : Response → Env → Type 0
  HasMemory r e = (r.roster ≡ none) ⊎ (e.got_updates ≡ true)

  abbrev replaced : CloudSync → List RosterUpdate → ℕ → Env → Access × Bool
  replaced c us rev e =
      replace_roster sha256 c.access us rev e.got_staged e.scratch e.wrote e.at_roster

  -- What apply_rows does with rows.
  pub apply_rows-cases :
      (c : CloudSync) (us : List RosterUpdate) (rev : ℕ) (e : Env)
      → let (a, ok) = replaced c us rev e in
        let result = apply_rows sha256 c (some us) rev e in
        ((e.got_updates ≡ false) × (result ≡ (c, no_memory)))
        ⊎ ((e.got_updates ≡ true) × (ok ≡ true) × (result ≡ (record c { access = a }, fine)))
        ⊎ ((e.got_updates ≡ true) × (ok ≡ false) × (result ≡ (record c { access = a }, failed)))
  unfolding apply_rows
  apply_rows-cases c us rev e = elim (Bool-cases e.got_updates) [
    | inr m ↦ rw m (inl (refl, refl))
    | inl m ↦ elim (Bool-cases (replaced c us rev e).1) [
      | inl k ↦ rw (m, k) (inr (inl (refl, refl, refl)))
      | inr k ↦ rw (m, k) (inr (inr (refl, refl, refl)))
    ]
  ]

  apply_rows-fw :
      (c : CloudSync) (us : Option (List RosterUpdate)) (rev : ℕ) (e : Env)
      → (apply_rows sha256 c us rev e).0.pending_fw ≡ c.pending_fw
  unfolding apply_rows
  apply_rows-fw c none rev e = refl
  apply_rows-fw c (some us) rev e = elim (apply_rows-cases c us rev e) [
    | inl (m, k) ↦ rw k refl
    | inr (inl (m, o, k)) ↦ rw k refl
    | inr (inr (m, o, k)) ↦ rw k refl
  ]

  offer_of-apply_rows :
      (c : CloudSync) (r : Response) (us : Option (List RosterUpdate)) (rev : ℕ) (e : Env)
      → (us ≡ none) ⊎ (e.got_updates ≡ true)
      → offer_of (apply_rows sha256 c us rev e).1 r ≡ r.firmware
  unfolding apply_rows offer_of
  offer_of-apply_rows c r none rev e h = refl
  offer_of-apply_rows c r (some us) rev e (inl h) = cc
  offer_of-apply_rows c r (some us) rev e (inr h) = elim (apply_rows-cases c us rev e) [
    | inl (m, k) ↦ cc
    | inr (inl (m, o, k)) ↦ rw k refl
    | inr (inr (m, o, k)) ↦ rw k refl
  ]

  pub response-offer :
      (c : CloudSync) (r : Response) (e : Env) (n : ℕ)
      → let (c', a) = apply_roster sha256 (note_server_time c r.server_epoch e.ms) r e in
        (apply_response sha256 c r e n).0
        ≡ consider_offer (before_offer c' a r e n) (offer_of a r) e
  unfolding apply_response
  response-offer c r e n =
      let (c', a) = apply_roster sha256 (note_server_time c r.server_epoch e.ms) r e in
      after_roster-offer c' a r e n

  -- The queued download is the one from before, or the offer of a given answer, which passes the
  -- gates.
  abbrev Sourced : CloudSync → Option Offer → Env → CloudSync → Type 0
  Sourced c f e c' =
      (c'.pending_fw ≡ c.pending_fw)
      ⊎ ((o : Offer) × (f ≡ some o) × Passes o e × (c'.pending_fw ≡ queued o))

  offered : (a : Applied) (r : Response) (o : Offer) → offer_of a r ≡ some o → r.firmware ≡ some o
  unfolding offer_of
  offered no_memory r o h = cc
  offered fine r o h = h
  offered failed r o h = h

  response-Sourced :
      (c : CloudSync) (r : Response) (e : Env) (n : ℕ)
      → Sourced c r.firmware e (apply_response sha256 c r e n).0
  unfolding apply_roster
  response-Sourced c r e n =
      let c0 = note_server_time c r.server_epoch e.ms in
      let (c', a) = apply_roster sha256 c0 r e in
      let untouched : (before_offer c' a r e n).pending_fw ≡ c.pending_fw =
        before_offer-fw c' a r e n
        ∙ apply_rows-fw c0 r.roster (or_default r.roster_rev 0) e
        ∙ note_server_time-fw c r.server_epoch e.ms in
      rw (response-offer c r e n)
        (elim (consider_offer-cases (before_offer c' a r e n) (offer_of a r) e) [
          | inl k ↦ inl (k ∙ untouched)
          | inr (o, f, g, k) ↦ inr (o, offered a r o f, g, k)
        ])

  -- The offer in a reply that was understood.
  abbrev pub offer_in : Reply → Option Offer
  offer_in (answered positive rc (some r)) = r.firmware
  offer_in _ = none

  answer-Sourced :
      (c : CloudSync) (reply : Reply) (e : Env) (n : ℕ)
      → Sourced c (offer_in reply) e (on_answer sha256 c reply e n).0
  unfolding on_answer
  answer-Sourced c no_connection e n = inl refl
  answer-Sourced c (answered positive rc none) e n = inl refl
  answer-Sourced c (answered positive rc (some r)) e n =
      elim (Bool-cases (not positive || not (rc == 200))) [
        | inl k ↦ rw k (inl refl)
        | inr k ↦ rw k (response-Sourced c r e n)
      ]

  -- An answer with status 200 and an offer that passes the gates leaves it queued, also when the new
  -- roster could not be saved; only rows for which there is no memory keep it from that.
  pub offer_queued :
      (c : CloudSync) (heap : ℕ) (r : Response) (e : Env) (o : Offer)
      → is_paired c ≡ true
      → min_free_heap ≤ heap
      → r.firmware ≡ some o
      → Passes o e
      → HasMemory r e
      → (sync_once sha256 c true heap (answered true 200 (some r)) e).0.pending_fw ≡ queued o
  unfolding sync_once on_answer apply_roster
  offer_queued c heap r e o p h f g m =
      let n = length (peek c.access.spool max_events_per_sync) in
      let c0 = note_server_time c r.server_epoch e.ms in
      let (c', a) = apply_roster sha256 c0 r e in
      let considered : offer_of a r ≡ some o =
        offer_of-apply_rows c0 r r.roster (or_default r.roster_rev 0) e m ∙ f in
      let enough : ltb heap min_free_heap ≡ false = ground arith in
      rw (p, enough)
        (ap (λ (x : CloudSync). x.pending_fw) (response-offer c r e n)
          ∙ rw considered (consider_offer-queued (before_offer c' a r e n) o e g))

  -- Nothing else is ever queued: after a sync, whatever HTTP answers, the queued download is the one
  -- that was queued before, or the offer of this very reply; and then the offer is for this board, of
  -- another version than the running one, and the app said that the door is safe to update.
  pub queued_passed :
      (c : CloudSync) (connected : Bool) (heap : ℕ) (reply : Reply) (e : Env)
      → let c' = (sync_once sha256 c connected heap reply e).0 in
        (c'.pending_fw ≡ c.pending_fw)
        ⊎ ((o : Offer) × (offer_in reply ≡ some o) × Passes o e × (c'.pending_fw ≡ queued o))
  unfolding sync_once on_answer
  queued_passed c connected heap reply e =
      elim (Bool-cases (not connected || ltb heap min_free_heap || not (is_paired c))) [
        | inl k ↦ rw k (inl refl)
        | inr k ↦ rw k (answer-Sourced c reply e (length (peek c.access.spool max_events_per_sync)))
      ]
