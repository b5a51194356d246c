-- ===== src/Cloud/Gates.antt =====
-- The steps of a sync that leave the queued download alone, and the one that may replace it.
use rfid_access.Base.{
  ℕ, ◌≡◌, refl, ◌∙◌, ◌⊎◌, inl, inr, Bool, true, false, Option, none, some, arith, Text, eq_text,
  Bool-cases,
}
use rfid_access.Cloud.{CloudSync, Pending}
use rfid_access.Cloud.Feed.{consider_release}
use rfid_access.Cloud.Sync.{
  Applied, fine, failed, no_memory, ack_events, note_restart, note_release, slow_release,
  consider_offer, after_roster, note_server_time, hand_config,
}
use rfid_access.Cloud.Answer.{Offer, DoorConfig, Response, Env, parse_config}

abbrev pub queued : Offer → Pending
queued o = record { version = o.version; url = o.url; sha = o.sha }

-- The offer is for this board, is another version than the one that runs, and the app says that the
-- door is safe to update.
abbrev pub Passes : Offer → Env → Type 0
Passes o e =
    (eq_text o.board e.board ≡ true)
    × (eq_text o.version e.running ≡ false)
    × (e.safe_to_update ≡ some true)

pub note_restart-fw :
    (c : CloudSync) (id : Option Text) → (note_restart c id).pending_fw ≡ c.pending_fw
unfolding note_restart
note_restart-fw c none = refl
note_restart-fw c (some id) = ground arith

pub slow_release-fw :
    (c : CloudSync) (r : Option (Text × ℕ)) (ms : ℕ)
    → (slow_release c r ms).0.pending_fw ≡ c.pending_fw
unfolding slow_release consider_release
slow_release-fw c none ms = refl
slow_release-fw c (some (id, exp)) ms = ground arith

pub note_release-fw :
    (c : CloudSync) (r : Response) (e : Env) → (note_release c r e).0.pending_fw ≡ c.pending_fw
unfolding note_release
note_release-fw c r e = elim (Bool-cases e.on_release) [
  | inl k ↦ rw k (slow_release-fw c r.release e.ms)
  | inr k ↦ rw k refl
]

pub consider_offer-queued :
    (c : CloudSync) (o : Offer) (e : Env)
    → Passes o e
    → (consider_offer c (some o) e).pending_fw ≡ queued o
unfolding consider_offer
consider_offer-queued c o e (b, v, s) = rw (b, v, s) refl

pub safe_cases : (s : Option Bool) → (s ≡ some true) ⊎ ((s ≡ some false) ⊎ (s ≡ none))
safe_cases none = inr (inr refl)
safe_cases (some true) = inl refl
safe_cases (some false) = inr (inl refl)

pub consider_offer-cases :
    (c : CloudSync) (f : Option Offer) (e : Env)
    → ((consider_offer c f e).pending_fw ≡ c.pending_fw)
      ⊎ ((o : Offer) × (f ≡ some o) × Passes o e × ((consider_offer c f e).pending_fw ≡ queued o))
unfolding consider_offer
consider_offer-cases c none e = inl refl
consider_offer-cases c (some o) e = elim (Bool-cases (eq_text o.board e.board)) [
  | inr b ↦ rw b (inl refl)
  | inl b ↦ elim (Bool-cases (eq_text o.version e.running)) [
    | inl v ↦ rw (b, v) (inl refl)
    | inr v ↦ elim (safe_cases e.safe_to_update) [
      | inl s ↦ inr (o, refl, (b, v, s), rw (b, v, s) refl)
      | inr (inl s) ↦ rw (b, v, s) (inl refl)
      | inr (inr s) ↦ rw (b, v, s) (inl refl)
    ]
  ]
]

pub ack_events-fw :
    (c : CloudSync) (r : Response) (e : Env) (n : ℕ)
    → (ack_events c r e n).pending_fw ≡ c.pending_fw
unfolding ack_events
ack_events-fw c r e n = refl

-- The state that the offer is considered in.
-- The configuration of the answer, handed over.
abbrev pub handed : CloudSync → Response → Env → CloudSync
handed c r e = hand_config c (parse_config r.config r.reader_mode e.on_config) e

pub hand_config-fw :
    (c : CloudSync) (cfg : Option DoorConfig) (e : Env)
    → (hand_config c cfg e).pending_fw ≡ c.pending_fw
unfolding hand_config
hand_config-fw c none e = refl
hand_config-fw c (some cfg) e = refl

handed-fw : (c : CloudSync) (r : Response) (e : Env) → (handed c r e).pending_fw ≡ c.pending_fw
handed-fw c r e = hand_config-fw c (parse_config r.config r.reader_mode e.on_config) e

unfoldable pub before_offer : CloudSync → Applied → Response → Env → ℕ → CloudSync
before_offer c no_memory r e n = c
before_offer c fine r e n =
    (note_release (note_restart (handed (ack_events c r e n) r e) r.restart) r e).0
before_offer c failed r e n = (note_release (note_restart (handed c r e) r.restart) r e).0

pub before_offer-fw :
    (c : CloudSync) (a : Applied) (r : Response) (e : Env) (n : ℕ)
    → (before_offer c a r e n).pending_fw ≡ c.pending_fw
unfolding before_offer
before_offer-fw c no_memory r e n = refl
before_offer-fw c fine r e n =
    let c' = ack_events c r e n in
    note_release-fw (note_restart (handed c' r e) r.restart) r e
    ∙ note_restart-fw (handed c' r e) r.restart
    ∙ handed-fw c' r e
    ∙ ack_events-fw c r e n
before_offer-fw c failed r e n =
    note_release-fw (note_restart (handed c r e) r.restart) r e
    ∙ note_restart-fw (handed c r e) r.restart
    ∙ handed-fw c r e

-- The offer that is considered: none where there was no memory for the rows.
unfoldable pub offer_of : Applied → Response → Option Offer
offer_of no_memory r = none
offer_of fine r = r.firmware
offer_of failed r = r.firmware

pub after_roster-offer :
    (c : CloudSync) (a : Applied) (r : Response) (e : Env) (n : ℕ)
    → (after_roster c a r e n).0 ≡ consider_offer (before_offer c a r e n) (offer_of a r) e
unfolding after_roster before_offer offer_of consider_offer
after_roster-offer c no_memory r e n = refl
after_roster-offer c fine r e n = refl
after_roster-offer c failed r e n = refl

pub note_server_time-fw :
    (c : CloudSync) (epoch ms : ℕ) → (note_server_time c epoch ms).pending_fw ≡ c.pending_fw
unfolding note_server_time
note_server_time-fw c epoch ms = ground arith
