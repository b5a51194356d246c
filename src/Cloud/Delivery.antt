-- ===== src/Cloud/Delivery.antt =====
-- Events on their way to the backend: what is sent of an event, and what a confirmation retires.
use rfid_access.Base.{
  ℕ, zero, suc, ◌-◌, ◌/◌, ◌%◌, ◌≤◌, ◌<◌, ◌≡◌, refl, ap, ◌∙◌, subst, Bool, true, false, List, [],
  ◌∷◌, ◌++◌, map, some, arith, leb, ◌==◌, if_else, take, drop, replicate, length, length-append,
  Text, u32_mod,
}
use rfid_access.Bytes.{take_short}
use rfid_access.Roster.{copy_field}
use rfid_access.Spool.{
  EventLog, Event, append, record_bytes, record_size, new_record, flags_of, stamp, max_records,
}
use rfid_access.Spool.View.{Holds, length-copy_field, peek_lem, append_lem}
use rfid_access.Cloud.Sync.{max_events_per_sync}
use rfid_access.Cloud.Batch.{Sent, c_string, sent, batch, sent-record}

flags_granted : (g : Bool) (epoch : ℕ) → (flags_of g epoch % 2 == 1) ≡ g
flags_granted true epoch = ground arith
flags_granted false epoch = ground arith

flags_approx : (g : Bool) (epoch : ℕ) → (flags_of g epoch / 2 % 2 == 1) ≡ (epoch == 0)
flags_approx true epoch = ground arith
flags_approx false epoch = ground arith

c_string-zeros : (t : Text) (k : ℕ) → c_string (t ++ replicate k 0) ≡ c_string t
c_string-zeros [] zero = refl
c_string-zeros [] (suc k) = refl
c_string-zeros (c ∷ cs) k = rw (c_string-zeros cs k) refl

stamp-lt : (now : ℕ) → stamp now < u32_mod
stamp-lt now = ground arith

map-append : (xs ys : List (List ℕ)) → map sent (xs ++ ys) ≡ map sent xs ++ map sent ys
map-append [] ys = refl
map-append (x ∷ xs) ys = ap (λ t. sent x ∷ t) (map-append xs ys)

-- What a sync sends of an event.
abbrev pub as_told : EventLog → Event → Sent
as_told s e = record {
  boot_id = s.boot_id;
  idx = s.next_idx;
  uptime_ms = e.uptime_ms;
  epoch = stamp e.now;
  type = e.type;
  reason = e.reason;
  granted = e.granted;
  time_approx = stamp e.now == 0;
  cred = c_string (take 15 e.credential);
}

new_record-sent :
    (s : EventLog) (e : Event)
    → s.boot_id < u32_mod
    → s.next_idx < u32_mod
    → e.uptime_ms < u32_mod
    → sent (record_bytes (new_record s e)) ≡ as_told s e
unfolding new_record copy_field
new_record-sent s e b i u =
    let t : Text = take 15 e.credential in
    sent-record (new_record s e)
      (b, i, u, stamp-lt e.now, length-copy_field 16 e.credential (omega arith))
    ∙ rw
        (
          flags_granted e.granted (stamp e.now),
          flags_approx e.granted (stamp e.now),
          c_string-zeros t (16 - length t),
        )
        refl

-- An event that was written whole to a ready spool whose file is a row of whole, intact records, of
-- which less than 40 wait (a spool that ends in a part of a record is not one), is the last member
-- of the next sync's batch, behind those of the records that wait: with the boot, the index within
-- the boot, the times, kind, reason and verdict that it was spooled with, whether its time was known,
-- and the first 15 bytes of its credential, up to a NUL.
pub event_sent :
    (s : EventLog) (q : List (List ℕ)) (e : Event) (n : ℕ)
    → s.ready ≡ true
    → record_size ≤ n
    → Holds s q
    → length q < max_events_per_sync
    → s.boot_id < u32_mod
    → s.next_idx < u32_mod
    → e.uptime_ms < u32_mod
    → batch (append s e (some n)).0 ≡ map sent q ++ (as_told s e ∷ [])
unfolding batch
event_sent s q e n r whole h few b i u =
    let d : List ℕ = record_bytes (new_record s e) in
    let t : EventLog = (append s e (some n)).0 in
    let free : leb max_records (length q) ≡ false = ground arith in
    let held : Holds t (q ++ (d ∷ [])) =
      subst (λ x. Holds t (x ++ (d ∷ []))) (if_else (leb max_records (length q)) (drop 1 q) q free)
        (append_lem s q e n r whole h).1 in
    ap (map sent) (
      (peek_lem t (q ++ (d ∷ [])) max_events_per_sync held).0
      ∙ take_short max_events_per_sync (q ++ (d ∷ [])) (omega (arith, length-append q (d ∷ []))))
    ∙ map-append q (d ∷ [])
    ∙ ap (λ x. map sent q ++ (x ∷ [])) (new_record-sent s e b i u)
