-- ===== src/Access/Decision.antt =====
-- What a tap decides, and what it leaves behind.
use rfid_access.Base.{
  ℕ, zero, suc, ◌≤◌, ◌<◌, ◌≡◌, refl, inl, inr, Bool, true, false, List, [], ◌∷◌, ◌++◌, some, arith,
  if◌then◌else◌, length, get_elem?, Text, is_empty, Bool-cases, Option-cases,
}
use rfid_access.Ring.History
use rfid_access.Roster.{Roster, allows, find_by_credential, index_of_hash, hash_of, is_some}
use rfid_access.Roster.Search.{index_of_hash_sound}
use rfid_access.Spool.{Event, record_size, record_bytes, new_record}
use rfid_access.Spool.View
use rfid_access.Access.{
  Access, TapRecord, Stamp, log_size, evt_tap, r_enrolled, r_not_enrolled, process_event,
  append_event,
}

-- What the array of taps is initialised with.
abbrev pub no_tap : TapRecord
no_tap = record { uid = []; type = []; granted = false; ms = 0 }

-- The event that a tap spools.
abbrev pub tap_event : Text → Bool → Stamp → Event
tap_event uid granted t = record {
  type = evt_tap;
  reason = if granted then r_enrolled else r_not_enrolled;
  granted = granted;
  credential = uid;
  uptime_ms = t.ms;
  now = t.now;
}

is_some-get_elem? :
    {A : Type 0} (xs : List A) (i : ℕ) → i < length xs → is_some (get_elem? xs i) ≡ true
is_some-get_elem? [] i h = elim h [ ]
is_some-get_elem? (x ∷ xs) zero h = refl
is_some-get_elem? (x ∷ xs) (suc i) h = is_some-get_elem? xs i (omega arith)

module _ (sha256 : List ℕ → List ℕ) where
  found_allows :
      (r : Roster) (c : Text) → is_some (find_by_credential sha256 r c) ≡ allows sha256 r c
  unfolding find_by_credential allows
  found_allows r c = elim (Bool-cases (is_empty c)) [
    | inl e ↦ rw e refl
    | inr e ↦ elim (Option-cases (index_of_hash r.entries (hash_of sha256 r.salt c))) [
      | inl o ↦ rw (e, o) refl
      | inr (i, o) ↦
          let (l, h) = index_of_hash_sound r.entries (hash_of sha256 r.salt c) i o in
          rw (e, o) (is_some-get_elem? r.entries i l)
    ]
  ]

  -- A tap is granted exactly when the roster allows its credential. Granted or denied, with a ready
  -- spool whose file is a row of whole, intact records, and a complete write, it is put in front of the last taps and behind the spooled events,
  -- each time with the credential and the verdict; a denied credential becomes the last unknown
  -- one, and the roster stays as it is.
  pub process_event_lem :
      (a : Access) (uid type : Text) (ms now n : ℕ) (q : List (List ℕ)) (h : List TapRecord)
      → a.spool.ready ≡ true
      → record_size ≤ n
      → View.Holds a.spool q
      → History.Holds log_size no_tap h a.taps
      → let t : Stamp = record { ms = ms; now = now; written = some n } in
        let granted = allows sha256 a.roster uid in
        let (a', verdict) = process_event sha256 a true uid type t in
        (verdict ≡ granted)
        × (a'.roster ≡ a.roster)
        × (a'.last_unknown_uid ≡ (if granted then a.last_unknown_uid else uid))
        × History.Holds log_size no_tap
            (record { uid = uid; type = type; granted = granted; ms = ms } ∷ h)
            a'.taps
        × View.Holds a'.spool
            (View.room_in q ++ (record_bytes (new_record a.spool (tap_event uid granted t)) ∷ []))
  unfolding process_event append_event
  process_event_lem a uid type ms now n q h ready whole holds taps =
      let t : Stamp = record { ms = ms; now = now; written = some n } in
      let granted = allows sha256 a.roster uid in
      let (_, spooled, _, _) =
        View.append_lem a.spool q (tap_event uid granted t) n ready whole holds in
      rw (found_allows a.roster uid) (
        refl,
        refl,
        ground arith,
        History.push-Holds log_size no_tap h a.taps
            (record { uid = uid; type = type; granted = granted; ms = ms }) taps,
        spooled,
      )
