-- ===== src/Cloud/Pair.antt =====
-- lib/CloudSync: pair. What the backend answers to the enrolment is an argument; the texts of the
-- answer are those that the JSON library makes of its members.
use rfid_access.Base.{
  ℕ, ◌≤◌, ◌≡◌, refl, sym, ap, ◌∙◌, subst, ==_iff, ◌⊎◌, inl, inr, Bool, true, false, not, ◌||◌, [],
  ◌∷◌, Option, none, some, arith, ltb, ◌==◌, if◌then◌else◌, length, Text, is_empty, Bool-cases,
  if_then, if_else, ltb→lt, ltb→ge,
}
use rfid_access.Cloud.{CloudSync, start, begin, is_paired}
use rfid_access.Cloud.Sync.{min_free_heap}

pub record Enrolment : Type 0 where
  pub device_key : Text
  pub door_name : Text
  pub site : Text

-- The connection cannot be opened, or a status (not positive for the client's own errors) and the
-- body, `none` where it is no JSON.
pub data Enrolled : Type 0 where
  no_connection : Enrolled
  answered : Bool → ℕ → Option Enrolment → Enrolled

-- The state, the names that the identity takes over, and whether the door was paired.
pub record Pairing : Type 0 where
  pub cloud : CloudSync
  pub door_name : Option Text
  pub site_name : Option Text
  pub ok : Bool

abbrev pub unchanged : CloudSync → Pairing
unchanged c = record { cloud = c; door_name = none; site_name = none; ok = false }

abbrev pub if_given : Text → Option Text
if_given t = if is_empty t then none else some t

abbrev pub taken : CloudSync → Enrolment → Pairing
taken c a = record {
  cloud = record c {
    device_key = a.device_key;
    stored = record c.stored { device_key = a.device_key };
    paired = true;
    failures = 0;
    sync_now = true;
  };
  door_name = if_given a.door_name;
  site_name = if_given a.site;
  ok = true;
}

unfoldable pub adopt : CloudSync → Enrolment → Pairing
adopt c a = if ltb (length a.device_key) 16 then unchanged c else taken c a

unfoldable pub on_enrolled : CloudSync → Enrolled → Pairing
unfolding adopt
on_enrolled c no_connection = unchanged c
on_enrolled c (answered positive rc none) = unchanged c
on_enrolled c (answered positive rc (some a)) =
    if not positive || not (rc == 200) then unchanged c else adopt c a

-- `enroll` is the backend, asked at a host with a code.
unfoldable pub pair : (Text → Text → Enrolled) → CloudSync → Text → Bool → ℕ → Pairing
unfolding on_enrolled
pair enroll c code connected free_heap =
    if ltb (length code) 4
    then unchanged c
    else if not connected || ltb free_heap min_free_heap
    then unchanged c
    else on_enrolled c (enroll c.host code)

-- The backend's answer to an enrolment with a key of 16 bytes or more.
abbrev pub Accepts : Enrolled → Enrolment → Type 0
Accepts r a = (r ≡ answered true 200 (some a)) × (16 ≤ length a.device_key)

on_enrolled-cases :
    (c : CloudSync) (r : Enrolled)
    → ((on_enrolled c r ≡ unchanged c) × ((a : Enrolment) → ¬ Accepts r a))
      ⊎ ((a : Enrolment) × Accepts r a × (on_enrolled c r ≡ taken c a))
unfolding on_enrolled adopt
on_enrolled-cases c no_connection = inl (refl, λ a h. cc)
on_enrolled-cases c (answered positive rc none) = inl (refl, λ a h. cc)
on_enrolled-cases c (answered false rc (some a)) = inl (refl, λ b h. cc)
on_enrolled-cases c (answered true rc (some a)) = elim (Bool-cases (rc == 200)) [
  | inr other ↦ inl (
    if_then (not (rc == 200)) (unchanged c) (adopt c a) (ap not other),
    λ b h. ground (arith, ==_iff rc 200),
  )
  | inl fine ↦
      let went : on_enrolled c (answered true rc (some a)) ≡ adopt c a =
        if_else (not (rc == 200)) (unchanged c) (adopt c a) (ap not fine) in
      let is_200 : rc ≡ 200 = (==_iff rc 200).0 fine in
      elim (Bool-cases (ltb (length a.device_key) 16)) [
        | inl short ↦ inl (
          went ∙ if_then (ltb (length a.device_key) 16) (unchanged c) (taken c a) short,
          λ b h.
              let same : a ≡ b = cc in
              let long : 16 ≤ length a.device_key =
                subst (λ (e : Enrolment). 16 ≤ length e.device_key) (sym same) h.1 in
              absurd (ground (arith, ltb→lt (length a.device_key) 16 short)),
        )
        | inr long ↦ inr (
          a,
          (ap (λ n. answered true n (some a)) is_200, ltb→ge (length a.device_key) 16 long),
          went ∙ if_else (ltb (length a.device_key) 16) (unchanged c) (taken c a) long,
        )
      ]
]

-- What the door and its network must bring for the backend to be asked.
abbrev pub Asks : Text → Bool → ℕ → Type 0
Asks code connected free_heap = (4 ≤ length code) × (connected ≡ true) × (min_free_heap ≤ free_heap)

-- The door as it was, or paired with a key: now, and after a restart.
abbrev pub IsUnchanged : CloudSync → Pairing → Type 0
IsUnchanged c p = (p.ok ≡ false) × (p.cloud ≡ c) × (p.door_name ≡ none) × (p.site_name ≡ none)

abbrev pub IsPairedWith : CloudSync → Text → Text → Pairing → Type 0
IsPairedWith c key default_host p =
    let booted = begin (start p.cloud.stored p.cloud.access) default_host in
    (p.ok ≡ true)
    × (p.cloud.host ≡ c.host)
    × (p.cloud.device_key ≡ key)
    × (p.cloud.sync_now ≡ true)
    × (is_paired booted ≡ true)
    × (booted.device_key ≡ key)
    × (booted.host ≡ c.host)

-- The host that a door points at is the one that it has stored, or the default if it stored none.
abbrev pub PointsHome : CloudSync → Text → Type 0
PointsHome c default_host =
    ((is_empty c.stored.host ≡ false) × (c.host ≡ c.stored.host))
    ⊎ ((is_empty c.stored.host ≡ true) × (c.host ≡ default_host))

host_booted :
    (c : CloudSync) (default_host : Text)
    → PointsHome c default_host
    → (if is_empty c.stored.host then default_host else c.stored.host) ≡ c.host
host_booted c default_host (inl (some_host, same)) =
    if_else (is_empty c.stored.host) default_host c.stored.host some_host ∙ sym same
host_booted c default_host (inr (no_host, same)) =
    if_then (is_empty c.stored.host) default_host c.stored.host no_host ∙ sym same

taken-IsPairedWith :
    (c : CloudSync) (a : Enrolment) (default_host : Text)
    → PointsHome c default_host
    → 16 ≤ length a.device_key
    → IsPairedWith c a.device_key default_host (taken c a)
unfolding is_paired begin start
taken-IsPairedWith c a default_host home h =
    (refl, refl, refl, refl, not_empty a.device_key h, refl, host_booted c default_host home)
  where
    not_empty : (t : Text) → 16 ≤ length t → not (is_empty t) ≡ true
    not_empty [] h = absurd (omega arith)
    not_empty (c ∷ cs) h = refl

-- For a door that points at the host that it has stored, or at the default one if it stored none: a
-- pairing that fails changes nothing, and it fails exactly if the code has less than 4 bytes, the
-- network or the memory is missing, or the backend at the door's host does not answer this code with
-- status 200 and a key of 16 bytes or more. Else the door has that key, asks for a sync at once, and
-- comes up after a restart paired with this key and pointing at the same host.
pub pair_outcome :
    (enroll : Text → Text → Enrolled) (c : CloudSync) (code : Text) (connected : Bool)
    (free_heap : ℕ) (default_host : Text)
    → PointsHome c default_host
    → let p = pair enroll c code connected free_heap in
      (IsUnchanged c p
        × ((a : Enrolment) → ¬ (Asks code connected free_heap × Accepts (enroll c.host code) a)))
      ⊎ ((a : Enrolment) × Asks code connected free_heap
          × Accepts (enroll c.host code) a
          × IsPairedWith c a.device_key default_host p)
unfolding pair
pair_outcome enroll c code connected free_heap default_host home =
    let short : Bool = ltb (length code) 4 in
    let missing : Bool = not connected || ltb free_heap min_free_heap in
    let asked : Pairing = on_enrolled c (enroll c.host code) in
    let later : Pairing = if missing then unchanged c else asked in
    elim (Bool-cases short) [
      | inl s ↦ inl (
        subst (IsUnchanged c) (sym (if_then short (unchanged c) later s)) (refl, refl, refl, refl),
        λ a h. absurd (ground arith),
      )
      | inr l ↦ elim (Bool-cases missing) [
        | inl m ↦ inl (
          subst (IsUnchanged c)
              (sym (if_else short (unchanged c) later l ∙ if_then missing (unchanged c) asked m))
              (refl, refl, refl, refl),
          λ a h. absurd (ground arith),
        )
        | inr m ↦
            let went : (if short then unchanged c else later) ≡ asked =
              if_else short (unchanged c) later l ∙ if_else missing (unchanged c) asked m in
            elim (on_enrolled-cases c (enroll c.host code)) [
              | inl (same, none_fits) ↦ inl (
                subst (IsUnchanged c) (sym (went ∙ same)) (refl, refl, refl, refl),
                λ a h. none_fits a h.1,
              )
              | inr (a, fits, took) ↦ inr (
                a,
                (ground arith, ground arith, ground arith),
                fits,
                subst (IsPairedWith c a.device_key default_host) (sym (went ∙ took))
                    (taken-IsPairedWith c a default_host home fits.1),
              )
            ]
      ]
    ]
