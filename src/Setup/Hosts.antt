-- ===== src/Setup/Hosts.antt =====
-- Pointing a door at another backend from /setup, with a pairing code of that backend.
use rfid_access.Base.{
  ◌≤◌, ◌++◌, length, append-nil, true, not, ◌==◌, if◌then◌else◌, if_then, none, ℕ, ◌≡◌, ◌≢◌, refl,
  sym, ap, ◌∙◌, subst, ◌⊎◌, inl, inr, Bool, false, ◌&&◌, [], ◌∷◌, some, arith, if_else, Text, All,
  eq_text, is_empty, behind, Bool-cases,
}
use rfid_access.Cloud.{is_space, trim_left, trim_right, CloudSync, start, begin, trim, set_host}
use rfid_access.Cloud.Pair.{Enrolled, answered, Enrolment, pair, Asks, Accepts, pair_outcome}
use rfid_access.Setup.{
  Form, Device, Env, save, save_host, save_pairing, clean_host, before_slash, https, http, or_else,
}

-- What a browser's address may have around a host's name: blanks and a scheme in front; behind it
-- blanks, or a slash and a path.
abbrev pub Blank : ℕ → Type 0
Blank c = is_space c ≡ true

abbrev pub NameChar : ℕ → Type 0
NameChar c = (c ≢ b'/') × (is_space c ≡ false)

abbrev pub NoColon : ℕ → Type 0
NoColon c = c ≢ b':'

abbrev pub IsScheme : Text → Text → Type 0
IsScheme scheme name = (scheme ≡ https) ⊎ (scheme ≡ http) ⊎ ((scheme ≡ []) × All NoColon name)

abbrev pub IsTail : Text → Type 0
IsTail tail = All Blank tail ⊎ ((path : Text) × (tail ≡ b'/' ∷ path))

trim_left-blanks : (bs t : Text) → All Blank bs → trim_left (bs ++ t) ≡ trim_left t
trim_left-blanks [] t h = refl
trim_left-blanks (c ∷ bs) t (h, k) =
    if_then (is_space c) (trim_left (bs ++ t)) (c ∷ (bs ++ t)) h ∙ trim_left-blanks bs t k

trim_right-blanks : (bs : Text) → All Blank bs → trim_right bs ≡ []
trim_right-blanks [] h = refl
trim_right-blanks (c ∷ bs) (h, k) = rw (trim_right-blanks bs k, h) refl

trim_right-solid :
    (xs t : Text) → All (λ c. is_space c ≡ false) xs → trim_right (xs ++ t) ≡ xs ++ trim_right t
trim_right-solid [] t h = refl
trim_right-solid (c ∷ xs) t (h, k) =
    if_else (is_empty (trim_right (xs ++ t)) && is_space c) [] (c ∷ trim_right (xs ++ t))
      (and_false (is_empty (trim_right (xs ++ t))) (is_space c) h)
    ∙ ap (λ r. c ∷ r) (trim_right-solid xs t k)
  where
    and_false : (a b : Bool) → b ≡ false → (a && b) ≡ false
    and_false true b h = h
    and_false false b h = refl

before_slash-name :
    (name t : Text) → All NameChar name → before_slash (name ++ t) ≡ name ++ before_slash t
before_slash-name [] t h = refl
before_slash-name (c ∷ cs) t ((n, _), k) =
    let other : (c == b'/') ≡ false = ground arith in
    if_else (c == b'/') [] (c ∷ before_slash (cs ++ t)) other
    ∙ ap (λ r. c ∷ r) (before_slash-name cs t k)

-- Behind the trimmed tail there is nothing, or a slash.
Slashed : Text → Type 0
Slashed t = (t ≡ []) ⊎ ((path : Text) × (t ≡ b'/' ∷ path))

trim_right-Slashed : (tail : Text) → IsTail tail → Slashed (trim_right tail)
unfolding Slashed
trim_right-Slashed tail (inl blanks) = inl (trim_right-blanks tail blanks)
trim_right-Slashed tail (inr (path, e)) =
    inr (trim_right path, rw e (trim_right-solid (b'/' ∷ []) path (refl, tt)))

before_slash-Slashed : (t : Text) → Slashed t → before_slash t ≡ []
unfolding Slashed
before_slash-Slashed t (inl e) = rw e refl
before_slash-Slashed t (inr (path, e)) = rw e refl

-- The colon of a scheme comes before its slashes.
abbrev colon_first : Text → Bool
colon_first [] = false
colon_first (c ∷ cs) =
    let rest = colon_first cs in if c == b':' then true else if c == b'/' then false else rest

behind-bare :
    (p name t : Text)
    → colon_first p ≡ true
    → All NoColon name
    → Slashed t
    → behind p (name ++ t) ≡ none
unfolding Slashed
behind-bare [] name t f n s = cc
behind-bare (c ∷ cs) [] t f n (inl e) = rw e refl
behind-bare (c ∷ cs) [] t f n (inr (path, e)) =
    rw e (if_else (c == b'/') (behind cs path) none (ground arith))
behind-bare (c ∷ cs) (d ∷ ds) t f (n, k) s = elim (Bool-cases (c == d)) [
  | inr other ↦ if_else (c == d) (behind cs (ds ++ t)) none other
  | inl same ↦
      if_then (c == d) (behind cs (ds ++ t)) none same ∙ behind-bare cs ds t (ground arith) k s
]

solid : (name : Text) → All NameChar name → All (λ c. is_space c ≡ false) name
solid [] h = tt
solid (c ∷ cs) ((_, s), k) = (s, solid cs k)

trim_left-name :
    (name t : Text) → All NameChar name → is_empty name ≡ false → trim_left (name ++ t) ≡ name ++ t
trim_left-name [] t h e = cc
trim_left-name (c ∷ cs) t ((_, s), k) e =
    if_else (is_space c) (trim_left (cs ++ t)) (c ∷ (cs ++ t)) s

-- What is left of a text once the blanks around it are gone.
without_scheme : Text → Text
without_scheme h = before_slash (or_else (behind https h) (or_else (behind http h) h))

name_left :
    (scheme name t : Text)
    → IsScheme scheme name
    → All NameChar name
    → Slashed t
    → without_scheme (scheme ++ (name ++ t)) ≡ name
unfolding without_scheme
name_left scheme name t k n s =
    let end : before_slash (name ++ t) ≡ name =
      before_slash-name name t n
      ∙ ap (λ r. name ++ r) (before_slash-Slashed t s)
      ∙ append-nil name in
    elim k [
      | inl e ↦ rw e end
      | inr (inl e) ↦ rw e end
      | inr (inr (e, bare)) ↦
          rw (e, behind-bare https name t refl bare s, behind-bare http name t refl bare s) end
    ]

trim-address :
    (lead scheme name tail : Text)
    → All Blank lead
    → IsScheme scheme name
    → All NameChar name
    → is_empty name ≡ false
    → trim (lead ++ (scheme ++ (name ++ tail))) ≡ scheme ++ (name ++ trim_right tail)
unfolding trim
trim-address lead scheme name tail l k n e =
    let fronted : trim_left (scheme ++ (name ++ tail)) ≡ scheme ++ (name ++ tail) = elim k [
      | inl h ↦ rw h refl
      | inr (inl h) ↦ rw h refl
      | inr (inr (h, _)) ↦ rw h (trim_left-name name tail n e)
    ] in
    let fits : All (λ c. is_space c ≡ false) scheme = elim k [
      | inl h ↦ rw h (refl, (refl, (refl, (refl, (refl, (refl, (refl, (refl, tt))))))))
      | inr (inl h) ↦ rw h (refl, (refl, (refl, (refl, (refl, (refl, (refl, tt)))))))
      | inr (inr (h, _)) ↦ rw h tt
    ] in
    ap trim_right (trim_left-blanks lead (scheme ++ (name ++ tail)) l ∙ fronted)
    ∙ trim_right-solid scheme (name ++ tail) fits
    ∙ ap (λ r. scheme ++ r) (trim_right-solid name tail (solid name n))

clean_host-name :
    (lead scheme name tail : Text)
    → All Blank lead
    → IsScheme scheme name
    → All NameChar name
    → is_empty name ≡ false
    → IsTail tail
    → clean_host (lead ++ (scheme ++ (name ++ tail))) ≡ name
unfolding clean_host without_scheme
clean_host-name lead scheme name tail l k n e t =
    ap without_scheme (trim-address lead scheme name tail l k n e)
    ∙ name_left scheme name (trim_right tail) k n (trim_right-Slashed tail t)

trim-name : (name : Text) → All NameChar name → is_empty name ≡ false → trim name ≡ name
unfolding trim
trim-name name n e =
    ap trim (sym (append-nil name))
    ∙ ap trim_right (trim_left-name name [] n e)
    ∙ trim_right-solid name [] (solid name n)
    ∙ append-nil name

-- The request ends with a pairing of the door that points at the new backend.
save_cloud :
    (e : Env) (d : Device) (f : Form)
    → is_empty (trim f.pair_code) ≡ false
    → (save e d f).cloud
      ≡ (pair e.enroll
          (save_host d.cloud f.cloud_host)
          (trim f.pair_code)
          e.connected
          e.free_heap).cloud
unfolding save save_pairing
save_cloud e d f h = rw h refl

set_host_points :
    (c : CloudSync) (name : Text)
    → All NameChar name
    → is_empty name ≡ false
    → ((set_host c name).0.host ≡ name) × ((set_host c name).0.stored.host ≡ name)
unfolding set_host
set_host_points c name n e =
    elim (Bool-cases (not (eq_text name c.host) && not (is_empty c.device_key))) [
      | inl k ↦ rw (trim-name name n e, e, k) (refl, refl)
      | inr k ↦ rw (trim-name name n e, e, k) (refl, refl)
    ]

-- Where a door points, and by which key it is paired, now and after a restart.
abbrev pub PairedAt : Text → Text → Text → CloudSync → Type 0
PairedAt name key default_host after =
    let booted = begin (start after.stored after.access) default_host in
    (after.host ≡ name)
    × (after.device_key ≡ key)
    × (booted.host ≡ name)
    × (booted.device_key ≡ key)

pair-PairedAt :
    (e : Env) (c : CloudSync) (name code default_host : Text) (a : Enrolment)
    → c.host ≡ name
    → c.stored.host ≡ name
    → is_empty name ≡ false
    → Asks code e.connected e.free_heap
    → Accepts (e.enroll name code) a
    → PairedAt name a.device_key default_host (pair e.enroll c code e.connected e.free_heap).cloud
pair-PairedAt e c name code default_host a at stored some_name asks accepts =
    elim (pair_outcome e.enroll c code e.connected e.free_heap default_host
      (inl (ap is_empty stored ∙ some_name, at ∙ sym stored))) [
        | inl (_, none_fits) ↦
            absurd (
              none_fits a
                (asks, subst (λ (g : Text). Accepts (e.enroll g code) a) (sym at) accepts))
        | inr (b, _, (answer, _), (_, host, taken, _, _, booted, home)) ↦
            let same : b.device_key ≡ a.device_key =
              key_of (sym answer ∙ ap (λ g. e.enroll g code) at ∙ accepts.0) in
            (host ∙ at, taken ∙ same, home ∙ at, booted ∙ same)
      ]
  where
    key_in : Enrolled → Text
    key_in (answered positive rc (some x)) = x.device_key
    key_in _ = []

    key_of :
        {x y : Enrolment}
        → answered true 200 (some x) ≡ answered true 200 (some y)
        → x.device_key ≡ y.device_key
    key_of h = ap key_in h

-- A request names a backend as an address in a browser does: with blanks and http:// or https:// in
-- front of the host's name, or without a scheme where the name has no colon, and with blanks, or a
-- slash and a path, behind it. If that backend accepts the code of the same request, and network and
-- memory are there, then the door points at the name and has its key, now and after a restart,
-- wherever it pointed before; so the code went to the new backend.
pub setup_pairs :
    (e : Env) (d : Device) (f : Form) (lead scheme name tail default_host : Text) (a : Enrolment)
    → All Blank lead
    → IsScheme scheme name
    → All NameChar name
    → is_empty name ≡ false
    → IsTail tail
    → f.cloud_host ≡ some (lead ++ (scheme ++ (name ++ tail)))
    → Asks (trim f.pair_code) e.connected e.free_heap
    → Accepts (e.enroll name (trim f.pair_code)) a
    → PairedAt name a.device_key default_host (save e d f).cloud
unfolding save_host
setup_pairs e d f lead scheme name tail default_host a l k n some_name t named asks accepts =
    let text : Text = lead ++ (scheme ++ (name ++ tail)) in
    let code : Text = trim f.pair_code in
    let c : CloudSync = (set_host d.cloud name).0 in
    let clean : clean_host text ≡ name = clean_host-name lead scheme name tail l k n some_name t in
    let pointed : save_host d.cloud f.cloud_host ≡ c =
      ap (save_host d.cloud) named
      ∙ ap (λ h. if is_empty h then d.cloud else (set_host d.cloud h).0) clean
      ∙ if_else (is_empty name) d.cloud c some_name in
    let went : (save e d f).cloud ≡ (pair e.enroll c code e.connected e.free_heap).cloud =
      save_cloud e d f (some_code code asks.0)
      ∙ ap (λ h. (pair e.enroll h code e.connected e.free_heap).cloud) pointed in
    let (at, stored) = set_host_points d.cloud name n some_name in
    subst (PairedAt name a.device_key default_host) (sym went)
      (pair-PairedAt e c name code default_host a at stored some_name asks accepts)
  where
    some_code : (t : Text) → 4 ≤ length t → is_empty t ≡ false
    some_code [] h = absurd (omega arith)
    some_code (x ∷ xs) h = refl
