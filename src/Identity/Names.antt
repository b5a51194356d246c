-- ===== src/Identity/Names.antt =====
-- The names that units go by.
use rfid_access.Base.{
  ℕ, zero, suc, ◌/◌, ◌%◌, ◌≤◌, ◌<◌, ◌≡◌, refl, sym, ap, ◌∙◌, inl, inr, Bool, true, false, [], ◌∷◌,
  ◌++◌, Option, none, some, arith, length, length-append, take, drop, get_or, Text,
}
use rfid_access.Identity.{
  is_alnum, dash, sanitize_label, hex_digit, hex_byte, Mac, device_id, hostname,
}
use rfid_access.Identity.Labels.{
  scan, scan-append, scan-alnum_cons, IsLabel, IsLabel-nonempty, sanitize_label-label,
  sanitize_label-IsLabel,
}

-- The three bytes of the address are bytes.
abbrev pub IsMac : Mac → Type 0
IsMac m = (m.b3 < 256) × (m.b4 < 256) × (m.b5 < 256)

abbrev suffix : Mac → Text
suffix m = hex_byte m.b3 ++ (hex_byte m.b4 ++ hex_byte m.b5)

hex_digit-alnum : (d : ℕ) → d < 16 → is_alnum (hex_digit d) ≡ true
hex_digit-alnum d h = ground arith

scan-hex_byte :
    (b : ℕ) (cs : Text) (p : Bool)
    → b < 256
    → scan (some p) (hex_byte b ++ cs) ≡ scan (some true) cs
scan-hex_byte b cs p h =
    scan-alnum_cons p (hex_digit (b / 16)) (hex_digit (b % 16) ∷ cs)
      (hex_digit-alnum (b / 16) (omega arith))
    ∙ scan-alnum_cons true (hex_digit (b % 16)) cs (hex_digit-alnum (b % 16) (omega arith))

hex_digit-inj : (a b : ℕ) → a < 16 → b < 16 → hex_digit a ≡ hex_digit b → a ≡ b
hex_digit-inj a b ha hb h = ground arith

-- A byte is given by its two digits.
byte_of_digits :
    (a b : ℕ)
    → a < 256
    → b < 256
    → hex_digit (a / 16) ≡ hex_digit (b / 16)
    → hex_digit (a % 16) ≡ hex_digit (b % 16)
    → a ≡ b
byte_of_digits a b ha hb h l =
    let eh = hex_digit-inj (a / 16) (b / 16) (omega arith) (omega arith) h in
    let el = hex_digit-inj (a % 16) (b % 16) (omega arith) (omega arith) l in omega arith

take_all : (n : ℕ) (xs : Text) → length xs ≤ n → take n xs ≡ xs
take_all zero [] h = refl
take_all zero (x ∷ xs) h = elim h [ ]
take_all (suc n) [] h = refl
take_all (suc n) (x ∷ xs) h = ap (λ t. x ∷ t) (take_all n xs (omega arith))

append_cancel : (p xs ys : Text) → p ++ xs ≡ p ++ ys → xs ≡ ys
append_cancel [] xs ys h = h
append_cancel (c ∷ p) xs ys h = append_cancel p xs ys (ap (drop 1) h)

name_IsLabel :
    (prefix : Text) (m : Mac) → IsLabel prefix → IsMac m → IsLabel (prefix ++ (dash ∷ suffix m))
name_IsLabel prefix m l (h3, h4, h5) =
    scan-append (some false) prefix (dash ∷ suffix m)
    ∙ rw l (
        scan-hex_byte m.b3 (hex_byte m.b4 ++ hex_byte m.b5) false h3
        ∙ scan-hex_byte m.b4 (hex_byte m.b5) true h4
        ∙ scan-hex_byte m.b5 [] true h5)

-- The device's name is the prefix, a dash and six digits.
device_id_lem :
    (prefix : Text) (m : Mac)
    → IsLabel prefix
    → length prefix ≤ 32
    → IsMac m
    → device_id prefix m ≡ prefix ++ (dash ∷ suffix m)
unfolding device_id
device_id_lem prefix m l h hm =
    let len : length (prefix ++ (dash ∷ suffix m)) ≤ 39 =
      omega (arith, length-append prefix (dash ∷ suffix m)) in
    rw (take_all 39 (prefix ++ (dash ∷ suffix m)) len) (
      sanitize_label-label (prefix ++ (dash ∷ suffix m)) (name_IsLabel prefix m l hm) (omega arith))

-- Two units with the same prefix, a host label of 32 characters at most, have different device
-- names if their addresses differ in one of the last three bytes.
pub device_id-inj :
    (prefix : Text) (m n : Mac)
    → IsLabel prefix
    → length prefix ≤ 32
    → IsMac m
    → IsMac n
    → device_id prefix m ≡ device_id prefix n
    → (m.b3 ≡ n.b3) × (m.b4 ≡ n.b4) × (m.b5 ≡ n.b5)
device_id-inj prefix m n l h hm hn e =
    let same : (dash ∷ suffix m) ≡ (dash ∷ suffix n) =
      append_cancel prefix (dash ∷ suffix m) (dash ∷ suffix n)
        (sym (device_id_lem prefix m l h hm) ∙ e ∙ device_id_lem prefix n l h hn) in
    let at = λ (i : ℕ). ap (λ t. get_or t i 0) same in
    (
      byte_of_digits m.b3 n.b3 hm.0 hn.0 (at 1) (at 2),
      byte_of_digits m.b4 n.b4 hm.1 hn.1 (at 3) (at 4),
      byte_of_digits m.b5 n.b5 hm.2 hn.2 (at 5) (at 6),
    )

device_id-IsLabel :
    (prefix : Text) (m : Mac)
    → IsLabel prefix
    → length prefix ≤ 32
    → IsMac m
    → IsLabel (device_id prefix m) × (length (device_id prefix m) ≤ 64)
device_id-IsLabel prefix m l h hm =
    rw (device_id_lem prefix m l h hm)
      (name_IsLabel prefix m l hm, omega (arith, length-append prefix (dash ∷ suffix m)))

-- Whatever name is stored, the name a unit answers to is a host label of 64 characters at most,
-- and never empty, if the prefix of its device name is a host label of 32 characters at most.
pub hostname-IsLabel :
    (prefix : Text) (m : Mac) (saved : Option Text)
    → IsLabel prefix
    → length prefix ≤ 32
    → IsMac m
    → IsLabel (hostname saved (device_id prefix m))
      × (length (hostname saved (device_id prefix m)) ≤ 64)
unfolding hostname
hostname-IsLabel prefix m none l h hm = device_id-IsLabel prefix m l h hm
hostname-IsLabel prefix m (some saved) l h hm =
    let (label, bound) = sanitize_label-IsLabel saved in
    elim label [
      | inl e ↦ rw e (device_id-IsLabel prefix m l h hm)
      | inr s ↦ rw (IsLabel-nonempty (sanitize_label saved) s) (s, bound)
    ]
