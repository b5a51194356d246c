-- ===== src/Identity/Labels.antt =====
-- What sanitizeLabel yields: host labels, described by a scan of their characters.
use rfid_access.Base.{
  ℕ, ◌+◌, ◌≤◌, ◌≡◌, refl, ◌∙◌, subst, le→leb, ◌⊎◌, inl, inr, Bool, true, false, not, ◌&&◌, [], ◌∷◌,
  ◌++◌, append-nil, append_assoc, Option, none, some, arith, leb, ◌==◌, Bool-cases, leb→lt, lt→leb,
  if◌then◌else◌, length, length-append, Text, is_empty, to_ℕ,
}
use rfid_access.Identity.{to_lower, is_alnum, dash, with_separator, sanitize_from, sanitize_label}

-- The scan knows whether the character before was a letter or digit; `none` once a character is
-- neither that nor a dash behind one.
abbrev pub scan : Option Bool → Text → Option Bool
scan none cs = none
scan (some p) [] = some p
scan (some p) (c ∷ cs) =
    scan (if is_alnum c then some true else if (c == dash) && p then some false else none) cs

-- Letters and digits, with single dashes between them.
abbrev pub IsLabel : Text → Type 0
IsLabel t = scan (some false) t ≡ some true

pub scan-alnum_cons :
    (p : Bool) (c : ℕ) (cs : Text)
    → is_alnum c ≡ true
    → scan (some p) (c ∷ cs) ≡ scan (some true) cs
scan-alnum_cons p c cs h = ground arith

pub scan-append : (o : Option Bool) (xs ys : Text) → scan o (xs ++ ys) ≡ scan (scan o xs) ys
scan-append none xs ys = refl
scan-append (some p) [] ys = refl
scan-append (some p) (c ∷ cs) ys =
    scan-append (if is_alnum c then some true else if (c == dash) && p then some false else none) cs
      ys

-- What the loop has written so far.
abbrev Written : Text → Type 0
Written out = (out ≡ []) ⊎ IsLabel out

pub IsLabel-nonempty : (t : Text) → IsLabel t → is_empty t ≡ false
IsLabel-nonempty [] h = cc
IsLabel-nonempty (c ∷ cs) h = refl

scan-alnum : (p : Bool) (d : ℕ) → is_alnum d ≡ true → scan (some p) (d ∷ []) ≡ some true
scan-alnum p d h = ground arith

IsLabel-snoc : (out : Text) (d : ℕ) → IsLabel out → is_alnum d ≡ true → IsLabel (out ++ (d ∷ []))
IsLabel-snoc out d l h = scan-append (some false) out (d ∷ []) ∙ rw l (scan-alnum true d h)

IsLabel-dash :
    (out : Text) (d : ℕ)
    → IsLabel out
    → is_alnum d ≡ true
    → IsLabel ((out ++ (dash ∷ [])) ++ (d ∷ []))
IsLabel-dash out d l h =
    scan-append (some false) (out ++ (dash ∷ [])) (d ∷ [])
    ∙ rw (scan-append (some false) out (dash ∷ [])) (rw l (scan-alnum false d h))

separator-IsLabel :
    (out : Text) (pending : Bool) (d : ℕ)
    → Written out
    → is_alnum d ≡ true
    → IsLabel (with_separator out pending ++ (d ∷ []))
separator-IsLabel out false d (inl e) hd = rw e (scan-alnum false d hd)
separator-IsLabel out true d (inl e) hd = rw e (scan-alnum false d hd)
separator-IsLabel out false d (inr l) hd = IsLabel-snoc out d l hd
separator-IsLabel out true d (inr l) hd = rw (IsLabel-nonempty out l) (IsLabel-dash out d l hd)

length-separator :
    (out : Text) (pending : Bool) → length (with_separator out pending) ≤ length out + 1
length-separator out pending = ground (arith, length-append out (dash ∷ []))

sanitize_from-Written :
    (out : Text) (pending : Bool) (cs : Text)
    → Written out
    → length out ≤ 62
    → Written (sanitize_from out pending cs) × (length (sanitize_from out pending cs) ≤ 64)
unfolding sanitize_from
sanitize_from-Written out pending [] w h = (w, omega arith)
sanitize_from-Written out pending (c ∷ cs) w h =
    let d = to_lower c in
    let out' = with_separator out pending ++ (d ∷ []) in
    let len : length out' ≤ 64 =
      omega (
        arith,
        length-append (with_separator out pending) (d ∷ []),
        length-separator out pending,
      ) in
    elim (Bool-cases (is_alnum d)) [
      | inr skip ↦ rw skip (sanitize_from-Written out true cs w h)
      | inl keep ↦
          let l : IsLabel out' = separator-IsLabel out pending d w keep in
          elim (Bool-cases (leb 63 (length out'))) [
            | inl full ↦ rw (keep, full) (inr l, len)
            | inr room ↦
                let gap = leb→lt 63 (length out') room in
                rw (keep, room) (sanitize_from-Written out' false cs (inr l) (omega arith))
          ]
    ]

-- Whatever an operator types, the label is empty, or letters and digits with single dashes between
-- them and none at its ends, of 64 characters at most.
pub sanitize_label-IsLabel :
    (input : Text)
    → ((sanitize_label input ≡ []) ⊎ IsLabel (sanitize_label input))
      × (length (sanitize_label input) ≤ 64)
unfolding sanitize_label
sanitize_label-IsLabel input = sanitize_from-Written [] false input (inl refl) (omega arith)

-- A label's first character, and the scan behind it.
scan-cons :
    (p : Bool) (c : ℕ) (cs : Text)
    → scan (some p) (c ∷ cs) ≡ some true
    → ((is_alnum c ≡ true) × (scan (some true) cs ≡ some true))
      ⊎ ((c ≡ dash) × (p ≡ true) × (scan (some false) cs ≡ some true))
scan-cons p c cs h = ground arith

to_lower-alnum : (c : ℕ) → is_alnum c ≡ true → to_lower c ≡ c
to_lower-alnum c h = ground arith

sanitize_from-alnum :
    (out : Text) (p : Bool) (c : ℕ) (cs : Text)
    → is_alnum c ≡ true
    → length (with_separator out p ++ (c ∷ [])) ≤ 62
    → sanitize_from out p (c ∷ cs) ≡ sanitize_from (with_separator out p ++ (c ∷ [])) false cs
unfolding sanitize_from
sanitize_from-alnum out p c cs a h =
    rw (to_lower-alnum c a, a, lt→leb (length (with_separator out p ++ (c ∷ []))) 63 (omega arith))
      refl

sanitize_from-full :
    (out : Text) (p : Bool) (c : ℕ) (cs : Text)
    → is_alnum c ≡ true
    → 63 ≤ length (with_separator out p ++ (c ∷ []))
    → sanitize_from out p (c ∷ cs) ≡ with_separator out p ++ (c ∷ [])
unfolding sanitize_from
sanitize_from-full out p c cs a h =
    rw (to_lower-alnum c a, a, le→leb 63 (length (with_separator out p ++ (c ∷ []))) h) refl

sanitize_from-separator :
    (out : Text) (p : Bool) (c : ℕ) (cs : Text)
    → is_alnum (to_lower c) ≡ false
    → sanitize_from out p (c ∷ cs) ≡ sanitize_from out true cs
unfolding sanitize_from
sanitize_from-separator out p c cs h = rw h refl

nonempty_snoc : (xs : Text) (c : ℕ) → is_empty (xs ++ (c ∷ [])) ≡ false
nonempty_snoc [] c = refl
nonempty_snoc (x ∷ xs) c = refl

with_separator-true :
    (out : Text) → is_empty out ≡ false → with_separator out true ≡ out ++ (dash ∷ [])
with_separator-true out e = rw e refl

length-with_separator :
    (out : Text) (p : Bool) → length (with_separator out p) ≤ length out + to_ℕ p
length-with_separator out false = omega arith
length-with_separator out true = ground (arith, length-append out (dash ∷ []))

-- The loop passes through a label that leaves room for one more character.
sanitize_from-label :
    (cs rest out : Text) (p : Bool)
    → scan (some (not p)) cs ≡ some true
    → is_empty out ≡ false
    → length out + to_ℕ p + length cs ≤ 62
    → sanitize_from out p (cs ++ rest) ≡ sanitize_from (with_separator out p ++ cs) false rest
unfolding sanitize_from
sanitize_from-label [] rest out true l e h = cc
sanitize_from-label [] rest out false l e h = rw append-nil refl
sanitize_from-label (c ∷ cs) rest out p l e h = elim (scan-cons (not p) c cs l) [
  | inl (a, r) ↦
      let out' = with_separator out p ++ (c ∷ []) in
      let len = length-append (with_separator out p) (c ∷ []) in
      let bound = length-with_separator out p in
      sanitize_from-alnum out p c (cs ++ rest) a (omega arith)
      ∙ sanitize_from-label cs rest out' false r (nonempty_snoc (with_separator out p) c)
          (omega arith)
      ∙ rw append_assoc refl
  | inr (d, q, r) ↦
      let unset : p ≡ false = ground arith in
      rw (d, unset)
        (sanitize_from-label cs rest out true r e (ground arith)
          ∙ rw (with_separator-true out e) (rw append_assoc refl))
]

label_loop :
    (label rest : Text)
    → IsLabel label
    → length label ≤ 62
    → sanitize_from [] false (label ++ rest) ≡ sanitize_from label false rest
label_loop [] rest l h = cc
label_loop (c ∷ cs) rest l h = elim (scan-cons false c cs l) [
  | inl (a, r) ↦
      sanitize_from-alnum [] false c (cs ++ rest) a (omega arith)
      ∙ sanitize_from-label cs rest (c ∷ []) false r refl (omega arith)
  | inr (d, q, r) ↦ cc
]

-- A host label of 62 characters at most is kept as it is.
pub sanitize_label-label :
    (label : Text) → IsLabel label → length label ≤ 62 → sanitize_label label ≡ label
unfolding sanitize_label sanitize_from
sanitize_label-label label l h =
    subst (λ t. sanitize_from [] false t ≡ label) (append-nil label) (label_loop label [] l h)

-- The limit of 63 characters does not hold: a label of 62 characters, followed by any separator and a
-- lower-case letter or digit, comes out with 64 characters.
pub label_too_long :
    (label rest : Text) (separator c : ℕ)
    → IsLabel label
    → length label ≡ 62
    → is_alnum (to_lower separator) ≡ false
    → is_alnum c ≡ true
    → length (sanitize_label (label ++ (separator ∷ c ∷ rest))) ≡ 64
unfolding sanitize_label
label_too_long label rest separator c l h hs hc =
    let ne = IsLabel-nonempty label l in
    let len : length ((label ++ (dash ∷ [])) ++ (c ∷ [])) ≡ 64 =
      length-append (label ++ (dash ∷ [])) (c ∷ [])
      ∙ omega (arith, length-append label (dash ∷ [])) in
    rw
      (
        label_loop label (separator ∷ c ∷ rest) l (omega arith),
        sanitize_from-separator label false separator (c ∷ rest) hs,
        sanitize_from-full label true c rest hc (rw (with_separator-true label ne) (omega arith)),
        with_separator-true label ne,
      )
      len
