-- ===== src/Web/Entities.antt =====
-- What a browser reads from escaped text: the character references that HTML documents, described
-- apart from the code that writes them.
use rfid_access.Base.{
  ℕ, zero, suc, ◌≤◌, ◌≡◌, refl, ◌≢◌, List, [], ◌∷◌, ◌++◌, Option, none, some, arith, length,
  length-append, Text, behind, All, All-append,
}
use rfid_access.Web.Escape.{
  amp, lt, gt, apos, quot, in_text, in_attr, encoded, each, escape_text, escape_attr, html_encode,
}

-- The references, with the character that each stands for.
abbrev pub references : List (Text × ℕ)
references = (amp, b'&') ∷ (lt, b'<') ∷ (gt, b'>') ∷ (apos, 39) ∷ (quot, 34) ∷ []

-- The first character that is read, and the rest: that of a reference that the text begins with,
-- else the text's own.
abbrev pub own : Text → Option (ℕ × Text)
own [] = none
own (c ∷ cs) = some (c, cs)

abbrev pub first_of : List (Text × ℕ) → Text → Option (ℕ × Text)
first_of [] t = own t
first_of ((name, c) ∷ more) t = elim (behind name t) [
  | none ↦ first_of more t
  | some rest ↦ some (c, rest)
]

-- Everything that is read, on fuel: each reading takes a character or more.
abbrev pub or_stop : (Text → Text) → Option (ℕ × Text) → Text
or_stop go_on none = []
or_stop go_on (some (c, rest)) = c ∷ go_on rest

abbrev pub read_fuel : ℕ → Text → Text
read_fuel zero t = []
read_fuel (suc n) t = or_stop (read_fuel n) (first_of references t)

abbrev pub shown : Text → Text
shown t = read_fuel (length t) t

-- A character's text is read as the character, whatever follows, and is not empty.
abbrev Reads : (ℕ → Text) → Type 0
Reads f =
    (c : ℕ)
    → ((rest : Text) → first_of references (f c ++ rest) ≡ some (c, rest)) × (1 ≤ length (f c))

in_text-Reads : Reads in_text
in_text-Reads c = (λ rest. ground arith, ground arith)

in_attr-Reads : Reads in_attr
in_attr-Reads c = (λ rest. ground arith, ground arith)

read_fuel-each :
    (f : ℕ → Text) (s : Text) (n : ℕ) → Reads f → length s ≤ n → read_fuel n (each f s) ≡ s
read_fuel-each f [] zero r h = refl
read_fuel-each f [] (suc n) r h = refl
read_fuel-each f (c ∷ cs) zero r h = absurd (omega arith)
read_fuel-each f (c ∷ cs) (suc n) r h =
    rw ((r c).0 (each f cs), read_fuel-each f cs n r (omega arith)) refl

length-each : (f : ℕ → Text) (s : Text) → Reads f → length s ≤ length (each f s)
length-each f [] r = omega arith
length-each f (c ∷ cs) r =
    omega (arith, (r c).1, length-each f cs r, length-append (f c) (each f cs))

shown-each : (f : ℕ → Text) (s : Text) → Reads f → shown (each f s) ≡ s
shown-each f s r = read_fuel-each f s (length (each f s)) r (length-each f s r)

-- No tag begins or ends here; and no attribute, in whichever quotes.
abbrev pub NoTag : ℕ → Type 0
NoTag c = (c ≢ b'<') × (c ≢ b'>')

abbrev pub NoQuote : ℕ → Type 0
NoQuote c = (c ≢ b'<') × (c ≢ b'>') × (c ≢ 39) × (c ≢ 34)

All-each : (P : ℕ → Type 0) (f : ℕ → Text) (s : Text) → ((c : ℕ) → All P (f c)) → All P (each f s)
All-each P f [] h = tt
All-each P f (c ∷ cs) h = All-append P (f c) (each f cs) (h c) (All-each P f cs h)

in_text-NoTag : (c : ℕ) → All NoTag (in_text c)
in_text-NoTag c = ground arith

in_attr-NoQuote : (c : ℕ) → All NoQuote (in_attr c)
in_attr-NoQuote c = ground arith

encoded-in_attr : (c : ℕ) → encoded c ≡ in_attr c
encoded-in_attr c = ground arith

each_same : (f g : ℕ → Text) (s : Text) → ((c : ℕ) → f c ≡ g c) → each f s ≡ each g s
each_same f g [] h = refl
each_same f g (c ∷ cs) h = rw (h c, each_same f g cs h) refl

-- Any text is shown as it is: a browser reads escaped text and an escaped attribute back as the text
-- that was escaped; escaped text has no character of a tag, and an escaped attribute none of a tag
-- and no quotation mark of either kind; and the portal's htmlEncode does what escapeAttr does.
pub escaped_shown :
    (s : Text)
    → (shown (escape_text s) ≡ s)
      × (shown (escape_attr s) ≡ s)
      × All NoTag (escape_text s)
      × All NoQuote (escape_attr s)
      × (html_encode s ≡ escape_attr s)
unfolding escape_text escape_attr html_encode
escaped_shown s = (
  shown-each in_text s in_text-Reads,
  shown-each in_attr s in_attr-Reads,
  All-each NoTag in_text s in_text-NoTag,
  All-each NoQuote in_attr s in_attr-NoQuote,
  each_same encoded in_attr s encoded-in_attr,
)
