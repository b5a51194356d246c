-- ===== src/Web/Reading.antt =====
-- A reader of JSON strings and of the shape of /footer.json's document, described apart from the code
-- that writes it.
use rfid_access.Base.{
  ℕ, zero, suc, Bool, true, false, ◌||◌, List, [], ◌∷◌, Option, none, some, drop, is_empty, ◌==◌,
  ltb, if◌then◌else◌, length, Text, behind,
}
use rfid_access.Web.Json.{
  FooterLink, quote, backslash, unicode_escape, open_links, open_label, open_href, open_ext,
  true_text, false_text, open_colors, open_hover, open_sep,
}

-- One character of a JSON string, as the format documents it: its end, an escape of those that are
-- used here, or a character that is no control character. `none` where it is none of these.
pub data Item : Type 0 where
  ended : Text → Item
  char : ℕ → Text → Item

abbrev pub plain : Text → Option Item
plain [] = none
plain (c ∷ cs) =
    if c == quote
    then some (ended cs)
    else if c == backslash || ltb c 32
    then none
    else some (char c cs)

abbrev pub escapes : List (Text × ℕ)
escapes =
    (backslash ∷ quote ∷ [], quote)
    ∷ (backslash ∷ backslash ∷ [], backslash)
    ∷ (unicode_escape b'c', b'<')
    ∷ (unicode_escape b'e', b'>')
    ∷ []

abbrev pub item_of : List (Text × ℕ) → Text → Option Item
item_of [] t = plain t
item_of ((name, c) ∷ more) t = elim (behind name t) [
  | none ↦ item_of more t
  | some rest ↦ some (char c rest)
]

-- The string up to its closing quotation mark, and what follows, on fuel.
abbrev pub with_first : ℕ → Option (Text × Text) → Option (Text × Text)
with_first c none = none
with_first c (some (s, after)) = some (c ∷ s, after)

abbrev pub go_on : (Text → Option (Text × Text)) → Option Item → Option (Text × Text)
go_on more none = none
go_on more (some (ended rest)) = some ([], rest)
go_on more (some (char c rest)) = with_first c (more rest)

abbrev pub string_fuel : ℕ → Text → Option (Text × Text)
string_fuel zero t = none
string_fuel (suc n) t = go_on (string_fuel n) (item_of escapes t)

unfoldable pub read_string : Text → Option (Text × Text)
read_string t = string_fuel (length t) t

-- The document: each part is read where it must stand, else the reading fails.
abbrev pub and_then {ℓ κ} : {A : Type ℓ} {B : Type κ} → Option A → (A → Option B) → Option B
and_then none f = none
and_then (some a) f = f a

abbrev pub read_bool : Text → Option (Bool × Text)
read_bool t = elim (behind true_text t) [
  | some rest ↦ some (true, rest)
  | none ↦ and_then (behind false_text t) (λ rest. some (false, rest))
]

unfoldable pub read_link : Text → Option (FooterLink × Text)
read_link t = and_then (behind open_label t) (λ t1. and_then (read_string t1) (λ label.
    and_then (behind (drop 1 open_href) label.1) (λ t2. and_then (read_string t2) (λ href.
      and_then (behind (drop 1 open_ext) href.1) (λ t3. and_then (read_bool t3) (λ ext.
        and_then (behind (b'}' ∷ []) ext.1)
          (λ t4. some (record { label = label.0; href = href.0; external = ext.0 }, t4))))))))

-- The links behind the first, each behind its comma, on fuel.
unfoldable pub read_more : ℕ → Text → Option (List FooterLink × Text)
read_more zero t = none
read_more (suc n) [] = none
read_more (suc n) (c ∷ cs) =
    if c == b','
    then and_then (read_link cs) (λ l. and_then (read_more n l.1) (λ ls. some (l.0 ∷ ls.0, ls.1)))
    else some ([], c ∷ cs)

unfoldable pub read_links : Text → Option (List FooterLink × Text)
unfolding read_more
read_links [] = none
read_links (c ∷ cs) =
    if c == b']'
    then some ([], c ∷ cs)
    else and_then (read_link (c ∷ cs))
        (λ l. and_then (read_more (suc (length cs)) l.1) (λ ls. some (l.0 ∷ ls.0, ls.1)))

unfoldable pub read_colors : Text → Option (Text × Text × Text)
read_colors t = and_then (behind open_colors t) (λ t1. and_then (read_string t1) (λ link.
    and_then (behind (drop 1 open_hover) link.1) (λ t2. and_then (read_string t2) (λ hover.
      and_then (behind (drop 1 open_sep) hover.1) (λ t3. and_then (read_string t3) (λ sep.
        and_then (behind (b'}' ∷ b'}' ∷ []) sep.1)
          (λ t4. if is_empty t4 then some (link.0, hover.0, sep.0) else none)))))))

-- The links, and the colours of links, of hovering and of the separators.
unfoldable pub read_footer : Text → Option (List FooterLink × Text × Text × Text)
unfolding read_links read_colors
read_footer t = and_then (behind open_links t) (λ t1.
    and_then (read_links t1) (λ ls. and_then (read_colors ls.1) (λ c. some (ls.0, c.0, c.1, c.2))))
