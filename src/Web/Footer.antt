-- ===== src/Web/Footer.antt =====
-- The footer's JSON against the reader of Web/Reading.
use rfid_access.Base.{
  ℕ, zero, suc, ◌≤◌, ◌<◌, ◌≡◌, refl, Bool, true, false, List, [], ◌∷◌, ◌++◌, some, arith, drop,
  if◌then◌else◌, length, length-append, append_assoc, Text, All,
}
use rfid_access.Web.Escape.{each}
use rfid_access.Web.Json.{
  FooterLink, Footer, quote, in_json, esc, open_href, open_ext, true_text, false_text, open_colors,
  open_hover, open_sep, close_all, link_json, links_json, footer_json,
}
use rfid_access.Web.Reading.{
  char, escapes, item_of, string_fuel, read_string, and_then, read_bool, read_link, read_more,
  read_links, read_colors, read_footer,
}

-- No control character.
abbrev pub NoControl : ℕ → Type 0
NoControl c = 32 ≤ c

in_json-char :
    (c : ℕ) (rest : Text) → NoControl c → item_of escapes (in_json c ++ rest) ≡ some (char c rest)
in_json-char c rest h = ground arith

string_fuel-esc :
    (s rest : Text) (n : ℕ)
    → All NoControl s
    → length s < n
    → string_fuel n (each in_json s ++ (quote ∷ rest)) ≡ some (s, rest)
string_fuel-esc s rest zero h l = absurd (omega arith)
string_fuel-esc [] rest (suc n) h l = refl
string_fuel-esc (c ∷ cs) rest (suc n) (p, h) l =
    rw
      (
        append_assoc (in_json c) (each in_json cs) (quote ∷ rest),
        in_json-char c (each in_json cs ++ (quote ∷ rest)) p,
        string_fuel-esc cs rest n h (omega arith),
      )
      refl

in_json-length : (c : ℕ) → 1 ≤ length (in_json c)
in_json-length c = ground arith

esc-length : (s : Text) → length s ≤ length (each in_json s)
esc-length [] = omega arith
esc-length (c ∷ cs) =
    omega (arith, in_json-length c, esc-length cs, length-append (in_json c) (each in_json cs))

read_string-esc :
    (s rest : Text) → All NoControl s → read_string (esc s ++ (quote ∷ rest)) ≡ some (s, rest)
unfolding read_string esc
read_string-esc s rest h =
    string_fuel-esc s rest (length (each in_json s ++ (quote ∷ rest))) h
      (omega (arith, esc-length s, length-append (each in_json s) (quote ∷ rest)))

abbrev pub Readable : FooterLink → Type 0
Readable l = All NoControl l.label × All NoControl l.href

read_bool-text :
    (b : Bool) (rest : Text)
    → read_bool ((if b then true_text else false_text) ++ rest) ≡ some (b, rest)
read_bool-text true rest = refl
read_bool-text false rest = refl

read_link-json :
    (l : FooterLink) (rest : Text) → Readable l → read_link (link_json l rest) ≡ some (l, rest)
unfolding read_link link_json
read_link-json l rest (a, b) =
    rw
      (
        read_string-esc l.label
            (drop 1 open_href
              ++ (esc l.href
                  ++ (open_ext
                      ++ ((if l.external then true_text else false_text) ++ (b'}' ∷ rest)))))
            a,
        read_string-esc l.href
            (drop 1 open_ext ++ ((if l.external then true_text else false_text) ++ (b'}' ∷ rest)))
            b,
        read_bool-text l.external (b'}' ∷ rest),
      )
      refl

length-link_json : (l : FooterLink) (rest : Text) → length rest < length (link_json l rest)
unfolding link_json
length-link_json l rest =
    let flag : Text = if l.external then true_text else false_text in
    omega (
      arith,
      length-append (esc l.label)
          (open_href ++ (esc l.href ++ (open_ext ++ (flag ++ (b'}' ∷ rest))))),
      length-append (esc l.href) (open_ext ++ (flag ++ (b'}' ∷ rest))),
      length-append flag (b'}' ∷ rest),
    )

length-links_json :
    (ls : List FooterLink) (rest : Text)
    → 0 < length rest
    → length ls < length (links_json false ls rest)
unfolding links_json
length-links_json [] rest h = h
length-links_json (l ∷ ls) rest h =
    omega (arith, length-links_json ls rest h, length-link_json l (links_json false ls rest))

read_more-json :
    (ls : List FooterLink) (r : Text) (n : ℕ)
    → All Readable ls
    → length ls < n
    → read_more n (links_json false ls (b']' ∷ r)) ≡ some (ls, b']' ∷ r)
unfolding read_more links_json
read_more-json ls r zero h k = absurd (omega arith)
read_more-json [] r (suc n) h k = refl
read_more-json (l ∷ ls) r (suc n) (a, h) k =
    rw (read_link-json l (links_json false ls (b']' ∷ r)) a, read_more-json ls r n h (omega arith))
      refl

-- What a link begins with.
read_links_step :
    (l : FooterLink) (rest : Text)
    → read_links (link_json l rest)
      ≡ and_then (read_link (link_json l rest)) (λ k.
        and_then (read_more (length (link_json l rest)) k.1) (λ ls. some (k.0 ∷ ls.0, ls.1)))
unfolding read_links link_json
read_links_step l rest = refl

read_links-json :
    (ls : List FooterLink) (r : Text)
    → All Readable ls
    → read_links (links_json true ls (b']' ∷ r)) ≡ some (ls, b']' ∷ r)
unfolding links_json
read_links-json [] r h = unfold read_links in refl
read_links-json (l ∷ ls) r (a, h) =
    let rest : Text = links_json false ls (b']' ∷ r) in
    rw
      (
        read_links_step l rest,
        read_link-json l rest a,
        read_more-json ls r (length (link_json l rest)) h
            (omega (arith, length-link_json l rest, length-links_json ls (b']' ∷ r) (omega arith))),
      )
      refl

read_colors-json :
    (link hover sep : Text)
    → All NoControl link
    → All NoControl hover
    → All NoControl sep
    → read_colors (
        open_colors
        ++ (esc link ++ (open_hover ++ (esc hover ++ (open_sep ++ (esc sep ++ close_all))))))
      ≡ some (link, hover, sep)
unfolding read_colors
read_colors-json link hover sep a b c =
    rw
      (
        read_string-esc link
            (drop 1 open_hover ++ (esc hover ++ (open_sep ++ (esc sep ++ close_all)))) a,
        read_string-esc hover (drop 1 open_sep ++ (esc sep ++ close_all)) b,
        read_string-esc sep (drop 1 close_all) c,
      )
      refl

-- Whatever links and colours a project registers, without control characters in their texts, the
-- answer of /footer.json is read back as these links in their order and these colours, and contains
-- nothing else.
pub footer_json_read :
    (f : Footer)
    → All Readable f.links
    → All NoControl f.link_color
    → All NoControl f.hover_color
    → All NoControl f.sep_color
    → read_footer (footer_json f) ≡ some (f.links, f.link_color, f.hover_color, f.sep_color)
unfolding read_footer footer_json
footer_json_read f h a b c =
    rw
      (
        read_links-json f.links
            (drop 1 open_colors
              ++ (esc f.link_color
                  ++ (open_hover
                      ++ (esc f.hover_color ++ (open_sep ++ (esc f.sep_color ++ close_all))))))
            h,
        read_colors-json f.link_color f.hover_color f.sep_color a b c,
      )
      refl
