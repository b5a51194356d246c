-- ===== src/Web/Json.antt =====
-- lib/WebService: the registry of footer links, and handleFooterJson, which writes it as JSON.
use rfid_access.Base.{
  ℕ, Bool, true, false, List, [], ◌∷◌, ◌++◌, ◌==◌, if◌then◌else◌, Text, is_empty,
}
use rfid_access.Web.Escape.{each}

pub record FooterLink : Type 0 where
  pub label : Text
  pub href : Text
  pub external : Bool

pub record Footer : Type 0 where
  pub links : List FooterLink
  pub seeded : Bool
  pub link_color : Text
  pub hover_color : Text
  pub sep_color : Text

unfoldable pub add_footer_link : Footer → Text → Text → Bool → Footer
add_footer_link f label href external = record f {
  links = f.links ++ (record { label = label; href = href; external = external } ∷ []);
}

-- setFooterColors: an empty colour for hovering is the link's.
unfoldable pub set_footer_colors : Footer → Text → Text → Text → Footer
set_footer_colors f link separator hover = record f {
  link_color = link;
  sep_color = separator;
  hover_color = if is_empty hover then link else hover;
}

-- seedFooterLinks; the built-in pages are an argument.
unfoldable pub seed_footer_links : List FooterLink → Footer → Footer
seed_footer_links builtins f =
    if f.seeded then f else record f { seeded = true; links = builtins ++ f.links }

-- 34 is the quotation mark and 92 the backslash.
abbrev pub quote : ℕ
quote = 34

abbrev pub backslash : ℕ
backslash = 92

abbrev pub unicode_escape : ℕ → Text
unicode_escape last = backslash ∷ b'u' ∷ b'0' ∷ b'0' ∷ b'3' ∷ last ∷ []

-- What one character adds in `esc`.
abbrev pub in_json : ℕ → Text
in_json c =
    if c == quote
    then backslash ∷ quote ∷ []
    else if c == backslash
    then backslash ∷ backslash ∷ []
    else if c == b'<'
    then unicode_escape b'c'
    else if c == b'>'
    then unicode_escape b'e'
    else c ∷ []

unfoldable pub esc : Text → Text
esc s = each in_json s

-- The literals of the answer.
abbrev pub open_links : Text
open_links = b'{' ∷ quote ∷ b'l' ∷ b'i' ∷ b'n' ∷ b'k' ∷ b's' ∷ quote ∷ b':' ∷ b'[' ∷ []

abbrev pub open_label : Text
open_label = b'{' ∷ quote ∷ b'l' ∷ b'a' ∷ b'b' ∷ b'e' ∷ b'l' ∷ quote ∷ b':' ∷ quote ∷ []

abbrev pub open_href : Text
open_href = quote ∷ b',' ∷ quote ∷ b'h' ∷ b'r' ∷ b'e' ∷ b'f' ∷ quote ∷ b':' ∷ quote ∷ []

abbrev pub open_ext : Text
open_ext = quote ∷ b',' ∷ quote ∷ b'e' ∷ b'x' ∷ b't' ∷ quote ∷ b':' ∷ []

abbrev pub true_text : Text
true_text = b't' ∷ b'r' ∷ b'u' ∷ b'e' ∷ []

abbrev pub false_text : Text
false_text = b'f' ∷ b'a' ∷ b'l' ∷ b's' ∷ b'e' ∷ []

abbrev pub open_colors : Text
open_colors =
    b']' ∷ b',' ∷ quote ∷ b'c' ∷ b'o' ∷ b'l' ∷ b'o' ∷ b'r' ∷ b's' ∷ quote ∷ b':' ∷ b'{' ∷ quote
    ∷ b'l' ∷ b'i' ∷ b'n' ∷ b'k' ∷ quote ∷ b':' ∷ quote ∷ []

abbrev pub open_hover : Text
open_hover = quote ∷ b',' ∷ quote ∷ b'h' ∷ b'o' ∷ b'v' ∷ b'e' ∷ b'r' ∷ quote ∷ b':' ∷ quote ∷ []

abbrev pub open_sep : Text
open_sep = quote ∷ b',' ∷ quote ∷ b's' ∷ b'e' ∷ b'p' ∷ quote ∷ b':' ∷ quote ∷ []

abbrev pub close_all : Text
close_all = quote ∷ b'}' ∷ b'}' ∷ []

-- One link, in front of what follows; and the loop over the links, in front of the colours.
unfoldable pub link_json : FooterLink → Text → Text
unfolding esc
link_json l rest =
    open_label
    ++ (esc l.label
        ++ (open_href
            ++ (esc l.href
                ++ (open_ext
                    ++ ((if l.external then true_text else false_text) ++ (b'}' ∷ rest))))))

unfoldable pub links_json : Bool → List FooterLink → Text → Text
unfolding link_json
links_json first [] rest = rest
links_json first (l ∷ ls) rest =
    let one = link_json l (links_json false ls rest) in if first then one else b',' ∷ one

unfoldable pub footer_json : Footer → Text
unfolding links_json esc
footer_json f =
    open_links
    ++ links_json true f.links (
        open_colors
        ++ (esc f.link_color
            ++ (open_hover ++ (esc f.hover_color ++ (open_sep ++ (esc f.sep_color ++ close_all))))))
