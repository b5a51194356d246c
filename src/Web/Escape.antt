-- ===== src/Web/Escape.antt =====
-- lib/WebService: escapeText and escapeAttr, and htmlEncode of lib/WiFiManager.
use rfid_access.Base.{ℕ, [], ◌∷◌, ◌++◌, ◌==◌, if◌then◌else◌, Text}

abbrev pub amp : Text
amp = b'&' ∷ b'a' ∷ b'm' ∷ b'p' ∷ b';' ∷ []

abbrev pub lt : Text
lt = b'&' ∷ b'l' ∷ b't' ∷ b';' ∷ []

abbrev pub gt : Text
gt = b'&' ∷ b'g' ∷ b't' ∷ b';' ∷ []

abbrev pub apos : Text
apos = b'&' ∷ b'#' ∷ b'3' ∷ b'9' ∷ b';' ∷ []

abbrev pub quot : Text
quot = b'&' ∷ b'q' ∷ b'u' ∷ b'o' ∷ b't' ∷ b';' ∷ []

-- What one character adds; 39 is the apostrophe and 34 the quotation mark.
abbrev pub in_text : ℕ → Text
in_text c = if c == b'&' then amp else if c == b'<' then lt else if c == b'>' then gt else c ∷ []

abbrev pub in_attr : ℕ → Text
in_attr c =
    if c == b'&'
    then amp
    else if c == b'<'
    then lt
    else if c == b'>'
    then gt
    else if c == 39
    then apos
    else if c == 34
    then quot
    else c ∷ []

abbrev pub encoded : ℕ → Text
encoded c =
    if c == b'&'
    then amp
    else if c == b'<'
    then lt
    else if c == b'>'
    then gt
    else if c == 34
    then quot
    else if c == 39
    then apos
    else c ∷ []

-- A loop over the characters that appends what each of them adds.
abbrev pub each : (ℕ → Text) → Text → Text
each f [] = []
each f (c ∷ cs) = f c ++ each f cs

unfoldable pub escape_text : Text → Text
escape_text s = each in_text s

unfoldable pub escape_attr : Text → Text
escape_attr s = each in_attr s

-- htmlEncode.
unfoldable pub html_encode : Text → Text
html_encode s = each encoded s
