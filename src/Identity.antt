-- ===== src/Identity.antt =====
-- lib/DeviceIdentity/DeviceIdentity.h and DeviceIdentity.cpp: the names of one unit. A text is the
-- list of its bytes; the six bytes of the MAC address and the saved settings are arguments, `none`
-- where no settings store is bound.
pub mod Labels
pub mod Names
mod Tests
use rfid_access.Base.{
  ℕ, zero, suc, ◌+◌, ◌-◌, ◌/◌, ◌%◌, Bool, true, false, not, ◌&&◌, ◌||◌, List, [], ◌∷◌, ◌++◌, Option,
  none, some, ltb, leb, if◌then◌else◌, length, take, Text, is_empty,
}

-- 'A' is 65 and 'a' is 97.
abbrev pub to_lower : ℕ → ℕ
to_lower c = if leb 65 c && leb c 90 then (c - 65) + 97 else c

-- `valid`: a lower-case letter or a digit.
abbrev pub is_alnum : ℕ → Bool
is_alnum c = (leb 97 c && leb c 122) || (leb 48 c && leb c 57)

abbrev pub dash : ℕ
dash = 45

-- `if (pendingSep && out.length()) out += '-'`.
abbrev pub with_separator : Text → Bool → Text
with_separator out pending = if pending && not (is_empty out) then out ++ (dash ∷ []) else out

-- The loop of sanitizeLabel over the rest of the input.
unfoldable pub sanitize_from : Text → Bool → Text → Text
sanitize_from out pending [] = out
sanitize_from out pending (c ∷ cs) =
    let d = to_lower c in
    let out' = with_separator out pending ++ (d ∷ []) in
    let kept = sanitize_from out' false cs in
    let skipped = sanitize_from out true cs in
    if is_alnum d then (if leb 63 (length out') then out' else kept) else skipped

unfoldable pub sanitize_label : Text → Text
sanitize_label input = sanitize_from [] false input

-- `%02x` of a byte.
abbrev pub hex_digit : ℕ → ℕ
hex_digit d = if ltb d 10 then d + 48 else d + 87

abbrev pub hex_byte : ℕ → Text
hex_byte b = hex_digit (b / 16) ∷ hex_digit (b % 16) ∷ []

-- The fourth, fifth and sixth byte of the MAC address.
pub record Mac : Type 0 where
  pub b3 : ℕ
  pub b4 : ℕ
  pub b5 : ℕ

-- begin: snprintf writes at most 39 bytes.
unfoldable pub device_id : Text → Mac → Text
unfolding sanitize_label
device_id prefix mac =
    sanitize_label
      (take 39 (prefix ++ (dash ∷ (hex_byte mac.b3 ++ (hex_byte mac.b4 ++ hex_byte mac.b5)))))

-- hostname: the name in the settings, or the device's.
unfoldable pub hostname : Option Text → Text → Text
unfolding sanitize_label
hostname none id = id
hostname (some saved) id =
    let label = sanitize_label saved in if not (is_empty label) then label else id

-- doorName and displayName.
unfoldable pub display_name : Option Text → Option Text → Text → Text
unfolding hostname
display_name none saved id = hostname saved id
display_name (some door) saved id = if not (is_empty door) then door else hostname saved id
