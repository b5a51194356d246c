-- ===== src/Identity/Tests.antt =====
-- Names of concrete units, and instances of the theorems.
use rfid_access.Base.{◌≡◌, refl, [], ◌∷◌, Text}
use rfid_access.Identity.{Mac, sanitize_from, sanitize_label, device_id}

-- " Front_Door. "
abbrev typed : Text
typed = 32 ∷ 70 ∷ 114 ∷ 111 ∷ 110 ∷ 116 ∷ 95 ∷ 68 ∷ 111 ∷ 111 ∷ 114 ∷ 46 ∷ 32 ∷ []

-- "front-door"
abbrev kept : Text
kept = 102 ∷ 114 ∷ 111 ∷ 110 ∷ 116 ∷ 45 ∷ 100 ∷ 111 ∷ 111 ∷ 114 ∷ []

-- "rfid"
abbrev rfid : Text
rfid = 114 ∷ 102 ∷ 105 ∷ 100 ∷ []

abbrev unit : Mac
unit = record { b3 = 161; b4 = 178; b5 = 195 }

typed-kept : sanitize_label typed ≡ kept
unfolding sanitize_label sanitize_from
typed-kept = refl

-- "rfid-a1b2c3"
unit_name : device_id rfid unit ≡ 114 ∷ 102 ∷ 105 ∷ 100 ∷ 45 ∷ 97 ∷ 49 ∷ 98 ∷ 50 ∷ 99 ∷ 51 ∷ []
unfolding device_id sanitize_label sanitize_from
unit_name = refl
