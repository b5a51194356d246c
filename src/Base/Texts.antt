-- ===== src/Base/Texts.antt =====
-- C strings and Arduino strings as the list of their bytes, compared as `==` does.
use Prim.Native.Nat.{ℕ}
use mathlib.Core.Path.{◌≡◌, refl}
use mathlib.Core.Logic.{◌≢◌}
use mathlib.Core.Bool.{Bool, true, false, ◌&&◌}
use mathlib.Core.List.{List, [], ◌∷◌}
use native.Mathlib.Omega.{arith}
use mathlib.Core.Option.{Option, none, some}
use rfid_access.Base.Tests.{◌==◌, if◌then◌else◌}

abbrev pub Text : Type 0
Text = List ℕ

abbrev pub eq_text : Text → Text → Bool
eq_text [] [] = true
eq_text [] (d ∷ ds) = false
eq_text (c ∷ cs) [] = false
eq_text (c ∷ cs) (d ∷ ds) = (c == d) && eq_text cs ds

abbrev pub is_empty : Text → Bool
is_empty [] = true
is_empty (c ∷ cs) = false

pub eq_text_refl : (a : Text) → eq_text a a ≡ true
eq_text_refl [] = refl
eq_text_refl (c ∷ cs) = ground (arith, eq_text_refl cs)

pub eq_of_eq_text : (a b : Text) → eq_text a b ≡ true → a ≡ b
eq_of_eq_text [] [] h = refl
eq_of_eq_text [] (d ∷ ds) h = cc
eq_of_eq_text (c ∷ cs) [] h = cc
eq_of_eq_text (c ∷ cs) (d ∷ ds) h = ground (arith, eq_of_eq_text cs ds)

pub ne_text : (a b : Text) → a ≢ b → eq_text a b ≡ false
ne_text [] [] h = absurd (h refl)
ne_text [] (d ∷ ds) h = refl
ne_text (c ∷ cs) [] h = refl
ne_text (c ∷ cs) (d ∷ ds) h = ground (arith, eq_of_eq_text (c ∷ cs) (d ∷ ds))

-- The rest of a text behind a prefix.
abbrev pub behind : Text → Text → Option Text
behind [] t = some t
behind (p ∷ ps) [] = none
behind (p ∷ ps) (c ∷ cs) = if p == c then behind ps cs else none
