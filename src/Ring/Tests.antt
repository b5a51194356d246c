-- ===== src/Ring/Tests.antt =====
-- A ring of three to which five numbers are written.
use rfid_access.Base.{ℕ, ◌≡◌, refl, List, [], ◌∷◌}
use rfid_access.Ring.{fresh, push, push_all, newest_first, newest_from}

abbrev five : List ℕ
five = 1 ∷ 2 ∷ 3 ∷ 4 ∷ 5 ∷ []

three_left : newest_first 3 0 (push_all 3 five (fresh 3 0)) ≡ 5 ∷ 4 ∷ 3 ∷ []
unfolding newest_first newest_from push_all push fresh
three_left = refl
