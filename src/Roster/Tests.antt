-- ===== src/Roster/Tests.antt =====
-- Runs of the roster on concrete credentials, and instances of its theorems. SHA-256 is
-- instantiated by a function that repeats the credential.
use rfid_access.Base.{
  Option, Bool, is_empty, ℕ, ◌≡◌, refl, ◌⊎◌, true, not, ◌&&◌, ◌||◌, List, [], ◌∷◌, ◌++◌, none, some,
  arith, ◌==◌, drop, replicate,
}
use rfid_access.Roster.{
  Entry, Roster, index_of_hash, allows, add, remove, hash_of, copy_field, new_entry, position,
  is_some,
}
use rfid_access.Roster.Search.{has_hash, index_of_hash_finds}
use rfid_access.Roster.Order.{IsValid}
use rfid_access.Roster.Add.{add_decides}
use rfid_access.Roster.Remove.{remove_decides}
use rfid_access.Roster.File.{Disk, Outcome, save_ops, apply_ops, file_bytes, load}
use rfid_access.Roster.RoundTrip.{Fits, load-file_bytes}
use rfid_access.Roster.Crash.{cut}
use rfid_access.Base.{Text}
use rfid_access.Access.Migration.{boot, OldList, boot-some, cut-boot_admits}

abbrev echo : List ℕ → List ℕ
echo bs = drop 8 bs ++ replicate 32 0

abbrev blank : Roster
blank = record { entries = []; rev = 0; salt = 7; persistent = true; allocated = true }

abbrev fob : List ℕ
fob = b'4' ∷ b'2' ∷ []

abbrev badge : List ℕ
badge = b'1' ∷ b'7' ∷ []

abbrev ann : List ℕ
ann = b'A' ∷ b'n' ∷ b'n' ∷ []

abbrev row : ℕ → Entry
row h = record { hash = h; cred = copy_field 16 fob; name = copy_field 24 ann }

-- The entry of `fob` and two others.
abbrev three : Roster
three = record blank { entries = row 5 ∷ row (hash_of echo 7 fob) ∷ row 9000000000000000000 ∷ [] }

abbrev roster_of : Option (Roster × Bool) → Roster
roster_of none = blank
roster_of (some (r, ok)) = r

add_then_ask :
    allows echo (roster_of (add echo (roster_of (add echo blank fob ann true)) badge ann true)) fob
    ≡ true
unfolding allows add index_of_hash hash_of new_entry position copy_field
add_then_ask = refl

index_of_hash_finds_example :
    is_some (index_of_hash (row 5 ∷ row 8 ∷ row 11 ∷ []) 8)
    ≡ has_hash 8 (row 5 ∷ row 8 ∷ row 11 ∷ [])
index_of_hash_finds_example = index_of_hash_finds (row 5 ∷ row 8 ∷ row 11 ∷ []) 8 (omega arith)

three-IsValid : IsValid three
unfolding hash_of
three-IsValid = record { strict = omega arith; fits = omega arith }

add_decides_example :
    (r' : Roster) × (ok : Bool) × (add echo three badge ann true ≡ some (r', ok))
    × (allows echo r' badge ≡ (
        allows echo three badge
        || (not (is_empty badge) && (hash_of echo 7 badge == hash_of echo 7 badge))))
    × (ok ≡ (not (allows echo three badge) && true))
add_decides_example =
    add_decides echo three badge ann badge true refl three-IsValid refl (omega arith)

remove_decides_example :
    let (r', ok) = remove echo three fob true in
    (allows echo r' fob ≡ (allows echo three fob && not (hash_of echo 7 fob == hash_of echo 7 fob)))
    × (ok ≡ (allows echo three fob && true))
remove_decides_example = remove_decides echo three fob fob true three-IsValid refl

three-Fits : Fits three
unfolding hash_of copy_field
three-Fits = record {
  rows = (
    record { hash_word = omega arith; cred_size = refl; name_size = refl },
    (
      record { hash_word = omega arith; cred_size = refl; name_size = refl },
      (record { hash_word = omega arith; cred_size = refl; name_size = refl }, tt),
    ),
  );
  count = omega arith;
  rev_word = omega arith;
  salt_word = omega arith;
}

load-file_bytes_example :
    load blank true (some (file_bytes three)) 99
    ≡ (record blank { entries = three.entries; rev = 0; salt = 7; persistent = true }, true)
load-file_bytes_example = load-file_bytes three blank 99 three-Fits

abbrev answers_well : Outcome
answers_well = record { opened = true; wrote_header = true; wrote_entries = true; renamed = true }

abbrev old_disk : Disk
old_disk = record { live = some []; tmp = none }

abbrev old_rows : List (Text × Text)
old_rows = (badge, ann) ∷ []

cut-boot_admits_example :
    (allows echo (boot echo blank old_disk.live 99 (some old_rows) true) fob ≡ true)
    ⊎ (allows echo three fob ≡ true)
    ⊎ OldList echo 99 (some old_rows) fob
cut-boot_admits_example =
    cut-boot_admits echo three blank old_disk answers_well 4 0 99 (some old_rows) true fob
      three-Fits (omega arith) booted
  where
    final :
        (apply_ops old_disk (cut 4 0 (save_ops three answers_well).0)).live
        ≡ some (file_bytes three)
    final = unfold apply_ops save_ops in refl

    booted :
        allows echo
          (boot echo blank
            (apply_ops old_disk (cut 4 0 (save_ops three answers_well).0)).live
            99
            (some old_rows)
            true)
          fob
        ≡ true
    booted =
        rw
          (
            final,
            boot-some echo blank (file_bytes three) 99 (some old_rows) true,
            load-file_bytes three blank 99 three-Fits,
          )
          (unfold allows index_of_hash hash_of in refl)
