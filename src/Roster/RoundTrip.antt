-- ===== src/Roster/RoundTrip.antt =====
-- Saving and loading the roster, and files that are not intact.
use rfid_access.Base.{
  ℕ, zero, suc, ◌*◌, ◌^◌, ◌≤◌, ◌<◌, ◌≡◌, refl, ap, true, false, ◌&&◌, List, [], ◌∷◌, ◌++◌, some,
  arith, ltb, ◌==◌, length, take, drop, length-append, All, append_assoc, le→leb, ==_iff,
}
use rfid_access.Bytes.{
  little_endian, word, crc32, crc32-lt, word-little_endian, length-little_endian, take-append_left,
  drop-append_left,
}
use rfid_access.Roster.{Entry, Roster, max_entries}
use rfid_access.Roster.File.{
  Header, header_bytes, read_header, entry_bytes, read_entry, entries_bytes, read_entries,
  file_bytes, understood, load_body, load_file, load, magic, version,
}

-- The fields fit their places in the file.
pub record FitsEntry (e : Entry) : Type 0 where
  pub hash_word : e.hash < 256 ^ 8
  pub cred_size : length e.cred ≡ 16
  pub name_size : length e.name ≡ 24

pub record Fits (r : Roster) : Type 0 where
  pub rows : All FitsEntry r.entries
  pub count : length r.entries ≤ max_entries
  pub rev_word : r.rev < 256 ^ 4
  pub salt_word : r.salt < 256 ^ 8

take_all {ℓ} : {A : Type ℓ} (n : ℕ) (xs : List A) → length xs ≡ n → take n xs ≡ xs
take_all zero [] h = refl
take_all zero (x ∷ xs) h = absurd (omega arith)
take_all (suc n) [] h = refl
take_all (suc n) (x ∷ xs) h = ap (λ zs. x ∷ zs) (take_all n xs (omega arith))

length-entry_bytes : (e : Entry) → FitsEntry e → length (entry_bytes e) ≡ 48
unfolding entry_bytes
length-entry_bytes e f = omega (
  arith,
  length-append (little_endian 8 e.hash) (e.cred ++ e.name),
  length-append e.cred e.name,
  length-little_endian 8 e.hash,
)

read_entry-append :
    (e : Entry) (rest : List ℕ) → FitsEntry e → read_entry (entry_bytes e ++ rest) ≡ e
unfolding read_entry entry_bytes
read_entry-append e rest f =
    rw
      (
        append_assoc (little_endian 8 e.hash) (e.cred ++ e.name) rest,
        take-append_left 8 (little_endian 8 e.hash) ((e.cred ++ e.name) ++ rest)
            (length-little_endian 8 e.hash),
        drop-append_left 8 (little_endian 8 e.hash) ((e.cred ++ e.name) ++ rest)
            (length-little_endian 8 e.hash),
        append_assoc e.cred e.name rest,
        take-append_left 16 e.cred (e.name ++ rest) f.cred_size,
        drop-append_left 16 e.cred (e.name ++ rest) f.cred_size,
        take-append_left 24 e.name rest f.name_size,
        word-little_endian 8 e.hash f.hash_word,
      )
      refl

read_entries-entries_bytes :
    (es : List Entry) → All FitsEntry es → read_entries (length es) (entries_bytes es) ≡ es
unfolding read_entries entries_bytes
read_entries-entries_bytes [] f = refl
read_entries-entries_bytes (e ∷ es) f =
    rw
      (
        read_entry-append e (entries_bytes es) f.0,
        drop-append_left 48 (entry_bytes e) (entries_bytes es) (length-entry_bytes e f.0),
        read_entries-entries_bytes es f.1,
      )
      refl

length-entries_bytes :
    (es : List Entry) → All FitsEntry es → length (entries_bytes es) ≡ length es * 48
unfolding entries_bytes
length-entries_bytes [] f = refl
length-entries_bytes (e ∷ es) f = omega (
  arith,
  length-append (entry_bytes e) (entries_bytes es),
  length-entry_bytes e f.0,
  length-entries_bytes es f.1,
)

-- A field of `k` bytes at the front, and what follows it.
word_field : (k w : ℕ) (rest : List ℕ) → w < 256 ^ k → word (take k (little_endian k w ++ rest)) ≡ w
word_field k w rest h =
    rw (take-append_left k (little_endian k w) rest (length-little_endian k w))
      (word-little_endian k w h)

drop_field : (k w : ℕ) (rest : List ℕ) → drop k (little_endian k w ++ rest) ≡ rest
drop_field k w rest = drop-append_left k (little_endian k w) rest (length-little_endian k w)

record FitsHeader (h : Header) : Type 0 where
  magic_word : h.magic < 256 ^ 4
  version_word : h.version < 256 ^ 2
  flags_word : h.flags < 256 ^ 2
  count_word : h.count < 256 ^ 4
  rev_word : h.rev < 256 ^ 4
  salt_word : h.salt < 256 ^ 8
  crc_word : h.crc < 256 ^ 4

read_header-append :
    (h : Header) (body : List ℕ) → FitsHeader h → read_header (header_bytes h ++ body) ≡ h
unfolding read_header header_bytes
read_header-append h body f =
    simp (append_assoc, drop_field)
      (rw
        (
          word_field 4 h.magic _ f.magic_word,
          word_field 2 h.version _ f.version_word,
          word_field 2 h.flags _ f.flags_word,
          word_field 4 h.count _ f.count_word,
          word_field 4 h.rev _ f.rev_word,
          word_field 8 h.salt _ f.salt_word,
          word_field 4 h.crc _ f.crc_word,
        )
        refl)

length-header_bytes : (h : Header) → length (header_bytes h) ≡ 32
unfolding header_bytes
length-header_bytes h = simp (length-append, length-little_endian)

abbrev header_of : Roster → Header
header_of r = record {
  magic = magic;
  version = version;
  flags = 1;
  count = length r.entries;
  rev = r.rev;
  salt = r.salt;
  crc = crc32 (entries_bytes r.entries);
}

header_of-Fits : (r : Roster) → Fits r → FitsHeader (header_of r)
header_of-Fits r f = record {
  magic_word = omega arith;
  version_word = omega arith;
  flags_word = omega arith;
  count_word = omega (arith, f.count);
  rev_word = f.rev_word;
  salt_word = f.salt_word;
  crc_word = crc32-lt (entries_bytes r.entries);
}

file_bytes-header :
    (r : Roster) → file_bytes r ≡ header_bytes (header_of r) ++ entries_bytes r.entries
unfolding file_bytes
file_bytes-header r = refl

read_header-file_bytes : (r : Roster) → Fits r → read_header (file_bytes r) ≡ header_of r
read_header-file_bytes r f =
    rw (file_bytes-header r)
      (read_header-append (header_of r) (entries_bytes r.entries) (header_of-Fits r f))

length-file_bytes-le : (r : Roster) → 32 ≤ length (file_bytes r)
length-file_bytes-le r = rw (file_bytes-header r) (
    omega (
      arith,
      length-append (header_bytes (header_of r)) (entries_bytes r.entries),
      length-header_bytes (header_of r),
    ))

understood-file_bytes : (r : Roster) → Fits r → understood (file_bytes r) ≡ true
unfolding understood
understood-file_bytes r f =
    rw
      (
        read_header-file_bytes r f,
        le→leb 32 (length (file_bytes r)) (length-file_bytes-le r),
        le→leb (length r.entries) max_entries f.count,
      )
      refl

load_body-entries :
    (r s : Roster)
    → Fits r
    → load_body s (header_of r) (entries_bytes r.entries)
      ≡ (record s { entries = r.entries; rev = r.rev; salt = r.salt }, true)
unfolding load_body
load_body-entries r s f =
    let body = entries_bytes r.entries in
    let size : length body ≡ length r.entries * 48 = length-entries_bytes r.entries f.rows in
    let full : ltb (length body) (length r.entries * 48) ≡ false = ground arith in
    let all : take (length r.entries * 48) body ≡ body = take_all _ body size in
    let same : (crc32 body == crc32 body) ≡ true = (==_iff _ _).1 refl in
    let idle : (ltb 0 (length r.entries * 48) && false) ≡ false = ground arith in
    rw (full, idle, all, same, read_entries-entries_bytes r.entries f.rows) refl

-- What save writes to the roster file, load reads back: from whatever state the door boots, it then
-- holds the same entries in the same order, the same revision and the same salt, and load
-- returns true; if the fields fit their places in the file and the roster has at most 512 entries.
pub load-file_bytes :
    (r s : Roster) (fresh : ℕ)
    → Fits r
    → load s true (some (file_bytes r)) fresh
      ≡ (record s { entries = r.entries; rev = r.rev; salt = r.salt; persistent = true }, true)
unfolding load load_file
load-file_bytes r s fresh f = rw (understood-file_bytes r f) (behind_header)
  where
    s0 : Roster
    s0 = record s { entries = []; rev = 0; persistent = true }

    behind_header :
        load_body s0 (read_header (file_bytes r)) (drop 32 (file_bytes r))
        ≡ (record s { entries = r.entries; rev = r.rev; salt = r.salt; persistent = true }, true)
    behind_header =
        rw
          (
            read_header-file_bytes r f,
            file_bytes-header r,
            drop-append_left 32 (header_bytes (header_of r)) (entries_bytes r.entries)
                (length-header_bytes (header_of r)),
          )
          (load_body-entries r s0 f)
