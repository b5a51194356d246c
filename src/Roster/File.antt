-- ===== src/Roster/File.antt =====
-- Roster::load and Roster::save, on the bytes of the roster file. LittleFS is the library's: what it
-- answers is an argument (`Outcome`), and a file that was written reads back as it was written.
use rfid_access.Base.{
  ℕ, zero, suc, ◌*◌, Bool, true, false, not, ◌&&◌, ◌||◌, List, [], ◌∷◌, ◌++◌, Option, none, some,
  ltb, leb, ◌==◌, if◌then◌else◌, length, take, drop,
}
use rfid_access.Bytes.{little_endian, word, crc32}
use rfid_access.Roster.{Entry, Roster, max_entries}

abbrev pub magic : ℕ
magic = 0x52535452

abbrev pub version : ℕ
version = 1

-- sizeof(Header) and sizeof(Entry).
abbrev pub header_size : ℕ
header_size = 32

abbrev pub entry_size : ℕ
entry_size = 48

-- The struct Header, field by field as it lies in memory, with its four bytes of padding.
pub record Header : Type 0 where
  pub magic : ℕ
  pub version : ℕ
  pub flags : ℕ
  pub count : ℕ
  pub rev : ℕ
  pub salt : ℕ
  pub crc : ℕ

unfoldable pub header_bytes : Header → List ℕ
header_bytes h =
    little_endian 4 h.magic
    ++ (little_endian 2 h.version
        ++ (little_endian 2 h.flags
            ++ (little_endian 4 h.count
                ++ (little_endian 4 h.rev
                    ++ (little_endian 8 h.salt
                        ++ (little_endian 4 h.crc ++ (0 ∷ 0 ∷ 0 ∷ 0 ∷ [])))))))

unfoldable pub read_header : List ℕ → Header
read_header bs = record {
  magic = word (take 4 bs);
  version = word (take 2 (drop 4 bs));
  flags = word (take 2 (drop 2 (drop 4 bs)));
  count = word (take 4 (drop 2 (drop 2 (drop 4 bs))));
  rev = word (take 4 (drop 4 (drop 2 (drop 2 (drop 4 bs)))));
  salt = word (take 8 (drop 4 (drop 4 (drop 2 (drop 2 (drop 4 bs))))));
  crc = word (take 4 (drop 8 (drop 4 (drop 4 (drop 2 (drop 2 (drop 4 bs)))))));
}

unfoldable pub entry_bytes : Entry → List ℕ
entry_bytes e = little_endian 8 e.hash ++ (e.cred ++ e.name)

unfoldable pub read_entry : List ℕ → Entry
read_entry bs = record {
  hash = word (take 8 bs);
  cred = take 16 (drop 8 bs);
  name = take 24 (drop 16 (drop 8 bs));
}

unfoldable pub entries_bytes : List Entry → List ℕ
unfolding entry_bytes
entries_bytes [] = []
entries_bytes (e ∷ es) = entry_bytes e ++ entries_bytes es

unfoldable pub read_entries : ℕ → List ℕ → List Entry
unfolding read_entry
read_entries zero bs = []
read_entries (suc n) bs = read_entry bs ∷ read_entries n (drop entry_size bs)

-- What save writes: with ROSTER_STORE_RAW, flag 1.
unfoldable pub file_bytes : Roster → List ℕ
file_bytes r =
    let body = entries_bytes r.entries in
    header_bytes (record {
      magic = magic;
      version = version;
      flags = 1;
      count = length r.entries;
      rev = r.rev;
      salt = r.salt;
      crc = crc32 body;
    })
    ++ body

-- The header is complete and one that this build understands.
unfoldable pub understood : List ℕ → Bool
understood bs =
    let h = read_header bs in
    leb header_size (length bs)
    && (h.magic == magic)
    && (h.version == version)
    && leb h.count max_entries

-- load, behind the header: a short read of the records, then their checksum.
unfoldable pub load_body : Roster → Header → List ℕ → Roster × Bool
load_body r h body =
    let size = h.count * entry_size in
    if ltb 0 size && ltb (length body) size
    then (record r { salt = h.salt }, false)
    else if not (crc32 (take size body) == h.crc)
    then (record r { salt = h.salt }, false)
    else (
      record r { entries = read_entries h.count (take size body); rev = h.rev; salt = h.salt },
      true,
    )

-- load. `mounted` is LittleFS.totalBytes() != 0, the file is `none` if it cannot be opened, and
-- `fresh` is the new salt from esp_random().
unfoldable pub load_file : Roster → Option (List ℕ) → ℕ → Roster × Bool
load_file r none fresh = (record r { salt = fresh }, true)
load_file r (some bs) fresh =
    if not (understood bs)
    then (record r { salt = fresh }, false)
    else load_body r (read_header bs) (drop header_size bs)

unfoldable pub load : Roster → Bool → Option (List ℕ) → ℕ → Roster × Bool
load r mounted file fresh =
    if not mounted
    then (record r { entries = []; rev = 0; persistent = false }, false)
    else load_file (record r { entries = []; rev = 0; persistent = true }) file fresh

-- begin: calloc of the array, then load.
unfoldable pub begin : Roster → Bool → Bool → Option (List ℕ) → ℕ → Roster × Bool
begin r got_array mounted file fresh =
    if not got_array
    then (record r { entries = []; persistent = false; allocated = false }, false)
    else load (record r { allocated = true }) mounted file fresh

-- The two files of the roster, and what LittleFS answers to the calls of save.
pub record Disk : Type 0 where
  pub live : Option (List ℕ)
  pub tmp : Option (List ℕ)

pub record Outcome : Type 0 where
  pub opened : Bool
  pub wrote_header : Bool
  pub wrote_entries : Bool
  pub renamed : Bool

-- The calls that change the file system.
pub data FsOp : Type 0 where
  remove_tmp : FsOp
  write_tmp : List ℕ → FsOp
  remove_live : FsOp
  rename_tmp : FsOp

unfoldable pub rename_onto : Option (List ℕ) → Disk → Disk
rename_onto none d = d
rename_onto (some bs) d = record d { live = some bs; tmp = none }

unfoldable pub apply_op : Disk → FsOp → Disk
unfolding rename_onto
apply_op d remove_tmp = record d { tmp = none }
apply_op d (write_tmp bs) = record d { tmp = some bs }
apply_op d remove_live = record d { live = none }
apply_op d rename_tmp = rename_onto d.tmp d

unfoldable pub apply_ops : Disk → List FsOp → Disk
unfolding apply_op
apply_ops d [] = d
apply_ops d (op ∷ ops) = apply_ops (apply_op d op) ops

-- The operations of save, and whether it returns true.
unfoldable pub save_ops : Roster → Outcome → List FsOp × Bool
save_ops r o =
    let ok = o.wrote_header && (not (ltb 0 (length r.entries)) || o.wrote_entries) in
    if not r.persistent
    then ([], false)
    else if not o.opened
    then (remove_tmp ∷ [], false)
    else if not ok
    then (remove_tmp ∷ remove_tmp ∷ [], false)
    else if not o.renamed
    then (remove_tmp ∷ write_tmp (file_bytes r) ∷ remove_live ∷ [], false)
    else (remove_tmp ∷ write_tmp (file_bytes r) ∷ remove_live ∷ rename_tmp ∷ [], true)

unfoldable pub save : Roster → Disk → Outcome → Disk × Bool
save r d o = let (ops, ok) = save_ops r o in (apply_ops d ops, ok)
