-- ===== src/Roster.antt =====
-- lib/Roster/Roster.h and Roster.cpp: the allow-list, an array sorted by the salted hash of the
-- credential. A C string is the list of its bytes without the NUL; a null pointer and an empty
-- string are both []. The live part of the array is a list; its capacity is a bound on the length.
-- SHA-256 is the library's, a parameter. `wrote` is whether save() succeeded, which Roster.File
-- models: a method changes the array first and returns what save() returns.
pub mod Search
pub mod Order
pub mod Add
pub mod Remove
pub mod Replace
pub mod Duplicates
pub mod File
pub mod RoundTrip
pub mod Crash
mod Tests
use rfid_access.Base.{
  is_empty, ℕ, zero, suc, ◌+◌, ◌-◌, ◌*◌, ◌/◌, ◌%◌, ◌^◌, Bool, true, false, not, ◌&&◌, ◌||◌, List,
  [], ◌∷◌, ◌++◌, Option, none, some, ltb, leb, ◌==◌, if◌then◌else◌, length, get_elem?, get_or, take,
  drop, set, map, replicate,
}

abbrev pub max_cred : ℕ
max_cred = 16

abbrev pub max_name : ℕ
max_name = 24

abbrev pub max_entries : ℕ
max_entries = 512

-- Roster::Entry; `cred` and `name` are the char arrays with their padding.
pub record Entry : Type 0 where
  pub hash : ℕ
  pub cred : List ℕ
  pub name : List ℕ

-- The private fields of Roster; `allocated` is `_entries` not being null.
pub record Roster : Type 0 where
  pub entries : List Entry
  pub rev : ℕ
  pub salt : ℕ
  pub persistent : Bool
  pub allocated : Bool

-- copyField into a char array of `cap` bytes: strncpy pads with zeros, the last byte is NUL.
unfoldable pub copy_field : ℕ → List ℕ → List ℕ
copy_field cap src = let t = take (cap - 1) src in t ++ replicate (cap - length t) 0

-- The bytes of a 64-bit word, most significant first, as the loop over `_salt` writes them.
unfoldable pub big_endian : ℕ → ℕ → List ℕ
big_endian zero w = []
big_endian (suc k) w = (w / 256 ^ k % 256) ∷ big_endian k w

-- The loop `h = (h << 8) | digest[i]` over bytes.
unfoldable pub fold_bytes : ℕ → List ℕ → ℕ
fold_bytes h [] = h
fold_bytes h (b ∷ bs) = fold_bytes (h * 256 + b) bs

-- hashOf: 0 for no credential, else the first eight bytes of SHA-256 over the salt and at most
-- fifteen bytes of the credential, with 0 replaced by 1.
unfoldable pub hash_of : (List ℕ → List ℕ) → ℕ → List ℕ → ℕ
unfolding big_endian fold_bytes
hash_of sha256 salt [] = 0
hash_of sha256 salt (c ∷ cs) =
    let text = big_endian 8 salt ++ take (max_cred - 1) (c ∷ cs) in
    let h = fold_bytes 0 (take 8 (sha256 text)) in if h == 0 then 1 else h

abbrev pub hash_at : List Entry → ℕ → ℕ
hash_at [] i = 0
hash_at (e ∷ es) zero = e.hash
hash_at (e ∷ es) (suc i) = hash_at es i

-- The loop of indexOfHash over the hashes `at`, on fuel.
unfoldable pub search_loop : (ℕ → ℕ) → ℕ → ℕ → ℕ → ℕ → Option ℕ
search_loop at h zero lo hi = none
search_loop at h (suc fuel) lo hi =
    let mid = lo + (hi - lo) / 2 in
    let right = search_loop at h fuel (mid + 1) hi in
    let left = search_loop at h fuel lo mid in
    if ltb lo hi
    then (if at mid == h then some mid else if ltb (at mid) h then right else left)
    else none

-- indexOfHash; `none` is the source's -1.
unfoldable pub index_of_hash : List Entry → ℕ → Option ℕ
unfolding search_loop
index_of_hash es h = search_loop (hash_at es) h (length es + 1) 0 (length es)

abbrev pub is_some {ℓ} : {A : Type ℓ} → Option A → Bool
is_some none = false
is_some (some a) = true

-- The loop `while (pos < _count && _entries[pos].hash < h) pos++`.
unfoldable pub position : List Entry → ℕ → ℕ
position [] h = 0
position (e ∷ es) h = let rest = position es h in if ltb e.hash h then suc rest else 0

-- The memmove up by one from `pos`, and the write there.
abbrev pub insert_at : ℕ → Entry → List Entry → List Entry
insert_at pos e es = take pos es ++ (e ∷ drop pos es)

-- The memmove down by one onto `i`.
abbrev pub remove_at : ℕ → List Entry → List Entry
remove_at i es = take i es ++ drop (suc i) es

-- The entry at `i` with another name.
abbrev pub with_name : List Entry → ℕ → List ℕ → List Entry
with_name [] i name = []
with_name (e ∷ es) zero name = record e { name = name } ∷ es
with_name (e ∷ es) (suc i) name = e ∷ with_name es i name

-- The insertion sort of replaceAll: each key moves left past the greater hashes. The sorted prefix
-- is given in reverse, as the inner loop walks it.
unfoldable pub shift_left : Entry → List Entry → List Entry
shift_left key [] = key ∷ []
shift_left key (p ∷ ps) =
    let rest = shift_left key ps in if ltb key.hash p.hash then p ∷ rest else key ∷ (p ∷ ps)

unfoldable pub sort_from : List Entry → List Entry → List Entry
unfolding shift_left
sort_from prefix [] = prefix
sort_from prefix (key ∷ rest) = sort_from (shift_left key prefix) rest

abbrev pub reverse_onto : List Entry → List Entry → List Entry
reverse_onto [] ys = ys
reverse_onto (x ∷ xs) ys = reverse_onto xs (x ∷ ys)

unfoldable pub sort_entries : List Entry → List Entry
unfolding sort_from
sort_entries es = reverse_onto (sort_from [] es) []

-- replaceAll: `got_scratch` is whether malloc succeeded.
unfoldable pub replace_all : Roster → List Entry → ℕ → Bool → Bool → Roster × Bool
unfolding sort_entries
replace_all r es rev got_scratch wrote =
    if ltb max_entries (length es) || not r.allocated || (ltb 0 (length es) && not got_scratch)
    then (r, false)
    else (record r { entries = sort_entries es; rev = rev }, wrote)

module _ (sha256 : List ℕ → List ℕ) where
  unfoldable pub allows : Roster → List ℕ → Bool
  allows r credential =
      not (is_empty credential)
      && is_some (index_of_hash r.entries (hash_of sha256 r.salt credential))

  unfoldable pub find_by_credential : Roster → List ℕ → Option Entry
  find_by_credential r credential =
      if is_empty credential
      then none
      else elim (index_of_hash r.entries (hash_of sha256 r.salt credential)) [
        | none ↦ none
        | some i ↦ get_elem? r.entries i
      ]

  unfoldable pub new_entry : ℕ → List ℕ → List ℕ → Entry
  new_entry salt credential name = record {
    hash = hash_of sha256 salt credential;
    cred = copy_field max_cred credential;
    name = copy_field max_name name;
  }

  -- `none` where the array was never allocated, and the insertion writes through a null pointer.
  unfoldable pub add : Roster → List ℕ → List ℕ → Bool → Option (Roster × Bool)
  add r credential name wrote =
      let h = hash_of sha256 r.salt credential in
      if is_empty credential
      then some (r, false)
      else if leb max_entries (length r.entries) || is_some (index_of_hash r.entries h)
      then some (r, false)
      else if not r.allocated
      then none
      else some (
        record r {
          entries = insert_at (position r.entries h) (new_entry r.salt credential name) r.entries;
        },
        wrote,
      )

  unfoldable pub rename : Roster → List ℕ → List ℕ → Bool → Roster × Bool
  rename r credential name wrote =
      if is_empty credential || is_empty name
      then (r, false)
      else elim (index_of_hash r.entries (hash_of sha256 r.salt credential)) [
        | none ↦ (r, false)
        | some i ↦ (record r { entries = with_name r.entries i (copy_field max_name name) }, wrote)
      ]

  unfoldable pub remove : Roster → List ℕ → Bool → Roster × Bool
  remove r credential wrote =
      if is_empty credential
      then (r, false)
      else elim (index_of_hash r.entries (hash_of sha256 r.salt credential)) [
        | none ↦ (r, false)
        | some i ↦ (record r { entries = remove_at i r.entries }, wrote)
      ]
