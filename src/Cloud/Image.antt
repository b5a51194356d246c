-- ===== src/Cloud/Image.antt =====
-- Which images are committed.
use mathlib.Core.List.{append-nil, append_assoc}
use rfid_access.Base.{
  ℕ, ◌+◌, ◌≤◌, ◌<◌, ◌≡◌, refl, sym, ap, ◌∙◌, subst, ltb→ge, leb→le, ◌⊎◌, inl, inr, Bool, true,
  false, not, ◌&&◌, ◌||◌, List, [], ◌∷◌, ◌++◌, arith, ltb, leb, ◌==◌, if◌then◌else◌, length,
  length-append, Text, eq_text, is_empty, Bool-cases,
}
use rfid_access.Cloud.Firmware.{
  Chunk, bytes, waiting, stalled, write_failed, Served, download, equals_ignore_case, hex_text,
  Update, refused, committed, finish, apply_firmware,
}
use rfid_access.Cloud.Sync.{min_free_heap}

-- What the server sent, however it was cut into pieces.
abbrev pub sent : List Chunk → List ℕ
sent [] = []
sent (bytes bs ∷ rest) = bs ++ sent rest
sent (waiting ∷ rest) = sent rest
sent (stalled ∷ rest) = sent rest
sent (write_failed ∷ rest) = sent rest

-- The image is what the server sent, from its start on.
download_prefix :
    (size : ℕ) (image : List ℕ) (cs : List Chunk)
    → (rest : List ℕ) × (download size image cs ++ rest ≡ image ++ sent cs)
unfolding download
download_prefix size image [] = ([], refl)
download_prefix size image (bytes bs ∷ cs) = elim (Bool-cases (leb size (length image))) [
  | inl k ↦ rw k (bs ++ sent cs, refl)
  | inr k ↦
      let (rest, e) = download_prefix size (image ++ bs) cs in
      rw k (rest, e ∙ append_assoc image bs (sent cs))
]
download_prefix size image (waiting ∷ cs) = elim (Bool-cases (leb size (length image))) [
  | inl k ↦ rw k (sent cs, refl)
  | inr k ↦ rw k (download_prefix size image cs)
]
download_prefix size image (stalled ∷ cs) = (sent cs, refl)
download_prefix size image (write_failed ∷ cs) = (sent cs, refl)

image_of : Update → List ℕ
image_of refused = []
image_of (committed image) = image

-- Where the update is committed, no test refused it.
unrefused :
    (a b c d e f g : Bool) (got image : List ℕ)
    → (if a
        then refused
        else if b
        then refused
        else if c
        then refused
        else if d
        then refused
        else if e
        then refused
        else if f
        then refused
        else if g
        then refused
        else committed got)
      ≡ committed image
    → ((a ≡ false)
        × (b ≡ false)
        × (c ≡ false)
        × (d ≡ false)
        × (e ≡ false)
        × (f ≡ false)
        × (g ≡ false))
      × (got ≡ image)
unfolding image_of
unrefused true b c d e f g got image h = cc
unrefused false true c d e f g got image h = cc
unrefused false false true d e f g got image h = cc
unrefused false false false true e f g got image h = cc
unrefused false false false false true f g got image h = cc
unrefused false false false false false true g got image h = cc
unrefused false false false false false false true got image h = cc
unrefused false false false false false false false got image h =
    ((refl, refl, refl, refl, refl, refl, refl), ap image_of h)

either : (a b : Bool) → (not a && not b) ≡ false → (a ≡ true) ⊎ (b ≡ true)
either true b h = inl refl
either false true h = inr refl
either false false h = cc

neither : (a b : Bool) → (a || b) ≡ true → (not a && not b) ≡ false
neither true b h = refl
neither false true h = refl
neither false false h = cc

unrefused_all :
    (a b c d e f : Bool) (last : Update)
    → a ≡ false
    → b ≡ false
    → c ≡ false
    → d ≡ false
    → e ≡ false
    → f ≡ false
    → (if a
        then refused
        else if b
        then refused
        else if c
        then refused
        else if d
        then refused
        else if e
        then refused
        else if f
        then refused
        else last)
      ≡ last
unrefused_all a b c d e f last ha hb hc hd he hf = rw (ha, hb, hc, hd, he, hf) refl

empty_of_length : (xs : List ℕ) → length xs ≡ 0 → xs ≡ []
empty_of_length [] h = refl
empty_of_length (x ∷ xs) h = absurd (omega arith)

module _ (sha256 : List ℕ → List ℕ) where
  -- An image is committed only if it came with status 200 from a server that names this board or
  -- none, if it is the beginning of what the server sent and at least as long as announced, and if
  -- its digest is the offered one, or none was offered.
  pub committed_checked :
      (board offered : Text) (heap : ℕ) (opened : Bool) (s : Served) (begun ended : Bool)
      (image : List ℕ)
      → apply_firmware sha256 board offered heap opened s begun ended ≡ committed image
      → (s.rc ≡ 200)
        × ((is_empty s.board ≡ true) ⊎ (eq_text s.board board ≡ true))
        × ((rest : List ℕ) × (image ++ rest ≡ sent s.stream))
        × (0 < s.size)
        × (s.size ≤ length image)
        × ((is_empty offered ≡ true)
            ⊎ (equals_ignore_case offered (hex_text (sha256 image)) ≡ true))
  unfolding apply_firmware finish
  committed_checked board offered heap opened s begun ended image h =
      let got = download s.size [] s.stream in
      let (unfailed, same) =
        unrefused (ltb heap min_free_heap || not opened) (not (s.rc == 200))
          (not (is_empty s.board) && not (eq_text s.board board)) ((s.size == 0) || not begun)
          (ltb (length got) s.size)
          (not (is_empty offered) && not (equals_ignore_case offered (hex_text (sha256 got))))
          (not ended) got image h in
      let (a, b, c, d, e, f, g) = unfailed in
      subst
        (λ (im : List ℕ).
          (s.rc ≡ 200)
          × ((is_empty s.board ≡ true) ⊎ (eq_text s.board board ≡ true))
          × ((rest : List ℕ) × (im ++ rest ≡ sent s.stream))
          × (0 < s.size)
          × (s.size ≤ length im)
          × ((is_empty offered ≡ true)
              ⊎ (equals_ignore_case offered (hex_text (sha256 im)) ≡ true)))
        same
        (
          ground arith,
          either (is_empty s.board) (eq_text s.board board) c,
          download_prefix s.size [] s.stream,
          ground arith,
          ltb→ge (length got) s.size e,
          either (is_empty offered) (equals_ignore_case offered (hex_text (sha256 got))) f,
        )

  -- Pieces and waits only.
  abbrev pub Flows : List Chunk → Type 0
  Flows [] = Unit {0}
  Flows (bytes bs ∷ rest) = Flows rest
  Flows (waiting ∷ rest) = Flows rest
  Flows (stalled ∷ rest) = ⊥
  Flows (write_failed ∷ rest) = ⊥

  download_all :
      (size : ℕ) (image : List ℕ) (cs : List Chunk)
      → Flows cs
      → length image + length (sent cs) ≡ size
      → download size image cs ≡ image ++ sent cs
  unfolding download
  download_all size image [] f h = sym (append-nil image)
  download_all size image (bytes bs ∷ cs) f h = elim (Bool-cases (leb size (length image))) [
    | inl k ↦
        let none_left : bs ++ sent cs ≡ [] =
          empty_of_length (bs ++ sent cs) (omega (arith, leb→le size (length image) k)) in
        rw (k, none_left) (sym (append-nil image))
    | inr k ↦ rw k (
        download_all size (image ++ bs) cs f
          (omega (arith, length-append image bs, length-append bs (sent cs)))
        ∙ append_assoc image bs (sent cs))
  ]
  download_all size image (waiting ∷ cs) f h = elim (Bool-cases (leb size (length image))) [
    | inl k ↦
        let none_left : sent cs ≡ [] =
          empty_of_length (sent cs) (omega (arith, leb→le size (length image) k)) in
        rw (k, none_left) (sym (append-nil image))
    | inr k ↦ rw k (download_all size image cs f h)
  ]
  download_all size image (stalled ∷ cs) f h = elim f [ ]
  download_all size image (write_failed ∷ cs) f h = elim f [ ]

  -- An image of the announced size that arrives in any pieces, with waits between them, from a server
  -- that names this board or none, and whose digest is the offered one or has none to be compared
  -- with, is committed as it was sent, if there is heap, room and a connection and the updater accepts
  -- the finished image; and it is refused if the updater does not.
  pub image_committed :
      (board offered : Text) (heap : ℕ) (s : Served) (ended : Bool)
      → min_free_heap ≤ heap
      → s.rc ≡ 200
      → (is_empty s.board || eq_text s.board board) ≡ true
      → 0 < s.size
      → Flows s.stream
      → length (sent s.stream) ≡ s.size
      → (is_empty offered || equals_ignore_case offered (hex_text (sha256 (sent s.stream)))) ≡ true
      → apply_firmware sha256 board offered heap true s true ended
        ≡ (if ended then committed (sent s.stream) else refused)
  unfolding apply_firmware finish
  image_committed board offered heap s ended h rc b z f l d =
      let got : download s.size [] s.stream ≡ sent s.stream =
        download_all s.size [] s.stream f (omega (arith, l)) in
      rw got (
        unrefused_all (ltb heap min_free_heap || false) (not (s.rc == 200))
          (not (is_empty s.board) && not (eq_text s.board board)) ((s.size == 0) || false)
          (ltb (length (sent s.stream)) s.size)
          (not (is_empty offered)
            && not (equals_ignore_case offered (hex_text (sha256 (sent s.stream)))))
          (if not ended then refused else committed (sent s.stream)) (ground arith) (ground arith)
          (neither (is_empty s.board) (eq_text s.board board) b) (ground arith) (ground arith)
          (neither (is_empty offered)
            (equals_ignore_case offered (hex_text (sha256 (sent s.stream)))) d)
        ∙ turned ended (sent s.stream))
    where
      turned :
          (b : Bool) (image : List ℕ)
          → (if not b then refused else committed image) ≡ (if b then committed image else refused)
      turned true image = refl
      turned false image = refl
