-- ===== src/Cloud/Firmware.antt =====
-- lib/CloudSync: applyFirmware. What HTTP, the flash and the heap answer is an argument; the stream is
-- the list of what the loop finds: bytes that it read and wrote, a wait of ten milliseconds, a
-- stall of more than fifteen seconds, or a write that fails. The list ends where the connection
-- does. SHA-256 is a parameter.
use rfid_access.Base.{
  ℕ, Bool, true, not, ◌&&◌, ◌||◌, List, [], ◌∷◌, ◌++◌, map, ltb, leb, ◌==◌, if◌then◌else◌, length,
  Text, eq_text, is_empty,
}
use rfid_access.Identity.{to_lower, hex_byte}
use rfid_access.Access.{Access, Stamp, append_event, r_none}
use rfid_access.Cloud.Sync.{min_free_heap}

abbrev pub evt_fw_updated : ℕ
evt_fw_updated = 10

pub data Chunk : Type 0 where
  bytes : List ℕ → Chunk
  waiting : Chunk
  stalled : Chunk
  write_failed : Chunk

-- The answer to the download: `length` is the reported size, 0 where none was reported.
pub record Served : Type 0 where
  pub rc : ℕ
  pub board : Text
  pub size : ℕ
  pub stream : List Chunk

-- The loop: the bytes that were written, until as many as announced have come.
unfoldable pub download : ℕ → List ℕ → List Chunk → List ℕ
download size image [] = image
download size image (bytes bs ∷ rest) =
    let more = download size (image ++ bs) rest in if leb size (length image) then image else more
download size image (waiting ∷ rest) =
    let more = download size image rest in if leb size (length image) then image else more
download size image (stalled ∷ rest) = image
download size image (write_failed ∷ rest) = image

-- The digest in hexadecimal.
abbrev pub hex_text : List ℕ → Text
hex_text [] = []
hex_text (b ∷ bs) = hex_byte b ++ hex_text bs

abbrev pub equals_ignore_case : Text → Text → Bool
equals_ignore_case a b = eq_text (map to_lower a) (map to_lower b)

-- How an update ends: refused with the running image untouched, or committed and restarted.
pub data Update : Type 0 where
  refused : Update
  committed : List ℕ → Update

module _ (sha256 : List ℕ → List ℕ) where
  -- The check of the content, and the commit.
  unfoldable pub finish : Text → ℕ → List ℕ → Bool → Update
  finish offered size image ended =
      if ltb (length image) size
      then refused
      else if not (is_empty offered) && not (equals_ignore_case offered (hex_text (sha256 image)))
      then refused
      else if not ended
      then refused
      else committed image

  unfoldable pub apply_firmware : Text → Text → ℕ → Bool → Served → Bool → Bool → Update
  unfolding finish download
  apply_firmware board offered heap opened served begun ended =
      if ltb heap min_free_heap || not opened
      then refused
      else if not (served.rc == 200)
      then refused
      else if not (is_empty served.board) && not (eq_text served.board board)
      then refused
      else if (served.size == 0) || not begun
      then refused
      else finish offered served.size (download served.size [] served.stream) ended

-- "old>new", as the event of an update has it.
unfoldable pub record_update : Access → Text → Text → Stamp → Access
unfolding append_event
record_update a running version t =
    append_event a evt_fw_updated r_none true (running ++ (62 ∷ version)) t
