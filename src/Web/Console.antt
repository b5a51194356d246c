-- ===== src/Web/Console.antt =====
-- lib/WebService: log(), the log page and the telnet console, which serves one client at a time.
-- log() runs on any task and serviceTelnet on the web task; both hold the mutex for the part that is
-- one step here, so steps of the tasks interleave between them. What localtime_r and strftime make
-- of an epoch is the argument `clock`, in one time zone throughout.
use rfid_access.Base.{
  ℕ, ◌/◌, Bool, true, false, not, ◌&&◌, List, [], ◌∷◌, ◌++◌, map, ltb, if◌then◌else◌, Text, u32_mod,
  ◌%◌,
}
use rfid_access.Reader.{number_text}
use rfid_access.Ring.{Ring, push, oldest_first}

abbrev pub log_lines : ℕ
log_lines = 40

pub record LogLine : Type 0 where
  pub epoch : ℕ
  pub uptime_ms : ℕ
  pub text : Text

abbrev pub no_line : LogLine
no_line = record { epoch = 0; uptime_ms = 0; text = [] }

-- A connection, and the lines that were printed to it.
pub record Client : Type 0 where
  pub connected : Bool
  pub received : List Text

pub record Console : Type 0 where
  pub ring : Ring LogLine
  pub client : Client
  pub greeted : Bool

-- formatStamp: 43 is the plus sign, 115 the letter s.
unfoldable pub format_stamp : (ℕ → Text) → LogLine → Text
format_stamp clock l =
    if ltb 1700000000 l.epoch
    then clock l.epoch
    else b'+' ∷ (number_text (l.uptime_ms / 1000) ++ (b's' ∷ []))

unfoldable pub render : (ℕ → Text) → LogLine → Text
unfolding format_stamp
render clock l = format_stamp clock l ++ (b' ' ∷ b' ' ∷ l.text)

-- renderLog.
abbrev pub joined : List Text → Text
joined [] = []
joined (t ∷ ts) = t ++ (10 ∷ joined ts)

unfoldable pub render_log : (ℕ → Text) → Console → Text
unfolding render
render_log clock c = joined (map (render clock) (oldest_first log_lines no_line c.ring))

-- The entry that log() makes of a line; `now` is time() and `ms` millis().
abbrev pub entry_of : ℕ → ℕ → Text → LogLine
entry_of now ms line = record {
  epoch = if ltb 1700000000 now then now % u32_mod else 0;
  uptime_ms = ms;
  text = line;
}

-- println to the client.
abbrev pub print : Client → List Text → Client
print k lines = record k { received = k.received ++ lines }

unfoldable pub log : (ℕ → Text) → Console → LogLine → Console
unfolding render
log clock c entry =
    let c' = record c { ring = push log_lines entry c.ring } in
    if c.client.connected
    then record c' { client = print c.client (render clock entry ∷ []) }
    else c'

-- The two parts of serviceTelnet: a new client replaces the old one, and a client that was not
-- greeted yet is sent the lines that the ring holds.
unfoldable pub accept : Console → Client → Console
accept c incoming = record c { client = incoming; greeted = false }

-- "=== device log (live) ===".
abbrev pub banner : Text
banner =
    b'=' ∷ b'=' ∷ b'=' ∷ b' ' ∷ b'd' ∷ b'e' ∷ b'v' ∷ b'i' ∷ b'c' ∷ b'e' ∷ b' ' ∷ b'l' ∷ b'o' ∷ b'g'
    ∷ b' ' ∷ b'(' ∷ b'l' ∷ b'i' ∷ b'v' ∷ b'e' ∷ b')' ∷ b' ' ∷ b'=' ∷ b'=' ∷ b'=' ∷ []

unfoldable pub greet : (ℕ → Text) → Console → Console
unfolding render
greet clock c =
    if c.client.connected && not c.greeted
    then record c {
      client = print c.client (banner ∷ map (render clock) (oldest_first log_lines no_line c.ring));
      greeted = true;
    }
    else c

-- What happens to a console: a line is logged, or the web task comes to the second part.
pub data Step : Type 0 where
  logs : LogLine → Step
  greets : Step

unfoldable pub step : (ℕ → Text) → Console → Step → Console
unfolding log greet
step clock c (logs l) = log clock c l
step clock c greets = greet clock c

unfoldable pub run : (ℕ → Text) → Console → List Step → Console
unfolding step
run clock c [] = c
run clock c (s ∷ ss) = run clock (step clock c s) ss
