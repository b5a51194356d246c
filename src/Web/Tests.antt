-- ===== src/Web/Tests.antt =====
-- Texts that a page escapes, a console that a client opens, and instances of the theorems. 38, 39 and
-- 60 are the ampersand, the apostrophe and the less-than sign.
use mathlib.Core.List.{reverse}
use rfid_access.Base.{ℕ, ◌*◌, ◌≡◌, refl, true, false, [], ◌∷◌, ◌++◌, map, take, arith, Text, All}
use rfid_access.Ring.{fresh, push}
use rfid_access.Ring.History.{fresh-Holds, push-Holds}
use rfid_access.Web.Escape.{escape_text, escape_attr, html_encode}
use rfid_access.Web.Entities.{shown, NoTag, NoQuote, escaped_shown}
use rfid_access.Web.Console.{
  log_lines, LogLine, no_line, Client, Console, render, accept, banner, logs, greets, run,
}
use rfid_access.Web.Seen.{lines_of, client_sees}

-- "<b&'"
abbrev markup : Text
markup = 60 ∷ b'b' ∷ 38 ∷ 39 ∷ []

-- "&lt;b&amp;'"
markup_escaped :
    escape_text markup ≡ 38 ∷ b'l' ∷ b't' ∷ b';' ∷ b'b' ∷ 38 ∷ b'a' ∷ b'm' ∷ b'p' ∷ b';' ∷ 39 ∷ []
unfolding escape_text
markup_escaped = refl

escaped_shown_example :
    (shown (escape_text markup) ≡ markup)
    × (shown (escape_attr markup) ≡ markup)
    × All NoTag (escape_text markup)
    × All NoQuote (escape_attr markup)
    × (html_encode markup ≡ escape_attr markup)
escaped_shown_example = escaped_shown markup

abbrev line : ℕ → LogLine
line n = record { epoch = 0; uptime_ms = n * 1000; text = b'a' ∷ [] }

abbrev one_logged : Console
one_logged = record {
  ring = push log_lines (line 1) (fresh log_lines no_line);
  client = record { connected = false; received = [] };
  greeted = false;
}

abbrev newcomer : Client
newcomer = record { connected = true; received = [] }

abbrev no_clock : ℕ → Text
no_clock n = []

client_sees_example :
    (run no_clock (accept one_logged newcomer) (
      map logs (line 2 ∷ [])
      ++ (greets ∷ (logs (line 3) ∷ greets ∷ logs (line 4) ∷ [])))).client.received
    ≡ map (render no_clock) (line 2 ∷ [])
      ++ (banner
          ∷ (map
                (render no_clock)
                (reverse (take log_lines (reverse (line 2 ∷ []) ++ (line 1 ∷ []))))
              ++ map (render no_clock) (lines_of (logs (line 3) ∷ greets ∷ logs (line 4) ∷ []))))
client_sees_example =
    client_sees no_clock one_logged newcomer (line 1 ∷ []) (line 2 ∷ [])
      (logs (line 3) ∷ greets ∷ logs (line 4) ∷ []) refl refl
      (push-Holds log_lines no_line [] (fresh log_lines no_line) (line 1)
        (fresh-Holds log_lines no_line (omega arith)))
