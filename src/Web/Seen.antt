-- ===== src/Web/Seen.antt =====
-- What a telnet client sees of the log.
use mathlib.Core.List.{reverse, reverse_aux, reverse_aux-eq}
use rfid_access.Base.{
  ℕ, ◌≡◌, refl, sym, ap, ◌∙◌, true, false, List, [], ◌∷◌, ◌++◌, map, take, arith, Text, not, ◌&&◌,
  if_then, if_else, append_assoc, append-nil,
}
use rfid_access.Ring.{push, oldest_first}
use rfid_access.Ring.History.{Holds, push-Holds, held_lists}
use rfid_access.Web.Console.{
  log_lines, LogLine, no_line, Client, Console, render, log, print, accept, banner, greet, Step,
  logs, greets, step, run,
}

-- The lines that are logged in a run, in order.
abbrev pub lines_of : List Step → List LogLine
lines_of [] = []
lines_of (logs l ∷ ss) = l ∷ lines_of ss
lines_of (greets ∷ ss) = lines_of ss

abbrev logged : (ℕ → Text) → Console → LogLine → Console
logged clock c l = record c {
  ring = push log_lines l c.ring;
  client = print c.client (render clock l ∷ []);
}

log_connected :
    (clock : ℕ → Text) (c : Console) (l : LogLine)
    → c.client.connected ≡ true
    → log clock c l ≡ logged clock c l
unfolding log
log_connected clock c l k =
    if_then c.client.connected (logged clock c l) (record c { ring = push log_lines l c.ring }) k

abbrev welcomed : (ℕ → Text) → Console → Console
welcomed clock c = record c {
  client = print c.client (banner ∷ map (render clock) (oldest_first log_lines no_line c.ring));
  greeted = true;
}

greet_once : (clock : ℕ → Text) (c : Console) → c.greeted ≡ true → greet clock c ≡ c
unfolding greet
greet_once clock c g =
    if_else (c.client.connected && not c.greeted) (welcomed clock c) c (ground arith)

greet_new :
    (clock : ℕ → Text) (c : Console)
    → c.client.connected ≡ true
    → c.greeted ≡ false
    → greet clock c ≡ welcomed clock c
unfolding greet
greet_new clock c k g =
    if_then (c.client.connected && not c.greeted) (welcomed clock c) c (ground arith)

-- A client that has been greeted is sent each line that is logged, once, in order.
greeted-run :
    (clock : ℕ → Text) (c : Console) (ss : List Step)
    → c.client.connected ≡ true
    → c.greeted ≡ true
    → (run clock c ss).client.received ≡ c.client.received ++ map (render clock) (lines_of ss)
unfolding run step
greeted-run clock c [] k g = sym (append-nil c.client.received)
greeted-run clock c (logs l ∷ ss) k g =
    ap (λ v. (run clock v ss).client.received) (log_connected clock c l k)
    ∙ greeted-run clock (logged clock c l) ss k g
    ∙ append_assoc c.client.received (render clock l ∷ []) (map (render clock) (lines_of ss))
greeted-run clock c (greets ∷ ss) k g =
    ap (λ v. (run clock v ss).client.received) (greet_once clock c g) ∙ greeted-run clock c ss k g

-- Up to the greeting, a client is sent what is logged meanwhile.
ungreeted-run :
    (clock : ℕ → Text) (c : Console) (h mid : List LogLine) (ss : List Step)
    → c.client.connected ≡ true
    → c.greeted ≡ false
    → Holds log_lines no_line h c.ring
    → (run clock c (map logs mid ++ (greets ∷ ss))).client.received
      ≡ c.client.received
        ++ (map (render clock) mid
            ++ (banner
                ∷ (map (render clock) (reverse (take log_lines (reverse_aux mid h)))
                    ++ map (render clock) (lines_of ss))))
unfolding run step
ungreeted-run clock c h [] ss k g held =
    ap (λ v. (run clock v ss).client.received) (greet_new clock c k g)
    ∙ greeted-run clock (welcomed clock c) ss k refl
    ∙ append_assoc c.client.received
        (banner ∷ map (render clock) (oldest_first log_lines no_line c.ring))
        (map (render clock) (lines_of ss))
    ∙ ap
        (λ v.
          c.client.received
          ++ (banner ∷ (map (render clock) v ++ map (render clock) (lines_of ss))))
        (held_lists log_lines no_line h c.ring held).1
ungreeted-run clock c h (l ∷ mid) ss k g held =
    ap (λ v. (run clock v (map logs mid ++ (greets ∷ ss))).client.received)
      (log_connected clock c l k)
    ∙ ungreeted-run clock (logged clock c l) (l ∷ h) mid ss k g
        (push-Holds log_lines no_line h c.ring l held)
    ∙ append_assoc c.client.received (render clock l ∷ []) (
        map (render clock) mid
        ++ (banner
            ∷ (map (render clock) (reverse (take log_lines (reverse_aux mid (l ∷ h))))
                ++ map (render clock) (lines_of ss))))

-- A telnet client that connects when `h` has been logged, the last line first, and stays connected:
-- it is sent the lines that are logged before the web task comes to greet it, then the banner and
-- the last 40 lines, in order, and from then on each line that is logged, once, in order, however
-- often the web task comes by.
pub client_sees :
    (clock : ℕ → Text) (c : Console) (incoming : Client) (h mid : List LogLine) (ss : List Step)
    → incoming.connected ≡ true
    → incoming.received ≡ []
    → Holds log_lines no_line h c.ring
    → (run clock (accept c incoming) (map logs mid ++ (greets ∷ ss))).client.received
      ≡ map (render clock) mid
        ++ (banner
            ∷ (map (render clock) (reverse (take log_lines (reverse mid ++ h)))
                ++ map (render clock) (lines_of ss)))
unfolding accept
client_sees clock c incoming h mid ss k e held =
    ungreeted-run clock (record c { client = incoming; greeted = false }) h mid ss k refl held
    ∙ ap (λ r. r ++ sent (reverse_aux mid h)) e
    ∙ ap sent (reverse_aux-eq mid h)
  where
    sent : List LogLine → List Text
    sent past =
        map (render clock) mid
        ++ (banner
            ∷ (map (render clock) (reverse (take log_lines past))
                ++ map (render clock) (lines_of ss)))
