-- ===== src/Setup/Managed.antt =====
-- What the /setup page may change of a door's settings, and what it leaves behind.
use rfid_access.Base.{
  ℕ, ◌≤◌, ◌≡◌, refl, sym, ap, subst, ◌⊎◌, inl, inr, Bool, List, [], ◌∷◌, ◌++◌, Option, arith, Text,
}
use rfid_access.Controller.{clamp_relay_hold, clamp_result_hold}
use rfid_access.Config.{Config, reader_text}
use rfid_access.Setup.{
  Form, Env, save_reader, save_relay, save_result, save_contact, save_config, relay_text,
  contact_text,
}
use rfid_access.Setup.Blocks.{
  save_reader-cases, save_relay-cases, save_result-cases, save_contact-cases,
}

-- A text is among those that were handed to append.
abbrev pub Noted : Text → List Text → Type 0
Noted t [] = ⊥
Noted t (e ∷ es) = (t ≡ e) ⊎ Noted t es

-- The times that the page sets are within their bounds.
abbrev pub Bounded : Config → Type 0
Bounded c =
    (250 ≤ c.relay_hold_ms)
    × (c.relay_hold_ms ≤ 30000)
    × (500 ≤ c.result_hold_ms)
    × (c.result_hold_ms ≤ 30000)
    × (c.nv_door_held_sec ≤ 3600)

-- `es` are the texts that were handed to append since `c`; the reader's format, the hold of the strike, and the
-- contact with its limit are those of `c`, or the new ones are among them.
abbrev pub Traced : Config → List Text → Config → Type 0
Traced c es d =
    (d.append_calls ≡ es ++ c.append_calls)
    × ((d.nv_reader_wiegand ≡ c.nv_reader_wiegand) ⊎ Noted (reader_text d.nv_reader_wiegand) es)
    × ((d.relay_hold_ms ≡ c.relay_hold_ms) ⊎ Noted (relay_text d.relay_hold_ms) es)
    × (((d.nv_door_contact ≡ c.nv_door_contact) × (d.nv_door_held_sec ≡ c.nv_door_held_sec))
        ⊎ Noted (contact_text d.nv_door_contact d.nv_door_held_sec) es)

abbrev Kept : Config → Config → Type 0
Kept c d = (es : List Text) × Traced c es d × Bounded d

or_later : {A : Type 0} (t u : Text) (es : List Text) → A ⊎ Noted t es → A ⊎ Noted t (u ∷ es)
or_later t u es (inl a) = inl a
or_later t u es (inr n) = inr (inr n)

clamp_relay_bounds : (n : ℕ) → (250 ≤ clamp_relay_hold n) × (clamp_relay_hold n ≤ 30000)
unfolding clamp_relay_hold
clamp_relay_bounds n = (ground arith, ground arith)

clamp_result_bounds : (n : ℕ) → (500 ≤ clamp_result_hold n) × (clamp_result_hold n ≤ 30000)
unfolding clamp_result_hold
clamp_result_bounds n = (ground arith, ground arith)

reader-Kept : (c d : Config) (p : Bool) (o : Option Text) → Kept c d → Kept c (save_reader p d o)
reader-Kept c d p o (es, (v, r, y, t), b) = elim (save_reader-cases p d o) [
  | inl s ↦ subst (Kept c) (sym s) (es, (v, r, y, t), b)
  | inr (now, pending, _, s) ↦ subst (Kept c) (sym s) (
    reader_text now ∷ es,
    (
      ap (λ x. reader_text now ∷ x) v,
      inr (inl refl),
      or_later (relay_text d.relay_hold_ms) (reader_text now) es y,
      or_later (contact_text d.nv_door_contact d.nv_door_held_sec) (reader_text now) es t,
    ),
    b,
  )
]

relay-Kept :
    (e : Env) (c d : Config) (p : Bool) (o : Option Text) → Kept c d → Kept c (save_relay e p d o)
relay-Kept e c d p o (es, (v, r, y, t), (b1, b2, b3, b4, b5)) = elim (save_relay-cases e p d o) [
  | inl s ↦ subst (Kept c) (sym s) (es, (v, r, y, t), (b1, b2, b3, b4, b5))
  | inr (n, _, s) ↦
      let (low, high) = clamp_relay_bounds n in
      let new : Text = relay_text (clamp_relay_hold n) in
      subst (Kept c) (sym s) (
        new ∷ es,
        (
          ap (λ x. new ∷ x) v,
          or_later (reader_text d.nv_reader_wiegand) new es r,
          inr (inl refl),
          or_later (contact_text d.nv_door_contact d.nv_door_held_sec) new es t,
        ),
        (low, high, b3, b4, b5),
      )
]

result-Kept :
    (e : Env) (c d : Config) (p : Bool) (o : Option Text) → Kept c d → Kept c (save_result e p d o)
result-Kept e c d p o (es, (v, r, y, t), (b1, b2, b3, b4, b5)) = elim (save_result-cases e p d o) [
  | inl s ↦ subst (Kept c) (sym s) (es, (v, r, y, t), (b1, b2, b3, b4, b5))
  | inr (n, _, s) ↦
      let (low, high) = clamp_result_bounds n in
      subst (Kept c) (sym s) (es, (v, r, y, t), (b1, b2, low, high, b5))
]

contact-Kept :
    (e : Env) (c d : Config) (p : Bool) (o h : Option Text)
    → Kept c d
    → Kept c (save_contact e p d o h)
contact-Kept e c d p o h (es, (v, r, y, t), (b1, b2, b3, b4, b5)) =
    elim (save_contact-cases e p d o h) [
      | inl s ↦ subst (Kept c) (sym s) (es, (v, r, y, t), (b1, b2, b3, b4, b5))
      | inr (on, held, _, b, s) ↦
          let new : Text = contact_text on held in
          subst (Kept c) (sym s) (
            new ∷ es,
            (
              ap (λ x. new ∷ x) v,
              or_later (reader_text d.nv_reader_wiegand) new es r,
              or_later (relay_text d.relay_hold_ms) new es y,
              inr (inl refl),
            ),
            (b1, b2, b3, b4, b),
          )
    ]

-- Whatever is posted to /setup: each change of the reader's format, of the hold of the strike, and of
-- the door contact or its limit is handed to eventLog.append with the new value, and the calls that
-- were made before are still the earlier ones; the strike's hold stays between a quarter of a second
-- and 30 s, the result's between half a second and 30 s, and the limit of an open door an hour at most,
-- if they were so before.
pub save_config-Traced :
    (e : Env) (paired : Bool) (c : Config) (f : Form)
    → Bounded c
    → (es : List Text) × Traced c es (save_config e paired c f) × Bounded (save_config e paired c f)
unfolding save_config
save_config-Traced e paired c f b =
    let c1 : Config = save_reader paired c f.reader_mode in
    let c2 : Config = save_relay e paired c1 f.relay_hold_ms in
    let c3 : Config = save_result e paired c2 f.result_hold_ms in
    contact-Kept e c c3 paired f.door_contact f.door_held_sec (
      result-Kept e c c2 paired f.result_hold_ms (
        relay-Kept e c c1 paired f.relay_hold_ms (
          reader-Kept c c paired f.reader_mode
            ([], (refl, inl refl, inl refl, inl (refl, refl)), b))))
