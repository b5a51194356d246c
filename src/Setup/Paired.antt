-- ===== src/Setup/Paired.antt =====
-- What /setup leaves alone on a paired door.
use rfid_access.Base.{
  ◌≡◌, refl, ap, ◌∙◌, ◌⊎◌, inl, inr, true, ◌∷◌, Option, none, some, arith, Text, Bool-cases,
}
use rfid_access.Config.{Config}
use rfid_access.Cloud.{is_paired}
use rfid_access.Setup.{
  Form, Device, Env, save_reader, save_relay, save_result, save_contact, save_config, wifi_text,
  note_event, save, save_pairing, ask_wifi, save_host, or_else,
}

reader_paired : (c : Config) (o : Option Text) → save_reader true c o ≡ c
unfolding save_reader
reader_paired c none = refl
reader_paired c (some arg) = refl

relay_paired : (e : Env) (c : Config) (o : Option Text) → save_relay e true c o ≡ c
unfolding save_relay
relay_paired e c none = refl
relay_paired e c (some arg) = refl

result_paired : (e : Env) (c : Config) (o : Option Text) → save_result e true c o ≡ c
unfolding save_result
result_paired e c none = refl
result_paired e c (some arg) = refl

config_paired : (e : Env) (c : Config) (f : Form) → save_config e true c f ≡ c
unfolding save_config save_contact
config_paired e c f =
    ap (λ d. save_result e true (save_relay e true d f.relay_hold_ms) f.result_hold_ms)
      (reader_paired c f.reader_mode)
    ∙ ap (λ d. save_result e true d f.result_hold_ms) (relay_paired e c f.relay_hold_ms)
    ∙ result_paired e c f.result_hold_ms

save_pairing-config : (e : Env) (d : Device) (t : Text) → (save_pairing e d t).config ≡ d.config
unfolding save_pairing
save_pairing-config e d t = ground arith

-- A paired door keeps its settings, whatever is posted to /setup, and also where the same request
-- points it at another backend: the relay's and the result's holds, the reader's format, the contact
-- and its limit, the schedule and the mark for a reload stay. At most one call of append is
-- added, for a request for another network.
pub paired_managed :
    (e : Env) (d : Device) (f : Form)
    → is_paired d.cloud ≡ true
    → ((save e d f).config ≡ d.config)
      ⊎ ((save e d f).config ≡ record d.config { append_calls = wifi_text ∷ d.config.append_calls })
unfolding save
paired_managed e d f p =
    let asked = ask_wifi e d.wifi f.wifi_ssid f.wifi_pass in
    let config : Config = note_event d.config asked.1 wifi_text in
    let saved : Config = save_config e (is_paired d.cloud) config f in
    let kept : (save e d f).config ≡ config =
      save_pairing-config e
        (record {
          door_name = or_else f.door_name d.door_name;
          site_name = or_else f.site_name d.site_name;
          wifi = asked.0;
          config = saved;
          cloud = save_host d.cloud f.cloud_host;
        })
        f.pair_code
      ∙ ap (λ b. save_config e b config f) p
      ∙ config_paired e config f in
    elim (Bool-cases asked.1) [
      | inl took ↦ inr (kept ∙ ap (λ b. note_event d.config b wifi_text) took)
      | inr refused ↦ inl (kept ∙ ap (λ b. note_event d.config b wifi_text) refused)
    ]
