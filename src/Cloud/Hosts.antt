-- ===== src/Cloud/Hosts.antt =====
-- Pointing the door at a backend.
use rfid_access.Base.{◌≡◌, refl, inl, inr, true, false, Text, eq_text, is_empty, Bool-cases}
use rfid_access.Cloud.{CloudSync, start, begin, trim, set_host, is_paired}

-- A door that is pointed at another host goes there, and is not paired with it: neither at once nor
-- after a restart, whatever the default host, if NVS held the key that the door was using.
pub set_host_unpairs :
    (c : CloudSync) (text default_host : Text)
    → c.stored.device_key ≡ c.device_key
    → is_empty (trim text) ≡ false
    → eq_text (trim text) c.host ≡ false
    → let (c', changed) = set_host c text in
      let booted = begin (start c'.stored c'.access) default_host in
      (changed ≡ true)
      × (c'.host ≡ trim text)
      × (is_paired c' ≡ false)
      × (booted.host ≡ trim text)
      × (is_paired booted ≡ false)
unfolding set_host is_paired begin start
set_host_unpairs c text default_host k e h = elim (Bool-cases (is_empty c.device_key)) [
  | inl n ↦ rw (e, h, n) (refl, refl, rw n refl, rw e refl, rw (k, n) refl)
  | inr n ↦ rw (e, h, n) (refl, refl, refl, rw e refl, refl)
]
