-- ===== src/Cemi/Handler/Refusal.antt =====
-- Frames that must not reach the application.
use xknx.Prelude.{◌+◌, ◌≡◌, refl, true, false, some, ◌∷◌, ok}
use xknx.Prelude.Tables.{contains}
use xknx.Cemi.Frame.{CemiFrame, link_data, l_data_ind}
use xknx.Cemi.Handler.{
  CemiHandler, received_telegram, note_issue, handle_data_secure_key_issue, settle_received,
  with_keys, handle_indication, handle_link_data, handle_content, handle_cemi_frame,
}
use xknx.Cemi.LinkData.{CemiLData, to_group}
use xknx.Secure.DataSecure.{DataSecure, is_data_secure}
use xknx.Secure.DataSecure.Refusal.{received_cemi-plain}
use xknx.Secure.Primitives.{Cipher}
use xknx.Telegram.Address.{GroupAddress}
use xknx.Telegram.Tpci.{t_data_group}

-- The frame is counted as undecoded and noted as a key issue; nothing else changes.
abbrev pub refused : CemiLData → CemiHandler → CemiHandler
refused d h = record h {
  count_incoming = h.count_incoming + 1;
  undecoded_data_secure = h.undecoded_data_secure + 1;
  key_issues = received_telegram d false ∷ h.key_issues;
}

-- An indication of a plain frame for a group with a key changes nothing but the counters and the list of
-- key issues: it reaches neither the queue of telegrams nor the management.
pub handle_cemi_frame-plain :
    (cipher : Cipher) (cemi : CemiFrame) (d : CemiLData) (g : GroupAddress) (s : DataSecure)
    (h : CemiHandler)
    → cemi.code ≡ l_data_ind
    → cemi.content ≡ some (link_data d)
    → h.data_secure ≡ some s
    → is_data_secure d ≡ false
    → d.dst_addr ≡ to_group g
    → d.tpci ≡ t_data_group
    → contains g.raw s.group_key_table ≡ true
    → handle_cemi_frame cipher cemi h ≡ (ok tt, refused d h)
unfolding handle_cemi_frame handle_content handle_link_data handle_indication with_keys
    settle_received handle_data_secure_key_issue note_issue
handle_cemi_frame-plain cipher cemi d g s h code content keys plain dst service key =
    rw (code, content, plain, keys)
      (rw (received_cemi-plain cipher d g s plain dst key, service) refl)
