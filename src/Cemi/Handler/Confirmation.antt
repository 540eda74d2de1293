-- ===== src/Cemi/Handler/Confirmation.antt =====
-- Sending a telegram succeeds exactly where a confirmation comes in, and counts once.
use xknx.Prelude.{
  ◌+◌, ◌≡◌, refl, ◌∙◌, Bool, true, false, ◌||◌, if◌then◌else◌, Option, none, some, List, [], ◌∷◌,
  Bytes, Result, ok, err, confirmation_error, data_secure_error, arith,
}
use xknx.Cemi.Frame.{
  CemiFrame, CemiData, link_data, CemiMessageCode, l_data_con, l_data_req, from_knx,
}
use xknx.Cemi.Handler.{
  received_telegram, prepare, send_telegram, check_sending, check_confirmation, count_error,
  CemiHandler, Received, route, to_management, telegram_received, note_issue,
  handle_data_secure_key_issue, deliver, without_keys, settle_received, with_keys,
  handle_indication, handle_link_data, handle_content, handle_cemi_frame, handle_parsed,
  handle_raw_cemi, handle_all,
}
use xknx.Telegram.Record.{TelegramRecord}
use xknx.Cemi.LinkData.{CemiLData}
use xknx.Secure.DataSecure.{DataSecure, received_cemi, is_data_secure}
use xknx.Secure.Primitives.{Cipher}

abbrev confirms_content : CemiMessageCode → Option CemiData → Bool
confirms_content l_data_con (some (link_data d)) = true
confirms_content _ _ = false

-- Octets that are a confirmation of link layer data.
abbrev confirms : Result CemiFrame → Bool
confirms (ok cemi) = confirms_content cemi.code cemi.content
confirms (err e) = false

abbrev pub is_confirmed : List Bytes → Bool
is_confirmed [] = false
is_confirmed (raw ∷ frames) = confirms (from_knx raw) || is_confirmed frames

-- Counters of what leaves, and the confirmation.
pub record Same (h k : CemiHandler) : Type 0 where
  pub confirmed : k.confirmed ≡ h.confirmed
  pub outgoing : k.count_outgoing ≡ h.count_outgoing
  pub outgoing_error : k.count_outgoing_error ≡ h.count_outgoing_error

telegram_received-Same : (t : Received) (h : CemiHandler) → Same h (telegram_received t h).1
unfolding telegram_received route to_management
telegram_received-Same t h = ground arith

key_issue-Same :
    (d : CemiLData) (secure : Bool) (h : CemiHandler)
    → Same h (handle_data_secure_key_issue d secure h).1
unfolding handle_data_secure_key_issue note_issue
key_issue-Same d secure h = ground arith

settle_received-Same :
    (d : CemiLData) (secure : Bool) (done : Result CemiLData × DataSecure) (h : CemiHandler)
    → Same h (settle_received d secure done h).1
unfolding settle_received deliver
settle_received-Same d secure (ok plain, s) h =
    let k =
      telegram_received-Same (received_telegram plain secure) (record h { data_secure = some s }) in
    record { confirmed = k.confirmed; outgoing = k.outgoing; outgoing_error = k.outgoing_error }
settle_received-Same d secure (err data_secure_error, s) h =
    let k = key_issue-Same d secure (record h { data_secure = some s }) in
    record { confirmed = k.confirmed; outgoing = k.outgoing; outgoing_error = k.outgoing_error }
settle_received-Same d secure (err e, s) h = record {
  confirmed = refl;
  outgoing = refl;
  outgoing_error = refl;
}

module _ (cipher : Cipher) where
  with_keys-Same :
      (d : CemiLData) (secure : Bool) (o : Option DataSecure) (h : CemiHandler)
      → Same h (with_keys cipher d secure o h).1
  unfolding with_keys without_keys deliver
  with_keys-Same d true none h = key_issue-Same d true h
  with_keys-Same d false none h = telegram_received-Same (received_telegram d false) h
  with_keys-Same d secure (some s) h = settle_received-Same d secure (received_cemi cipher d s) h

  -- What comes in leaves the counters of what leaves, and sets the confirmation where it is one.
  handle_content_lem :
      (code : CemiMessageCode) (o : Option CemiData) (h : CemiHandler)
      → let k = (handle_content cipher code o h).1 in
        (k.confirmed ≡ confirms_content code o || h.confirmed)
        × (k.count_outgoing ≡ h.count_outgoing)
        × (k.count_outgoing_error ≡ h.count_outgoing_error)
  unfolding handle_content handle_link_data handle_indication
  handle_content_lem l_data_con (some (link_data d)) h = (refl, refl, refl)
  handle_content_lem l_data_req (some (link_data d)) h = (refl, refl, refl)
  handle_content_lem code (some (link_data d)) h =
      let k =
        with_keys-Same d (is_data_secure d) h.data_secure
          (record h { count_incoming = h.count_incoming + 1 }) in
      (k.confirmed, k.outgoing, k.outgoing_error)
  handle_content_lem code (some x) h = ground arith
  handle_content_lem code none h = ground arith

  handle_parsed_lem :
      (r : Result CemiFrame) (h : CemiHandler)
      → let k = (handle_parsed cipher r h).1 in
        (k.confirmed ≡ confirms r || h.confirmed)
        × (k.count_outgoing ≡ h.count_outgoing)
        × (k.count_outgoing_error ≡ h.count_outgoing_error)
  unfolding handle_parsed handle_cemi_frame
  handle_parsed_lem (ok cemi) h = handle_content_lem cemi.code cemi.content h
  handle_parsed_lem (err e) h = (refl, refl, refl)

  or_lem : (a b c d e : Bool) → d ≡ b || e → e ≡ a || c → d ≡ (a || b) || c
  or_lem a b c d e h k = ground arith

  handle_all_lem :
      (frames : List Bytes) (h : CemiHandler)
      → let k = handle_all cipher frames h in
        (k.confirmed ≡ is_confirmed frames || h.confirmed)
        × (k.count_outgoing ≡ h.count_outgoing)
        × (k.count_outgoing_error ≡ h.count_outgoing_error)
  unfolding handle_all handle_raw_cemi
  handle_all_lem [] h = (refl, refl, refl)
  handle_all_lem (raw ∷ frames) h =
      let first = (handle_parsed cipher (from_knx raw) h).1 in
      let (a, b, c) = handle_parsed_lem (from_knx raw) h in
      let (x, y, z) = handle_all_lem frames first in
      (
        or_lem (confirms (from_knx raw)) (is_confirmed frames) h.confirmed
            (handle_all cipher frames first).confirmed first.confirmed x a,
        y ∙ b,
        z ∙ c,
      )

  last_lem : (d w m s : Bool) → d ≡ w || m → m ≡ s || false → d ≡ s || w
  last_lem d w m s h k = ground arith

  -- The state in which the interface gets the frame.
  abbrev given : CemiLData → CemiHandler → CemiHandler
  given d k = record k {
    confirmed = false;
    sent = record { code = l_data_req; info = []; content = some (link_data d) } ∷ k.sent;
  }

  ending :
      (d : CemiLData) (k : CemiHandler) (while_sending while_waiting : List Bytes)
      → let last = handle_all cipher while_waiting (handle_all cipher while_sending (given d k)) in
        (last.confirmed ≡ is_confirmed while_sending || is_confirmed while_waiting)
        × (last.count_outgoing ≡ k.count_outgoing)
        × (last.count_outgoing_error ≡ k.count_outgoing_error)
  ending d k while_sending while_waiting =
      let middle = handle_all cipher while_sending (given d k) in
      let (a, b, c) = handle_all_lem while_sending (given d k) in
      let (x, y, z) = handle_all_lem while_waiting middle in
      (
        last_lem _ (is_confirmed while_waiting) middle.confirmed (is_confirmed while_sending) x a,
        y ∙ b,
        z ∙ c,
      )

-- How a call of send_telegram ends, and what it counts.
pub record IsCounted (k : CemiHandler) (done : Result (Unit {0}) × CemiHandler) (good : Bool)
    : Type 0 where
  pub result : done.0 ≡ (if good then ok tt else err confirmation_error)
  pub outgoing : done.1.count_outgoing ≡ (if good then k.count_outgoing + 1 else k.count_outgoing)
  pub outgoing_error :
      done.1.count_outgoing_error
      ≡ (if good then k.count_outgoing_error else k.count_outgoing_error + 1)

counted_lem :
    (k last : CemiHandler) (good : Bool)
    → last.count_outgoing ≡ k.count_outgoing
    → last.count_outgoing_error ≡ k.count_outgoing_error
    → IsCounted k (check_confirmation good last) good
unfolding check_confirmation count_error
counted_lem k last true h j = record { result = refl; outgoing = rw h refl; outgoing_error = j }
counted_lem k last false h j = record { result = refl; outgoing = h; outgoing_error = rw j refl }

-- Where the frame can be made and the interface sends it, send_telegram returns exactly where a
-- confirmation comes in after it was given to the interface, whatever other frames come in, and counts
-- one frame that left; otherwise it raises a ConfirmationError and counts one error.
pub send_telegram-IsCounted :
    (cipher : Cipher) (t : TelegramRecord) (d : CemiLData) (h k : CemiHandler)
    (while_sending while_waiting : List Bytes)
    → prepare cipher t h ≡ (ok d, k)
    → IsCounted k
        (send_telegram cipher t while_sending (ok tt) while_waiting h)
        (is_confirmed while_sending || is_confirmed while_waiting)
unfolding send_telegram check_sending
send_telegram-IsCounted cipher t d h k while_sending while_waiting made =
    let (a, b, c) = ending cipher d k while_sending while_waiting in
    rw made (rw a (counted_lem k _ _ b c))
