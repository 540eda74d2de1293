-- ===== src/Secure/DataSecure/Traffic.antt =====
-- Any interleaving of frames that are received and frames that are sent.
use xknx.Prelude.{
  ◌+◌, ◌<◌, ◌≤◌, ◌≡◌, refl, ap, List, [], ◌∷◌, some, Bytes, Result, Result-cases, Error, inl, inr,
  ok, err, data_secure_error, arith, ltb, true,
}
use xknx.Secure.Asdu.{SecurityControlField, SecureData}
use xknx.Secure.Primitives.{Cipher}
use xknx.Secure.DataSecure.{
  DataSecure, sequence_number_max, sending_scf, plain_apdu, received_cemi, outgoing_cemi,
  secure_data_cemi, get_sequence_number,
}
use xknx.Secure.DataSecure.Growth.{number_of, Keeps, Keeps-refl, Keeps-trans, received_cemi-Keeps}
use xknx.Secure.DataSecure.Sending.{
  sending_key, outgoing_cemi-Keeps, outgoing_keyed, outgoing_cemi-IsSecured,
}
use xknx.Cemi.LinkData.{CemiLData}
use xknx.Telegram.Apci.Services.{secure_apdu}

pub data Event : Type 0 where
  received sent : CemiLData → Event

-- Why a frame is refused where the numbers are used up.
abbrev pub refusal : Result Bytes → Error
refusal (ok raw) = data_secure_error
refusal (err e) = e

module _ (cipher : Cipher) where
  pub after_event : Event → DataSecure → DataSecure
  after_event (received d) s = (received_cemi cipher d s).1
  after_event (sent d) s = (outgoing_cemi cipher d s).1

  -- The state after the events of a list, in their order.
  unfoldable pub after_traffic : List Event → DataSecure → DataSecure
  unfolding after_event
  after_traffic [] s = s
  after_traffic (event ∷ events) s = after_traffic events (after_event event s)

  after_event-Keeps : (event : Event) (s : DataSecure) → Keeps s (after_event event s)
  unfolding after_event
  after_event-Keeps (received d) s = received_cemi-Keeps cipher d s
  after_event-Keeps (sent d) s = outgoing_cemi-Keeps cipher d s

  -- Whatever frames are received and sent, the keys and the known senders stay, and the number for
  -- sending and the last valid number of every sender never fall.
  pub after_traffic-Keeps :
      (events : List Event) (s : DataSecure) → Keeps s (after_traffic events s)
  unfolding after_traffic
  after_traffic-Keeps [] s = Keeps-refl s
  after_traffic-Keeps (event ∷ events) s =
      Keeps-trans s (after_event event s) (after_traffic events (after_event event s))
        (after_event-Keeps event s) (after_traffic-Keeps events (after_event event s))

  -- Of two frames that leave secured, with any traffic between them, the later has the higher sequence
  -- number, and both numbers fit 48 bits.
  pub outgoing_cemi-ascends :
      (d e a b : CemiLData) (key key' : Bytes) (events : List Event) (s : DataSecure)
      → let later = after_traffic events (outgoing_cemi cipher d s).1 in
        sending_key d.dst_addr s ≡ some key
        → sending_key e.dst_addr later ≡ some key'
        → (outgoing_cemi cipher d s).0 ≡ ok a
        → (outgoing_cemi cipher e later).0 ≡ ok b
        → (x : SecureData) × (y : SecureData) × (a.payload ≡ some (secure_apdu sending_scf x))
          × (b.payload ≡ some (secure_apdu sending_scf y))
          × (number_of x < number_of y)
          × (number_of y ≤ sequence_number_max)
  outgoing_cemi-ascends d e a b key key' events s hd he qd qe =
      let later = after_traffic events (outgoing_cemi cipher d s).1 in
      let (l, after, first) = outgoing_cemi-IsSecured cipher d a key s hd qd in
      let (l', after', second) = outgoing_cemi-IsSecured cipher e b key' later he qe in
      let (x, ex, nx) = first in
      let (y, ey, ny) = second in
      let kept = (after_traffic-Keeps events (outgoing_cemi cipher d s).1).sending_grows in
      let one : (outgoing_cemi cipher d s).1.sequence_number_sending
          ≡ s.sequence_number_sending + 1 =
        ap (λ t. t.sequence_number_sending) after in
      (
        x,
        y,
        ap (λ t. t.payload) ex,
        ap (λ t. t.payload) ey,
        omega (arith, nx, ny, kept, one),
        omega (arith, ny, l'),
      )

  -- A number above 48 bits is not sent: the payload cannot be written, or it is refused.
  used_up :
      (d : CemiLData) (key : Bytes) (s : DataSecure)
      → sending_key d.dst_addr s ≡ some key
      → sequence_number_max < s.sequence_number_sending
      → outgoing_cemi cipher d s ≡ (err (refusal (plain_apdu d.payload)), s)
  unfolding secure_data_cemi get_sequence_number
  used_up d key s h l =
      let high : ltb sequence_number_max s.sequence_number_sending ≡ true = ground (arith, l) in
      elim (Result-cases (plain_apdu d.payload)) [
        | inl (raw, p) ↦ rw (outgoing_keyed cipher d key s h) (rw (p, high) refl)
        | inr (e, p) ↦ rw (outgoing_keyed cipher d key s h) (rw p refl)
      ]

  -- Once a frame has left secured under the highest number of 48 bits, and whatever frames are received
  -- and sent after it, no frame for a group with a key leaves: it is refused with a DataSecureError, or
  -- with the exception of writing its payload, and the state stays.
  pub outgoing_cemi-exhausted :
      (d e a : CemiLData) (key key' : Bytes) (f : SecurityControlField) (secured : SecureData)
      (events : List Event) (s : DataSecure)
      → let later = after_traffic events (outgoing_cemi cipher d s).1 in
        sending_key d.dst_addr s ≡ some key
        → (outgoing_cemi cipher d s).0 ≡ ok a
        → a.payload ≡ some (secure_apdu f secured)
        → number_of secured ≡ sequence_number_max
        → sending_key e.dst_addr later ≡ some key'
        → outgoing_cemi cipher e later ≡ (err (refusal (plain_apdu e.payload)), later)
  outgoing_cemi-exhausted d e a key key' f secured events s hd qd left last he =
      let later = after_traffic events (outgoing_cemi cipher d s).1 in
      let (l, after, (x, ex, nx)) = outgoing_cemi-IsSecured cipher d a key s hd qd in
      let same : x ≡ secured = cc (ap (λ t. t.payload) ex, left) in
      let kept = (after_traffic-Keeps events (outgoing_cemi cipher d s).1).sending_grows in
      let one : (outgoing_cemi cipher d s).1.sequence_number_sending
          ≡ s.sequence_number_sending + 1 =
        ap (λ t. t.sequence_number_sending) after in
      let number : number_of secured ≡ s.sequence_number_sending = rw (← same) nx in
      used_up e key' later he (omega (arith, last, number, kept, one))
