-- ===== src/Sctp/Amounts.antt =====
-- What the send queue of the SCTP transport holds, against the buffered amounts and what was handed
-- to usrsctp (src/impl/sctptransport.cpp).
use gstreamer_web_rtc.Prelude.{
  ℕ, ◌+◌, ◌<◌, ◌≡◌, refl, sym, inl, inr, false, Option, none, some, List, [], ◌∷◌, ◌++◌, append-nil,
  ◌==◌, if◌then◌else◌, All, arith, Bool-cases,
}
use gstreamer_web_rtc.Queue.{Queue}
use gstreamer_web_rtc.Transport.{MessageType, binary, string, control, reset}
use gstreamer_web_rtc.DataChannel.{Message}
use gstreamer_web_rtc.Sctp.{
  Policy, Usrsctp, SendResult, sent, would_block, send_failed, Sctp, Attempt, yes_sent, not_sent,
  throws, is_connected, message_size, set_amount, add_amount, remove_amount, send_result,
  send_packet, send_reset, send_typed, try_send_message,
}

-- The sizes of the messages of one stream.
unfoldable pub queued : ℕ → List Message → ℕ
queued i [] = 0
queued i (m ∷ ms) = (if i == m.stream then message_size m else 0) + queued i ms

pub queued-append : (i : ℕ) (xs ys : List Message) → queued i (xs ++ ys) ≡ queued i xs + queued i ys
unfolding queued
queued-append i [] ys = omega arith
queued-append i (x ∷ xs) ys = omega (arith, queued-append i xs ys)

-- The queue takes messages in, `all` were submitted, and the amounts are those of what is left.
pub record Holds (all taken : List Message) (q : Queue Message) (buffered : ℕ → ℕ) : Type 0 where
  pub order : taken ++ q.queue ≡ all
  pub unlimited : q.limit ≡ 0
  pub live : q.stopping ≡ false
  pub streams : All (λ m. m.stream < 65536) q.queue
  pub amounts : (i : ℕ) → buffered i ≡ queued i q.queue

abbrev pub Inv : {S : Type 0} → List Message → Sctp S → Type 0
Inv all s = Holds all s.taken s.send_queue s.buffered

-- What an attempt to send one message does beside the socket.
abbrev pub took : Message → Attempt → List Message
took m yes_sent = m ∷ []
took m not_sent = []
took m throws = []

module _ {S : Type 0} where
  abbrev pub Tried : Message → Sctp S → Sctp S × Attempt → Type 0
  Tried m s x =
      (x.0.taken ≡ s.taken ++ took m x.1)
      × (x.0.send_queue ≡ s.send_queue)
      × (x.0.buffered ≡ s.buffered)

  send_result-Tried : (r : SendResult) (m : Message) (s : Sctp S) → Tried m s (send_result r m s)
  unfolding send_result
  send_result-Tried sent m s = (refl, refl, refl)
  send_result-Tried would_block m s = (sym (append-nil s.taken), refl, refl)
  send_result-Tried send_failed m s = (sym (append-nil s.taken), refl, refl)

module _ {S : Type 0} (u : Usrsctp S) where
  send_packet-Tried :
      (o : Option (Policy × ℕ)) (m : Message) (s : Sctp S) → Tried m s (send_packet u o m s)
  unfolding send_packet
  send_packet-Tried none m s = (sym (append-nil s.taken), refl, refl)
  send_packet-Tried (some p) m s = send_result-Tried _ m _

  send_typed-Tried : (t : MessageType) (m : Message) (s : Sctp S) → Tried m s (send_typed u t m s)
  unfolding send_typed send_reset
  send_typed-Tried reset m s = (refl, refl, refl)
  send_typed-Tried control m s = send_packet-Tried _ m s
  send_typed-Tried string m s = send_packet-Tried _ m s
  send_typed-Tried binary m s = send_packet-Tried _ m s

  pub try_send_message-Tried : (m : Message) (s : Sctp S) → Tried m s (try_send_message u m s)
  unfolding try_send_message
  try_send_message-Tried m s = elim (Bool-cases (is_connected s.state)) [
    | inl up ↦ rw up (send_typed-Tried m.type m s)
    | inr closed ↦ rw closed (sym (append-nil s.taken), refl, refl)
  ]

  -- The amount of a message leaves with it.
  pub remove_amount-Inv :
      (m : Message) (rest : List Message) (s : Sctp S)
      → ((i : ℕ) → s.buffered i ≡ queued i (m ∷ rest))
      → (i : ℕ) → (remove_amount m.stream (message_size m) s).buffered i ≡ queued i rest
  unfolding remove_amount set_amount queued
  remove_amount-Inv m rest s h i = ground (arith, h i, h m.stream)

  pub add_amount-Inv :
      (m : Message) (queue : List Message) (s : Sctp S)
      → ((i : ℕ) → s.buffered i ≡ queued i queue)
      → (i : ℕ) → (add_amount m.stream (message_size m) s).buffered i ≡ queued i (queue ++ m ∷ [])
  unfolding add_amount set_amount queued
  add_amount-Inv m queue s h i = ground (arith, h i, h m.stream, queued-append i queue (m ∷ []))

  pub amounts_same :
      (stream delta : ℕ) (s : Sctp S)
      → ((remove_amount stream delta s).taken ≡ s.taken)
        × ((remove_amount stream delta s).send_queue ≡ s.send_queue)
  unfolding remove_amount set_amount
  amounts_same stream delta s = elim (Bool-cases (delta == 0)) [
    | inl none_ ↦ rw none_ (refl, refl)
    | inr some_ ↦ rw some_ (refl, refl)
  ]

  pub added_same :
      (stream delta : ℕ) (s : Sctp S)
      → ((add_amount stream delta s).taken ≡ s.taken)
        × ((add_amount stream delta s).send_queue ≡ s.send_queue)
  unfolding add_amount set_amount
  added_same stream delta s = elim (Bool-cases (delta == 0)) [
    | inl none_ ↦ rw none_ (refl, refl)
    | inr some_ ↦ rw some_ (refl, refl)
  ]
