-- ===== src/DataChannel/Handshake.antt =====
-- The establishment of a data channel between two peers (RFC 8832).
use gstreamer_web_rtc.Prelude.{
  ℕ, ◌+◌, ◌<◌, ◌≡◌, refl, ap, ◌∙◌, true, false, ltb, inl, inr, none, some, List, [], ◌∷◌, ◌++◌,
  length, take-append_length, drop-append_length, take_all, length-append, Bool-cases, arith,
}
use gstreamer_web_rtc.Transport.{control}
use gstreamer_web_rtc.DataChannel.Open.{
  Reliability, OpenMessage, open_message, ack_message, message_open, set_unordered,
  channel_parameters, parse_open, parse_reliability,
}
use gstreamer_web_rtc.DataChannel.Flush.{flush_pending-Flushes}
use gstreamer_web_rtc.DataChannel.{
  DataChannel, Message, outgoing_class, incoming_class, open_channel, incoming, set_open,
  trigger_open, open_as, send_open, incoming_type, control_message, process_open, incoming_open,
  accept_open, open_event,
}
use gstreamer_web_rtc.DataChannel.Parsing.{
  IsNegotiable, parse_open-open_message, parse_reliability-channel_parameters,
}

-- What an opening leaves beside the queue and the events.
pub record SameChannel (c d : DataChannel) : Type 0 where
  pub label : c.label ≡ d.label
  pub protocol : c.protocol ≡ d.protocol
  pub reliability : c.reliability ≡ d.reliability
  pub is_closed : c.is_closed ≡ d.is_closed
  pub class : c.class ≡ d.class
  pub sent : c.sent ≡ d.sent

set_open-SameChannel :
    (d : DataChannel) → SameChannel (set_open d) d × ((set_open d).is_open ≡ true)
unfolding set_open trigger_open
set_open-SameChannel d = elim (Bool-cases d.is_open) [
  | inl e ↦ rw e (
    record {
      label = refl;
      protocol = refl;
      reliability = refl;
      is_closed = refl;
      class = refl;
      sent = refl;
    },
    refl,
  )
  | inr e ↦
      let f =
        (flush_pending-Flushes (record d {
          is_open = true;
          events = d.events ++ open_event ∷ [];
          open_triggered = true;
        })).0 in
      rw (e, f.after)
        (
          record {
            label = refl;
            protocol = refl;
            reliability = refl;
            is_closed = refl;
            class = refl;
            sent = refl;
          },
          refl,
        )
]

abbrev pub ack : ℕ → Message
ack s = record { type = control; bytes = ack_message; stream = s; reliability = none }

opens :
    (o : DataChannel) (s ct n : ℕ)
    → o.class ≡ outgoing_class
    → o.stream ≡ some s
    → channel_parameters o.reliability.type o.reliability.limit ≡ some (ct, n)
    → open_channel o ≡ (
      record o {
        transport = true;
        sent =
            o.sent
            ++ record {
              type = control;
              bytes = open_message (set_unordered o.reliability.unordered ct) n o.label o.protocol;
              stream = s;
              reliability = none;
            }
              ∷ [];
      },
      none,
    )
unfolding open_channel
opens o s ct n oc os e = rw (oc, os, open_as, send_open, e) refl

-- The open message at a channel that waits for one.
incoming_opens :
    (i : DataChannel) (m : Message) (s : ℕ) (tail : List ℕ) (p : OpenMessage)
    → m.type ≡ control
    → m.bytes ≡ message_open ∷ tail
    → parse_open (message_open ∷ tail) ≡ some p
    → i.class ≡ incoming_class
    → i.is_closed ≡ false
    → i.transport ≡ true
    → i.stream ≡ some s
    → incoming i m ≡ some (accept_open s i p)
unfolding incoming
incoming_opens i m s tail p mt mb parsed ic id it is =
    rw (id, mt, incoming_type, mb, control_message, ic, process_open, it, is, incoming_open, parsed)

accepts :
    (i : DataChannel) (s ct n : ℕ) (label protocol : List ℕ) (r : Reliability)
    → parse_reliability ct n ≡ r
    → accept_open s i (record {
      channel_type = ct;
      parameter = n;
      label_length = length label;
      protocol_length = length protocol;
      text = label ++ protocol;
    })
      ≡ (
        set_open (record i {
          label = label;
          protocol = protocol;
          reliability = r;
          sent = i.sent ++ ack s ∷ [];
        }),
        none,
      )
unfolding accept_open
accepts i s ct n label protocol r e =
    let fits : ltb (length (label ++ protocol)) (length label + length protocol) ≡ false =
      ground (arith, length-append label protocol) in
    rw (
      fits,
      take-append_length label protocol,
      drop-append_length label protocol,
      take_all (length protocol) protocol (omega arith),
      e,
    )

incoming-ack :
    (o : DataChannel) (s : ℕ) → o.is_closed ≡ false → incoming o (ack s) ≡ some (set_open o, none)
unfolding incoming
incoming-ack o s e = rw (e, incoming_type, control_message)

-- A channel that its side opened and the channel that the other side makes for it agree: when the
-- open message that the one sends reaches the other, the other takes over label, protocol and
-- reliability, is open, and has sent one acknowledgement; when that reaches the first, it is open
-- too. The label and the protocol fit 16 bits of length, and the reliability can be written in an
-- open message.
pub establishment :
    (o i : DataChannel) (s s' : ℕ)
    → o.class ≡ outgoing_class
    → o.is_closed ≡ false
    → o.stream ≡ some s
    → IsNegotiable o.reliability
    → length o.label < 65536
    → length o.protocol < 65536
    → i.class ≡ incoming_class
    → i.is_closed ≡ false
    → i.transport ≡ true
    → i.stream ≡ some s'
    → (m : Message) × (o' : DataChannel) × (i' : DataChannel) × (o'' : DataChannel) × (open_channel
          o
        ≡ (o', none))
      × (o'.sent ≡ o.sent ++ m ∷ [])
      × (incoming i m ≡ some (i', none))
      × (i'.label ≡ o.label)
      × (i'.protocol ≡ o.protocol)
      × (i'.reliability ≡ o.reliability)
      × (i'.is_open ≡ true)
      × (i'.sent ≡ i.sent ++ ack s' ∷ [])
      × (incoming o' (ack s') ≡ some (o'', none))
      × (o''.is_open ≡ true)
unfolding open_message
establishment o i s s' oc od os on ol op ic id it is =
    let (ct, n, parameters, small, agreed) =
      parse_reliability-channel_parameters o.reliability on in
    let m : Message = record {
      type = control;
      bytes = open_message (set_unordered o.reliability.unordered ct) n o.label o.protocol;
      stream = s;
      reliability = none;
    } in
    let parsed =
      parse_open-open_message (set_unordered o.reliability.unordered ct) n o.label o.protocol small
        ol op in
    let o' : DataChannel = record o { transport = true; sent = o.sent ++ m ∷ [] } in
    let i1 : DataChannel = record i {
      label = o.label;
      protocol = o.protocol;
      reliability = o.reliability;
      sent = i.sent ++ ack s' ∷ [];
    } in
    let (same, opened) = set_open-SameChannel i1 in
    (
      m,
      o',
      set_open i1,
      set_open o',
      opens o s ct n oc os parameters,
      refl,
      incoming_opens i m s' _ _ refl refl parsed ic id it is
          ∙ ap some (accepts i s' _ n o.label o.protocol o.reliability agreed),
      same.label,
      same.protocol,
      same.reliability,
      opened,
      same.sent,
      incoming-ack o' s' od,
      (set_open-SameChannel o').1,
    )
