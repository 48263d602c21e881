-- ===== src/DataChannel/Counts.antt =====
-- How often each method of a data channel calls the callbacks for opening and closing.
use gstreamer_web_rtc.Prelude.{
  ℕ, suc, ◌+◌, ◌≤◌, ◌≡◌, refl, true, false, ◌⊎◌, inl, inr, ltb, ◌==◌, Option, none, some, List, [],
  ◌∷◌, ◌++◌, map, length, Bool-cases, Option-cases, arith,
}
use gstreamer_web_rtc.Queue
use gstreamer_web_rtc.Transport.{MessageType, binary, string, control, reset}
use gstreamer_web_rtc.DataChannel.Open.{
  OpenMessage, parse_open, channel_parameters, message_open, message_ack,
}
use gstreamer_web_rtc.DataChannel.Flush.{flush_pending-Flushes}
use gstreamer_web_rtc.DataChannel.{
  DataChannel, Message, Error, Class, negotiated, outgoing_class, incoming_class, incoming,
  set_open, trigger_open, flush_pending, open_as, send_open, incoming_type, control_message,
  process_open, incoming_open, accept_open, Event, open_event, closed_event, available_event,
  message_event, variant_of, trigger_available, close, remote_close, outgoing, queue_message,
}

abbrev pub opens_in : List Event → ℕ
opens_in [] = 0
opens_in (open_event ∷ es) = suc (opens_in es)
opens_in (closed_event ∷ es) = opens_in es
opens_in (available_event ∷ es) = opens_in es
opens_in (message_event t b ∷ es) = opens_in es

abbrev pub closes_in : List Event → ℕ
closes_in [] = 0
closes_in (open_event ∷ es) = closes_in es
closes_in (closed_event ∷ es) = suc (closes_in es)
closes_in (available_event ∷ es) = closes_in es
closes_in (message_event t b ∷ es) = closes_in es

opens_in-append : (xs ys : List Event) → opens_in (xs ++ ys) ≡ opens_in xs + opens_in ys
opens_in-append [] ys = omega arith
opens_in-append (open_event ∷ xs) ys = omega (arith, opens_in-append xs ys)
opens_in-append (closed_event ∷ xs) ys = opens_in-append xs ys
opens_in-append (available_event ∷ xs) ys = opens_in-append xs ys
opens_in-append (message_event t b ∷ xs) ys = opens_in-append xs ys

closes_in-append : (xs ys : List Event) → closes_in (xs ++ ys) ≡ closes_in xs + closes_in ys
closes_in-append [] ys = omega arith
closes_in-append (closed_event ∷ xs) ys = omega (arith, closes_in-append xs ys)
closes_in-append (open_event ∷ xs) ys = closes_in-append xs ys
closes_in-append (available_event ∷ xs) ys = closes_in-append xs ys
closes_in-append (message_event t b ∷ xs) ys = closes_in-append xs ys

opens_in-messages : (ms : List Message) → opens_in (map variant_of ms) ≡ 0
opens_in-messages [] = refl
opens_in-messages (m ∷ ms) = opens_in-messages ms

closes_in-messages : (ms : List Message) → closes_in (map variant_of ms) ≡ 0
closes_in-messages [] = refl
closes_in-messages (m ∷ ms) = closes_in-messages ms

-- How often the channel's callbacks for opening and closing were called, against its two flags.
pub record Inv (d : DataChannel) : Type 0 where
  pub closes :
      (d.is_closed ≡ true) × (closes_in d.events ≡ 1)
      ⊎ (d.is_closed ≡ false) × (closes_in d.events ≡ 0)
  pub opens :
      (d.is_open ≡ true) × (d.is_closed ≡ false) × (opens_in d.events ≡ 1)
      ⊎ (d.is_open ≡ false) × (d.is_closed ≡ false) × (opens_in d.events ≡ 0)
      ⊎ (d.is_open ≡ false) × (d.is_closed ≡ true) × (opens_in d.events ≤ 1)

flush_pending-Inv : (d : DataChannel) → Inv d → Inv (flush_pending d)
flush_pending-Inv d v =
    let f = (flush_pending-Flushes d).0 in
    rw f.after (record {
      closes = ground (
        arith,
        v.closes,
        closes_in-append d.events (map variant_of f.messages),
        closes_in-messages f.messages,
      );
      opens = ground (
        arith,
        v.opens,
        opens_in-append d.events (map variant_of f.messages),
        opens_in-messages f.messages,
      );
    })

set_open-Inv : (d : DataChannel) → d.is_closed ≡ false → Inv d → Inv (set_open d)
unfolding set_open trigger_open
set_open-Inv d c v = elim (Bool-cases d.is_open) [
  | inl e ↦ rw e (record { closes = ground (arith, v.closes); opens = ground (arith, v.opens, e) })
  | inr e ↦ rw e (
      flush_pending-Inv _ (record {
        closes = ground (arith, v.closes, closes_in-append d.events (open_event ∷ []));
        opens = ground (arith, v.opens, e, c, opens_in-append d.events (open_event ∷ []));
      }))
]

pub remote_close-Inv : (d : DataChannel) → Inv d → Inv (remote_close d)
unfolding remote_close
remote_close-Inv d v = record {
  closes = ground (arith, v.closes, closes_in-append d.events (closed_event ∷ []));
  opens = ground (arith, v.opens, opens_in-append d.events (closed_event ∷ []));
}

pub close-Inv : (d : DataChannel) → Inv d → Inv (close d)
unfolding close
close-Inv d v = record {
  closes = ground (arith, v.closes, closes_in-append d.events (closed_event ∷ []));
  opens = ground (arith, v.opens, opens_in-append d.events (closed_event ∷ []));
}

trigger_available-Inv : (n : ℕ) (d : DataChannel) → Inv d → Inv (trigger_available n d)
unfolding trigger_available
trigger_available-Inv n d v = flush_pending-Inv _ (record {
  closes = ground (arith, v.closes, closes_in-append d.events (available_event ∷ []));
  opens = ground (arith, v.opens, opens_in-append d.events (available_event ∷ []));
})

accept_open-Inv :
    (s : ℕ) (d : DataChannel) (o : OpenMessage)
    → d.is_closed ≡ false
    → Inv d
    → Inv (accept_open s d o).0
unfolding accept_open
accept_open-Inv s d o c v =
    elim (Bool-cases (ltb (length o.text) (o.label_length + o.protocol_length))) [
      | inl e ↦ rw e v
      | inr e ↦ rw e (set_open-Inv _ c (record { closes = v.closes; opens = v.opens }))
    ]

incoming_open-Inv :
    (s : Option ℕ) (d : DataChannel) (bytes : List ℕ)
    → d.is_closed ≡ false
    → Inv d
    → Inv (incoming_open s d bytes).0
unfolding incoming_open
incoming_open-Inv none d bytes c v = v
incoming_open-Inv (some s) d bytes c v = elim (Option-cases (parse_open bytes)) [
  | inl e ↦ rw (e, incoming_open) v
  | inr (o, e) ↦ rw (e, incoming_open) (accept_open-Inv s d o c v)
]

process_open-Inv :
    (k : Class) (d : DataChannel) (bytes : List ℕ)
    → d.is_closed ≡ false
    → Inv d
    → Inv (process_open k d bytes).0
unfolding process_open
process_open-Inv negotiated d bytes c v = v
process_open-Inv outgoing_class d bytes c v = v
process_open-Inv incoming_class d bytes c v = elim (Bool-cases d.transport) [
  | inl e ↦
      rw (e) (incoming_open-Inv d.stream _ bytes c (record { closes = v.closes; opens = v.opens }))
  | inr e ↦ rw (e) (record { closes = v.closes; opens = v.opens })
]

control_message-Inv :
    (bytes : List ℕ) (d : DataChannel)
    → d.is_closed ≡ false
    → Inv d
    → Inv (control_message bytes d).0
unfolding control_message
control_message-Inv [] d c v = v
control_message-Inv (b ∷ bytes) d c v = elim (Bool-cases (b == message_open)) [
  | inl e ↦ rw e (process_open-Inv d.class d (b ∷ bytes) c v)
  | inr e ↦ elim (Bool-cases (b == message_ack)) [
    | inl k ↦ rw (e, k) (set_open-Inv d c v)
    | inr k ↦ rw (e, k) v
  ]
]

queue_message-Inv :
    (d e : DataChannel) (m : Message) (x : Option Error)
    → Inv d
    → queue_message d m ≡ some (e, x)
    → Inv e
unfolding queue_message
queue_message-Inv d e m x v h = elim (Option-cases (Queue.push d.recv_queue m)) [
  | inl p ↦ absurd (cc (rw (p, queue_message) at h))
  | inr (q, p) ↦
      let same : trigger_available (length q.queue) (record d { recv_queue = q }) ≡ e =
        ground (arith, h, p) in
      rw (← same) (trigger_available-Inv _ _ (record { closes = v.closes; opens = v.opens }))
]

incoming_type-Inv :
    (t : MessageType) (d e : DataChannel) (m : Message) (x : Option Error)
    → d.is_closed ≡ false
    → Inv d
    → incoming_type t d m ≡ some (e, x)
    → Inv e
unfolding incoming_type
incoming_type-Inv control d e m x c v h =
    let same : (control_message m.bytes d).0 ≡ e = ground (arith, h) in
    rw (← same) (control_message-Inv m.bytes d c v)
incoming_type-Inv reset d e m x c v h =
    let same : remote_close d ≡ e = ground (arith, h) in rw (← same) (remote_close-Inv d v)
incoming_type-Inv string d e m x c v h = queue_message-Inv d e m x v h
incoming_type-Inv binary d e m x c v h = queue_message-Inv d e m x v h

pub incoming-Inv :
    (d e : DataChannel) (m : Message) (x : Option Error)
    → Inv d
    → incoming d m ≡ some (e, x)
    → Inv e
unfolding incoming
incoming-Inv d e m x v h = elim (Bool-cases d.is_closed) [
  | inl c ↦ let same : d ≡ e = ground (arith, h, c) in rw (← same) v
  | inr c ↦
      let h' : incoming_type m.type d m ≡ some (e, x) = ground (arith, h, c) in
      incoming_type-Inv m.type d e m x c v h'
]

send_open-Inv : (s : Option ℕ) (d : DataChannel) → Inv d → Inv (send_open s d).0
unfolding send_open
send_open-Inv none d v = v
send_open-Inv (some s) d v =
    elim (Option-cases (channel_parameters d.reliability.type d.reliability.limit)) [
      | inl e ↦ rw (e, send_open) v
      | inr (p, e) ↦ rw (e, send_open) (record { closes = v.closes; opens = v.opens })
    ]

pub open_as-Inv : (k : Class) (d : DataChannel) → Inv d → Inv (open_as k d).0
unfolding open_as
open_as-Inv negotiated d v = elim (Bool-cases d.is_closed) [
  | inl c ↦
      rw c (record { closes = ground (arith, v.closes, c); opens = ground (arith, v.opens, c) })
  | inr c ↦ rw c (
      set_open-Inv (record d { transport = true; is_closed = false }) refl
        (record { closes = ground (arith, v.closes, c); opens = ground (arith, v.opens, c) }))
]
open_as-Inv outgoing_class d v =
    send_open-Inv d.stream _ (record { closes = v.closes; opens = v.opens })
open_as-Inv incoming_class d v = v

pub outgoing-Inv :
    (d : DataChannel) (t : MessageType) (bytes : List ℕ) → Inv d → Inv (outgoing d t bytes).0
unfolding outgoing
outgoing-Inv d t bytes v = record {
  closes = ground (arith, v.closes);
  opens = ground (arith, v.opens);
}
