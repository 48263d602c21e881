-- ===== src/DataChannel.antt =====
-- src/impl/datachannel.cpp and the parts of src/impl/channel.cpp that it drives: data channels.
-- A callback that is called is an event in the order of the calls. The callbacks themselves do
-- not call the channel here. The SCTP transport is the list of the messages that were sent; it
-- does not throw. A call that throws returns its error beside the state that it leaves, and
-- `none` stands for a call that waits in the receive queue's `push`.
pub mod Open
pub mod Flush
pub mod Parsing
pub mod Handshake
pub mod Counts
pub mod Lifecycle
pub mod Sending
pub mod Tests
use gstreamer_web_rtc.Prelude.{
  ℕ, zero, suc, ◌+◌, ◌≤◌, ◌<◌, Bool, true, false, not, ◌&&◌, ◌||◌, Option, none, some, List, [],
  ◌∷◌, ◌++◌, ltb, leb, ◌==◌, if◌then◌else◌, length, take, drop,
}
use gstreamer_web_rtc.Queue.{Queue}
use gstreamer_web_rtc.Queue
use gstreamer_web_rtc.Transport.{MessageType, binary, string, control, reset}
use Open.{
  Reliability, default_reliability, message_open, message_ack, ack_message, open_message,
  OpenMessage, channel_parameters, set_unordered, parse_open, parse_reliability,
}

pub record Message : Type 0 where
  pub type : MessageType
  pub bytes : List ℕ
  pub stream : ℕ
  pub reliability : Option Reliability

pub data Error : Type 0 where
  is_closed_error no_stream too_large no_transport open_too_small open_truncated : Error
  stream_assigned bad_variant : Error

pub data Event : Type 0 where
  open_event : Event
  closed_event : Event
  available_event : Event
  message_event : MessageType → List ℕ → Event

-- `DataChannel` negotiated by the application, and its two subclasses.
pub data Class : Type 0 where
  negotiated outgoing_class incoming_class : Class

pub record DataChannel : Type 0 where
  pub class : Class
  pub transport : Bool
  pub max_message_size : ℕ
  pub stream : Option ℕ
  pub label : List ℕ
  pub protocol : List ℕ
  pub reliability : Reliability
  pub is_open : Bool
  pub is_closed : Bool
  pub recv_queue : Queue Message
  pub open_triggered : Bool
  pub message_callback : Bool
  pub events : List Event
  pub sent : List Message
  pub closed_streams : List ℕ

abbrev raise : DataChannel → Event → DataChannel
raise d e = record d { events = d.events ++ e ∷ [] }

abbrev transmit : DataChannel → Message → DataChannel
transmit d m = record d { sent = d.sent ++ m ∷ [] }

-- `to_variant`: all that is not a string is handed out as binary.
abbrev pub variant_of : Message → Event
variant_of m = message_event (elim m.type [ string ↦ string | _ ↦ binary ]) m.bytes

flush_next :
    Option Message → Queue Message → (DataChannel → DataChannel) → DataChannel → DataChannel
flush_next none q next d = d
flush_next (some m) q next d =
    next (record d { recv_queue = q; events = d.events ++ variant_of m ∷ [] })

-- The loop ends when the queue is empty, so the length of the queue bounds its rounds.
flush_loop : ℕ → DataChannel → DataChannel
unfolding flush_next
flush_loop zero d = d
flush_loop (suc n) d = let (next, q) = Queue.pop d.recv_queue in flush_next next q (flush_loop n) d

pub flush_pending : DataChannel → DataChannel
flush_pending d =
    if d.open_triggered && d.message_callback then flush_loop (length d.recv_queue.queue) d else d

pub trigger_open : DataChannel → DataChannel
trigger_open d = flush_pending (record (raise d open_event) { open_triggered = true })

pub trigger_available : ℕ → DataChannel → DataChannel
trigger_available count d = flush_pending (if count == 1 then raise d available_event else d)

trigger_closed : DataChannel → DataChannel
trigger_closed d = if d.is_closed then d else record (raise d closed_event) { is_closed = true }

close_stream : Option ℕ → DataChannel → DataChannel
close_stream none d = d
close_stream (some s) d =
    if d.is_open && d.transport
    then (record d { closed_streams = d.closed_streams ++ s ∷ [] })
    else d

pub close : DataChannel → DataChannel
unfolding trigger_closed close_stream
close d =
    let d1 = record (close_stream d.stream d) { is_open = false } in
    record (trigger_closed d1) { open_triggered = false; message_callback = false }

pub remote_close : DataChannel → DataChannel
unfolding trigger_closed
remote_close d = trigger_closed (record d { is_open = false })

pub receive : DataChannel → Option Message × DataChannel
receive d = let (next, q) = Queue.pop d.recv_queue in (next, record d { recv_queue = q })

assign : Option ℕ → ℕ → DataChannel → DataChannel × Option Error
assign none stream d = (record d { stream = some stream }, none)
assign (some s) stream d = (d, some stream_assigned)

pub assign_stream : DataChannel → ℕ → DataChannel × Option Error
unfolding assign
assign_stream d stream = assign d.stream stream d

-- `if (!mIsOpen.exchange(true)) triggerOpen();`
set_open : DataChannel → DataChannel
set_open d = if d.is_open then d else trigger_open (record d { is_open = true })

send_open : Option ℕ → DataChannel → DataChannel × Option Error
send_open none d = (d, some no_stream)
send_open (some s) d = elim (channel_parameters d.reliability.type d.reliability.limit) [
  | none ↦ (d, some bad_variant)
  | some (channel_type, parameter) ↦ (
    transmit d (record {
      type = control;
      bytes =
          open_message (set_unordered d.reliability.unordered channel_type) parameter d.label
            d.protocol;
      stream = s;
      reliability = none;
    }),
    none,
  )
]

pub open_as : Class → DataChannel → DataChannel × Option Error
unfolding set_open send_open
open_as negotiated d = (
  if d.is_closed then record d { transport = true } else set_open (record d { transport = true }),
  none,
)
open_as outgoing_class d = send_open d.stream (record d { transport = true })
open_as incoming_class d = (d, none)

-- `open` with the SCTP transport.
pub open_channel : DataChannel → DataChannel × Option Error
unfolding open_as
open_channel d = open_as d.class d

outgoing_stream : Option ℕ → DataChannel → MessageType → List ℕ → DataChannel × Option Error
outgoing_stream none d type bytes = (d, some no_stream)
outgoing_stream (some s) d type bytes =
    if ltb d.max_message_size (length bytes) then (d, some too_large) else (
      transmit d (record {
        type = type;
        bytes = bytes;
        stream = s;
        reliability = if d.is_open then some d.reliability else none;
      }),
      none,
    )

pub outgoing : DataChannel → MessageType → List ℕ → DataChannel × Option Error
unfolding outgoing_stream
outgoing d type bytes =
    if not d.transport || d.is_closed
    then (d, some is_closed_error)
    else outgoing_stream d.stream d type bytes

accept_open : ℕ → DataChannel → OpenMessage → DataChannel × Option Error
unfolding set_open
accept_open s d o =
    if ltb (length o.text) (o.label_length + o.protocol_length) then (d, some open_truncated) else (
      set_open (
          transmit
            (record d {
              label = take o.label_length o.text;
              protocol = take o.protocol_length (drop o.label_length o.text);
              reliability = parse_reliability o.channel_type o.parameter;
            })
            (record { type = control; bytes = ack_message; stream = s; reliability = none })),
      none,
    )

incoming_open : Option ℕ → DataChannel → List ℕ → DataChannel × Option Error
unfolding accept_open
incoming_open none d bytes = (d, some no_stream)
incoming_open (some s) d bytes = elim (parse_open bytes) [
  | none ↦ (d, some open_too_small)
  | some o ↦ accept_open s d o
]

process_open : Class → DataChannel → List ℕ → DataChannel × Option Error
unfolding incoming_open
process_open negotiated d bytes = (d, none)
process_open outgoing_class d bytes = (d, none)
process_open incoming_class d bytes =
    if d.transport then incoming_open d.stream d bytes else (d, some no_transport)

control_message : List ℕ → DataChannel → DataChannel × Option Error
unfolding process_open set_open
control_message [] d = (d, none)
control_message (b ∷ bytes) d =
    if b == message_open
    then process_open d.class d (b ∷ bytes)
    else if b == message_ack
    then (set_open d, none)
    else (d, none)

queue_message : DataChannel → Message → Option (DataChannel × Option Error)
queue_message d m = elim (Queue.push d.recv_queue m) [
  | none ↦ none
  | some q ↦ some (trigger_available (length q.queue) (record d { recv_queue = q }), none)
]

incoming_type : MessageType → DataChannel → Message → Option (DataChannel × Option Error)
unfolding control_message queue_message
incoming_type control d m = some (control_message m.bytes d)
incoming_type reset d m = some (remote_close d, none)
incoming_type string d m = queue_message d m
incoming_type binary d m = queue_message d m

pub incoming : DataChannel → Message → Option (DataChannel × Option Error)
unfolding incoming_type
incoming d m = if d.is_closed then some (d, none) else incoming_type m.type d m
