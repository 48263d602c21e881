-- ===== src/DataChannel/Tests.antt =====
-- Two channels of one stream, and the theorems at them.
use gstreamer_web_rtc.Prelude.{
  ◌≤◌, ◌≡◌, refl, ◌&&◌, true, false, none, some, List, [], ◌∷◌, ◌++◌, if◌then◌else◌, length, arith,
}
use gstreamer_web_rtc.Queue
use gstreamer_web_rtc.DataChannel.Open.{rexmit, count, default_reliability, open_message}
use gstreamer_web_rtc.DataChannel.{
  DataChannel, Message, outgoing_class, incoming_class, open_channel, incoming,
}
use gstreamer_web_rtc.DataChannel.Parsing.{retransmissions}
use gstreamer_web_rtc.DataChannel.Handshake.{ack, establishment}
use gstreamer_web_rtc.DataChannel.Counts.{opens_in, closes_in}
use gstreamer_web_rtc.DataChannel.Lifecycle.{
  Action, opens, closes, remote_closes, arrives, run, opens_and_closes_once,
}

abbrev made_here : DataChannel
made_here = record {
  class = outgoing_class;
  transport = false;
  max_message_size = 65536;
  stream = some 2;
  label = 0x63 ∷ 0x68 ∷ [];
  protocol = 0x70 ∷ [];
  reliability = record { type = rexmit; unordered = true; limit = count 3 };
  is_open = false;
  is_closed = false;
  recv_queue = Queue.new 1048576 (λ m. length m.bytes);
  open_triggered = false;
  message_callback = true;
  events = [];
  sent = [];
  closed_streams = [];
}

abbrev made_there : DataChannel
made_there = record made_here {
  class = incoming_class;
  transport = true;
  label = [];
  protocol = [];
  reliability = default_reliability;
}

establishment_example :
    (m : Message) × (o' : DataChannel) × (i' : DataChannel) × (o'' : DataChannel) × (open_channel
        made_here
      ≡ (o', none))
    × (o'.sent ≡ made_here.sent ++ m ∷ [])
    × (incoming made_there m ≡ some (i', none))
    × (i'.label ≡ made_here.label)
    × (i'.protocol ≡ made_here.protocol)
    × (i'.reliability ≡ made_here.reliability)
    × (i'.is_open ≡ true)
    × (i'.sent ≡ made_there.sent ++ ack 2 ∷ [])
    × (incoming o' (ack 2) ≡ some (o'', none))
    × (o''.is_open ≡ true)
establishment_example =
    establishment made_here made_there 2 2 refl refl refl
      (retransmissions 3 refl refl (omega arith)) (omega arith) (omega arith) refl refl refl refl

-- The bytes of the open message, unordered with three retransmissions.
open_bytes :
    open_message 0x81 3 made_here.label made_here.protocol
    ≡ 3 ∷ 0x81 ∷ 0 ∷ 0 ∷ 0 ∷ 0 ∷ 0 ∷ 3 ∷ 0 ∷ 2 ∷ 0 ∷ 1 ∷ 0x63 ∷ 0x68 ∷ 0x70 ∷ []
unfolding open_message
open_bytes = refl

abbrev history : List Action
history = opens ∷ arrives (ack 2) ∷ arrives (ack 2) ∷ remote_closes ∷ closes ∷ []

opens_and_closes_once_example :
    (opens_in (run made_here history).events ≤ 1)
    × (closes_in (run made_here history).events
        ≡ (if (run made_here history).is_closed then 1 else 0))
    × (((run made_here history).is_open && (run made_here history).is_closed) ≡ false)
    × ((run made_here history).is_open ≡ true → opens_in (run made_here history).events ≡ 1)
opens_and_closes_once_example = opens_and_closes_once made_here history refl refl refl
