-- ===== src/Sctp/Tests.antt =====
-- A transport over a usrsctp that takes three packets and then has no room.
use gstreamer_web_rtc.Prelude.{
  ℕ, zero, suc, ◌+◌, ◌≡◌, refl, true, false, none, some, List, [], ◌∷◌, ◌++◌, All, arith,
}
use gstreamer_web_rtc.Queue
use gstreamer_web_rtc.Transport.{connected, string}
use gstreamer_web_rtc.DataChannel.{Message}
use gstreamer_web_rtc.Sctp.{
  Usrsctp, sent, would_block, shut, other_notification, Sctp, no_policy, packet_of, message_size,
  not_sent, try_send_message, close, send,
}
use gstreamer_web_rtc.Sctp.Amounts.{queued, Inv}
use gstreamer_web_rtc.Sctp.Submission.{
  Call, sends, flushes, closes_stream, Fits, calls, calls-Inv, send_after_stop,
}
use gstreamer_web_rtc.Sctp.Receive.{chunk, nothing_yet, is_down, do_recv}
use gstreamer_web_rtc.Sctp.Reassembly.{Delivered, do_recv-packet}

abbrev limited : Usrsctp ℕ
limited = record {
  sendv = λ room p. elim room [ zero ↦ (0, would_block) | suc left ↦ (left, sent) ];
  reset_streams = λ room stream. room;
  shutdown_write = λ room. (room, shut);
  shutdown_both = λ room. room;
  conninput = λ room bytes. room;
  lower_send = λ room bytes. (room, true);
  notification = λ bytes. other_notification;
}

abbrev started : ℕ → Sctp ℕ
started room = record {
  sock = room;
  state = connected;
  send_queue = Queue.new 0 message_size;
  send_shutdown = false;
  buffered = λ i. 0;
  taken = [];
  events = [];
  tasks = [];
  pending_recv = 0;
  pending_flush = 0;
  negotiated = none;
  written_once = true;
  bytes_sent = 0;
  bytes_received = 0;
  partial_message = [];
  partial_notification = [];
  partial_string = [];
  partial_binary = [];
}

abbrev text : Message
text = record { type = string; bytes = 0x68 ∷ 0x69 ∷ []; stream = 4; reliability = none }

started-Inv : Inv [] (started 1)
unfolding Queue.new queued
started-Inv = record {
  order = refl;
  unlimited = refl;
  live = refl;
  streams = tt;
  amounts = λ i. refl;
}

abbrev two_sends : List Call
two_sends = sends text ∷ sends text ∷ closes_stream 4 ∷ flushes ∷ []

two_sends-Fits : All Fits two_sends
two_sends-Fits = (omega arith, (omega arith, (omega arith, (tt, tt))))

calls-Inv_example :
    Inv ([] ++ (calls limited two_sends (started 1)).1) (calls limited two_sends (started 1)).0
calls-Inv_example = calls-Inv limited [] two_sends (started 1) two_sends-Fits started-Inv

text_packet : (0x68 ∷ 0x69 ∷ []) ≡ (packet_of text no_policy 0).bytes
unfolding packet_of
text_packet = refl

started_up : is_down (started 0).state ≡ false
unfolding is_down
started_up = refl

do_recv-packet_example : Delivered string (0x68 ∷ 0x69 ∷ []) 4 (started 0) (
    do_recv limited
      (chunk false none (0x68 ∷ []) ∷ chunk true (some (4, 51)) (0x69 ∷ []) ∷ nothing_yet ∷ [])
      (started 0))
unfolding packet_of
do_recv-packet_example =
    do_recv-packet limited text no_policy 0 none ((0x68 ∷ []) ∷ []) (0x69 ∷ []) (started 0) tt
      (omega arith) text_packet started_up refl refl refl

-- A message is in the queue and usrsctp takes none.
abbrev waiting : Sctp ℕ
waiting = record (started 0) {
  send_queue = record {
    limit = 0;
    amount = 2;
    queue = text ∷ [];
    amount_function = message_size;
    stopping = false;
  };
}

waiting_blocked :
    try_send_message limited text (close limited waiting) ≡ (close limited waiting, not_sent)
unfolding try_send_message close
waiting_blocked = refl

send_after_stop_example :
    ((send limited (some text) (close limited waiting)).1 ≡ not_sent)
    × ((send limited (some text) (close limited waiting)).0.send_queue.queue ≡ text ∷ [])
    × ((send limited (some text) (close limited waiting)).0.buffered 4 ≡ 0 + message_size text)
send_after_stop_example =
    send_after_stop limited text text [] waiting (close limited waiting) (omega arith) refl refl
      waiting_blocked
