-- ===== src/Sctp/Receive.antt =====
-- src/impl/sctptransport.cpp: the receiving side of the SCTP transport.
use gstreamer_web_rtc.Prelude.{
  ℕ, ◌+◌, ◌-◌, min, Bool, true, false, not, ◌||◌, Option, none, some, List, [], ◌∷◌, ◌++◌, ltb,
  ◌==◌, if◌then◌else◌, length,
}
use gstreamer_web_rtc.Prelude.Word.{u64}
use gstreamer_web_rtc.Transport.{
  State, disconnected, connected, failed, MessageType, binary, string, control, reset,
}
use gstreamer_web_rtc.Sctp.{
  Usrsctp, Sctp, message_event, null_event, do_recv_task, do_flush_task, Notification, bad_length,
  comm_up, comm_lost, sender_dry, stream_reset, other_notification, change_state, is_connected,
  flush, ppid_control, ppid_string, ppid_binary, ppid_string_empty, ppid_binary_empty,
}

abbrev pub ppid_binary_partial : ℕ
ppid_binary_partial = 52

abbrev pub ppid_string_partial : ℕ
ppid_string_partial = 54

-- The cases of the switch over the payload identifier.
pub data PayloadKind : Type 0 where
  control_kind string_partial_kind string_kind string_empty_kind : PayloadKind
  binary_partial_kind binary_kind binary_empty_kind unknown_kind : PayloadKind

unfoldable pub payload_kind : ℕ → PayloadKind
payload_kind ppid =
    if ppid == ppid_control
    then control_kind
    else if ppid == ppid_string_partial
    then string_partial_kind
    else if ppid == ppid_string
    then string_kind
    else if ppid == ppid_string_empty
    then string_empty_kind
    else if ppid == ppid_binary_partial
    then binary_partial_kind
    else if ppid == ppid_binary
    then binary_kind
    else if ppid == ppid_binary_empty
    then binary_empty_kind
    else unknown_kind

-- One answer of `usrsctp_recvv`: nothing for now (also a reset connection), an error, the end, or
-- bytes, with the flags MSG_NOTIFICATION and MSG_EOR and the receive information, stream and payload
-- identifier, if there is one.
pub data Received : Type 0 where
  nothing_yet recv_error end_of_file : Received
  notified : Bool → List ℕ → Received
  chunk : Bool → Option (ℕ × ℕ) → List ℕ → Received

unfoldable pub is_down : State → Bool
is_down disconnected = true
is_down failed = true
is_down _ = false

unfoldable pub is_failed : State → Bool
is_failed failed = true
is_failed _ = false

module _ {S : Type 0} where
  unfoldable pub recv : MessageType → List ℕ → ℕ → Sctp S → Sctp S
  recv type bytes sid s = record s {
    events =
        s.events
        ++ message_event (record { type = type; bytes = bytes; stream = sid; reliability = none })
          ∷ [];
  }

  unfoldable pub recv_null : Sctp S → Sctp S
  recv_null s = record s { events = s.events ++ null_event ∷ [] }

  unfoldable pub count_received : ℕ → Sctp S → Sctp S
  count_received n s = record s { bytes_received = u64 (s.bytes_received + n) }

  -- Without partial data, `insert` at the end gives the data itself.
  unfoldable pub process_kind : PayloadKind → List ℕ → ℕ → Sctp S → Sctp S
  unfolding recv count_received
  process_kind control_kind bytes sid s = recv control bytes sid s
  process_kind string_partial_kind bytes sid s = record s {
    partial_string = s.partial_string ++ bytes;
  }
  process_kind string_kind bytes sid s =
      let all = s.partial_string ++ bytes in
      record (recv string all sid (count_received (length all) s)) { partial_string = [] }
  process_kind string_empty_kind bytes sid s = record (recv string s.partial_string sid s) {
    partial_string = [];
  }
  process_kind binary_partial_kind bytes sid s = record s {
    partial_binary = s.partial_binary ++ bytes;
  }
  process_kind binary_kind bytes sid s =
      let all = s.partial_binary ++ bytes in
      record (recv binary all sid (count_received (length all) s)) { partial_binary = [] }
  process_kind binary_empty_kind bytes sid s = record (recv binary s.partial_binary sid s) {
    partial_binary = [];
  }
  process_kind unknown_kind bytes sid s = s

  unfoldable pub process_data : List ℕ → ℕ → ℕ → Sctp S → Sctp S
  unfolding process_kind payload_kind
  process_data bytes sid ppid s = process_kind (payload_kind ppid) bytes sid s

  unfoldable pub resets : List ℕ → Sctp S → Sctp S
  unfolding recv
  resets [] s = s
  resets (stream ∷ streams) s = resets streams (recv reset [] stream s)

module _ {S : Type 0} (u : Usrsctp S) where
  unfoldable pub process_read : Notification → Sctp S → Sctp S
  unfolding change_state recv_null resets flush is_connected
  process_read bad_length s = s
  process_read (comm_up inbound outbound) s =
      change_state connected (record s { negotiated = some (min inbound outbound) })
  process_read comm_lost s =
      if is_connected s.state
      then recv_null (change_state disconnected s)
      else change_state failed s
  process_read sender_dry s = flush u s
  process_read (stream_reset true streams) s = resets streams s
  process_read (stream_reset false streams) s = s
  process_read other_notification s = s

  unfoldable pub process_notification : List ℕ → Sctp S → Sctp S
  unfolding process_read
  process_notification bytes s = process_read (u.notification bytes) s

  unfoldable pub received_chunk : Bool → Option (ℕ × ℕ) → List ℕ → Sctp S → Sctp S × Bool
  unfolding process_data
  received_chunk false info bytes s =
      (record s { partial_message = s.partial_message ++ bytes }, true)
  received_chunk true none bytes s =
      (record s { partial_message = s.partial_message ++ bytes }, false)
  received_chunk true (some (sid, ppid)) bytes s =
      (record (process_data (s.partial_message ++ bytes) sid ppid s) { partial_message = [] }, true)

  unfoldable pub received_notification : Bool → List ℕ → Sctp S → Sctp S
  unfolding process_notification
  received_notification false bytes s = record s {
    partial_notification = s.partial_notification ++ bytes;
  }
  received_notification true bytes s =
      record (process_notification (s.partial_notification ++ bytes) s) {
        partial_notification = [];
      }

  -- The result says whether the loop goes on.
  unfoldable pub receive_one : Received → Sctp S → Sctp S × Bool
  unfolding received_chunk received_notification
  receive_one nothing_yet s = (s, false)
  receive_one recv_error s = (s, false)
  receive_one end_of_file s = (s, false)
  receive_one (notified eor bytes) s = (received_notification eor bytes s, true)
  receive_one (chunk eor info bytes) s = received_chunk eor info bytes s

  -- The loop of `doRecv`, over the answers of usrsctp; the last one is no data.
  unfoldable pub recv_loop : List Received → Sctp S → Sctp S
  unfolding receive_one is_down
  recv_loop [] s = s
  recv_loop (r ∷ rs) s =
      let (s1, more) = receive_one r s in
      let rest = recv_loop rs s1 in if is_down s.state then s else if more then rest else s1

  unfoldable pub do_recv : List Received → Sctp S → Sctp S
  unfolding recv_loop
  do_recv answers s = recv_loop answers (record s { pending_recv = s.pending_recv - 1 })

  -- `incoming` waits (`none`) until the transport has written once or has failed.
  unfoldable pub incoming : Option (List ℕ) → Sctp S → Option (Sctp S)
  unfolding change_state recv_null is_failed
  incoming message s =
      let failed_now = is_failed s.state in
      if not (s.written_once || failed_now)
      then none
      else if failed_now
      then some s
      else elim message [
        | none ↦ some (recv_null (change_state disconnected s))
        | some bytes ↦ some (record s { sock = u.conninput s.sock bytes })
      ]

  -- `handleWrite`; the result is 0 or -1.
  unfoldable pub handle_write : List ℕ → Sctp S → Sctp S × Bool
  handle_write bytes s =
      let (sock, ok_) = u.lower_send s.sock bytes in
      if ok_
      then (record s { sock = sock; written_once = true }, true)
      else (record s { sock = sock }, false)

module _ {S : Type 0} where
  unfoldable pub enqueue_recv : Sctp S → Sctp S
  enqueue_recv s =
      if ltb 0 s.pending_recv
      then s
      else record s { pending_recv = s.pending_recv + 1; tasks = s.tasks ++ do_recv_task ∷ [] }

  unfoldable pub enqueue_flush : Sctp S → Sctp S
  enqueue_flush s =
      if ltb 0 s.pending_flush
      then s
      else record s { pending_flush = s.pending_flush + 1; tasks = s.tasks ++ do_flush_task ∷ [] }

  -- `handleUpcall`, for the events that usrsctp gives.
  unfoldable pub handle_upcall : Bool → Bool → Sctp S → Sctp S
  unfolding enqueue_recv enqueue_flush
  handle_upcall readable writable s =
      let s1 = if readable then enqueue_recv s else s in if writable then enqueue_flush s1 else s1
