-- ===== src/Sctp.antt =====
-- src/impl/sctptransport.cpp: the sending side of the SCTP transport. The library usrsctp and the
-- lower transport are a record of functions on a state of their own, `sock`. A call that throws
-- says so in its result and leaves the state that it has reached. Callbacks are events, and do not
-- call the transport.
pub mod Receive
pub mod Amounts
pub mod Order
pub mod Submission
pub mod Reassembly
pub mod Tests
use gstreamer_web_rtc.Prelude.{
  ℕ, zero, suc, ◌+◌, ◌-◌, ◌%◌, min, Bool, true, false, not, ◌&&◌, ◌||◌, Option, none, some, List,
  [], ◌∷◌, ◌++◌, ltb, ◌==◌, if◌then◌else◌, length,
}
use gstreamer_web_rtc.Prelude.Word.{u16, u64}
use gstreamer_web_rtc.Queue
use gstreamer_web_rtc.Queue.{Queue}
use gstreamer_web_rtc.Transport.{
  State, disconnected, connecting, connected, completed, failed, MessageType, binary, string,
  control, reset,
}
use gstreamer_web_rtc.DataChannel.Open.{
  ReliabilityType, reliable, rexmit, timed, Rexmit, count, millis, Reliability, default_reliability,
}
use gstreamer_web_rtc.DataChannel.{Message}

-- `PayloadId`.
abbrev pub ppid_control : ℕ
ppid_control = 50

abbrev pub ppid_string : ℕ
ppid_string = 51

abbrev pub ppid_binary : ℕ
ppid_binary = 53

abbrev pub ppid_string_empty : ℕ
ppid_string_empty = 56

abbrev pub ppid_binary_empty : ℕ
ppid_binary_empty = 57

-- What `usrsctp_sendv` is given: `sctp_sendv_spa` and the bytes.
pub data Policy : Type 0 where
  no_policy rtx_policy ttl_policy : Policy

pub record Packet : Type 0 where
  pub ppid : ℕ
  pub sid : ℕ
  pub unordered : Bool
  pub policy : Policy
  pub value : ℕ
  pub bytes : List ℕ

pub data SendResult : Type 0 where
  sent would_block send_failed : SendResult

pub data ShutdownResult : Type 0 where
  shut not_connected shutdown_failed : ShutdownResult

-- The notifications of usrsctp that the transport reads; `bad_length` is one whose length is not
-- the size of what came.
pub data Notification : Type 0 where
  bad_length comm_lost sender_dry other_notification : Notification
  comm_up : ℕ → ℕ → Notification
  stream_reset : Bool → List ℕ → Notification

-- usrsctp and the lower transport.
pub record Usrsctp (S : Type 0) : Type 0 where
  pub sendv : S → Packet → S × SendResult
  pub reset_streams : S → ℕ → S
  pub shutdown_write : S → S × ShutdownResult
  pub shutdown_both : S → S
  pub conninput : S → List ℕ → S
  pub lower_send : S → List ℕ → S × Bool
  pub notification : List ℕ → Notification

pub data Event : Type 0 where
  state_event : State → Event
  amount_event : ℕ → ℕ → Event
  message_event : Message → Event
  null_event : Event

-- What the processor is given to run.
pub data Task : Type 0 where
  flush_task do_recv_task do_flush_task : Task

-- `taken` are the messages that were handed to usrsctp. `buffered` is the map of buffered amounts:
-- a stream without an entry has the amount 0, and an entry never has.
pub record Sctp (S : Type 0) : Type 0 where
  pub sock : S
  pub state : State
  pub send_queue : Queue Message
  pub send_shutdown : Bool
  pub buffered : ℕ → ℕ
  pub taken : List Message
  pub events : List Event
  pub tasks : List Task
  pub pending_recv : ℕ
  pub pending_flush : ℕ
  pub negotiated : Option ℕ
  pub written_once : Bool
  pub bytes_sent : ℕ
  pub bytes_received : ℕ
  pub partial_message : List ℕ
  pub partial_notification : List ℕ
  pub partial_string : List ℕ
  pub partial_binary : List ℕ

-- The result of an attempt to send: true, false or an exception.
pub data Attempt : Type 0 where
  yes_sent not_sent throws : Attempt

unfoldable pub same_state : State → State → Bool
same_state disconnected disconnected = true
same_state connecting connecting = true
same_state connected connected = true
same_state completed completed = true
same_state failed failed = true
same_state _ _ = false

unfoldable pub is_connected : State → Bool
is_connected connected = true
is_connected _ = false

-- `message_size_func`.
unfoldable pub message_size : Message → ℕ
message_size m = elim m.type [
  | binary ↦ length m.bytes
  | string ↦ length m.bytes
  | control ↦ 0
  | reset ↦ 0
]

-- `to_uint32` of the number of retransmissions, an `int`, or of the milliseconds, and `std::get`;
-- `none` is an exception.
unfoldable pub pr_parameters : ReliabilityType → Rexmit → Option (Policy × ℕ)
pr_parameters rexmit (count n) = if ltb n 0x80000000 then some (rtx_policy, n) else none
pr_parameters rexmit (millis n) = none
pr_parameters timed (millis n) = if ltb n 0x100000000 then some (ttl_policy, n) else none
pr_parameters timed (count n) = none
pr_parameters reliable limit = some (no_policy, 0)

unfoldable pub ppid_of : MessageType → List ℕ → ℕ
ppid_of string [] = ppid_string_empty
ppid_of string (_ ∷ _) = ppid_string
ppid_of binary [] = ppid_binary_empty
ppid_of binary (_ ∷ _) = ppid_binary
ppid_of _ _ = ppid_control

-- An empty message is sent as one zero byte.
unfoldable pub payload : List ℕ → List ℕ
payload [] = 0 ∷ []
payload (b ∷ bytes) = b ∷ bytes

unfoldable pub reliability_of : Message → Reliability
reliability_of m = elim m.reliability [ none ↦ default_reliability | some r ↦ r ]

unfoldable pub packet_of : Message → Policy → ℕ → Packet
unfolding ppid_of payload reliability_of
packet_of m policy value = record {
  ppid = ppid_of m.type m.bytes;
  sid = u16 m.stream;
  unordered = (reliability_of m).unordered;
  policy = policy;
  value = value;
  bytes = payload m.bytes;
}

module _ {S : Type 0} where
  unfoldable pub change_state : State → Sctp S → Sctp S
  unfolding same_state
  change_state new s =
      if same_state s.state new
      then s
      else record s { state = new; events = s.events ++ state_event new ∷ [] }

  -- `updateBufferedAmount` with a positive and with a negative difference.
  unfoldable pub set_amount : ℕ → ℕ → Sctp S → Sctp S
  set_amount stream amount s = record s {
    buffered = λ i. if i == stream then amount else s.buffered i;
    events = s.events ++ amount_event stream amount ∷ [];
  }

  unfoldable pub add_amount : ℕ → ℕ → Sctp S → Sctp S
  unfolding set_amount
  add_amount stream delta s =
      if delta == 0 then s else set_amount stream (s.buffered stream + delta) s

  unfoldable pub remove_amount : ℕ → ℕ → Sctp S → Sctp S
  unfolding set_amount
  remove_amount stream delta s =
      if delta == 0 then s else set_amount stream (s.buffered stream - delta) s

  -- The end of `trySendMessage`.
  unfoldable pub send_result : SendResult → Message → Sctp S → Sctp S × Attempt
  unfolding message_size
  send_result sent m s = (
    record s { taken = s.taken ++ m ∷ []; bytes_sent = u64 (s.bytes_sent + message_size m) },
    yes_sent,
  )
  send_result would_block m s = (s, not_sent)
  send_result send_failed m s = (s, throws)

module _ {S : Type 0} (u : Usrsctp S) where
  unfoldable pub send_packet : Option (Policy × ℕ) → Message → Sctp S → Sctp S × Attempt
  unfolding packet_of send_result
  send_packet none m s = (s, throws)
  send_packet (some (policy, value)) m s =
      let (sock, result) = u.sendv s.sock (packet_of m policy value) in
      send_result result m (record s { sock = sock })

  -- `sendReset`, which waits a while for the reset to be written.
  unfoldable pub send_reset : Message → Sctp S → Sctp S × Attempt
  send_reset m s = (
    record s { sock = u.reset_streams s.sock (u16 m.stream); taken = s.taken ++ m ∷ [] },
    yes_sent,
  )

  unfoldable pub send_typed : MessageType → Message → Sctp S → Sctp S × Attempt
  unfolding send_reset send_packet pr_parameters reliability_of
  send_typed reset m s = send_reset m s
  send_typed _ m s =
      send_packet (pr_parameters (reliability_of m).type (reliability_of m).limit) m s

  unfoldable pub try_send_message : Message → Sctp S → Sctp S × Attempt
  unfolding send_typed is_connected
  try_send_message m s = if is_connected s.state then send_typed m.type m s else (s, not_sent)

  -- The end of `trySendQueue`, when the queue is empty.
  unfoldable pub shutdown_result : ShutdownResult → Sctp S → Sctp S
  unfolding change_state
  shutdown_result shut s = s
  shutdown_result not_connected s = s
  shutdown_result shutdown_failed s =
      let s' = change_state disconnected s in record s' { events = s'.events ++ null_event ∷ [] }

  unfoldable pub queue_empty : Sctp S → Sctp S × Attempt
  unfolding shutdown_result
  queue_empty s =
      let (sock, result) = u.shutdown_write s.sock in
      (
        if Queue.running s.send_queue || s.send_shutdown
            then s
            else shutdown_result result (record s { send_shutdown = true; sock = sock }),
        yes_sent,
      )

  -- `to_uint16` of the stream throws when it does not fit.
  unfoldable pub pop_sent : Message → Sctp S → Sctp S × Attempt
  unfolding message_size remove_amount
  pop_sent m s =
      let s' = record s { send_queue = (Queue.pop s.send_queue).1 } in
      if ltb m.stream 65536
      then (remove_amount m.stream (message_size m) s', yes_sent)
      else (s', throws)

  -- The loop of `trySendQueue`, once for each message in the queue and once more.
  unfoldable pub send_loop : ℕ → Sctp S → Sctp S × Attempt
  unfolding queue_empty try_send_message pop_sent
  send_loop zero s = (s, throws)
  send_loop (suc rounds) s = elim (Queue.peek s.send_queue) [
    | none ↦ queue_empty s
    | some m ↦
        let (s1, result) = try_send_message m s in
        let (s2, popped) = pop_sent m s1 in
        let rest = send_loop rounds s2 in
        elim result [
          | not_sent ↦ (s1, not_sent)
          | throws ↦ (s1, throws)
          | yes_sent ↦ elim popped [ yes_sent ↦ rest | _ ↦ (s2, throws) ]
        ]
  ]

  unfoldable pub try_send_queue : Sctp S → Sctp S × Attempt
  unfolding send_loop
  try_send_queue s = send_loop (suc (length s.send_queue.queue)) s

  -- The queue has no limit, so that its `push` does not wait.
  unfoldable pub enqueue_message : Message → Sctp S → Sctp S × Attempt
  unfolding message_size add_amount
  enqueue_message m s = elim (Queue.push s.send_queue m) [
    | none ↦ (s, not_sent)
    | some q ↦
        if ltb m.stream 65536
        then (add_amount m.stream (message_size m) (record s { send_queue = q }), not_sent)
        else (record s { send_queue = q }, throws)
  ]

  unfoldable pub send_direct : Message → Sctp S × Attempt → Sctp S × Attempt
  unfolding enqueue_message
  send_direct m (s, yes_sent) = (s, yes_sent)
  send_direct m (s, not_sent) = enqueue_message m s
  send_direct m (s, throws) = (s, throws)

  unfoldable pub send_after : Message → Sctp S × Attempt → Sctp S × Attempt
  unfolding enqueue_message send_direct try_send_message
  send_after m (s, yes_sent) = send_direct m (try_send_message m s)
  send_after m (s, not_sent) = enqueue_message m s
  send_after m (s, throws) = (s, throws)

  -- `send`; a null message sends the queue only.
  unfoldable pub send : Option Message → Sctp S → Sctp S × Attempt
  unfolding try_send_queue send_after is_connected
  send none s = if is_connected s.state then try_send_queue s else (s, not_sent)
  send (some m) s = if is_connected s.state then send_after m (try_send_queue s) else (s, not_sent)

  -- `flush` and `doFlush` catch what is thrown.
  unfoldable pub flush : Sctp S → Sctp S
  unfolding try_send_queue is_connected
  flush s = if is_connected s.state then (try_send_queue s).0 else s

  unfoldable pub do_flush : Sctp S → Sctp S
  unfolding try_send_queue
  do_flush s = (try_send_queue (record s { pending_flush = s.pending_flush - 1 })).0

  -- `to_uint16` of the stream comes first.
  unfoldable pub close_stream : ℕ → Sctp S → Sctp S × Attempt
  close_stream stream s =
      let m : Message = record { type = reset; bytes = []; stream = stream; reliability = none } in
      elim (Queue.push s.send_queue m) [
        | none ↦ (s, not_sent)
        | some q ↦
            if ltb stream 65536
            then (record s { send_queue = q; tasks = s.tasks ++ flush_task ∷ [] }, yes_sent)
            else (s, throws)
      ]

  unfoldable pub close : Sctp S → Sctp S
  unfolding change_state
  close s =
      let s' = record s { send_queue = Queue.stop s.send_queue } in
      elim s.state [
        | connected ↦ record s' { tasks = s.tasks ++ flush_task ∷ [] }
        | connecting ↦ change_state failed (record s' { sock = u.shutdown_both s.sock })
        | _ ↦ s'
      ]

unfoldable pub max_stream : {S : Type 0} → Sctp S → ℕ
max_stream s = elim s.negotiated [ none ↦ 1023 | some n ↦ n - 1 ]
