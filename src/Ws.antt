-- ===== src/Ws.antt =====
-- src/impl/wstransport.cpp: the WebSocket transport over a stream of bytes.
-- The lower transport takes all that is sent and does not throw. The handshake is an interface,
-- and the masking keys are drawn from a given sequence. The timer that `close` sets is the call
-- `close_timeout` here.
pub mod Framing
pub mod Stream
pub mod Messages
pub mod Fragments
pub mod Opening
pub mod Tests
use gstreamer_web_rtc.Prelude.{
  ℕ, zero, suc, ◌+◌, ◌<◌, Bool, true, false, not, ◌&&◌, ◌||◌, Option, none, some, List, [], ◌∷◌,
  ◌++◌, ltb, leb, ◌==◌, if◌then◌else◌, length, drop,
}
use gstreamer_web_rtc.Transport.{
  State, disconnected, connecting, connected, completed, failed, MessageType, binary, string,
}
use Framing.{Frame, Key, send_frame, read_frame}
use Framing.{continuation, text_frame, binary_frame, close_frame, ping, pong}

-- What `parseHttpRequest` and `parseHttpResponse` make of a buffer: they may need more bytes,
-- return the length of the request or the response, or throw.
pub data Parsed : Type 0 where
  incomplete : Parsed
  complete : ℕ → Parsed
  request_error : ℕ → Parsed
  error : Parsed

-- `WsHandshake` as the transport sees it. The answer depends on the request in the buffer.
pub record Handshake : Type 0 where
  pub http_request : List ℕ
  pub parse_request : List ℕ → Parsed
  pub parse_response : List ℕ → Parsed
  pub http_response : List ℕ → List ℕ
  pub http_error : ℕ → List ℕ

-- What the receive callback is given; `closed` is the null message.
pub data Received : Type 0 where
  message : MessageType → List ℕ → Received
  closed : Received

pub record WsTransport : Type 0 where
  pub is_client : Bool
  pub max_outstanding_pings : ℕ
  pub keys : ℕ → Key
  pub drawn : ℕ
  pub state : State
  pub buffer : List ℕ
  pub partial : List ℕ
  pub partial_opcode : ℕ
  pub outstanding_pings : ℕ
  pub close_sent : Bool
  pub sent : List (List ℕ)
  pub received : List Received

abbrev pub is_connected : State → Bool
is_connected connected = true
is_connected _ = false

abbrev pub is_connecting : State → Bool
is_connecting connecting = true
is_connecting _ = false

abbrev is_empty : List ℕ → Bool
is_empty [] = true
is_empty (x ∷ xs) = false

-- `outgoing`, and `sendFrame` with the mask flag of this side.
abbrev outgoing : WsTransport → List ℕ → WsTransport
outgoing t bytes = record t { sent = t.sent ++ bytes ∷ [] }

unfoldable pub transmit : WsTransport → ℕ → List ℕ → WsTransport
transmit t opcode payload = record t {
  sent =
      t.sent
      ++ send_frame (t.keys t.drawn)
          (record { opcode = opcode; payload = payload; fin = true; mask = t.is_client })
        ∷ [];
  drawn = if t.is_client then t.drawn + 1 else t.drawn;
}

abbrev pub deliver : WsTransport → MessageType → List ℕ → WsTransport
deliver t type payload = record t { received = t.received ++ message type payload ∷ [] }

abbrev pub message_type : ℕ → MessageType
message_type opcode = if opcode == text_frame then string else binary

pub start : Handshake → WsTransport → WsTransport
start h t =
    let t1 = record t { state = connecting } in
    if t.is_client then outgoing t1 h.http_request else t1

-- `send` answers whether the message was taken; `none` is a null message.
pub send : WsTransport → MessageType → List ℕ → WsTransport × Bool
send t type payload =
    if is_connected t.state then (transmit t (opcode_of type) payload, true) else (t, false)
  where
    opcode_of : MessageType → ℕ
    opcode_of string = text_frame
    opcode_of _ = binary_frame

pub close : WsTransport → WsTransport
close t =
    if is_connected t.state
    then (if t.close_sent then t else transmit (record t { close_sent = true }) close_frame [])
    else t

pub close_timeout : WsTransport → WsTransport
close_timeout t = record t { state = disconnected }

-- The cases of `recvFrame`.
flush_partial : WsTransport → WsTransport
flush_partial t =
    if is_empty t.partial
    then t
    else (record (deliver t (message_type t.partial_opcode) t.partial) { partial = [] })

begin_message : WsTransport → Frame → WsTransport
begin_message t f =
    let t1 = record t { partial_opcode = f.opcode } in
    if f.fin
    then deliver t1 (message_type f.opcode) f.payload
    else (record t1 { partial = t1.partial ++ f.payload })

recv_data : WsTransport → Frame → WsTransport
unfolding flush_partial begin_message
recv_data t f = begin_message (flush_partial t) f

recv_continuation : WsTransport → Frame → WsTransport
recv_continuation t f =
    let all = t.partial ++ f.payload in
    if f.fin
    then (record (deliver t (message_type t.partial_opcode) all) { partial = [] })
    else (record t { partial = all })

-- The cases of the switch over the opcode.
pub data FrameKind : Type 0 where
  data_kind continuation_kind ping_kind pong_kind close_kind unknown_kind : FrameKind

abbrev pub frame_kind : ℕ → FrameKind
frame_kind opcode =
    if opcode == text_frame || opcode == binary_frame
    then data_kind
    else if opcode == continuation
    then continuation_kind
    else if opcode == ping
    then ping_kind
    else if opcode == pong
    then pong_kind
    else if opcode == close_frame
    then close_kind
    else unknown_kind

dispatch : FrameKind → WsTransport → Frame → WsTransport
unfolding recv_data recv_continuation close
dispatch data_kind t f = recv_data t f
dispatch continuation_kind t f = recv_continuation t f
dispatch ping_kind t f = transmit t pong f.payload
dispatch pong_kind t f = record t { outstanding_pings = 0 }
dispatch close_kind t f = record (close t) { state = disconnected }
dispatch unknown_kind t f = close t

pub recv_frame : WsTransport → Frame → WsTransport
unfolding dispatch
recv_frame t f = dispatch (frame_kind f.opcode) t f

-- The loop over the frames in the buffer. A frame takes two bytes at least, so its length is more
-- rounds than are needed.
pub drain : ℕ → WsTransport → WsTransport
drain zero t = t
drain (suc n) t = elim (read_frame t.buffer) [
  | none ↦ t
  | some (f, rest) ↦ drain n (record (recv_frame t f) { buffer = rest })
]

-- TCP is idle: a ping with four zero bytes.
pub idle : WsTransport → WsTransport
idle t =
    let t1 = transmit t ping (0 ∷ 0 ∷ 0 ∷ 0 ∷ []) in
    let n = t.outstanding_pings + 1 in
    let t2 = record t1 { outstanding_pings = n } in
    if ltb 0 t.max_outstanding_pings && ltb t.max_outstanding_pings n
    then (record t2 { state = failed })
    else t2

-- The end of `incoming`, after a null message or an exception.
pub lost : WsTransport → WsTransport
lost t =
    if is_connected t.state
    then (record t { state = disconnected; received = t.received ++ closed ∷ [] })
    else (record t { state = failed })

opened : WsTransport → ℕ → WsTransport
opened t n = record t { state = connected; buffer = drop n t.buffer }

-- What is done with the bytes of a message once the connection is open.
pub connected_incoming : WsTransport → List ℕ → WsTransport
unfolding idle
connected_incoming t [] = idle t
connected_incoming t (x ∷ xs) = drain (length t.buffer) t

after_response : Parsed → WsTransport → List ℕ → WsTransport
unfolding lost opened
after_response incomplete t bytes = t
after_response (complete n) t bytes = connected_incoming (opened t n) bytes
after_response (request_error code) t bytes = lost t
after_response error t bytes = lost t

after_request : Handshake → Parsed → WsTransport → List ℕ → WsTransport
unfolding lost opened
after_request h incomplete t bytes = t
after_request h (complete n) t bytes =
    connected_incoming (opened (outgoing t (h.http_response t.buffer)) n) bytes
after_request h (request_error code) t bytes = lost (outgoing t (h.http_error code))
after_request h error t bytes = lost t

pub incoming : Handshake → WsTransport → Option (List ℕ) → WsTransport
unfolding after_response after_request lost
incoming h t none = if is_connecting t.state || is_connected t.state then lost t else t
incoming h t (some bytes) =
    let t1 = record t { buffer = t.buffer ++ bytes } in
    if is_connected t.state
    then connected_incoming t1 bytes
    else if is_connecting t.state
    then (if t.is_client
        then after_response (h.parse_response t1.buffer) t1 bytes
        else after_request h (h.parse_request t1.buffer) t1 bytes)
    else t
