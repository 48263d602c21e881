-- ===== src/Ws/Messages.antt =====
-- From one side's `send` to the other side's receive callback, and messages sent in fragments.
use gstreamer_web_rtc.Prelude.{
  ℕ, suc, ◌<◌, ◌≡◌, refl, ap, ◌∙◌, true, ◌⊎◌, inl, inr, some, List, [], ◌∷◌, ◌++◌, length,
  append-nil, All, arith,
}
use gstreamer_web_rtc.Prelude.Word.{IsByte}
use gstreamer_web_rtc.Transport.{connected, MessageType, string, binary}
use gstreamer_web_rtc.Ws.Framing.{Frame, send_frame, read_frame, text_frame, binary_frame}
use gstreamer_web_rtc.Ws.Framing.RoundTrip.{
  IsKey, IsFrame, read_frame-send_frame, read_frame_empty, send_frame_cons,
}
use gstreamer_web_rtc.Ws.{
  Handshake, WsTransport, message, message_type, deliver, transmit, send, recv_frame, drain,
  incoming,
}
use gstreamer_web_rtc.Ws.Stream.{incoming_connected, drain_step, drain_stops}

-- All that is not text is sent in a binary frame.
abbrev pub sent_type : MessageType → MessageType
sent_type string = string
sent_type _ = binary

abbrev data_frame : WsTransport → MessageType → List ℕ → Frame
data_frame s type payload = record {
  opcode = elim type [ string ↦ text_frame | _ ↦ binary_frame ];
  payload = payload;
  fin = true;
  mask = s.is_client;
}

send_bytes :
    (s : WsTransport) (type : MessageType) (payload : List ℕ)
    → s.state ≡ connected
    → (send s type payload).0.sent
      ≡ s.sent ++ send_frame (s.keys s.drawn) (data_frame s type payload) ∷ []
unfolding send transmit
send_bytes s string payload e = rw e
send_bytes s _ payload e = rw e

abbrev delivered : WsTransport → ℕ → List ℕ → WsTransport
delivered r opcode payload = record (deliver r (message_type opcode) payload) {
  partial_opcode = opcode;
}

recv_whole :
    (r : WsTransport) (f : Frame)
    → (f.opcode ≡ text_frame) ⊎ (f.opcode ≡ binary_frame)
    → f.fin ≡ true
    → r.partial ≡ []
    → recv_frame r f ≡ delivered r f.opcode f.payload
unfolding recv_frame
recv_whole r f o e p = ground arith

data_frame-IsFrame :
    (s : WsTransport) (type : MessageType) (payload : List ℕ)
    → All IsByte payload
    → length payload < 18446744073709551616
    → IsFrame (data_frame s type payload)
data_frame-IsFrame s string payload h k = record { opcode = omega arith; bytes = h; length = k }
data_frame-IsFrame s _ payload h k = record { opcode = omega arith; bytes = h; length = k }

data_opcode :
    (s : WsTransport) (type : MessageType) (payload : List ℕ)
    → ((data_frame s type payload).opcode ≡ text_frame)
      ⊎ ((data_frame s type payload).opcode ≡ binary_frame)
data_opcode s string payload = inl refl
data_opcode s _ payload = inr refl

received_type :
    (s r : WsTransport) (type : MessageType) (payload : List ℕ)
    → r.received ++ message (message_type (data_frame s type payload).opcode) payload ∷ []
      ≡ r.received ++ message (sent_type type) payload ∷ []
received_type s r string payload = refl
received_type s r _ payload = refl

drain_one :
    (t : WsTransport) (n : ℕ) (f : Frame)
    → read_frame t.buffer ≡ some (f, [])
    → drain (suc n) t ≡ record (recv_frame t f) { buffer = [] }
drain_one t n f e =
    drain_step n t f [] e ∙ drain_stops n (record (recv_frame t f) { buffer = [] }) read_frame_empty

incoming_one :
    (h : Handshake) (r : WsTransport) (f : Frame) (bytes : List ℕ) (x : ℕ) (xs : List ℕ)
    → bytes ≡ x ∷ xs
    → r.state ≡ connected
    → r.buffer ≡ []
    → read_frame bytes ≡ some (f, [])
    → incoming h r (some bytes)
      ≡ record (recv_frame (record r { buffer = bytes }) f) { buffer = [] }
incoming_one h r f bytes x xs cons er eb read = rw cons (
    incoming_connected h r x xs er
    ∙ rw eb (drain_one (record r { buffer = x ∷ xs }) (length xs) f (rw cons at read)))

-- What one side sends, the other side's receive callback is given: the bytes that `send` hands to
-- the lower transport of a connected side, when they reach the other side, which is connected and
-- has no bytes and no unfinished message left over, deliver one message with the payload that was
-- sent, as text if it was sent as text, and leave nothing over.
pub incoming-send :
    (h : Handshake) (s r : WsTransport) (type : MessageType) (payload : List ℕ)
    → s.state ≡ connected
    → r.state ≡ connected
    → r.buffer ≡ []
    → r.partial ≡ []
    → IsKey (s.keys s.drawn)
    → All IsByte payload
    → length payload < 18446744073709551616
    → (bytes : List ℕ) × ((send s type payload).0.sent ≡ s.sent ++ bytes ∷ [])
      × ((incoming h r (some bytes)).received ≡ r.received ++ message (sent_type type) payload ∷ [])
      × ((incoming h r (some bytes)).state ≡ connected)
      × ((incoming h r (some bytes)).buffer ≡ [])
      × ((incoming h r (some bytes)).partial ≡ [])
incoming-send h s r type payload es er eb ep k hp hn =
    let f = data_frame s type payload in
    let bytes = send_frame (s.keys s.drawn) f in
    let (x, xs, cons) = send_frame_cons (s.keys s.drawn) f in
    let read : read_frame bytes ≡ some (f, []) =
      rw append-nil at
        (read_frame-send_frame (s.keys s.drawn) f [] k (data_frame-IsFrame s type payload hp hn)) in
    let result =
      incoming_one h r f bytes x xs cons er eb read
      ∙ ap (λ (t : WsTransport). record t { buffer = [] })
          (recv_whole (record r { buffer = bytes }) f (data_opcode s type payload) refl ep) in
    (
      bytes,
      send_bytes s type payload es,
      rw result (received_type s r type payload),
      rw result er,
      rw result refl,
      rw result ep,
    )
