-- ===== src/Ws/Tests.antt =====
-- A client and a server over one stream, and the transport's theorems at them.
use gstreamer_web_rtc.Prelude.{
  ℕ, ◌≡◌, refl, inl, true, false, none, some, List, [], ◌∷◌, ◌++◌, arith,
}
use gstreamer_web_rtc.Transport.{connected, disconnected, failed, string}
use gstreamer_web_rtc.Ws.Framing.{
  Frame, Key, send_frame, read_frame, read_length, read_key, read_payload, continuation, text_frame,
  ping, close_frame,
}
use gstreamer_web_rtc.Ws.Framing.RoundTrip.{IsKey}
use gstreamer_web_rtc.Ws.{
  Handshake, WsTransport, message, message_type, complete, send, close, idle, recv_frame, incoming,
  connected_incoming, drain,
}
use gstreamer_web_rtc.Ws.Stream.{incoming_chunks}
use gstreamer_web_rtc.Ws.Messages.{incoming-send, sent_type}
use gstreamer_web_rtc.Ws.Fragments.{
  last, control, recv_all, iterate_idle, recv_fragments, close_once, recv_close, idle_limit,
}

-- A handshake of one byte on each side.
abbrev one_byte : Handshake
one_byte = record {
  http_request = 1 ∷ [];
  parse_request = λ b. complete 1;
  parse_response = λ b. complete 1;
  http_response = λ b. 2 ∷ [];
  http_error = λ code. [];
}

abbrev key : Key
key = record { k0 = 0x37; k1 = 0xfa; k2 = 0x21; k3 = 0x3d }

key-IsKey : IsKey key
key-IsKey = omega arith

abbrev client : WsTransport
client = record {
  is_client = true;
  max_outstanding_pings = 2;
  keys = λ n. key;
  drawn = 0;
  state = connected;
  buffer = [];
  partial = [];
  partial_opcode = 2;
  outstanding_pings = 0;
  close_sent = false;
  sent = [];
  received = [];
}

abbrev server : WsTransport
server = record client { is_client = false }

abbrev payload : List ℕ
payload = 0x48 ∷ 0x69 ∷ []

incoming-send_example :
    (bytes : List ℕ) × ((send client string payload).0.sent ≡ client.sent ++ bytes ∷ [])
    × ((incoming one_byte server (some bytes)).received
        ≡ server.received ++ message (sent_type string) payload ∷ [])
    × ((incoming one_byte server (some bytes)).state ≡ connected)
    × ((incoming one_byte server (some bytes)).buffer ≡ [])
    × ((incoming one_byte server (some bytes)).partial ≡ [])
incoming-send_example =
    incoming-send one_byte client server string payload refl refl refl refl key-IsKey (omega arith)
      (omega arith)

-- The first two bytes of a frame that has two more.
first_part : (incoming one_byte client (some (0x82 ∷ 0x02 ∷ []))).state ≡ connected
unfolding incoming connected_incoming drain read_frame read_length read_key read_payload
first_part = refl

incoming_chunks_example :
    incoming one_byte (incoming one_byte client (some (0x82 ∷ 0x02 ∷ []))) (some (7 ∷ 8 ∷ []))
    ≡ incoming one_byte client (some (0x82 ∷ (0x02 ∷ []) ++ 7 ∷ 8 ∷ []))
incoming_chunks_example =
    incoming_chunks one_byte client 0x82 7 (0x02 ∷ []) (8 ∷ []) refl first_part

abbrev fragment : ℕ → Frame
fragment opcode = record { opcode = opcode; payload = 0x48 ∷ []; fin = false; mask = false }

abbrev final : Frame
final = record { opcode = continuation; payload = 0x69 ∷ []; fin = true; mask = false }

recv_fragments_example :
    ((recv_all client (fragment text_frame ∷ fragment ping ∷ final ∷ [])).received
      ≡ client.received ++ message (message_type text_frame) (0x48 ∷ 0x69 ∷ []) ∷ [])
    × ((recv_all client (fragment text_frame ∷ fragment ping ∷ final ∷ [])).partial ≡ [])
recv_fragments_example =
    recv_fragments client (fragment text_frame) (inl refl) refl refl
      (control (fragment ping) (inl refl) (last final refl refl))

close_once_example :
    ((close client).sent
      ≡ client.sent
        ++ send_frame
            (client.keys client.drawn)
            (record { opcode = close_frame; payload = []; fin = true; mask = client.is_client })
          ∷ [])
    × ((close client).state ≡ connected)
    × (close (close client) ≡ close client)
close_once_example = close_once client refl refl

recv_close_example :
    ((recv_frame client (fragment close_frame)).state ≡ disconnected)
    × ((recv_frame client (fragment close_frame)).close_sent ≡ true)
    × ((recv_frame client (fragment close_frame)).sent
        ≡ client.sent
          ++ send_frame
              (client.keys client.drawn)
              (record { opcode = close_frame; payload = []; fin = true; mask = client.is_client })
            ∷ [])
    × (incoming one_byte (recv_frame client (fragment close_frame)) none
        ≡ recv_frame client (fragment close_frame))
    × (send (recv_frame client (fragment close_frame)) string payload
        ≡ (recv_frame client (fragment close_frame), false))
recv_close_example = recv_close one_byte client (fragment close_frame) none string payload refl refl

idle_limit_example :
    ((iterate_idle 2 client).state ≡ connected) × ((idle (iterate_idle 2 client)).state ≡ failed)
idle_limit_example = idle_limit 2 client refl (omega arith) (omega arith)
