-- ===== src/Ws/Opening.antt =====
-- The end of the handshake of src/impl/wstransport.cpp, for any handshake.
use gstreamer_web_rtc.Prelude.{
  ℕ, ◌≡◌, ◌≢◌, refl, true, false, some, List, [], ◌∷◌, ◌++◌, length, drop, drop-append_length,
}
use gstreamer_web_rtc.Transport.{connected, connecting}
use gstreamer_web_rtc.Ws.{
  Handshake, WsTransport, complete, opened, start, incoming, after_request, after_response,
  connected_incoming, drain,
}

connected_incoming-bytes :
    (t : WsTransport) (bytes : List ℕ)
    → bytes ≢ []
    → connected_incoming t bytes ≡ drain (length t.buffer) t
unfolding connected_incoming
connected_incoming-bytes t [] ne = absurd (ne refl)
connected_incoming-bytes t (x ∷ xs) ne = refl

-- The bytes of the handshake are dropped from the buffer.
opened-drain :
    (t : WsTransport) (text rest : List ℕ)
    → text ++ rest ≢ []
    → connected_incoming
        (record t { state = connected; buffer = drop (length text) (text ++ rest) })
        (text ++ rest)
      ≡ drain (length rest) (record t { state = connected; buffer = rest })
opened-drain t text rest ne =
    rw (drop-append_length text rest)
      (connected_incoming-bytes (record t { state = connected; buffer = rest }) (text ++ rest) ne)

-- A server that waits for a request, and a client that waits for a response.
pub server-opens :
    (h : Handshake) (t : WsTransport) (text rest : List ℕ)
    → text ++ rest ≢ []
    → h.parse_request (text ++ rest) ≡ complete (length text)
    → incoming h
        (record t { is_client = false; state = connecting; buffer = [] })
        (some (text ++ rest))
      ≡ drain (length rest) (record t {
        is_client = false;
        state = connected;
        buffer = rest;
        sent = t.sent ++ h.http_response (text ++ rest) ∷ [];
      })
unfolding incoming after_request opened
server-opens h t text rest ne p = rw p (
    opened-drain
      (record t { is_client = false; sent = t.sent ++ h.http_response (text ++ rest) ∷ [] }) text
      rest ne)

pub client-opens :
    (h : Handshake) (t : WsTransport) (text rest : List ℕ)
    → text ++ rest ≢ []
    → h.parse_response (text ++ rest) ≡ complete (length text)
    → incoming h
        (record t { is_client = true; state = connecting; buffer = [] })
        (some (text ++ rest))
      ≡ drain (length rest) (record t { is_client = true; state = connected; buffer = rest })
unfolding incoming after_response opened
client-opens h t text rest ne p = rw p (opened-drain (record t { is_client = true }) text rest ne)

-- A client that starts has sent the request, and a server nothing.
pub start-client :
    (h : Handshake) (t : WsTransport)
    → start h (record t { is_client = true })
      ≡ record t { is_client = true; state = connecting; sent = t.sent ++ h.http_request ∷ [] }
unfolding start
start-client h t = refl

pub start-server :
    (h : Handshake) (t : WsTransport)
    → start h (record t { is_client = false }) ≡ record t { is_client = false; state = connecting }
unfolding start
start-server h t = refl
