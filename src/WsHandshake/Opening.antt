-- ===== src/WsHandshake/Opening.antt =====
-- The transports of src/impl/wstransport.cpp with the handshake of src/impl/wshandshake.cpp: a
-- client and a server open their connection.
use gstreamer_web_rtc.Prelude.{
  ℕ, ◌≡◌, ◌≢◌, refl, sym, ap, ◌∙◌, true, false, some, List, [], ◌∷◌, ◌++◌, length,
}
use gstreamer_web_rtc.Transport.{connected}
use gstreamer_web_rtc.Ws.{Parsed, WsTransport, start, incoming, drain}
use gstreamer_web_rtc.Ws.Opening.{server-opens, client-opens, start-client, start-server}
use gstreamer_web_rtc.WsHandshake.{
  WsHandshake, handshake_of, generate_key, request_text, generate_http_request,
  generate_http_response, parse_http_request,
}
use gstreamer_web_rtc.WsHandshake.RoundTrip.{
  Sendable, parse_http_request-generate_http_request, parse_http_response-generate_http_response,
}

generated-key :
    (c : WsHandshake) (bytes : List ℕ) → (generate_http_request c bytes).1.key ≡ generate_key bytes
unfolding generate_http_request
generated-key c bytes = refl

request-nonempty :
    (c : WsHandshake) (bytes more : List ℕ) → (generate_http_request c bytes).0 ++ more ≢ []
unfolding generate_http_request request_text
request-nonempty c bytes more e = cc e

response-nonempty :
    (sha1 : List ℕ → List ℕ) (s : WsHandshake) (after : List ℕ)
    → generate_http_response sha1 s ++ after ≢ []
unfolding generate_http_response
response-nonempty sha1 s after e = cc e

-- A client and a server open a connection over any bytes that follow the handshake on either side.
-- The client has sent the request, the server answers it with a response, and each reads the
-- bytes after its message as frames of an open connection.
pub opening :
    (sha1 : List ℕ → List ℕ) (c s : WsHandshake) (key_bytes unused : List ℕ)
    (client server : WsTransport) (more after : List ℕ)
    → Sendable c
    → (let hc = handshake_of sha1 c key_bytes in
        let hs = handshake_of sha1 s unused in
        let c0 = record client { is_client = true; buffer = [] } in
        let s0 = record server { is_client = false; buffer = [] } in
        let request = hc.http_request in
        let response = generate_http_response sha1 (parse_http_request s (request ++ more)).1 in
        ((start hc c0).sent ≡ client.sent ++ request ∷ [])
        × (incoming hs (start hs s0) (some (request ++ more))
            ≡ drain (length more) (record s0 {
              state = connected;
              buffer = more;
              sent = server.sent ++ response ∷ [];
            }))
        × (incoming hc (start hc c0) (some (response ++ after))
            ≡ drain (length after) (record c0 {
              state = connected;
              buffer = after;
              sent = client.sent ++ request ∷ [];
            })))
unfolding handshake_of
opening sha1 c s key_bytes unused client server more after ok =
    let hc = handshake_of sha1 c key_bytes in
    let hs = handshake_of sha1 s unused in
    let request = hc.http_request in
    let parsed = parse_http_request-generate_http_request s c key_bytes more ok in
    let holder = (parse_http_request s (request ++ more)).1 in
    let response = generate_http_response sha1 holder in
    let key : holder.key ≡ (generate_http_request c key_bytes).1.key =
      ap (λ (r : Parsed × WsHandshake). r.1.key) parsed ∙ sym (generated-key c key_bytes) in
    (
      ap (λ (t : WsTransport). t.sent) (start-client hc (record client { buffer = [] })),
      ap (λ t. incoming hs t (some (request ++ more)))
            (start-server hs (record server { buffer = [] }))
          ∙ server-opens hs server request more (request-nonempty c key_bytes more)
              (ap (λ (r : Parsed × WsHandshake). r.0) parsed),
      ap (λ t. incoming hc t (some (response ++ after)))
            (start-client hc (record client { buffer = [] }))
          ∙ client-opens hc (record client { sent = client.sent ++ request ∷ [] }) response after
              (response-nonempty sha1 holder after)
              (parse_http_response-generate_http_response sha1 holder
                (generate_http_request c key_bytes).1 after key),
    )
