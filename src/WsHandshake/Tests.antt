-- ===== src/WsHandshake/Tests.antt =====
-- A handshake with a sample of RFC 6455, and its theorems at it.
use gstreamer_web_rtc.Prelude.{ℕ, ◌≡◌, refl, true, false, List, [], ◌∷◌, ◌++◌, length, arith, some}
use gstreamer_web_rtc.Prelude.Text.{
  codes, equal, skip_space, take_word, next_word, to_string, digits_of,
}
use gstreamer_web_rtc.Http.{
  is_http_request, request_from, strip_cr, parse_lines_from, parse_http_lines, cut_colon,
  skip_spaces, header_of, parse_http_headers, find,
}
use gstreamer_web_rtc.Transport.{connected, disconnected}
use gstreamer_web_rtc.Ws.{complete, incomplete, request_error, WsTransport, start, incoming, drain}
use gstreamer_web_rtc.WsHandshake.Opening.{opening}
use gstreamer_web_rtc.WsHandshake.{
  WsHandshake, http_error_name, error_body, generate_http_error, request_headers, request_lines,
  complete_request, parse_http_request, parse_http_response, handshake_of, generate_http_response,
}
use gstreamer_web_rtc.WsHandshake.RoundTrip.{Sendable, parse_http_response-generate_http_response}

abbrev client : WsHandshake
client = record {
  host = codes "example.com";
  path = codes "/chat";
  protocols = codes "chat" ∷ codes "rtc" ∷ [];
  key = [];
}

abbrev server : WsHandshake
server = record { host = []; path = []; protocols = []; key = [] }

client-Sendable : Sendable client
client-Sendable = record {
  path-nonempty = λ e. cc e;
  path-Visible = ground arith;
  host-Visible = ground arith;
  protocols-Visible = ground arith;
  protocols-Tokens = (((λ e. cc e), omega arith), (((λ e. cc e), omega arith), tt));
}

abbrev random_bytes : List ℕ
random_bytes = 1 ∷ 2 ∷ 3 ∷ 4 ∷ 5 ∷ 6 ∷ 7 ∷ 8 ∷ 9 ∷ 10 ∷ 11 ∷ 12 ∷ 13 ∷ 14 ∷ 15 ∷ 16 ∷ []

-- The identity in place of the hash function.
parse_http_response-generate_http_response_example :
    parse_http_response
      (λ text. text)
      client
      (generate_http_response (λ text. text) server ++ 0x81 ∷ [])
    ≡ complete (length (generate_http_response (λ text. text) server))
parse_http_response-generate_http_response_example =
    parse_http_response-generate_http_response (λ text. text) server client (0x81 ∷ []) refl

-- Another method, a request without a host, and one that is not complete.
refused_method : (parse_http_request server (codes "POST / HTTP/1.1\r\n\r\n")).0 ≡ request_error 405
unfolding parse_http_request complete_request request_lines is_http_request request_from
    parse_http_lines parse_lines_from strip_cr next_word skip_space take_word equal
refused_method = refl

missing_host :
    (parse_http_request server (codes "GET / HTTP/1.1\r\nUpgrade: websocket\r\n\r\n")).0
    ≡ request_error 400
unfolding parse_http_request complete_request request_lines request_headers is_http_request
    request_from parse_http_lines parse_lines_from strip_cr next_word skip_space take_word equal
    parse_http_headers header_of cut_colon skip_spaces find
missing_host = refl

half_request : (parse_http_request server (codes "GET / HTTP/1.1\r\nHost")).0 ≡ incomplete
unfolding parse_http_request complete_request is_http_request request_from parse_http_lines
    parse_lines_from strip_cr
half_request = refl

not_found :
    generate_http_error 404
    ≡ codes
        "HTTP/1.1 404 Not Found\r\nServer: libdatachannel\r\nConnection: upgrade\r\nUpgrade: websocket\r\nContent-Type: text/plain\r\nContent-Length: 13\r\nAccess-Control-Allow-Origin: *\r\n\r\n404 Not Found"
unfolding generate_http_error error_body http_error_name to_string digits_of
not_found = refl

abbrev transport : WsTransport
transport = record {
  is_client = true;
  max_outstanding_pings = 0;
  keys = λ n. record { k0 = 1; k1 = 2; k2 = 3; k3 = 4 };
  drawn = 0;
  state = disconnected;
  buffer = [];
  partial = [];
  partial_opcode = 2;
  outstanding_pings = 0;
  close_sent = false;
  sent = [];
  received = [];
}

opening_example :
    (let hc = handshake_of (λ text. text) client random_bytes in
      let hs = handshake_of (λ text. text) server [] in
      let c0 = record transport { is_client = true; buffer = [] } in
      let s0 = record transport { is_client = false; buffer = [] } in
      let request = hc.http_request in
      let response =
        generate_http_response (λ text. text) (parse_http_request server (request ++ [])).1 in
      ((start hc c0).sent ≡ request ∷ [])
      × (incoming hs (start hs s0) (some (request ++ []))
          ≡ drain 0 (record s0 { state = connected; buffer = []; sent = response ∷ [] }))
      × (incoming hc (start hc c0) (some (response ++ 0x81 ∷ []))
          ≡ drain 1 (record c0 { state = connected; buffer = 0x81 ∷ []; sent = request ∷ [] })))
opening_example =
    opening (λ text. text) client server random_bytes [] transport transport [] (0x81 ∷ [])
      client-Sendable
