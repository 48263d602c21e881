-- ===== src/WsHandshake.antt =====
-- src/impl/wshandshake.cpp: the HTTP request and response that open a WebSocket.
-- The hash function of the accept key and the random bytes of the client's key are parameters. A
-- code that is thrown stands in the answer, and what was stored before it stays.
pub mod Lines
pub mod RoundTrip
pub mod Opening
pub mod Tests
use gstreamer_web_rtc.Prelude.{
  ℕ, zero, suc, ◌+◌, Bool, true, false, not, ◌&&◌, ◌||◌, Option, none, some, List, [], ◌∷◌, ◌++◌,
  map, ltb, leb, ◌==◌, if◌then◌else◌, length,
}
use gstreamer_web_rtc.Prelude.Text.{codes, equal, to_lower, to_string, next_word, read_unsigned}
use gstreamer_web_rtc.Utils.{explode, implode, base64_encode}
use gstreamer_web_rtc.Http.{is_http_request, parse_http_lines, parse_http_headers, find, is_empty}
use gstreamer_web_rtc.Ws.{Parsed, incomplete, complete, request_error, error, Handshake}

pub record WsHandshake : Type 0 where
  pub host : List ℕ
  pub path : List ℕ
  pub protocols : List (List ℕ)
  pub key : List ℕ

-- The constructor throws when the host or the path is empty.
pub make : List ℕ → List ℕ → List (List ℕ) → Option WsHandshake
make host path protocols =
    if is_empty host || is_empty path
    then none
    else some (record { host = host; path = path; protocols = protocols; key = [] })

-- `generateKey` from the random bytes.
unfoldable pub generate_key : List ℕ → List ℕ
generate_key bytes = base64_encode bytes

unfoldable pub compute_accept_key : (List ℕ → List ℕ) → List ℕ → List ℕ
compute_accept_key sha1 key =
    base64_encode (sha1 (key ++ codes "258EAFA5-E914-47DA-95CA-C5AB0DC85B11"))

abbrev pub protocol_line : List (List ℕ) → List ℕ
protocol_line [] = []
protocol_line (p ∷ ps) = codes "Sec-WebSocket-Protocol: " ++ implode (p ∷ ps) b',' ++ codes "\r\n"

unfoldable pub request_text : WsHandshake → List ℕ
request_text w =
    codes "GET "
    ++ w.path
    ++ codes " HTTP/1.1\r\nHost: "
    ++ w.host
    ++ codes
        "\r\nConnection: upgrade\r\nUpgrade: websocket\r\nSec-WebSocket-Version: 13\r\nSec-WebSocket-Key: "
    ++ w.key
    ++ codes "\r\n"
    ++ protocol_line w.protocols
    ++ codes "\r\n"

unfoldable pub generate_http_request : WsHandshake → List ℕ → List ℕ × WsHandshake
unfolding request_text generate_key
generate_http_request w bytes =
    let w1 = record w { key = generate_key bytes } in (request_text w1, w1)

unfoldable pub generate_http_response : (List ℕ → List ℕ) → WsHandshake → List ℕ
unfolding compute_accept_key
generate_http_response sha1 w =
    codes
      "HTTP/1.1 101 Switching Protocols\r\nServer: libdatachannel\r\nConnection: upgrade\r\nUpgrade: websocket\r\nSec-WebSocket-Accept: "
    ++ compute_accept_key sha1 w.key
    ++ codes "\r\n\r\n"

unfoldable pub http_error_name : ℕ → List ℕ
http_error_name code =
    if code == 400
    then codes "Bad Request"
    else if code == 404
    then codes "Not Found"
    else if code == 405
    then codes "Method Not Allowed"
    else if code == 426
    then codes "Upgrade Required"
    else if code == 500
    then codes "Internal Server Error"
    else codes "Error"

unfoldable pub error_body : ℕ → List ℕ
unfolding http_error_name
error_body code = to_string code ++ codes " " ++ http_error_name code

unfoldable pub generate_http_error : ℕ → List ℕ
unfolding error_body
generate_http_error code =
    codes "HTTP/1.1 "
    ++ error_body code
    ++ codes
        "\r\nServer: libdatachannel\r\nConnection: upgrade\r\nUpgrade: websocket\r\nContent-Type: text/plain\r\nContent-Length: "
    ++ to_string (length (error_body code))
    ++ codes "\r\nAccess-Control-Allow-Origin: *\r\n\r\n"
    ++ error_body code

-- The end of `parseHttpRequest`, once the headers are parsed.
unfoldable pub store_protocols : WsHandshake → Option (List ℕ) → WsHandshake
store_protocols w none = w
store_protocols w (some value) = record w { protocols = explode value b',' }

unfoldable pub request_key : WsHandshake → List (List ℕ × List ℕ) → ℕ → Parsed × WsHandshake
unfolding store_protocols
request_key w headers n = elim (find (codes "sec-websocket-key") headers) [
  | none ↦ (request_error 400, w)
  | some key ↦ (
    complete n,
    store_protocols (record w { key = key }) (find (codes "sec-websocket-protocol") headers),
  )
]

unfoldable pub request_upgrade : WsHandshake → List (List ℕ × List ℕ) → ℕ → Parsed × WsHandshake
unfolding request_key
request_upgrade w headers n = elim (find (codes "upgrade") headers) [
  | none ↦ (request_error 426, w)
  | some upgrade ↦
      if not (equal (map to_lower upgrade) (codes "websocket"))
      then (request_error 426, w)
      else request_key w headers n
]

unfoldable pub request_headers : WsHandshake → List (List ℕ × List ℕ) → ℕ → Parsed × WsHandshake
unfolding request_upgrade
request_headers w headers n = elim (find (codes "host") headers) [
  | none ↦ (request_error 400, w)
  | some host ↦ request_upgrade (record w { host = host }) headers n
]

-- The request line and the headers, of a request of `n` bytes.
unfoldable pub request_lines : WsHandshake → ℕ → List (List ℕ) → Parsed × WsHandshake
unfolding request_headers
request_lines w n [] = (request_error 400, w)
request_lines w n (request_line ∷ lines) =
    let (method, rest) = next_word request_line in
    let path = (next_word rest).0 in
    if not (equal method (codes "GET"))
    then (request_error 405, w)
    else request_headers (record w { path = path }) (parse_http_headers lines) n

unfoldable pub complete_request : WsHandshake → ℕ × List (List ℕ) → Parsed × WsHandshake
unfolding request_lines
complete_request w (n, lines) = if n == 0 then (incomplete, w) else request_lines w n lines

unfoldable pub parse_http_request : WsHandshake → List ℕ → Parsed × WsHandshake
unfolding complete_request
parse_http_request w buffer =
    if not (is_http_request buffer)
    then (request_error 400, w)
    else complete_request w (parse_http_lines buffer)

-- The end of `parseHttpResponse`, with the accept key that is expected.
unfoldable pub response_accept : List ℕ → List (List ℕ × List ℕ) → ℕ → Parsed
response_accept accept headers n = elim (find (codes "sec-websocket-accept") headers) [
  | none ↦ error
  | some value ↦ if not (equal value accept) then error else complete n
]

unfoldable pub response_headers : List ℕ → List (List ℕ × List ℕ) → ℕ → Parsed
unfolding response_accept
response_headers accept headers n = elim (find (codes "upgrade") headers) [
  | none ↦ error
  | some upgrade ↦
      if not (equal (map to_lower upgrade) (codes "websocket"))
      then error
      else response_accept accept headers n
]

unfoldable pub response_lines : List ℕ → ℕ → List (List ℕ) → Parsed
unfolding response_headers
response_lines accept n [] = error
response_lines accept n (status ∷ lines) =
    let rest = (next_word status).1 in
    if not (read_unsigned rest == 101)
    then error
    else response_headers accept (parse_http_headers lines) n

unfoldable pub complete_response : List ℕ → ℕ × List (List ℕ) → Parsed
unfolding response_lines
complete_response accept (n, lines) = if n == 0 then incomplete else response_lines accept n lines

unfoldable pub parse_http_response : (List ℕ → List ℕ) → WsHandshake → List ℕ → Parsed
unfolding complete_response compute_accept_key
parse_http_response sha1 w buffer =
    complete_response (compute_accept_key sha1 w.key) (parse_http_lines buffer)

-- The handshake as the transport of src/impl/wstransport.cpp sees it, on either side, with the
-- random bytes of the client's key.
unfoldable pub handshake_of : (List ℕ → List ℕ) → WsHandshake → List ℕ → Handshake
handshake_of sha1 w bytes = record {
  http_request = (generate_http_request w bytes).0;
  parse_request = λ buffer. (parse_http_request w buffer).0;
  parse_response = λ buffer. parse_http_response sha1 (generate_http_request w bytes).1 buffer;
  http_response = λ buffer. generate_http_response sha1 (parse_http_request w buffer).1;
  http_error = λ code. generate_http_error code;
}
