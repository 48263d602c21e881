-- ===== src/WsHandshake/RoundTrip.antt =====
-- Each side of src/impl/wshandshake.cpp parses what the other side generates.
use gstreamer_web_rtc.Prelude.{
  ℕ, ◌≡◌, ◌≢◌, refl, sym, ap, ◌∙◌, true, false, Option, none, some, List, [], ◌∷◌, ◌++◌, ◌==◌,
  length, length-append, All, All-append, arith,
}
use gstreamer_web_rtc.Prelude.Text.{
  codes, equal, skip_space, take_word, next_word, read_unsigned, read_signed, read_digits,
}
use gstreamer_web_rtc.Utils.{implode}
use gstreamer_web_rtc.Utils.Tokens.{Tokens, explode-implode}
use gstreamer_web_rtc.Http.{
  is_http_request, request_from, parse_http_headers, find, header_of, cut_colon, skip_spaces,
}
use gstreamer_web_rtc.Http.Lines.{Line, render, parse_http_lines-render}
use gstreamer_web_rtc.Ws.{complete}
use gstreamer_web_rtc.WsHandshake.{
  WsHandshake, generate_key, compute_accept_key, generate_http_request, generate_http_response,
  store_protocols, request_key, request_upgrade, request_headers, request_lines, complete_request,
  parse_http_request, response_accept, response_headers, response_lines, complete_response,
  parse_http_response,
}
use gstreamer_web_rtc.WsHandshake.Lines.{
  Visible, base64_encode-Visible, implode-Visible, protocol_lines, header_lines, request_line,
  request_text_lines, response_header_lines, status_line, response_text_lines, NoFeed-prefix,
}

-- A word ends at a space.
take_word-Visible :
    (word rest : List ℕ) → Visible word → take_word (word ++ b' ' ∷ rest) ≡ (word, b' ' ∷ rest)
unfolding take_word
take_word-Visible [] rest h = refl
take_word-Visible (c ∷ word) rest (hc, h) = rw (hc, take_word-Visible word rest h) refl

next_word-Visible :
    (word rest : List ℕ)
    → word ≢ []
    → Visible word
    → next_word (b' ' ∷ (word ++ b' ' ∷ rest)) ≡ (word, b' ' ∷ rest)
next_word-Visible [] rest ne h = absurd (ne refl)
next_word-Visible (c ∷ word) rest ne (hc, h) =
    let skip : skip_space (b' ' ∷ c ∷ (word ++ b' ' ∷ rest)) ≡ c ∷ (word ++ b' ' ∷ rest) =
      unfold skip_space in rw hc refl in
    let step : next_word (b' ' ∷ c ∷ (word ++ b' ' ∷ rest))
        ≡ take_word (c ∷ (word ++ b' ' ∷ rest)) =
      unfold next_word in ap take_word skip in
    step ∙ take_word-Visible (c ∷ word) rest (hc, h)

skip_spaces-Visible : (text : List ℕ) → Visible text → skip_spaces text ≡ text
unfolding skip_spaces
skip_spaces-Visible [] h = refl
skip_spaces-Visible (c ∷ text) (hc, h) =
    let other : (c == b' ') ≡ false = ground (arith, hc) in rw other refl

equal_refl : (text : List ℕ) → equal text text ≡ true
unfolding equal
equal_refl [] = refl
equal_refl (c ∷ text) = let same : (c == c) ≡ true = ground arith in rw (same, equal_refl text) refl

-- The headers of the request.
abbrev protocol_list : List (List ℕ) → List (List ℕ × List ℕ)
protocol_list [] = []
protocol_list (p ∷ ps) = (codes "sec-websocket-protocol", implode (p ∷ ps) b',') ∷ []

abbrev header_list : WsHandshake → List (List ℕ × List ℕ)
header_list w =
    (codes "host", w.host)
    ∷ (codes "connection", codes "upgrade")
    ∷ (codes "upgrade", codes "websocket")
    ∷ (codes "sec-websocket-version", codes "13")
    ∷ (codes "sec-websocket-key", w.key)
    ∷ protocol_list w.protocols

parse-protocol_lines :
    (ps : List (List ℕ))
    → All Visible ps
    → parse_http_headers (protocol_lines ps) ≡ protocol_list ps
unfolding parse_http_headers header_of cut_colon
parse-protocol_lines [] h = refl
parse-protocol_lines (p ∷ ps) h =
    let value = implode (p ∷ ps) b',' in
    let skip : skip_spaces (b' ' ∷ value) ≡ value =
      unfold skip_spaces in skip_spaces-Visible value (implode-Visible p ps h) in
    rw skip refl

-- What a request needs of the data that it carries.
pub record Sendable (w : WsHandshake) : Type 0 where
  pub path-nonempty : w.path ≢ []
  pub path-Visible : Visible w.path
  pub host-Visible : Visible w.host
  pub protocols-Visible : All Visible w.protocols
  pub protocols-Tokens : Tokens b',' w.protocols

parse-header_lines :
    (w : WsHandshake)
    → Visible w.host
    → Visible w.key
    → All Visible w.protocols
    → parse_http_headers (header_lines w) ≡ header_list w
unfolding parse_http_headers header_of cut_colon
parse-header_lines w hh hk hp =
    let host_skip : skip_spaces (b' ' ∷ w.host) ≡ w.host =
      unfold skip_spaces in skip_spaces-Visible w.host hh in
    let key_skip : skip_spaces (b' ' ∷ w.key) ≡ w.key =
      unfold skip_spaces in skip_spaces-Visible w.key hk in
    let more = parse-protocol_lines w.protocols hp in
    λ i.
      (codes "host", host_skip i)
      ∷ (codes "connection", codes "upgrade")
      ∷ (codes "upgrade", codes "websocket")
      ∷ (codes "sec-websocket-version", codes "13")
      ∷ (codes "sec-websocket-key", key_skip i)
      ∷ more i

-- The request line and the headers, in turn.
abbrev joined : List (List ℕ) → Option (List ℕ)
joined [] = none
joined (p ∷ ps) = some (implode (p ∷ ps) b',')

stored : WsHandshake → WsHandshake → WsHandshake
unfolding store_protocols
stored w c =
    store_protocols (record w { path = c.path; host = c.host; key = c.key }) (joined c.protocols)

headers-stored :
    (w c : WsHandshake) (n : ℕ)
    → request_headers (record w { path = c.path }) (header_list c) n ≡ (complete n, stored w c)
unfolding request_headers request_upgrade request_key find stored
headers-stored w c n =
    let find_protocol : find (codes "sec-websocket-protocol") (protocol_list c.protocols)
        ≡ joined c.protocols =
      by_protocols c.protocols in
    unfold equal in
    ap
      (λ o.
        (complete n, store_protocols (record w { path = c.path; host = c.host; key = c.key }) o))
      find_protocol
  where
    by_protocols :
        (ps : List (List ℕ)) → find (codes "sec-websocket-protocol") (protocol_list ps) ≡ joined ps
    by_protocols [] = refl
    by_protocols (p ∷ ps) = unfold equal in refl

lines-stored :
    (w c : WsHandshake) (n : ℕ)
    → Visible c.key
    → Sendable c
    → request_lines w n (request_line c ∷ header_lines c) ≡ (complete n, stored w c)
unfolding request_lines
lines-stored w c n k s =
    let word : next_word (request_line c) ≡ (codes "GET", b' ' ∷ (c.path ++ codes " HTTP/1.1")) =
      unfold next_word skip_space take_word in refl in
    let path_word : next_word (b' ' ∷ (c.path ++ codes " HTTP/1.1")) ≡ (c.path, codes " HTTP/1.1") =
      next_word-Visible c.path (codes "HTTP/1.1") s.path-nonempty s.path-Visible in
    let same : equal (codes "GET") (codes "GET") ≡ true = equal_refl (codes "GET") in
    rw (word, path_word, same, parse-header_lines c s.host-Visible k s.protocols-Visible)
      (headers-stored w c n)

-- The protocols of the client, if it names any.
abbrev pub offered : List (List ℕ) → List (List ℕ) → List (List ℕ)
offered [] old = old
offered (p ∷ ps) old = p ∷ ps

stored-offered :
    (w c : WsHandshake)
    → Tokens b',' c.protocols
    → stored w c ≡ record w {
      path = c.path;
      host = c.host;
      key = c.key;
      protocols = offered c.protocols w.protocols;
    }
unfolding stored store_protocols
stored-offered w c t = by_protocols c.protocols t
  where
    by_protocols :
        (ps : List (List ℕ))
        → Tokens b',' ps
        → store_protocols (record w { path = c.path; host = c.host; key = c.key }) (joined ps)
          ≡ record w {
            path = c.path;
            host = c.host;
            key = c.key;
            protocols = offered ps w.protocols;
          }
    by_protocols [] t = refl
    by_protocols (p ∷ ps) t =
        ap (λ l. record w { path = c.path; host = c.host; key = c.key; protocols = l })
          (explode-implode p ps b',' t)

protocol_lines-Line : (ps : List (List ℕ)) → All Visible ps → All Line (protocol_lines ps)
protocol_lines-Line [] h = tt
protocol_lines-Line (p ∷ ps) h = (
  (
    (λ e. cc e),
    NoFeed-prefix (codes "Sec-WebSocket-Protocol: ") _ (omega arith) (implode-Visible p ps h),
  ),
  tt,
)

request-Lines :
    (c : WsHandshake) → Visible c.key → Sendable c → All Line (request_line c ∷ header_lines c)
request-Lines c k s = (
  (
    (λ e. cc e),
    All-append (λ c. c ≢ b'\n') (codes "GET " ++ c.path) (codes " HTTP/1.1")
        (NoFeed-prefix (codes "GET ") c.path (omega arith) s.path-Visible) (omega arith),
  ),
  (
    ((λ e. cc e), NoFeed-prefix (codes "Host: ") _ (omega arith) s.host-Visible),
    (
      ((λ e. cc e), omega arith),
      (
        ((λ e. cc e), omega arith),
        (
          ((λ e. cc e), omega arith),
          (
            ((λ e. cc e), NoFeed-prefix (codes "Sec-WebSocket-Key: ") _ (omega arith) k),
            protocol_lines-Line c.protocols s.protocols-Visible,
          ),
        ),
      ),
    ),
  ),
)

length-render : (ls : List (List ℕ)) → (length (render ls) == 0) ≡ false
unfolding render
length-render [] = refl
length-render (l ∷ ls) =
    let sum = length-append l (b'\r' ∷ b'\n' ∷ render ls) in ground (arith, sum)

-- A request whose lines are parsed.
request-parsed :
    (w c : WsHandshake) (ls : List (List ℕ)) (rest : List ℕ)
    → All Line ls
    → is_http_request (render ls ++ rest) ≡ true
    → request_lines w (length (render ls)) ls ≡ (complete (length (render ls)), stored w c)
    → parse_http_request w (render ls ++ rest) ≡ (complete (length (render ls)), stored w c)
request-parsed w c ls rest h m e =
    unfold parse_http_request complete_request in
    rw (m, parse_http_lines-render ls rest h, length-render ls) e

pub parse_http_request-generate_http_request :
    (server client : WsHandshake) (bytes rest : List ℕ)
    → Sendable client
    → (let text = (generate_http_request client bytes).0 in
        parse_http_request server (text ++ rest) ≡ (
          complete (length text),
          record server {
            path = client.path;
            host = client.host;
            key = generate_key bytes;
            protocols = offered client.protocols server.protocols;
          },
        ))
parse_http_request-generate_http_request server client bytes rest s =
    let c = record client { key = generate_key bytes } in
    let k : Visible c.key = unfold generate_key in base64_encode-Visible bytes in
    let sc : Sendable c = record {
      path-nonempty = s.path-nonempty;
      path-Visible = s.path-Visible;
      host-Visible = s.host-Visible;
      protocols-Visible = s.protocols-Visible;
      protocols-Tokens = s.protocols-Tokens;
    } in
    let text : (generate_http_request client bytes).0 ≡ render (request_line c ∷ header_lines c) =
      unfold generate_http_request in request_text_lines c in
    let ls = request_line c ∷ header_lines c in
    rw text (
      request-parsed server c ls rest (request-Lines c k sc)
        (unfold is_http_request request_from render in refl) (lines-stored server c _ k sc)
      ∙ ap (λ v. (complete (length (render ls)), v)) (stored-offered server c s.protocols-Tokens))

accept-Lines :
    (accept : List ℕ) → Visible accept → All Line (status_line ∷ response_header_lines accept)
accept-Lines accept v = (
  ((λ e. cc e), omega arith),
  (
    ((λ e. cc e), omega arith),
    (
      ((λ e. cc e), omega arith),
      (
        ((λ e. cc e), omega arith),
        (((λ e. cc e), NoFeed-prefix (codes "Sec-WebSocket-Accept: ") accept (omega arith) v), tt),
      ),
    ),
  ),
)

abbrev response_list : List ℕ → List (List ℕ × List ℕ)
response_list accept =
    (codes "server", codes "libdatachannel")
    ∷ (codes "connection", codes "upgrade")
    ∷ (codes "upgrade", codes "websocket")
    ∷ (codes "sec-websocket-accept", accept)
    ∷ []

parse-response_headers :
    (accept : List ℕ)
    → Visible accept
    → parse_http_headers (response_header_lines accept) ≡ response_list accept
unfolding parse_http_headers header_of cut_colon
parse-response_headers accept v =
    let skip : skip_spaces (b' ' ∷ accept) ≡ accept =
      unfold skip_spaces in skip_spaces-Visible accept v in
    λ i.
      (codes "server", codes "libdatachannel")
      ∷ (codes "connection", codes "upgrade")
      ∷ (codes "upgrade", codes "websocket")
      ∷ (codes "sec-websocket-accept", skip i)
      ∷ []

accept-found :
    (accept : List ℕ) (n : ℕ)
    → Visible accept
    → response_lines accept n (status_line ∷ response_header_lines accept) ≡ complete n
unfolding response_lines response_headers response_accept
accept-found accept n v =
    let same = equal_refl accept in
    let word : next_word status_line ≡ (codes "HTTP/1.1", codes " 101 Switching Protocols") =
      unfold next_word skip_space take_word in refl in
    let code : read_unsigned (codes " 101 Switching Protocols") ≡ 101 =
      unfold read_unsigned skip_space read_signed read_digits in refl in
    rw (word, code, parse-response_headers accept v) (unfold find equal in rw same refl)

-- A client accepts the response of a server that holds its key, whatever bytes follow.
pub parse_http_response-generate_http_response :
    (sha1 : List ℕ → List ℕ) (server client : WsHandshake) (rest : List ℕ)
    → server.key ≡ client.key
    → (let text = generate_http_response sha1 server in
        parse_http_response sha1 client (text ++ rest) ≡ complete (length text))
parse_http_response-generate_http_response sha1 server client rest e =
    let accept = compute_accept_key sha1 server.key in
    let v : Visible accept = unfold compute_accept_key in base64_encode-Visible _ in
    let ls = status_line ∷ response_header_lines accept in
    rw (response_text_lines sha1 server, sym e)
      (unfold parse_http_response complete_response in
        rw (parse_http_lines-render ls rest (accept-Lines accept v), length-render ls)
          (accept-found accept (length (render ls)) v))
