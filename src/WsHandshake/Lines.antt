-- ===== src/WsHandshake/Lines.antt =====
-- The request and the response of src/impl/wshandshake.cpp as lines.
use gstreamer_web_rtc.Prelude.{
  ℕ, zero, suc, ◌≡◌, ◌≢◌, refl, sym, false, List, [], ◌∷◌, ◌++◌, append_assoc, All, All-append,
  All-map, arith, get_or,
}
use gstreamer_web_rtc.Prelude.Text.{codes, is_space}
use gstreamer_web_rtc.Utils.{base64_encode, symbol, tab, implode}
use gstreamer_web_rtc.Utils.Tokens.{implode_one, implode-cons}
use gstreamer_web_rtc.Http.Lines.{render}
use gstreamer_web_rtc.WsHandshake.{
  WsHandshake, request_text, protocol_line, compute_accept_key, generate_http_response,
}

-- A text without spaces and control characters that separate words or lines.
abbrev pub Visible : List ℕ → Type 0
Visible text = All (λ c. is_space c ≡ false) text

-- Bytes that do not end a line.
abbrev pub NoFeed : List ℕ → Type 0
NoFeed text = All (λ c. c ≢ b'\n') text

visible_ne_feed : (c : ℕ) → is_space c ≡ false → c ≢ b'\n'
visible_ne_feed c h e = ground (arith, h, e)

pub no_feed : (text : List ℕ) → Visible text → NoFeed text
no_feed = All-map visible_ne_feed

-- The symbols of base64 are visible.
get_or-Visible : (xs : List ℕ) (i : ℕ) → Visible xs → is_space (get_or xs i 0) ≡ false
get_or-Visible [] i h = refl
get_or-Visible (x ∷ xs) zero (hx, h) = hx
get_or-Visible (x ∷ xs) (suc i) (hx, h) = get_or-Visible xs i h

symbol-Visible : (i : ℕ) → is_space (symbol i) ≡ false
unfolding symbol
symbol-Visible i = get_or-Visible tab i (ground arith)

pub base64_encode-Visible : (bytes : List ℕ) → Visible (base64_encode bytes)
unfolding base64_encode
base64_encode-Visible [] = tt
base64_encode-Visible (d0 ∷ []) = (search symbol-Visible)
base64_encode-Visible (d0 ∷ d1 ∷ []) = (search symbol-Visible)
base64_encode-Visible (d0 ∷ d1 ∷ d2 ∷ bytes) =
    let more = base64_encode-Visible bytes in (search symbol-Visible)

-- Protocols joined by commas.
pub implode-Visible :
    (p : List ℕ) (ps : List (List ℕ)) → All Visible (p ∷ ps) → Visible (implode (p ∷ ps) b',')
implode-Visible p [] (h, _) = rw (implode_one p b',') h
implode-Visible p (q ∷ ps) (h, hs) =
    rw (implode-cons p q ps b',') (All-append _ p _ h (refl, implode-Visible q ps hs))

-- The lines of the request.
abbrev pub protocol_lines : List (List ℕ) → List (List ℕ)
protocol_lines [] = []
protocol_lines (p ∷ ps) = (codes "Sec-WebSocket-Protocol: " ++ implode (p ∷ ps) b',') ∷ []

abbrev pub header_lines : WsHandshake → List (List ℕ)
header_lines w =
    (codes "Host: " ++ w.host)
    ∷ codes "Connection: upgrade"
    ∷ codes "Upgrade: websocket"
    ∷ codes "Sec-WebSocket-Version: 13"
    ∷ (codes "Sec-WebSocket-Key: " ++ w.key)
    ∷ protocol_lines w.protocols

abbrev pub request_line : WsHandshake → List ℕ
request_line w = codes "GET " ++ w.path ++ codes " HTTP/1.1"

protocol_line-render :
    (ps : List (List ℕ)) → protocol_line ps ++ codes "\r\n" ≡ render (protocol_lines ps)
unfolding render
protocol_line-render [] = refl
protocol_line-render (p ∷ ps) = simp append_assoc refl

pub request_text_lines :
    (w : WsHandshake) → request_text w ≡ render (request_line w ∷ header_lines w)
unfolding request_text render
request_text_lines w = rw (sym (protocol_line-render w.protocols)) (simp append_assoc refl)

-- The lines of the response.
abbrev pub response_header_lines : List ℕ → List (List ℕ)
response_header_lines accept =
    codes "Server: libdatachannel"
    ∷ codes "Connection: upgrade"
    ∷ codes "Upgrade: websocket"
    ∷ (codes "Sec-WebSocket-Accept: " ++ accept)
    ∷ []

abbrev pub status_line : List ℕ
status_line = codes "HTTP/1.1 101 Switching Protocols"

pub response_text_lines :
    (sha1 : List ℕ → List ℕ) (w : WsHandshake)
    → generate_http_response sha1 w
      ≡ render (status_line ∷ response_header_lines (compute_accept_key sha1 w.key))
unfolding generate_http_response render
response_text_lines sha1 w = refl

pub NoFeed-prefix : (xs : List ℕ) (ys : List ℕ) → NoFeed xs → Visible ys → NoFeed (xs ++ ys)
NoFeed-prefix xs ys h v = All-append (λ c. c ≢ b'\n') xs ys h (no_feed ys v)
