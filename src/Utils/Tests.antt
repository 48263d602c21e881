-- ===== src/Utils/Tests.antt =====
-- The text utilities at concrete texts.
use gstreamer_web_rtc.Prelude.{ℕ, ◌≡◌, refl, List, [], ◌∷◌, arith}
use gstreamer_web_rtc.Prelude.Text.{codes}
use gstreamer_web_rtc.Utils.{
  explode_from, explode, delimited, cut_last, implode, url_decode, hex_value, hex_digit, symbol,
  base64_encode,
}
use gstreamer_web_rtc.Utils.Tokens.{url_encode, explode-implode, url_decode-url_encode}

foobar : base64_encode (codes "fooba") ≡ codes "Zm9vYmE="
unfolding base64_encode symbol
foobar = refl

abbrev protocols : List (List ℕ)
protocols = codes "chat" ∷ codes "rtc" ∷ []

joined : implode protocols b',' ≡ codes "chat,rtc"
unfolding implode delimited cut_last
joined = refl

explode-implode_example : explode (implode protocols b',') b',' ≡ protocols
explode-implode_example =
    explode-implode (codes "chat") (codes "rtc" ∷ []) b','
      (((λ e. cc e), omega arith), (((λ e. cc e), omega arith), tt))

-- An invalid escape stays, a valid one becomes its byte, and an empty last token is dropped.
invalid_escape : url_decode (codes "a%4z%20%2") ≡ codes "a%4z %2"
unfolding url_decode hex_value hex_digit
invalid_escape = refl

last_token : explode (codes "a,,b,") b',' ≡ codes "a" ∷ [] ∷ codes "b" ∷ []
unfolding explode explode_from
last_token = refl

url_decode-url_encode_example : url_decode (url_encode (codes "a b")) ≡ codes "a b"
url_decode-url_encode_example = url_decode-url_encode (codes "a b") (omega arith)
