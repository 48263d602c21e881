-- ===== src/Utils.antt =====
-- src/impl/utils.cpp: text utilities. A string is the list of its bytes.
pub mod Base64
pub mod Tokens
pub mod Tests
use gstreamer_web_rtc.Prelude.{
  ℕ, zero, suc, ◌+◌, ◌-◌, ◌*◌, ◌/◌, ◌%◌, Bool, true, false, not, ◌&&◌, ◌||◌, Option, none, some,
  List, [], ◌∷◌, ◌++◌, leb, ◌==◌, if◌then◌else◌, bit_and, bit_or, get_or,
}
use gstreamer_web_rtc.Prelude.Text.{codes, is_digit}

-- `explode`: `getline` gives the text before each delimiter, and the rest if it is not empty. The
-- second argument is the token read so far.
unfoldable pub explode_from : List ℕ → List ℕ → ℕ → List (List ℕ)
explode_from [] [] delim = []
explode_from [] (t ∷ token) delim = (t ∷ token) ∷ []
explode_from (c ∷ text) token delim =
    let next = explode_from text [] delim in
    let more = explode_from text (token ++ c ∷ []) delim in
    if c == delim then token ∷ next else more

unfoldable pub explode : List ℕ → ℕ → List (List ℕ)
unfolding explode_from
explode text delim = explode_from text [] delim

-- `implode`: each token is followed by the delimiter, and the last byte is cut off.
unfoldable pub delimited : List (List ℕ) → ℕ → List ℕ
delimited [] delim = []
delimited (token ∷ tokens) delim = token ++ delim ∷ delimited tokens delim

unfoldable pub cut_last : List ℕ → List ℕ
cut_last [] = []
cut_last (c ∷ []) = []
cut_last (c ∷ d ∷ text) = c ∷ cut_last (d ∷ text)

unfoldable pub implode : List (List ℕ) → ℕ → List ℕ
unfolding delimited cut_last
implode tokens delim = cut_last (delimited tokens delim)

-- `std::isxdigit`, and the value that `stoi` reads.
unfoldable pub hex_digit : ℕ → Option ℕ
hex_digit c =
    if is_digit c
    then some (c - b'0')
    else if leb b'a' c && leb c b'f'
    then some (c - b'a' + 10)
    else if leb b'A' c && leb c b'F'
    then some (c - b'A' + 10)
    else none

unfoldable pub hex_value : ℕ → ℕ → Option ℕ
unfolding hex_digit
hex_value h l = elim (hex_digit h) [
  | none ↦ none
  | some high ↦ elim (hex_digit l) [ none ↦ none | some low ↦ some (high * 16 + low) ]
]

-- An invalid percent-encoding stays as it is.
unfoldable pub url_decode : List ℕ → List ℕ
unfolding hex_value
url_decode [] = []
url_decode (c ∷ []) = c ∷ []
url_decode (c ∷ h ∷ []) = c ∷ url_decode (h ∷ [])
url_decode (c ∷ h ∷ l ∷ text) =
    let plain = url_decode (h ∷ l ∷ text) in
    let rest = url_decode text in
    if not (c == b'%')
    then c ∷ plain
    else elim (hex_value h l) [ none ↦ c ∷ plain | some value ↦ value ∷ rest ]

abbrev pub tab : List ℕ
tab = codes "ABCDEFGHIJKLMNOPQRSTUVWXYZabcdefghijklmnopqrstuvwxyz0123456789+/"

unfoldable pub symbol : ℕ → ℕ
symbol i = get_or tab i 0

unfoldable pub base64_encode : List ℕ → List ℕ
unfolding symbol
base64_encode [] = []
base64_encode (d0 ∷ []) = symbol (d0 / 4) ∷ symbol (bit_and d0 3 * 16) ∷ b'=' ∷ b'=' ∷ []
base64_encode (d0 ∷ d1 ∷ []) =
    symbol (d0 / 4)
    ∷ symbol (bit_or (bit_and d0 3 * 16) (d1 / 16))
    ∷ symbol (bit_and d1 0x0f * 4)
    ∷ b'='
    ∷ []
base64_encode (d0 ∷ d1 ∷ d2 ∷ data_) =
    symbol (d0 / 4)
    ∷ symbol (bit_or (bit_and d0 3 * 16) (d1 / 16))
    ∷ symbol (bit_or (bit_and d1 0x0f * 4) (d2 / 64))
    ∷ symbol (bit_and d2 0x3f)
    ∷ base64_encode data_
