-- ===== src/Http.antt =====
-- src/impl/http.cpp: the lines and the headers of an HTTP message. A buffer and a string are the
-- lists of their bytes.
pub mod Lines
use gstreamer_web_rtc.Prelude.{
  ℕ, zero, suc, ◌+◌, ◌-◌, Bool, true, false, not, ◌&&◌, ◌||◌, Option, none, some, List, [], ◌∷◌,
  ◌++◌, map, ltb, leb, ◌==◌, if◌then◌else◌,
}
use gstreamer_web_rtc.Prelude.Text.{equal, to_lower}

-- `isHttpRequest` from the byte at `i` on.
unfoldable pub request_from : ℕ → List ℕ → Bool
request_from i [] = true
request_from i (c ∷ buffer) =
    let rest = request_from (suc i) buffer in
    if ltb 0 i && c == b' '
    then true
    else if leb 8 i || ltb c b'A' || ltb b'Z' c
    then false
    else rest

unfoldable pub is_http_request : List ℕ → Bool
unfolding request_from
is_http_request buffer = request_from 0 buffer

-- The carriage return before the end of a line is not part of it.
unfoldable pub strip_cr : List ℕ → List ℕ
strip_cr [] = []
strip_cr (c ∷ []) = if c == b'\r' then [] else c ∷ []
strip_cr (c ∷ d ∷ line) = c ∷ strip_cr (d ∷ line)

abbrev pub is_empty : List ℕ → Bool
is_empty [] = true
is_empty (c ∷ text) = false

-- `parseHttpLines` after `n` bytes and the `lines`, with the bytes of the line that is read.
-- The answer 0 stands for a message that is not complete.
unfoldable pub parse_lines_from : List ℕ → List ℕ → ℕ → List (List ℕ) → ℕ × List (List ℕ)
unfolding strip_cr
parse_lines_from [] line n lines = (0, lines)
parse_lines_from (c ∷ buffer) line n lines =
    let more = parse_lines_from buffer (line ++ c ∷ []) (suc n) lines in
    let next = parse_lines_from buffer [] (suc n) (lines ++ strip_cr line ∷ []) in
    if not (c == b'\n') then more else if is_empty (strip_cr line) then (suc n, lines) else next

unfoldable pub parse_http_lines : List ℕ → ℕ × List (List ℕ)
unfolding parse_lines_from
parse_http_lines buffer = parse_lines_from buffer [] 0 []

-- The text before the first colon and the text after it.
unfoldable pub cut_colon : List ℕ → Option (List ℕ × List ℕ)
cut_colon [] = none
cut_colon (c ∷ line) =
    if c == b':'
    then some ([], line)
    else elim (cut_colon line) [ none ↦ none | some (key, value) ↦ some (c ∷ key, value) ]

unfoldable pub skip_spaces : List ℕ → List ℕ
skip_spaces [] = []
skip_spaces (c ∷ text) = if c == b' ' then skip_spaces text else c ∷ text

unfoldable pub header_of : List ℕ → List ℕ × List ℕ
unfolding cut_colon skip_spaces
header_of line = elim (cut_colon line) [
  | none ↦ (line, [])
  | some (key, value) ↦ (map to_lower key, skip_spaces value)
]

-- The headers in the order of their lines.
unfoldable pub parse_http_headers : List (List ℕ) → List (List ℕ × List ℕ)
unfolding header_of
parse_http_headers lines = map header_of lines

-- `find` in the multimap: the first header with the key that was added.
unfoldable pub find : List ℕ → List (List ℕ × List ℕ) → Option (List ℕ)
find key [] = none
find key ((k, value) ∷ headers) = if equal k key then some value else find key headers
