-- ===== src/Http/Lines.antt =====
-- The lines of src/impl/http.cpp: what is printed line by line is read line by line.
use gstreamer_web_rtc.Prelude.{
  ℕ, suc, ◌+◌, ◌≡◌, ◌≢◌, refl, ap, ◌∙◌, false, List, [], ◌∷◌, ◌++◌, append-nil, append_assoc, ◌==◌,
  length, length-append, All, arith,
}
use gstreamer_web_rtc.Http.{strip_cr, parse_lines_from, parse_http_lines}

-- A line that is printed: not empty, and without a line feed.
abbrev pub Line : List ℕ → Type 0
Line l = (l ≢ []) × All (λ c. c ≢ b'\n') l

-- Each line followed by a carriage return and a line feed, and an empty line at the end.
unfoldable pub render : List (List ℕ) → List ℕ
render [] = b'\r' ∷ b'\n' ∷ []
render (l ∷ ls) = l ++ b'\r' ∷ b'\n' ∷ render ls

strip_cr-end : (l : List ℕ) → strip_cr (l ++ b'\r' ∷ []) ≡ l
unfolding strip_cr
strip_cr-end [] = refl
strip_cr-end (c ∷ []) = refl
strip_cr-end (c ∷ d ∷ l) = ap (λ t. c ∷ t) (strip_cr-end (d ∷ l))

-- The bytes of a line are gathered.
gather :
    (l line rest : List ℕ) (n : ℕ) (lines : List (List ℕ))
    → All (λ c. c ≢ b'\n') l
    → parse_lines_from (l ++ rest) line n lines
      ≡ parse_lines_from rest (line ++ l) (n + length l) lines
gather [] line rest n lines h =
    let same : n ≡ n + 0 = omega arith in
    rw (append-nil line) (ap (λ k. parse_lines_from rest line k lines) same)
gather (c ∷ l) line rest n lines (hc, h) =
    let other : (c == b'\n') ≡ false = ground (arith, hc) in
    let count : suc n + length l ≡ n + suc (length l) = omega arith in
    let step : parse_lines_from (c ∷ (l ++ rest)) line n lines
        ≡ parse_lines_from (l ++ rest) (line ++ c ∷ []) (suc n) lines =
      unfold parse_lines_from in rw other refl in
    step
    ∙ gather l (line ++ c ∷ []) rest (suc n) lines h
    ∙ ap (λ t. parse_lines_from rest t (suc n + length l) lines) (append_assoc line (c ∷ []) l)
    ∙ ap (λ k. parse_lines_from rest (line ++ c ∷ l) k lines) count

line_end :
    (l rest : List ℕ) (n : ℕ) (lines : List (List ℕ))
    → l ≢ []
    → parse_lines_from (b'\r' ∷ b'\n' ∷ rest) l n lines
      ≡ parse_lines_from rest [] (n + 2) (lines ++ l ∷ [])
line_end [] rest n lines ne = absurd (ne refl)
line_end (c ∷ l) rest n lines ne =
    let count : suc (suc n) ≡ n + 2 = omega arith in
    unfold parse_lines_from in
    rw (strip_cr-end (c ∷ l)) (ap (λ k. parse_lines_from rest [] k (lines ++ (c ∷ l) ∷ [])) count)

parse-render_from :
    (ls : List (List ℕ)) (rest : List ℕ) (n : ℕ) (lines : List (List ℕ))
    → All Line ls
    → parse_lines_from (render ls ++ rest) [] n lines ≡ (n + length (render ls), lines ++ ls)
unfolding render
parse-render_from [] rest n lines h =
    let count : suc (suc n) ≡ n + 2 = omega arith in
    unfold parse_lines_from strip_cr in rw (append-nil lines) (ap (λ k. (k, lines)) count)
parse-render_from (l ∷ ls) rest n lines ((ne, text), h) =
    let tail = b'\r' ∷ b'\n' ∷ render ls in
    let count : n + length l + 2 + length (render ls) ≡ n + length (l ++ tail) =
      omega (arith, length-append l tail) in
    ap (λ t. parse_lines_from t [] n lines) (append_assoc l tail rest)
    ∙ gather l [] (tail ++ rest) n lines text
    ∙ line_end l (render ls ++ rest) (n + length l) lines ne
    ∙ parse-render_from ls rest (n + length l + 2) (lines ++ l ∷ []) h
    ∙ ap (λ t. (n + length l + 2 + length (render ls), t)) (append_assoc lines (l ∷ []) ls)
    ∙ ap (λ k. (k, lines ++ l ∷ ls)) count

-- The lines that were printed are read again, up to the empty line and not beyond it.
pub parse_http_lines-render :
    (ls : List (List ℕ)) (rest : List ℕ)
    → All Line ls
    → parse_http_lines (render ls ++ rest) ≡ (length (render ls), ls)
unfolding parse_http_lines
parse_http_lines-render ls rest h =
    let count : 0 + length (render ls) ≡ length (render ls) = omega arith in
    parse-render_from ls rest 0 [] h ∙ ap (λ k. (k, ls)) count
