-- ===== src/Prelude/Text.antt =====
-- Text as lists of bytes.
use Prim.Native.Nat.{ℕ, zero, suc, ◌+◌, ◌-◌, ◌*◌, ◌/◌, ◌%◌}
use Prim.Native.Char.{code}
use Prim.Native.String.{String}
use mathlib.Core.Bool.{Bool, true, false, ◌&&◌, ◌||◌}
use mathlib.Core.List.{List, [], ◌∷◌, ◌++◌}
use gstreamer_web_rtc.Prelude.Tests.{ltb, leb, ◌==◌, if◌then◌else◌}

-- The code points of a literal, which are its bytes when it is ASCII.
abbrev pub codes : String → List ℕ
codes String.[] = []
codes (String.◌∷◌ c s) = code c ∷ codes s

-- Two texts are the same.
unfoldable pub equal : List ℕ → List ℕ → Bool
equal [] [] = true
equal (x ∷ xs) (y ∷ ys) = x == y && equal xs ys
equal _ _ = false

-- `std::tolower`, in the C locale.
abbrev pub to_lower : ℕ → ℕ
to_lower c = if leb b'A' c && leb c b'Z' then c + 32 else c

-- `std::isspace`, in the C locale.
abbrev pub is_space : ℕ → Bool
is_space c = c == b' ' || leb 9 c && leb c 13

abbrev pub is_digit : ℕ → Bool
is_digit c = leb b'0' c && leb c b'9'

-- `std::to_string` of a number. A number has no more digits than its value and one.
unfoldable pub digits_of : ℕ → ℕ → List ℕ
digits_of zero n = []
digits_of (suc fuel) n =
    let rest = digits_of fuel (n / 10) in
    if ltb n 10 then (b'0' + n) ∷ [] else rest ++ (b'0' + n % 10) ∷ []

unfoldable pub to_string : ℕ → List ℕ
unfolding digits_of
to_string n = digits_of (suc n) n

-- `>>` from a stream of text to a string: the spaces before the word are skipped.
unfoldable pub skip_space : List ℕ → List ℕ
skip_space [] = []
skip_space (c ∷ text) = if is_space c then skip_space text else c ∷ text

unfoldable pub take_word : List ℕ → List ℕ × List ℕ
take_word [] = ([], [])
take_word (c ∷ text) =
    if is_space c then ([], c ∷ text) else (c ∷ (take_word text).0, (take_word text).1)

unfoldable pub next_word : List ℕ → List ℕ × List ℕ
unfolding skip_space take_word
next_word text = take_word (skip_space text)

-- `>>` to an unsigned number of 32 bits, which is 0 when there are no digits and the greatest
-- number when there are too many. After a minus sign the number is taken modulo 2 ^ 32.
unfoldable pub read_digits : ℕ → List ℕ → ℕ
read_digits n [] = n
read_digits n (c ∷ text) = if is_digit c then read_digits (n * 10 + (c - b'0')) text else n

abbrev clamp : ℕ → ℕ
clamp n = if ltb n 4294967296 then n else 4294967295

abbrev negated : ℕ → ℕ
negated n = if ltb n 4294967296 then (4294967296 - n) % 4294967296 else 4294967295

unfoldable pub read_signed : List ℕ → ℕ
unfolding read_digits
read_signed [] = 0
read_signed (c ∷ text) =
    if c == b'-'
    then negated (read_digits 0 text)
    else if c == b'+'
    then clamp (read_digits 0 text)
    else clamp (read_digits 0 (c ∷ text))

unfoldable pub read_unsigned : List ℕ → ℕ
unfolding skip_space read_signed
read_unsigned text = read_signed (skip_space text)
