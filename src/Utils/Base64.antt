-- ===== src/Utils/Base64.antt =====
-- The base64 encoding of src/impl/utils.cpp against a decoder of RFC 4648.
use gstreamer_web_rtc.Prelude.{
  ℕ, ◌+◌, ◌*◌, ◌-◌, ◌/◌, ◌%◌, not, Option, none, some, List, [], ◌∷◌, ◌==◌, leb, if◌then◌else◌,
  ◌>>=◌,
}

-- RFC 4648, table 1: the value of a symbol, from its ASCII code. The capital letters stand for 0 to
-- 25, the small letters for 26 to 51, the digits for 52 to 61, plus for 62 and slash for 63.
unfoldable pub value : ℕ → ℕ
value c =
    if leb 97 c
    then c - 71
    else if leb 65 c
    then c - 65
    else if leb 48 c
    then c + 4
    else if c == 43
    then 62
    else 63

-- Four symbols stand for three bytes; one or two signs of equality at the end for one or two fewer.
unfoldable pub decode : List ℕ → Option (List ℕ)
unfolding value
decode [] = some []
decode (c0 ∷ c1 ∷ c2 ∷ c3 ∷ text) =
    let i0 = value c0 in
    let i1 = value c1 in
    let i2 = value c2 in
    let i3 = value c3 in
    let b0 = i0 * 4 + i1 / 16 in
    let b1 = i1 % 16 * 16 + i2 / 4 in
    let b2 = i2 % 4 * 64 + i3 in
    let rest = decode text in
    if not (c3 == b'=')
    then (rest >>= λ more. some (b0 ∷ b1 ∷ b2 ∷ more))
    else if not (c2 == b'=')
    then some (b0 ∷ b1 ∷ [])
    else some (b0 ∷ [])
decode _ = none
