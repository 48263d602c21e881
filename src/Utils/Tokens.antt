-- ===== src/Utils/Tokens.antt =====
-- `explode` undoes `implode` (src/impl/utils.cpp), and `url_decode` a percent-encoding.
use gstreamer_web_rtc.Prelude.{
  ℕ, ◌+◌, ◌-◌, ◌/◌, ◌%◌, ◌<◌, ◌≡◌, ◌≢◌, refl, ap, ◌∙◌, Bool, true, false, Option, none, some, List,
  [], ◌∷◌, ◌++◌, append-nil, append_assoc, ◌==◌, ==_iff, if◌then◌else◌, ltb, All, arith,
}
use gstreamer_web_rtc.Prelude.Word.{IsByte, all_below, all_below-true}
use gstreamer_web_rtc.Utils.{
  explode_from, explode, delimited, cut_last, implode, hex_digit, hex_value, url_decode,
}

-- A text without a byte.
abbrev pub Lacks : ℕ → List ℕ → Type 0
Lacks c text = All (λ x. x ≢ c) text

-- The text up to a delimiter.
explode_token :
    (text token rest : List ℕ) (delim : ℕ)
    → Lacks delim text
    → explode_from (text ++ delim ∷ rest) token delim ≡ (token ++ text) ∷ explode_from rest [] delim
unfolding explode_from
explode_token [] token rest delim h =
    let same : (delim == delim) ≡ true = ground arith in rw (same, append-nil token)
explode_token (c ∷ text) token rest delim (hc, h) =
    let other : (c == delim) ≡ false = ground (arith, hc) in
    rw other (
      explode_token text (token ++ c ∷ []) rest delim h
      ∙ ap (λ t. t ∷ explode_from rest [] delim) (append_assoc token (c ∷ []) text))

explode_last :
    (text token : List ℕ) (delim : ℕ)
    → Lacks delim text
    → token ++ text ≢ []
    → explode_from text token delim ≡ (token ++ text) ∷ []
unfolding explode_from
explode_last [] [] delim h ne = absurd (ne refl)
explode_last [] (t ∷ token) delim h ne = rw (append-nil token)
explode_last (c ∷ text) token delim (hc, h) ne =
    let other : (c == delim) ≡ false = ground (arith, hc) in
    rw other (
      explode_last text (token ++ c ∷ []) delim h (snoc_ne_nil token c text)
      ∙ ap (λ t. t ∷ []) (append_assoc token (c ∷ []) text))
  where
    snoc_ne_nil : (xs : List ℕ) (c : ℕ) (ys : List ℕ) → (xs ++ c ∷ []) ++ ys ≢ []
    snoc_ne_nil [] c ys e = cc e
    snoc_ne_nil (x ∷ xs) c ys e = cc e

cut_last-append :
    (xs : List ℕ) (y : ℕ) (ys : List ℕ) → cut_last (xs ++ y ∷ ys) ≡ xs ++ cut_last (y ∷ ys)
unfolding cut_last
cut_last-append [] y ys = refl
cut_last-append (x ∷ []) y ys = refl
cut_last-append (x ∷ z ∷ xs) y ys = ap (λ l. x ∷ l) (cut_last-append (z ∷ xs) y ys)

cut_last-more :
    (d : ℕ) (u : List ℕ) (us : List (List ℕ))
    → cut_last (d ∷ delimited (u ∷ us) d) ≡ d ∷ cut_last (delimited (u ∷ us) d)
unfolding cut_last delimited
cut_last-more d [] us = refl
cut_last-more d (x ∷ u) us = refl

pub implode_one : (t : List ℕ) (d : ℕ) → implode (t ∷ []) d ≡ t
unfolding implode delimited cut_last
implode_one t d = cut_last-append t d [] ∙ append-nil t

pub implode-cons :
    (t u : List ℕ) (us : List (List ℕ)) (d : ℕ)
    → implode (t ∷ u ∷ us) d ≡ t ++ d ∷ implode (u ∷ us) d
unfolding implode
implode-cons t u us d =
    unfold delimited in
    (cut_last-append t d (delimited (u ∷ us) d) ∙ ap (λ l. t ++ l) (cut_last-more d u us))

-- Tokens that can be told apart again.
abbrev pub Tokens : ℕ → List (List ℕ) → Type 0
Tokens d ts = All (λ t. (t ≢ []) × Lacks d t) ts

-- Tokens joined by a delimiter, at least one, are split into the same tokens again, when none of
-- them is empty or holds the delimiter.
pub explode-implode :
    (t : List ℕ) (ts : List (List ℕ)) (d : ℕ)
    → Tokens d (t ∷ ts)
    → explode (implode (t ∷ ts) d) d ≡ t ∷ ts
unfolding explode
explode-implode t [] d ((ne, h), _) = rw (implode_one t d) (explode_last t [] d h ne)
explode-implode t (u ∷ us) d ((ne, h), more) =
    rw (implode-cons t u us d)
      (explode_token t [] (implode (u ∷ us) d) d h ∙ ap (λ l. t ∷ l) (explode-implode u us d more))

-- The percent-encoding of RFC 3986, 2.1, of every byte.
hex_of : ℕ → ℕ
hex_of n = if ltb n 10 then b'0' + n else b'A' + n - 10

unfoldable pub url_encode : List ℕ → List ℕ
unfolding hex_of
url_encode [] = []
url_encode (c ∷ text) = b'%' ∷ hex_of (c / 16) ∷ hex_of (c % 16) ∷ url_encode text

abbrev gives : Option ℕ → ℕ → Bool
gives none n = false
gives (some m) n = m == n

of-gives : (o : Option ℕ) (n : ℕ) → gives o n ≡ true → o ≡ some n
of-gives none n h = cc h
of-gives (some m) n h = ap some ((==_iff m n).0 h)

hex_value-hex_of : (c : ℕ) → c < 256 → hex_value (hex_of (c / 16)) (hex_of (c % 16)) ≡ some c
unfolding all_below hex_value hex_digit hex_of
hex_value-hex_of c h =
    of-gives _ c
      (all_below-true 256 (λ n. gives (hex_value (hex_of (n / 16)) (hex_of (n % 16))) n) c refl h)

-- The percent-encoding of a byte is decoded to the byte, and the rest after it.
url_decode-triple :
    (c : ℕ) (rest : List ℕ)
    → c < 256
    → url_decode (b'%' ∷ hex_of (c / 16) ∷ hex_of (c % 16) ∷ rest) ≡ c ∷ url_decode rest
url_decode-triple c rest h = unfold url_decode in rw (hex_value-hex_of c h) refl

-- Decoding gives back a text of bytes of which every one is percent-encoded.
pub url_decode-url_encode : (text : List ℕ) → All IsByte text → url_decode (url_encode text) ≡ text
url_decode-url_encode [] h = unfold url_decode url_encode in refl
url_decode-url_encode (c ∷ text) (hc, h) =
    let step : url_encode (c ∷ text) ≡ b'%' ∷ hex_of (c / 16) ∷ hex_of (c % 16) ∷ url_encode text =
      unfold url_encode in refl in
    rw (step, url_decode-triple c (url_encode text) hc, url_decode-url_encode text h) refl
