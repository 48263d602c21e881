-- ===== src/Nal/Headers.antt =====
-- The header bytes of a fragment and the header of the unit that it comes from.
use gstreamer_web_rtc.Prelude.{
  ℕ, ◌/◌, ◌%◌, ◌<◌, ◌≡◌, ◌==◌, arith, refl, not, ◌&&◌, Option, none, some, if◌then◌else◌, bit_and,
  bit_or,
}
use gstreamer_web_rtc.Prelude.Word.{all_below, agree_below}
use gstreamer_web_rtc.Nal.{
  forbidden_bit, nri, unit_type, fragment_indicator, fragment_header, FragmentType, start_fragment,
  middle_fragment, end_fragment,
}

-- RFC 6184, 5.8: the receiver takes the first three bits of the unit's header from the indicator
-- and the type from the fragment header.
abbrev pub restored_header : ℕ → ℕ → ℕ
restored_header indicator header = bit_or (bit_and indicator 0xe0) (bit_and header 0x1f)

module _ (t : FragmentType) where
  abbrev round_trip : ℕ → ℕ
  round_trip h =
      restored_header (fragment_indicator (forbidden_bit h) (bit_and (nri h) 0x03))
        (fragment_header t (bit_and (unit_type h) 0x1f))

pub restored_header-fragment :
    (t : FragmentType) (h : ℕ)
    → h < 256
    → restored_header
        (fragment_indicator (forbidden_bit h) (bit_and (nri h) 0x03))
        (fragment_header t (bit_and (unit_type h) 0x1f))
      ≡ h
unfolding all_below forbidden_bit nri unit_type fragment_indicator fragment_header
restored_header-fragment start_fragment = agree_below 256 (round_trip start_fragment) (λ h. h) refl
restored_header-fragment middle_fragment =
    agree_below 256 (round_trip middle_fragment) (λ h. h) refl
restored_header-fragment end_fragment = agree_below 256 (round_trip end_fragment) (λ h. h) refl

-- RFC 6184, 5.8: what a receiver takes a fragment for. The indicator has type 28; the fragment
-- header begins with the start bit and the end bit, of which one is set at most.
unfoldable pub received_type : ℕ → ℕ → Option FragmentType
received_type indicator header =
    let starts = header / 128 % 2 == 1 in
    let ends = header / 64 % 2 == 1 in
    if not (indicator % 32 == 28)
    then none
    else if starts && ends
    then none
    else if starts
    then some start_fragment
    else if ends
    then some end_fragment
    else some middle_fragment

fu_a : (h : ℕ) → h < 256 → fragment_indicator (forbidden_bit h) (bit_and (nri h) 0x03) % 32 ≡ 28
unfolding all_below forbidden_bit nri fragment_indicator
fu_a =
    agree_below 256 (λ h. fragment_indicator (forbidden_bit h) (bit_and (nri h) 0x03) % 32)
      (λ h. 28) refl

-- The two bits of a fragment header, as a number.
abbrev bits_of : FragmentType → ℕ
bits_of start_fragment = 2
bits_of middle_fragment = 0
bits_of end_fragment = 1

header_bits : (t : FragmentType) (u : ℕ) → u < 32 → fragment_header t u / 64 ≡ bits_of t
unfolding all_below fragment_header
header_bits start_fragment =
    agree_below 32 (λ u. fragment_header start_fragment u / 64) (λ u. 2) refl
header_bits middle_fragment =
    agree_below 32 (λ u. fragment_header middle_fragment u / 64) (λ u. 0) refl
header_bits end_fragment = agree_below 32 (λ u. fragment_header end_fragment u / 64) (λ u. 1) refl

pub received_type-fragment :
    (t : FragmentType) (h u : ℕ)
    → h < 256
    → u < 32
    → received_type
        (fragment_indicator (forbidden_bit h) (bit_and (nri h) 0x03))
        (fragment_header t u)
      ≡ some t
unfolding received_type
received_type-fragment t h u hb ub =
    let start_bit : fragment_header t u / 128 % 2 ≡ bits_of t / 2 % 2 =
      omega (arith, header_bits t u ub) in
    let end_bit : fragment_header t u / 64 % 2 ≡ bits_of t % 2 =
      omega (arith, header_bits t u ub) in
    rw (fu_a h hb, start_bit, end_bit) (kinds t)
  where
    kinds :
        (t : FragmentType)
        → (if bits_of t / 2 % 2 == 1 && bits_of t % 2 == 1
            then none
            else if bits_of t / 2 % 2 == 1
            then some start_fragment
            else if bits_of t % 2 == 1
            then some end_fragment
            else some middle_fragment)
          ≡ some t
    kinds start_fragment = refl
    kinds middle_fragment = refl
    kinds end_fragment = refl
