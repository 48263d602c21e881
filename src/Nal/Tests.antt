-- ===== src/Nal/Tests.antt =====
-- A unit of seven bytes, cut into fragments.
use gstreamer_web_rtc.Prelude.{
  ℕ, ◌≤◌, ◌≡◌, refl, none, some, List, [], ◌∷◌, length, All, arith, bit_and, ◌>>=◌,
}
use gstreamer_web_rtc.Nal.{
  fragment_indicator, fragment_header, fragment_loop, fragments_from, fragment, start_fragment,
  middle_fragment, end_fragment, fragment_type, forbidden_bit, nri, unit_type,
}
use gstreamer_web_rtc.Nal.Reassembly.{reassemble, reassemble-fragments_from, fragment_loop_no_room}

abbrev unit : List ℕ
unit = 0x65 ∷ 1 ∷ 2 ∷ 3 ∷ 4 ∷ 5 ∷ 6 ∷ []

fragments :
    fragments_from 5 unit
    ≡ some
        ((0x7c ∷ 0x85 ∷ 1 ∷ 2 ∷ []) ∷ (0x7c ∷ 0x05 ∷ 3 ∷ 4 ∷ []) ∷ (0x7c ∷ 0x45 ∷ 5 ∷ 6 ∷ []) ∷ [])
unfolding fragments_from fragment_indicator fragment_header
fragments = refl

reassemble-fragments_from_example :
    (fragments : List (List ℕ)) × (fragments_from 5 unit ≡ some fragments)
    × (reassemble fragments ≡ some unit)
    × All (λ f. length f ≤ 5) fragments
reassemble-fragments_from_example =
    reassemble-fragments_from 5 0x65 (1 ∷ 2 ∷ 3 ∷ 4 ∷ 5 ∷ 6 ∷ []) (omega arith) (omega arith)
      (omega arith) (omega arith)

-- The types that `type()` reads from the headers of these fragments.
fragment_types :
    (fragment_type 0x85 ≡ start_fragment)
    × (fragment_type 0x05 ≡ middle_fragment)
    × (fragment_type 0x45 ≡ end_fragment)
unfolding fragment_type
fragment_types = (refl, refl, refl)

-- A unit of four bytes under a maximum of three leaves no room.
no_room : fragments_from 3 (0x65 ∷ 1 ∷ 2 ∷ 3 ∷ []) ≡ none
unfolding fragments_from fragment_indicator fragment_header
no_room = refl

fragment_loop_no_room_example :
    (fragment_loop 101 0x65 (1 ∷ 2 ∷ 3 ∷ []) 0 0 ≡ (
      fragment_loop 100 0x65 (1 ∷ 2 ∷ 3 ∷ []) 0 0 >>= λ rest. some (
        fragment start_fragment
          (forbidden_bit 0x65)
          (bit_and (nri 0x65) 0x03)
          (bit_and (unit_type 0x65) 0x1f)
          []
        ∷ rest)))
    × (fragment_loop 100 0x65 (1 ∷ 2 ∷ 3 ∷ []) 0 0 ≡ none)
fragment_loop_no_room_example = fragment_loop_no_room 100 0x65 (1 ∷ 2 ∷ 3 ∷ []) (omega arith)
