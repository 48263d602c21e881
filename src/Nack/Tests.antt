-- ===== src/Nack/Tests.antt =====
-- A packet for four missing packets.
use gstreamer_web_rtc.Prelude.{ℕ, ◌≡◌, refl, none, some, [], ◌∷◌, arith}
use gstreamer_web_rtc.Nack.{NackPart, Fci, new_part, add_missing_packet, get_sequence_numbers}
use gstreamer_web_rtc.Nack.RoundTrip.{all_numbers, add_all, add_all-numbers, add_all-repeated}

abbrev memory : ℕ → NackPart
memory i = record { pid = 0; blp = 0 }

abbrev empty_packet : Fci
empty_packet = record { parts = memory; fci_count = 0; fci_pid = 0 }

-- The last number has no successor in 16 bits.
wrapped : get_sequence_numbers (record { pid = 65535; blp = 0x8001 }) ≡ 65535 ∷ 0 ∷ 15 ∷ []
unfolding get_sequence_numbers
wrapped = refl

add_all-numbers_example :
    (filled : Fci) × (add_all empty_packet (7 ∷ 9 ∷ 23 ∷ 24 ∷ []) ≡ some filled)
    × (all_numbers filled.parts filled.fci_count ≡ 7 ∷ 9 ∷ 23 ∷ 24 ∷ [])
add_all-numbers_example = add_all-numbers memory 0 (7 ∷ 9 ∷ 23 ∷ 24 ∷ []) (
  omega arith,
  omega arith,
  (omega arith, omega arith, (omega arith, omega arith, (omega arith, omega arith, tt))),
)

-- A part that begins with 5, and one more that begins with 40.
abbrev begun : Fci
begun = new_part empty_packet 5

add_all-repeated_example : add_all begun (40 ∷ 40 ∷ []) ≡ none
add_all-repeated_example =
    add_all-repeated begun (new_part begun 40) 40 (unfold new_part add_missing_packet in refl)
