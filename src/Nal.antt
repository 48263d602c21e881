-- ===== src/Nal.antt =====
-- include/rtc/nalunit.hpp and src/nalunit.cpp: H.264 NAL units and their FU-A fragments. A unit is
-- the list of its bytes. A read past the end of the bytes and a loop that does not end have no
-- result (`none`).
pub mod Headers
pub mod Loop
pub mod Reassembly
pub mod Carried
pub mod Tests
use gstreamer_web_rtc.Prelude.{
  ℕ, zero, suc, ◌+◌, ◌-◌, ◌*◌, ◌/◌, ◌%◌, Bool, true, false, not, Option, none, some, List, [], ◌∷◌,
  ◌++◌, ltb, leb, ◌==◌, if◌then◌else◌, length, take, drop, bit_and, bit_or, ◌>>=◌,
}
use gstreamer_web_rtc.Prelude.Word.{u8, u16, to_ℕ}

-- `NalUnitHeader` and `NalUnitFragmentHeader`: one byte each.
unfoldable pub forbidden_bit : ℕ → Bool
forbidden_bit first = not (first / 128 == 0)

unfoldable pub nri : ℕ → ℕ
nri first = bit_and (first / 32) 0x03

unfoldable pub unit_type : ℕ → ℕ
unit_type first = bit_and first 0x1f

unfoldable pub set_forbidden_bit : Bool → ℕ → ℕ
set_forbidden_bit b first = bit_or (bit_and first 0x7f) (to_ℕ b * 128)

unfoldable pub set_nri : ℕ → ℕ → ℕ
set_nri n first = bit_or (bit_and first 0x9f) (bit_and n 0x03 * 32)

unfoldable pub set_unit_type : ℕ → ℕ → ℕ
set_unit_type type first = bit_or (bit_and first 0xe0) (bit_and type 0x1f)

unfoldable pub is_start : ℕ → Bool
is_start first = not (first / 128 == 0)

unfoldable pub is_end : ℕ → Bool
is_end first = not (bit_and (first / 64) 0x01 == 0)

unfoldable pub set_start : Bool → ℕ → ℕ
set_start b first = bit_or (bit_and first 0x7f) (to_ℕ b * 128)

unfoldable pub set_end : Bool → ℕ → ℕ
set_end b first = bit_or (bit_and first 0xbf) (to_ℕ b * 64)

unfoldable pub set_reserved_bit6 : Bool → ℕ → ℕ
set_reserved_bit6 b first = bit_or (bit_and first 0xdf) (to_ℕ b * 32)

-- `FragmentType`; the code's `Start`, `Middle` and `End`.
pub data FragmentType : Type 0 where
  start_fragment middle_fragment end_fragment : FragmentType

unfoldable pub set_fragment_type : FragmentType → ℕ → ℕ
unfolding set_reserved_bit6 set_start set_end
set_fragment_type start_fragment h = set_end false (set_start true (set_reserved_bit6 false h))
set_fragment_type end_fragment h = set_end true (set_start false (set_reserved_bit6 false h))
set_fragment_type middle_fragment h = set_end false (set_start false (set_reserved_bit6 false h))

-- `type()` of a fragment, from its fragment header.
unfoldable pub fragment_type : ℕ → FragmentType
unfolding is_start is_end
fragment_type h =
    if is_start h then start_fragment else if is_end h then end_fragment else middle_fragment

abbrev nal_type_fu_a : ℕ
nal_type_fu_a = 28

-- The two bytes before the payload of a fragment: indicator and header, from zero bytes on.
unfoldable pub fragment_indicator : Bool → ℕ → ℕ
unfolding set_unit_type set_nri set_forbidden_bit
fragment_indicator forbidden n =
    set_unit_type nal_type_fu_a (set_nri n (set_forbidden_bit forbidden 0))

unfoldable pub fragment_header : FragmentType → ℕ → ℕ
unfolding set_unit_type set_fragment_type
fragment_header type unit = set_unit_type unit (set_fragment_type type 0)

-- The constructor of `NalUnitFragmentA`.
unfoldable pub fragment : FragmentType → Bool → ℕ → ℕ → List ℕ → List ℕ
fragment type forbidden n unit bytes =
    fragment_indicator forbidden n ∷ fragment_header type unit ∷ bytes

-- `ceil(double(a) / b)`, for a positive `b` and sizes that a double holds exactly.
abbrev pub ceil_div : ℕ → ℕ → ℕ
ceil_div a b = (a + b - 1) / b

-- The bytes from `offset` on, `n` of them.
unfoldable pub slice : ℕ → ℕ → List ℕ → Option (List ℕ)
slice offset n payload =
    if leb (offset + n) (length payload) then some (take n (drop offset payload)) else none

-- The type of the fragment at `offset`, and the size that it leaves for the fragments to come.
unfoldable pub type_at : ℕ → ℕ → ℕ → FragmentType
type_at offset max size =
    if offset == 0
    then start_fragment
    else if ltb (offset + max) size
    then middle_fragment
    else end_fragment

unfoldable pub size_at : ℕ → ℕ → ℕ → ℕ
size_at offset max size =
    if offset == 0
    then max
    else if ltb (offset + max) size
    then max
    else if ltb size (offset + max)
    then u16 (size - offset)
    else max

-- The loop of `fragmentsFrom`, for the unit with first byte `h`.
unfoldable pub fragment_loop : ℕ → ℕ → List ℕ → ℕ → ℕ → Option (List (List ℕ))
unfolding slice type_at size_at fragment forbidden_bit nri unit_type
fragment_loop zero h payload offset max = if ltb offset (length payload) then none else some []
fragment_loop (suc fuel) h payload offset max = elim (ltb offset (length payload)) [
  | false ↦ some []
  | true ↦
      let size = length payload in
      let n = size_at offset max size in
      slice offset n payload >>= λ bytes. fragment_loop fuel h payload (offset + n) n >>= λ rest.
      some (
        fragment (type_at offset max size) (forbidden_bit h) (bit_and (nri h) 0x03)
          (bit_and (unit_type h) 0x1f) bytes
        ∷ rest)
]

-- `fragmentsFrom`, for a unit larger than the maximum. The loop gets as many rounds as the payload
-- has bytes, and one more.
unfoldable pub fragments_from : ℕ → List ℕ → Option (List (List ℕ))
unfolding fragment_loop
fragments_from maximum_fragment_size [] = none
fragments_from maximum_fragment_size (h ∷ payload) =
    let size = suc (length payload) in
    let fragments_count = ceil_div size maximum_fragment_size in
    let max = u16 (ceil_div size fragments_count) in
    fragment_loop (suc (length payload)) h payload 0 (u16 (max + 65536 - 2))

-- `generateFragments`.
unfoldable pub generate_fragments : ℕ → List (List ℕ) → Option (List (List ℕ))
unfolding fragments_from
generate_fragments maximum_fragment_size [] = some []
generate_fragments maximum_fragment_size (nalu ∷ nalus) =
    (if ltb maximum_fragment_size (length nalu)
      then fragments_from maximum_fragment_size nalu
      else some (nalu ∷ []))
    >>= λ fragments.
        generate_fragments maximum_fragment_size nalus >>= λ rest. some (fragments ++ rest)
