-- ===== src/Nal/Reassembly.antt =====
-- What a receiver makes of the fragments that `fragmentsFrom` (src/nalunit.cpp) cuts a unit into.
use gstreamer_web_rtc.Prelude.{
  ℕ, zero, suc, ◌+◌, ◌-◌, ◌%◌, ◌≤◌, ◌<◌, ◌≡◌, refl, ap, ◌∙◌, inl, inr, Option, none, some, List, [],
  ◌∷◌, ◌++◌, ltb, length, take, drop, bit_and, ◌>>=◌, arith, All, length-take, length-drop,
  take_all, All-map, Bool-cases,
}
use gstreamer_web_rtc.Prelude.Word.{u16, IsByte, bit_and-0x1f}
use gstreamer_web_rtc.Nal.{
  forbidden_bit, nri, unit_type, FragmentType, start_fragment, middle_fragment, end_fragment,
  fragment, ceil_div, fragment_loop, fragments_from,
}
use gstreamer_web_rtc.Nal.Headers.{
  restored_header, restored_header-fragment, received_type, received_type-fragment,
}
use gstreamer_web_rtc.Nal.Loop.{
  joined, type_at_middle, type_at_end, size_at_middle, size_at_end, loop_done, loop_round,
  even_size, type_at_start, size_at_start, fragments_from-loop,
}

-- RFC 6184, 5.8: the payload that the fragments after the first one carry, all of them FU-A. Only
-- the last of them is marked as the end, and none as the start.
unfoldable pub later_payload : List (List ℕ) → Option (List ℕ)
later_payload ((indicator ∷ header ∷ bytes) ∷ rest) =
    let more = later_payload rest in
    elim (received_type indicator header) [
      | some middle_fragment ↦ (more >>= λ bytes'. some (bytes ++ bytes'))
      | some end_fragment ↦ elim rest [ [] ↦ some bytes | _ ∷ _ ↦ none ]
      | _ ↦ none
    ]
later_payload _ = none

-- The unit that a receiver puts together from the fragments.
unfoldable pub reassemble : List (List ℕ) → Option (List ℕ)
unfolding later_payload
reassemble ((indicator ∷ header ∷ bytes) ∷ rest) = elim (received_type indicator header) [
  | some start_fragment ↦
      (later_payload rest >>= λ bytes'. some (restored_header indicator header ∷ bytes ++ bytes'))
  | _ ↦ none
]
reassemble _ = none

type_lt : (h : ℕ) → IsByte h → bit_and (unit_type h) 0x1f < 32
unfolding unit_type
type_lt h b =
    let low : bit_and h 0x1f ≡ h % 32 = bit_and-0x1f h b in
    let again : bit_and (bit_and h 0x1f) 0x1f ≡ bit_and h 0x1f % 32 =
      bit_and-0x1f (bit_and h 0x1f) (omega (arith, low)) in
    omega (arith, again)

-- The fragment of the unit with first byte `h`.
abbrev piece : FragmentType → ℕ → List ℕ → List ℕ
piece t h bytes =
    fragment t (forbidden_bit h) (bit_and (nri h) 0x03) (bit_and (unit_type h) 0x1f) bytes

later_middle :
    (h : ℕ) (bytes more : List ℕ) (rest : List (List ℕ))
    → IsByte h
    → later_payload rest ≡ some more
    → later_payload (piece middle_fragment h bytes ∷ rest) ≡ some (bytes ++ more)
unfolding later_payload fragment
later_middle h bytes more rest b e = rw (
  later_payload,
  received_type-fragment middle_fragment h (bit_and (unit_type h) 0x1f) b (type_lt h b),
  e,
)

later_end :
    (h : ℕ) (bytes : List ℕ)
    → IsByte h
    → later_payload (piece end_fragment h bytes ∷ []) ≡ some bytes
unfolding later_payload fragment
later_end h bytes b = rw (
  later_payload,
  received_type-fragment end_fragment h (bit_and (unit_type h) 0x1f) b (type_lt h b),
)

reassemble_start :
    (h : ℕ) (bytes more : List ℕ) (rest : List (List ℕ))
    → IsByte h
    → later_payload rest ≡ some more
    → reassemble (piece start_fragment h bytes ∷ rest) ≡ some (h ∷ bytes ++ more)
unfolding reassemble fragment
reassemble_start h bytes more rest b e = rw (
  reassemble,
  received_type-fragment start_fragment h (bit_and (unit_type h) 0x1f) b (type_lt h b),
  e,
  restored_header-fragment start_fragment h b,
)

-- The fragments after the first one that the loop makes from an offset on.
abbrev LaterFragments : ℕ → ℕ → List ℕ → ℕ → ℕ → Type 0
LaterFragments fuel h payload offset max =
    (frs : List (List ℕ)) × (fragment_loop fuel h payload offset max ≡ some frs)
    × (later_payload frs ≡ some (drop offset payload))
    × All (λ f. length f ≤ max + 2) frs

later_step :
    (fuel h : ℕ) (payload : List ℕ) (offset max : ℕ)
    → IsByte h
    → 0 < offset
    → offset + max < length payload
    → LaterFragments fuel h payload (offset + max) max
    → LaterFragments (suc fuel) h payload offset max
unfolding fragment
later_step fuel h payload offset max b o inside (frs, run, carried, sizes) =
    let bytes = take max (drop offset payload) in
    (
      piece middle_fragment h bytes ∷ frs,
      loop_round fuel h payload offset max max middle_fragment (omega (arith, inside))
            (type_at_middle offset max (length payload) o inside)
            (size_at_middle offset max (length payload) o inside) (omega (arith, inside))
          ∙ ap (λ r. r >>= λ rest. some (piece middle_fragment h bytes ∷ rest)) run,
      later_middle h bytes (drop (offset + max) payload) frs b carried
          ∙ ap some (joined offset max payload),
      (omega (arith, length-take max (drop offset payload)), sizes),
    )

later_last :
    (fuel h : ℕ) (payload : List ℕ) (offset max : ℕ)
    → IsByte h
    → 0 < offset
    → offset < length payload
    → length payload ≤ offset + max
    → max < 65536
    → LaterFragments (suc fuel) h payload offset max
unfolding fragment
later_last fuel h payload offset max b o lt outside small =
    let n = length payload - offset in
    let bytes = take n (drop offset payload) in
    let whole : bytes ≡ drop offset payload =
      take_all n (drop offset payload) (omega (arith, length-drop offset payload)) in
    (
      piece end_fragment h bytes ∷ [],
      loop_round fuel h payload offset max n end_fragment lt
            (type_at_end offset max (length payload) o outside)
            (size_at_end offset max (length payload) o lt outside small) (omega (arith, lt))
          ∙ ap (λ r. r >>= λ rest. some (piece end_fragment h bytes ∷ rest))
              (loop_done fuel h payload (offset + n) n (omega (arith, lt))),
      later_end h bytes b ∙ ap some whole,
      (omega (arith, length-take n (drop offset payload), outside), tt),
    )

-- Fuel for each byte that is left is enough.
later_fragments :
    (fuel h : ℕ) (payload : List ℕ) (offset max : ℕ)
    → IsByte h
    → 0 < offset
    → 0 < max
    → max < 65536
    → offset < length payload
    → length payload - offset < fuel
    → LaterFragments fuel h payload offset max
later_fragments zero h payload offset max b o m small lt le = absurd (omega (arith, le))
later_fragments (suc fuel) h payload offset max b o m small lt le =
    elim (Bool-cases (ltb (offset + max) (length payload))) [
      | inl more ↦
          let inside : offset + max < length payload = ground (arith, more) in
          later_step fuel h payload offset max b o inside (
            later_fragments fuel h payload (offset + max) max b (omega (arith, o)) m small inside
              (omega (arith, le, lt, m, inside)))
      | inr last ↦ later_last fuel h payload offset max b o lt (ground (arith, last)) small
    ]

-- The whole loop, for a bound that the payload is larger than.
loop_reassembles :
    (h : ℕ) (payload : List ℕ) (n : ℕ)
    → IsByte h
    → 0 < n
    → n < 65536
    → n < length payload
    → (frs : List (List ℕ)) × (fragment_loop (suc (length payload)) h payload 0 n ≡ some frs)
      × (reassemble frs ≡ some (h ∷ payload))
      × All (λ f. length f ≤ n + 2) frs
unfolding fragment
loop_reassembles h payload n b pos small lt =
    let (frs, run, carried, sizes) =
      later_fragments (length payload) h payload (0 + n) n b (omega (arith, pos)) pos small
        (omega (arith, lt)) (omega (arith, pos, lt)) in
    (
      piece start_fragment h (take n payload) ∷ frs,
      loop_round (length payload) h payload 0 n n start_fragment (omega (arith, lt))
            (type_at_start n (length payload)) (size_at_start n (length payload))
            (omega (arith, lt))
          ∙ ap (λ r. r >>= λ rest. some (piece start_fragment h (take n payload) ∷ rest)) run,
      reassemble_start h (take n payload) (drop (0 + n) payload) frs b carried
          ∙ ap (λ l. some (h ∷ l)) (joined 0 n payload),
      (omega (arith, length-take n payload), sizes),
    )

-- `fragmentsFrom` ends for every unit of bytes that is larger than the maximum, if the maximum is
-- four or more: a receiver that follows RFC 6184 puts the unit together from the fragments, and no
-- fragment is larger than the maximum.
pub reassemble-fragments_from :
    (maximum_fragment_size h : ℕ) (payload : List ℕ)
    → IsByte h
    → 4 ≤ maximum_fragment_size
    → maximum_fragment_size < 65536
    → maximum_fragment_size < suc (length payload)
    → (fragments : List (List ℕ)) × (fragments_from maximum_fragment_size (h ∷ payload)
        ≡ some fragments)
      × (reassemble fragments ≡ some (h ∷ payload))
      × All (λ f. length f ≤ maximum_fragment_size) fragments
reassemble-fragments_from m h payload b four small large =
    let size = suc (length payload) in
    let count = ceil_div size m in
    let limit = ceil_div size count in
    let (low, high) = even_size m size count four large refl in
    let wrapped : u16 (u16 limit + 65536 - 2) ≡ limit - 2 = omega (arith, low, high, small) in
    let (frs, run, whole, sizes) =
      loop_reassembles h payload (limit - 2) b (omega (arith, low)) (omega (arith, high, small))
        (omega (arith, low, high, large)) in
    (
      frs,
      fragments_from-loop m h payload (limit - 2) wrapped ∙ run,
      whole,
      All-map (λ f le. omega (arith, le, low, high)) frs sizes,
    )

no_room_round :
    (fuel h : ℕ) (payload : List ℕ)
    → 0 < length payload
    → fragment_loop (suc fuel) h payload 0 0
      ≡ (fragment_loop fuel h payload 0 0 >>= λ rest. some (piece start_fragment h [] ∷ rest))
no_room_round fuel h payload pos =
    loop_round fuel h payload 0 0 0 start_fragment pos (type_at_start 0 (length payload))
      (size_at_start 0 (length payload)) (omega arith)

never_done :
    (fuel h : ℕ) (payload : List ℕ) → 0 < length payload → fragment_loop fuel h payload 0 0 ≡ none
unfolding fragment_loop
never_done zero h payload pos = ground arith
never_done (suc fuel) h payload pos =
    no_room_round fuel h payload pos
    ∙ ap (λ r. r >>= λ rest. some (piece start_fragment h [] ∷ rest))
        (never_done fuel h payload pos)

-- When there is no room for payload beside the two header bytes, a round of the loop on a payload
-- that is not empty reads nothing out of range: it cuts a start fragment without payload, and the
-- rest of the loop starts from the same offset with the same size. So no number of rounds brings it
-- to an end.
pub fragment_loop_no_room :
    (fuel h : ℕ) (payload : List ℕ)
    → 0 < length payload
    → (fragment_loop (suc fuel) h payload 0 0 ≡ (
        fragment_loop fuel h payload 0 0 >>= λ rest. some (
          fragment start_fragment
            (forbidden_bit h)
            (bit_and (nri h) 0x03)
            (bit_and (unit_type h) 0x1f)
            []
          ∷ rest)))
      × (fragment_loop fuel h payload 0 0 ≡ none)
fragment_loop_no_room fuel h payload pos =
    (no_room_round fuel h payload pos, never_done fuel h payload pos)
