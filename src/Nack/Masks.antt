-- ===== src/Nack/Masks.antt =====
-- The bitmask of a part, read by `getSequenceNumbers` (src/rtp.cpp), and one more bit in it.
use native.Mathlib.Nat.{pow-le-pow_right}
use gstreamer_web_rtc.Prelude.{
  ℕ, zero, suc, ◌+◌, ◌/◌, ◌%◌, ◌^◌, ◌≤◌, ◌<◌, ◌≡◌, refl, sym, ap, ◌∙◌, List, [], ◌∷◌, ◌++◌,
  append_assoc, ◌==◌, if◌then◌else◌, bit_or, arith,
}
use gstreamer_web_rtc.Prelude.Word.{u16}
use gstreamer_web_rtc.Nack.{NackPart, masked_numbers, get_sequence_numbers}
use gstreamer_web_rtc.Nack.Bits.{bit_or-pow, bit_and-one}

pub masked_none : (rounds i : ℕ) → masked_numbers rounds 0 i ≡ []
unfolding masked_numbers
masked_none zero i = refl
masked_none (suc rounds) i = refl

-- The number of the lowest bit, where it is set.
abbrev lowest : ℕ → ℕ → List ℕ
lowest bitmask i = if bitmask % 2 == 0 then [] else i ∷ []

masked_step :
    (rounds bitmask i : ℕ)
    → masked_numbers (suc rounds) bitmask i
      ≡ lowest bitmask i ++ masked_numbers rounds (bitmask / 2) (u16 (i + 1))
unfolding masked_numbers
masked_step rounds zero i = sym (masked_none rounds (u16 (i + 1)))
masked_step rounds (suc b) i = rw (bit_and-one (suc b)) (ground arith)

masked_one : (rounds i : ℕ) → masked_numbers (suc rounds) 1 i ≡ i ∷ []
masked_one rounds i = masked_step rounds 1 i ∙ ap (λ l. i ∷ l) (masked_none rounds (u16 (i + 1)))

-- A bit above all those that are set adds its number at the end.
masked_above :
    (k rounds bitmask i : ℕ)
    → k < rounds
    → bitmask < 2 ^ k
    → i < 65536
    → masked_numbers rounds (bitmask + 2 ^ k) i
      ≡ masked_numbers rounds bitmask i ++ u16 (i + k) ∷ []
masked_above k zero b i lt small word = absurd (omega (arith, lt))
masked_above zero (suc rounds) b i lt small word =
    let nothing : b ≡ 0 = omega (arith, small) in
    let same : u16 (i + 0) ≡ i = omega (arith, word) in
    rw (nothing, same, masked_none (suc rounds) i) (masked_one rounds i)
masked_above (suc k) (suc rounds) b i lt small word =
    let half : (b + 2 ^ suc k) / 2 ≡ b / 2 + 2 ^ k = omega arith in
    let parity : (b + 2 ^ suc k) % 2 ≡ b % 2 = omega arith in
    let number : u16 (u16 (i + 1) + k) ≡ u16 (i + suc k) = omega arith in
    let rest =
      masked_above k rounds (b / 2) (u16 (i + 1)) (omega (arith, lt)) (omega (arith, small))
        (omega arith) in
    let above : lowest (b + 2 ^ suc k) i ≡ lowest b i = rw parity in
    masked_step rounds (b + 2 ^ suc k) i
    ∙ rw (half, above, rest, number, masked_step rounds b i)
        (sym (
          append_assoc (lowest b i) (masked_numbers rounds (b / 2) (u16 (i + 1)))
            (u16 (i + suc k) ∷ [])))

get_sequence_numbers-masked :
    (part : NackPart)
    → get_sequence_numbers part ≡ part.pid ∷ masked_numbers 16 part.blp (u16 (part.pid + 1))
unfolding get_sequence_numbers
get_sequence_numbers-masked part = refl

-- A bit that is not set yet, above those that are.
pub bit_or-new : (k blp : ℕ) → k < 16 → blp < 2 ^ k → bit_or blp (u16 (2 ^ k)) ≡ blp + 2 ^ k
bit_or-new k blp lt small =
    let fits : 2 ^ k ≤ 2 ^ 15 =
      pow-le-pow_right {n = 2} (omega arith) {i = k} {j = 15} (omega (arith, lt)) in
    let word : u16 (2 ^ k) ≡ 2 ^ k = omega (arith, fits) in rw word (bit_or-pow k blp small)

abbrev pub marked : NackPart → ℕ → NackPart
marked part k = record part { blp = bit_or part.blp (u16 (2 ^ k)) }

-- A part with one more bit, above those that are set.
pub marked_numbers :
    (part : NackPart) (k : ℕ)
    → k < 16
    → part.blp < 2 ^ k
    → get_sequence_numbers (marked part k)
      ≡ get_sequence_numbers part ++ u16 (u16 (part.pid + 1) + k) ∷ []
marked_numbers part k lt small =
    get_sequence_numbers-masked (marked part k)
    ∙ ap (λ b. part.pid ∷ masked_numbers 16 b (u16 (part.pid + 1))) (bit_or-new k part.blp lt small)
    ∙ ap (λ l. part.pid ∷ l)
        (masked_above k 16 part.blp (u16 (part.pid + 1)) lt small (omega arith))
    ∙ ap (λ l. l ++ u16 (u16 (part.pid + 1) + k) ∷ []) (sym (get_sequence_numbers-masked part))
