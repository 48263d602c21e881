-- ===== src/H264/Lengths.antt =====
-- The split at lengths of src/h264rtppacketizer.cpp undoes their join.
use gstreamer_web_rtc.Prelude.{
  ℕ, zero, suc, ◌/◌, ◌%◌, ◌<◌, ◌≤◌, ◌≡◌, ◌≢◌, refl, ap, ◌∙◌, false, List, [], ◌∷◌, ◌++◌, ltb,
  length, length-append, take-append_length, drop-append_length, All, arith,
}
use gstreamer_web_rtc.Prelude.Word.{be32, htonl, from_le32}
use gstreamer_web_rtc.H264.{length_prefix, split_lengths, split_message}

-- Each unit after its length, the most significant byte first.
unfoldable pub with_lengths : List (List ℕ) → List ℕ
with_lengths [] = []
with_lengths (unit ∷ units) = be32 (length unit) ++ (unit ++ with_lengths units)

abbrev pub Sized : List ℕ → Type 0
Sized unit = (unit ≢ []) × (length unit < 4294967296)

length_read :
    (n : ℕ)
    → n < 4294967296
    → htonl (from_le32 (n / 16777216 % 256) (n / 65536 % 256) (n / 256 % 256) (n % 256)) ≡ n
unfolding htonl
length_read n h = omega arith

split_one :
    (fuel : ℕ) (unit rest : List ℕ)
    → Sized unit
    → split_lengths (suc fuel) (be32 (length unit) ++ (unit ++ rest))
      ≡ unit ∷ split_lengths fuel rest
split_one fuel [] rest (ne, h) = absurd (ne refl)
split_one fuel (b ∷ unit) rest (ne, h) =
    let n = length_read (length (b ∷ unit)) h in
    let inside : ltb (length ((b ∷ unit) ++ rest)) (length (b ∷ unit)) ≡ false =
      ground (arith, length-append (b ∷ unit) rest) in
    unfold split_lengths in
    rw (n, inside, take-append_length unit rest, drop-append_length unit rest) refl

split-with_lengths :
    (fuel : ℕ) (units : List (List ℕ))
    → All Sized units
    → length (with_lengths units) ≤ fuel
    → split_lengths fuel (with_lengths units) ≡ units
unfolding with_lengths
split-with_lengths zero [] h f = unfold split_lengths in refl
split-with_lengths (suc fuel) [] h f = unfold split_lengths in refl
split-with_lengths zero (unit ∷ units) h f =
    absurd (omega (arith, f, length-append (be32 (length unit)) (unit ++ with_lengths units)))
split-with_lengths (suc fuel) (unit ∷ units) (s, h) f =
    let total = length-append unit (with_lengths units) in
    split_one fuel unit (with_lengths units) s
    ∙ ap (λ us. unit ∷ us) (split-with_lengths fuel units h (omega (arith, f, total)))

-- Units that are not empty and are joined with their lengths are split into the same units.
pub split_message-with_lengths :
    (units : List (List ℕ))
    → All Sized units
    → split_message length_prefix (with_lengths units) ≡ units
unfolding split_message
split_message-with_lengths units h =
    split-with_lengths (length (with_lengths units)) units h (omega arith)
