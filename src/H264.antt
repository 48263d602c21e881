-- ===== src/H264.antt =====
-- src/h264rtppacketizer.cpp: the split of a message into NAL units, and the RTP packets for it. A
-- message is the list of its bytes. Assertions are not modelled.
pub mod Lengths
pub mod Sequences
pub mod Outgoing
pub mod Tests
use gstreamer_web_rtc.Prelude.{
  ℕ, zero, suc, ◌+◌, ◌-◌, Bool, true, false, not, ◌&&◌, ◌||◌, Option, none, some, List, [], ◌∷◌,
  ◌++◌, ltb, leb, ◌==◌, if◌then◌else◌, length, take, drop, ◌>>=◌,
}
use gstreamer_web_rtc.Prelude.Word.{htonl, from_le32}
use gstreamer_web_rtc.Nal.{generate_fragments}
use gstreamer_web_rtc.Rtp.Packetizer.{RtpPacketizationConfig, packetize_all}

-- `Separator`; `Length` is the case of a length before each unit.
pub data Separator : Type 0 where
  length_prefix long_start_sequence short_start_sequence start_sequence : Separator

-- `NalUnitStartSequenceMatch`.
pub data Match : Type 0 where
  no_match first_zero second_zero third_zero short_match long_match : Match

abbrev pub detect_short : Separator → Bool
detect_short short_start_sequence = true
detect_short start_sequence = true
detect_short _ = false

abbrev pub detect_long : Separator → Bool
detect_long long_start_sequence = true
detect_long start_sequence = true
detect_long _ = false

unfoldable pub start_sequence_match_succ : Match → ℕ → Separator → Match
start_sequence_match_succ no_match byte separator = if byte == 0 then first_zero else no_match
start_sequence_match_succ first_zero byte separator = if byte == 0 then second_zero else no_match
start_sequence_match_succ second_zero byte separator =
    if byte == 0 && detect_long separator
    then third_zero
    else if byte == 0 && detect_short separator
    then second_zero
    else if byte == 1 && detect_short separator
    then short_match
    else no_match
start_sequence_match_succ third_zero byte separator =
    if byte == 0 && detect_long separator
    then third_zero
    else if byte == 1 && detect_long separator
    then long_match
    else no_match
start_sequence_match_succ short_match byte separator = short_match
start_sequence_match_succ long_match byte separator = long_match

-- The loop over units with a length of four bytes before each, on the bytes from `index` on. A
-- round takes four bytes at least.
unfoldable pub split_lengths : ℕ → List ℕ → List (List ℕ)
split_lengths zero message = []
split_lengths (suc fuel) (b0 ∷ b1 ∷ b2 ∷ b3 ∷ b ∷ bytes) =
    let n = htonl (from_le32 b0 b1 b2 b3) in
    let rest = split_lengths fuel (drop n (b ∷ bytes)) in
    if ltb (length (b ∷ bytes)) n then [] else take n (b ∷ bytes) ∷ rest
split_lengths (suc fuel) _ = []

-- The loop up to the first start sequence: the bytes after it.
unfoldable pub skip_start : Separator → Match → List ℕ → List ℕ
unfolding start_sequence_match_succ
skip_start separator state [] = []
skip_start separator state (byte ∷ message) =
    let rest = skip_start separator (start_sequence_match_succ state byte separator) message in
    elim (start_sequence_match_succ state byte separator) [
      | short_match ↦ message
      | long_match ↦ message
      | _ ↦ rest
    ]

-- The loop over the bytes after the first start sequence, with the bytes of the unit so far. A
-- start sequence is cut off the end of its unit.
unfoldable pub split_units : Separator → Match → List ℕ → List ℕ → List (List ℕ)
unfolding start_sequence_match_succ
split_units separator state unit [] = unit ∷ []
split_units separator state unit (byte ∷ message) =
    let read = unit ++ byte ∷ [] in
    let next = split_units separator no_match [] message in
    let more =
      split_units separator (start_sequence_match_succ state byte separator) read message in
    elim (start_sequence_match_succ state byte separator) [
      | short_match ↦ take (length read - 3) read ∷ next
      | long_match ↦ take (length read - 4) read ∷ next
      | _ ↦ more
    ]

unfoldable pub split_message : Separator → List ℕ → List (List ℕ)
unfolding split_lengths skip_start split_units
split_message length_prefix message = split_lengths (length message) message
split_message separator message =
    split_units separator no_match [] (skip_start separator no_match message)

-- What `processOutgoingBinaryMessage` returns: packets, or the empty product.
pub data Product : Type 0 where
  packets : List (List ℕ) → Product
  empty_product : Product

-- The loop over the messages, after the packets that are made. `none` stands for fragments that do
-- not come to an end and for a write past the end of a packet.
unfoldable pub outgoing_from :
    Separator
    → ℕ
    → List (List ℕ)
    → List (List ℕ)
    → RtpPacketizationConfig
    → Option (Product × RtpPacketizationConfig)
unfolding split_message
outgoing_from separator max made [] c = some (packets made, c)
outgoing_from separator max made (message ∷ messages) c =
    generate_fragments max (split_message separator message) >>= λ fragments. elim fragments [
      | [] ↦ some (empty_product, c)
      | f ∷ fs ↦
          (packetize_all c (f ∷ fs) true >>= λ (new, c1).
          outgoing_from separator max (made ++ new) messages c1)
    ]

unfoldable pub process_outgoing_binary_message :
    Separator
    → ℕ
    → List (List ℕ)
    → RtpPacketizationConfig
    → Option (Product × RtpPacketizationConfig)
unfolding outgoing_from
process_outgoing_binary_message separator max messages c = outgoing_from separator max [] messages c
