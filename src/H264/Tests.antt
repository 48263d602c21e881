-- ===== src/H264/Tests.antt =====
-- Messages of two units, and the packetizer's theorems at them.
use gstreamer_web_rtc.Prelude.{
  ℕ, ◌≡◌, ◌≤◌, refl, Bool, true, none, some, List, [], ◌∷◌, All, length, arith,
}
use gstreamer_web_rtc.Prelude.Text.{codes}
use gstreamer_web_rtc.Prelude.Word.{htonl}
use gstreamer_web_rtc.Nal.Carried.{Carries}
use gstreamer_web_rtc.Rtp.Packetizer.{
  RtpPacketizationConfig, elements_size, element_size, set_video_rotation, header_length,
}
use gstreamer_web_rtc.Rtp.Streams.{Aligned, Stream}
use gstreamer_web_rtc.H264.{
  length_prefix, start_sequence, split_message, split_lengths, packets,
  process_outgoing_binary_message,
}
use gstreamer_web_rtc.H264.Lengths.{with_lengths, split_message-with_lengths}
use gstreamer_web_rtc.H264.Sequences.{
  prevented, none_yet, short_of_any, long_of_any, with_sequences, split_message-with_sequences,
}
use gstreamer_web_rtc.H264.Outgoing.{outgoing_units}

abbrev small_unit : List ℕ
small_unit = 0x67 ∷ 1 ∷ 2 ∷ []

abbrev large_unit : List ℕ
large_unit = 0x65 ∷ 1 ∷ 0 ∷ 0 ∷ 3 ∷ 1 ∷ 6 ∷ 7 ∷ []

large_prevented : prevented none_yet large_unit ≡ true
unfolding prevented
large_prevented = refl

small_prevented : prevented none_yet small_unit ≡ true
unfolding prevented
small_prevented = refl

abbrev short_code : List ℕ
short_code = 0 ∷ 0 ∷ 1 ∷ []

abbrev long_code : List ℕ
long_code = 0 ∷ 0 ∷ 0 ∷ 1 ∷ []

split_message-with_sequences_example :
    split_message start_sequence
      (with_sequences ((long_code, small_unit) ∷ (short_code, large_unit) ∷ []))
    ≡ small_unit ∷ large_unit ∷ []
split_message-with_sequences_example =
    split_message-with_sequences start_sequence (long_code, small_unit)
      ((short_code, large_unit) ∷ [])
      ((long_of_any, small_prevented), ((short_of_any, large_prevented), tt))

split_message-with_lengths_example :
    split_message length_prefix (with_lengths (small_unit ∷ large_unit ∷ []))
    ≡ small_unit ∷ large_unit ∷ []
split_message-with_lengths_example =
    split_message-with_lengths (small_unit ∷ large_unit ∷ [])
      (((λ e. cc e), omega arith), (((λ e. cc e), omega arith), tt))

-- An empty unit at the end is refused, with four bytes of length left.
empty_last : split_message length_prefix (with_lengths (small_unit ∷ [] ∷ [])) ≡ small_unit ∷ []
unfolding split_message split_lengths with_lengths htonl
empty_last = refl

abbrev config : RtpPacketizationConfig
config = record {
  ssrc = 42;
  payload_type = 96;
  video_orientation_id = 0;
  sequence_number = 65535;
  timestamp = 1000;
  video_orientation = 0;
  mid_id = 1;
  mid = some (codes "mid");
  rid_id = 0;
  rid = none;
}

config_size : (marked : Bool) → elements_size config marked ≡ 4
unfolding elements_size element_size set_video_rotation
config_size marked = refl

config-Aligned : Aligned config
config-Aligned = record {
  words = λ marked. rw (config_size marked) (unfold header_length in refl);
  small = λ marked. rw (config_size marked) (omega arith);
}

-- With room for five bytes, the second unit is cut.
outgoing_units_example :
    (fragments sent : List (List ℕ)) × (c' : RtpPacketizationConfig)
    × (process_outgoing_binary_message length_prefix 5
          (with_lengths (small_unit ∷ large_unit ∷ []) ∷ [])
          config
        ≡ some (packets sent, c'))
    × Carries (small_unit ∷ large_unit ∷ []) fragments
    × All (λ f. length f ≤ 5) fragments
    × Stream config true fragments sent
outgoing_units_example =
    outgoing_units 5 small_unit (large_unit ∷ []) config (omega arith) (omega arith)
      (((λ e. cc e), omega arith), (((λ e. cc e), omega arith), tt)) (omega arith) (omega arith)
      config-Aligned
