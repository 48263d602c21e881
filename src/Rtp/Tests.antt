-- ===== src/Rtp/Tests.antt =====
-- Packets with and without an extension, and the theorems about packets at them.
use gstreamer_web_rtc.Prelude.{
  ℕ, ◌≡◌, refl, Bool, true, false, not, none, some, List, [], ◌∷◌, arith, take, drop, ◌-◌, ◌*◌,
  ◌==◌, ◌==◌, ◌>>=◌,
}
use gstreamer_web_rtc.Prelude.Text.{codes}
use gstreamer_web_rtc.Prelude.Word.{htons}
use gstreamer_web_rtc.Rtp.{
  set_payload_type, set_seq_number, set_timestamp, set_ssrc, set_marker, set_extension,
  prepare_packet, header_bytes, read_header, extension, csrc_count, get_size, extension_size,
  get_extension_header_size, get_body, write_at, clear_body, one_byte_header, write_one_byte_header,
}
use gstreamer_web_rtc.Rtp.Packetizer.{
  RtpPacketizationConfig, set_video_rotation, element_size, elements_size, rtp_ext_header_size,
  plain_header, header_length, write_element, write_elements, extension_header, packet_bytes,
  packetize_all,
}
use gstreamer_web_rtc.Rtp.Header.{Fits}
use gstreamer_web_rtc.Rtp.Packets.{Read}
use gstreamer_web_rtc.Rtp.Elements.{Named, elements, packet_bytes-elements}
use gstreamer_web_rtc.Rtp.Streams.{Aligned, Stream, packetize_all-Stream}

abbrev config : RtpPacketizationConfig
config = record {
  ssrc = 42;
  payload_type = 96;
  video_orientation_id = 0;
  sequence_number = 65535;
  timestamp = 1000;
  video_orientation = 0;
  mid_id = 0;
  mid = none;
  rid_id = 0;
  rid = none;
}

-- An element of four bytes, which leaves the second word of the extension half empty.
abbrev named : RtpPacketizationConfig
named = record config { mid_id = 1; mid = some (codes "video") }

-- The receiver takes the first two bytes of the payload for the extension.
cut_payload :
    (packet_bytes named (codes "payload") false >>= λ packet. get_body packet)
    ≡ some (codes "yload")
unfolding packet_bytes rtp_ext_header_size elements_size element_size set_video_rotation
    header_length plain_header set_payload_type set_seq_number set_timestamp set_ssrc set_marker
    set_extension prepare_packet write_elements write_element clear_body write_at
    write_one_byte_header one_byte_header extension_header header_bytes get_body read_header
    get_size csrc_count get_extension_header_size extension extension_size htons
cut_payload = refl

-- All three elements, seven bytes.
abbrev labelled : RtpPacketizationConfig
labelled = record config {
  video_orientation_id = 3;
  video_orientation = 1;
  mid_id = 1;
  mid = some (codes "v");
  rid_id = 2;
  rid = some (codes "hi");
}

labelled-Fits : Fits labelled
labelled-Fits = omega arith

labelled-Named : Named labelled
labelled-Named = record {
  media = (omega arith, omega arith, omega arith, omega arith);
  stream = (omega arith, omega arith, omega arith, omega arith);
}

labelled_size : elements_size labelled true ≡ 7
unfolding elements_size element_size set_video_rotation
labelled_size = refl

labelled_elements : elements labelled true ≡ 0x30 ∷ 1 ∷ 0x10 ∷ 0x76 ∷ 0x21 ∷ 0x68 ∷ 0x69 ∷ []
unfolding set_video_rotation
labelled_elements = refl

packet_bytes-elements_example :
    (packet : List ℕ) × (packet_bytes labelled (codes "payload") true ≡ some packet)
    × Read labelled true
        (not (elements_size labelled true == 0))
        (drop
          (header_length (elements_size labelled true) * 4 - elements_size labelled true)
          (codes "payload"))
        packet
    × (take (elements_size labelled true) (drop 16 packet) ≡ elements labelled true)
packet_bytes-elements_example =
    packet_bytes-elements labelled (codes "payload") true labelled-Fits labelled-Named
      (rw labelled_size (omega arith)) (rw labelled_size (unfold header_length in omega arith))

config-Fits : Fits config
config-Fits = omega arith

config_size : (marked : Bool) → elements_size config marked ≡ 0
unfolding elements_size element_size set_video_rotation
config_size marked = refl

config-Aligned : Aligned config
config-Aligned = record {
  words = λ marked. rw (config_size marked) (unfold header_length in refl);
  small = λ marked. rw (config_size marked) (omega arith);
}

packetize_all-Stream_example :
    (packets : List (List ℕ)) × (c' : RtpPacketizationConfig) × (packetize_all config
        (codes "one" ∷ codes "two" ∷ [])
        true
      ≡ some (packets, c'))
    × Stream config true (codes "one" ∷ codes "two" ∷ []) packets
packetize_all-Stream_example =
    packetize_all-Stream config (codes "one" ∷ codes "two" ∷ []) true config-Fits config-Aligned
