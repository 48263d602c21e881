-- ===== src/Rtcp.antt =====
-- include/rtc/rtp.hpp and src/rtp.cpp: RTCP packets. A record holds the numbers that stand in the
-- fields of a struct, as a little-endian host reads them from the memory.
pub mod Session
pub mod Remb
pub mod Reports
pub mod Tests
use gstreamer_web_rtc.Prelude.{
  ℕ, zero, suc, ◌+◌, ◌-◌, ◌*◌, ◌/◌, ◌%◌, Bool, true, false, not, ◌&&◌, ◌||◌, Option, none, some,
  List, [], ◌∷◌, ◌++◌, ltb, leb, ◌==◌, if◌then◌else◌, bit_and, bit_or,
}
use gstreamer_web_rtc.Prelude.Text.{codes}
use gstreamer_web_rtc.Prelude.Word.{u16, u32, htons, htonl, htonll, le16, le32}

pub record RtcpHeader : Type 0 where
  pub raw_first : ℕ
  pub raw_payload_type : ℕ
  pub raw_length : ℕ

unfoldable pub version : RtcpHeader → ℕ
version h = h.raw_first / 64

unfoldable pub padding : RtcpHeader → Bool
padding h = not (bit_and (h.raw_first / 32) 0x01 == 0)

unfoldable pub report_count : RtcpHeader → ℕ
report_count h = bit_and h.raw_first 0x1f

unfoldable pub payload_type : RtcpHeader → ℕ
payload_type h = h.raw_payload_type

unfoldable pub length_words : RtcpHeader → ℕ
length_words h = htons h.raw_length

unfoldable pub length_in_bytes : RtcpHeader → ℕ
unfolding length_words
length_in_bytes h = (1 + length_words h) * 4

unfoldable pub set_payload_type : ℕ → RtcpHeader → RtcpHeader
set_payload_type type h = record h { raw_payload_type = type }

unfoldable pub set_report_count : ℕ → RtcpHeader → RtcpHeader
set_report_count count h = record h {
  raw_first = bit_or (bit_and h.raw_first 0xe0) (bit_and count 0x1f);
}

unfoldable pub set_length : ℕ → RtcpHeader → RtcpHeader
set_length n h = record h { raw_length = htons n }

unfoldable pub prepare_header : ℕ → ℕ → ℕ → RtcpHeader → RtcpHeader
unfolding set_report_count set_payload_type set_length
prepare_header type count n h =
    set_length n (set_payload_type type (set_report_count count (record h { raw_first = 0x80 })))

pub record ReportBlock : Type 0 where
  pub raw_block_ssrc : ℕ
  pub raw_fraction_lost : ℕ
  pub raw_seq_no_cycles : ℕ
  pub raw_highest_seq_no : ℕ
  pub raw_jitter : ℕ
  pub raw_last_report : ℕ
  pub raw_delay : ℕ

unfoldable pub set_seq_no : ℕ → ℕ → ReportBlock → ReportBlock
set_seq_no highest cycles b = record b {
  raw_highest_seq_no = htons highest;
  raw_seq_no_cycles = htons cycles;
}

unfoldable pub set_jitter : ℕ → ReportBlock → ReportBlock
set_jitter n b = record b { raw_jitter = htonl n }

unfoldable pub set_block_ssrc : ℕ → ReportBlock → ReportBlock
set_block_ssrc n b = record b { raw_block_ssrc = htonl n }

-- The field has 32 bits, and `htonll` 64.
unfoldable pub set_ntp_of_sr : ℕ → ReportBlock → ReportBlock
set_ntp_of_sr ntp b = record b { raw_last_report = u32 (htonll (ntp / 65536)) }

unfoldable pub get_ntp_of_sr : ReportBlock → ℕ
get_ntp_of_sr b = u32 (htonl b.raw_last_report * 65536)

unfoldable pub set_delay_since_sr : ℕ → ReportBlock → ReportBlock
set_delay_since_sr n b = record b { raw_delay = htonl n }

unfoldable pub highest_seq_no : ReportBlock → ℕ
highest_seq_no b = htons b.raw_highest_seq_no

unfoldable pub seq_no_cycles : ReportBlock → ℕ
seq_no_cycles b = htons b.raw_seq_no_cycles

unfoldable pub jitter : ReportBlock → ℕ
jitter b = htonl b.raw_jitter

unfoldable pub delay_since_sr : ReportBlock → ℕ
delay_since_sr b = htonl b.raw_delay

unfoldable pub block_ssrc : ReportBlock → ℕ
block_ssrc b = htonl b.raw_block_ssrc

-- `preparePacket` of a report block; the packet counts are not used.
unfoldable pub prepare_block : ℕ → ℕ → ℕ → ℕ → ℕ → ℕ → ℕ → ℕ → ReportBlock → ReportBlock
unfolding set_seq_no set_jitter set_block_ssrc set_ntp_of_sr set_delay_since_sr
prepare_block ssrc packets_lost total_packets highest cycles jitter_ ntp delay b =
    set_delay_since_sr (u32 delay)
      (set_ntp_of_sr ntp (set_block_ssrc ssrc (set_jitter jitter_ (set_seq_no highest cycles b))))

-- A receiver report with one block.
pub record RtcpRr : Type 0 where
  pub header : RtcpHeader
  pub raw_sender_ssrc : ℕ
  pub block : ReportBlock

-- The sizes of the structs: a header has 4 bytes, a block 24.
unfoldable pub size_with_report_blocks : ℕ → ℕ
size_with_report_blocks count = 4 + 4 + count * 24

unfoldable pub prepare_rr : ℕ → ℕ → RtcpRr → RtcpRr
unfolding prepare_header size_with_report_blocks
prepare_rr ssrc count r = record r {
  header = prepare_header 201 count (u16 (size_with_report_blocks count / 4 - 1)) r.header;
  raw_sender_ssrc = htonl ssrc;
}

pub record RtcpSr : Type 0 where
  pub header : RtcpHeader
  pub raw_sender_ssrc : ℕ
  pub raw_ntp_timestamp : ℕ
  pub raw_rtp_timestamp : ℕ
  pub raw_packet_count : ℕ
  pub raw_octet_count : ℕ

unfoldable pub sr_size : ℕ → ℕ
sr_size count = 4 + 24 + count * 24

unfoldable pub prepare_sr : ℕ → ℕ → RtcpSr → RtcpSr
unfolding prepare_header
prepare_sr ssrc count r = record r {
  header = prepare_header 200 count (u16 ((4 + 24 + count * 24) / 4 - 1)) r.header;
  raw_sender_ssrc = htonl ssrc;
}

unfoldable pub set_ntp_timestamp : ℕ → RtcpSr → RtcpSr
set_ntp_timestamp n r = record r { raw_ntp_timestamp = htonll n }

unfoldable pub set_rtp_timestamp : ℕ → RtcpSr → RtcpSr
set_rtp_timestamp n r = record r { raw_rtp_timestamp = htonl n }

unfoldable pub set_packet_count : ℕ → RtcpSr → RtcpSr
set_packet_count n r = record r { raw_packet_count = htonl n }

unfoldable pub set_octet_count : ℕ → RtcpSr → RtcpSr
set_octet_count n r = record r { raw_octet_count = htonl n }

unfoldable pub sr_ntp_timestamp : RtcpSr → ℕ
sr_ntp_timestamp r = htonll r.raw_ntp_timestamp

unfoldable pub sr_rtp_timestamp : RtcpSr → ℕ
sr_rtp_timestamp r = htonl r.raw_rtp_timestamp

unfoldable pub sr_packet_count : RtcpSr → ℕ
sr_packet_count r = htonl r.raw_packet_count

unfoldable pub sr_octet_count : RtcpSr → ℕ
sr_octet_count r = htonl r.raw_octet_count

unfoldable pub sr_sender_ssrc : RtcpSr → ℕ
sr_sender_ssrc r = htonl r.raw_sender_ssrc

-- The feedback header, which is all of a PLI.
pub record RtcpFbHeader : Type 0 where
  pub header : RtcpHeader
  pub raw_packet_sender : ℕ
  pub raw_media_source : ℕ

unfoldable pub prepare_pli : ℕ → RtcpFbHeader → RtcpFbHeader
unfolding prepare_header
prepare_pli ssrc f = record f {
  header = prepare_header 206 1 2 f.header;
  raw_packet_sender = htonl ssrc;
  raw_media_source = htonl ssrc;
}

-- A request for an intra frame, with one part.
pub record RtcpFir : Type 0 where
  pub feedback : RtcpFbHeader
  pub raw_part_ssrc : ℕ
  pub part_seq_no : ℕ

unfoldable pub prepare_fir : ℕ → ℕ → RtcpFir → RtcpFir
unfolding prepare_header
prepare_fir ssrc seq_no f = record f {
  feedback = record f.feedback {
    header = prepare_header 206 4 4 f.feedback.header;
    raw_packet_sender = htonl ssrc;
    raw_media_source = htonl ssrc;
  };
  raw_part_ssrc = htonl ssrc;
  part_seq_no = seq_no;
}

-- An estimate of the bandwidth (REMB), with the memory of its list of sources.
pub record RtcpRemb : Type 0 where
  pub feedback : RtcpFbHeader
  pub id : List ℕ
  pub raw_bitrate : ℕ
  pub raw_ssrcs : ℕ → ℕ

-- The loop of `setBitrate`: exponent and mantissa. A number of 32 bits is halved 14 times at most.
unfoldable pub scale_bitrate : ℕ → ℕ → ℕ → ℕ × ℕ
scale_bitrate zero exponent bitrate = (exponent, bitrate)
scale_bitrate (suc fuel) exponent bitrate =
    let rest = scale_bitrate fuel (exponent + 1) (bitrate / 2) in
    if ltb 262143 bitrate then rest else (exponent, bitrate)

unfoldable pub bitrate_field : ℕ → ℕ × ℕ → ℕ
bitrate_field count (exponent, mantissa) =
    bit_or (bit_or (u32 (count * 16777216)) (u32 (exponent * 262144))) mantissa

unfoldable pub set_bitrate : ℕ → ℕ → RtcpRemb → RtcpRemb
unfolding set_length scale_bitrate bitrate_field
set_bitrate count bitrate r = record r {
  feedback = record r.feedback { header = set_length (u16 (4 + count)) r.feedback.header };
  raw_bitrate = htonl (bitrate_field count (scale_bitrate 32 0 bitrate));
}

unfoldable pub prepare_remb : ℕ → ℕ → ℕ → RtcpRemb → RtcpRemb
unfolding prepare_header set_bitrate
prepare_remb ssrc count bitrate r = set_bitrate count bitrate (record r {
  feedback = record r.feedback {
    header = prepare_header 206 15 0 r.feedback.header;
    raw_media_source = htonl 0;
    raw_packet_sender = htonl ssrc;
  };
  id = codes "REMB";
})

unfoldable pub set_remb_ssrc : ℕ → ℕ → RtcpRemb → RtcpRemb
set_remb_ssrc i ssrc r = record r { raw_ssrcs = λ j. if j == i then htonl ssrc else r.raw_ssrcs j }
