-- ===== src/Rtcp/Tests.antt =====
-- Reports and bitrates at concrete values.
use gstreamer_web_rtc.Prelude.{
  ℕ, ◌≡◌, refl, none, some, List, [], ◌∷◌, ◌+◌, ◌/◌, ◌%◌, ◌≤◌, ◌<◌, ◌⊎◌, ◌==◌, if◌then◌else◌, arith,
}
use gstreamer_web_rtc.Prelude.Word.{htonl}
use gstreamer_web_rtc.Rtp.{RtpHeader, read_header, version, ssrc}
use gstreamer_web_rtc.Rtcp.{
  RtcpRemb, prepare_block, block_ssrc, highest_seq_no, seq_no_cycles, jitter, delay_since_sr,
  set_bitrate, scale_bitrate,
}
use gstreamer_web_rtc.Rtcp.Session.{Session, zero_block, zero_feedback, incoming_binary}
use gstreamer_web_rtc.Rtcp.Remb.{shifted, set_bitrate_read}
use gstreamer_web_rtc.Rtcp.Reports.{prepare_block_read, incoming_binary_passes}

abbrev remb : RtcpRemb
remb = record { feedback = zero_feedback; id = []; raw_bitrate = 0; raw_ssrcs = λ i. 0 }

-- One megabit.
megabit : scale_bitrate 32 0 1000000 ≡ (2, 250000)
unfolding scale_bitrate
megabit = refl

set_bitrate_read_example :
    (let field = htonl (set_bitrate 1 1000000 remb).raw_bitrate in
      let exponent = field / 262144 % 64 in
      let mantissa = field % 262144 in
      (field / 16777216 ≡ 1)
      × (exponent ≤ 14)
      × (shifted exponent mantissa ≤ 1000000)
      × (1000000 < shifted exponent (mantissa + 1))
      × ((exponent ≡ 0) ⊎ (131072 ≤ mantissa)))
set_bitrate_read_example = set_bitrate_read 1 1000000 remb (omega arith) (omega arith)

prepare_block_read_example :
    (let p = prepare_block 42 9 10 7 0 3 5000000000000000 4294967297 zero_block in
      (block_ssrc p ≡ 42)
      × (highest_seq_no p ≡ 7)
      × (seq_no_cycles p ≡ 0)
      × (jitter p ≡ 3)
      × (delay_since_sr p ≡ 1)
      × (htonl p.raw_last_report ≡ 17)
      × (p.raw_fraction_lost ≡ 0))
prepare_block_read_example =
    prepare_block_read 42 9 10 7 0 3 5000000000000000 4294967297 zero_block (omega arith)
      (omega arith) (omega arith) (omega arith) (omega arith)

abbrev session : Session
session = record {
  ssrc = 0;
  sync_rtp_ts = 0;
  sync_ntp_ts = 0;
  greatest_seq_no = 0;
  requested_bitrate = 0;
  sent = [];
}

-- A receiver report of RTCP, type 201, that arrives as a binary message.
abbrev report : List ℕ
report = 0x80 ∷ 201 ∷ 0 ∷ 1 ∷ 0 ∷ 0 ∷ 0 ∷ 42 ∷ 0 ∷ 0 ∷ 0 ∷ 0 ∷ []

abbrev report_header : RtpHeader
report_header = record {
  raw_first = 0x80;
  raw_payload_type = 201;
  raw_seq_number = 256;
  raw_timestamp = 704643072;
  raw_ssrc = 0;
}

report_read : read_header report ≡ some report_header
unfolding read_header
report_read = refl

incoming_binary_passes_example :
    incoming_binary report session
    ≡ some (
        if version report_header == 2
        then (record session { ssrc = ssrc report_header }, some report)
        else (session, none))
incoming_binary_passes_example =
    incoming_binary_passes report report_header session report_read (omega arith)
