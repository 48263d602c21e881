-- ===== src/Rtcp/Reports.antt =====
-- What the reports of src/rtcpreceivingsession.cpp say.
use gstreamer_web_rtc.Prelude.{
  ℕ, ◌/◌, ◌%◌, ◌<◌, ◌≡◌, refl, ap, ◌∙◌, false, none, some, List, ◌==◌, if◌then◌else◌, bit_and,
  Bool-cases, inl, inr, arith,
}
use gstreamer_web_rtc.Prelude.Word.{
  u32, htonl, htonll, htons-htons, htonl-htonl, htonl-lt, bit_and-0x7f,
}
use gstreamer_web_rtc.Rtp.{RtpHeader, read_header, version, payload_type, ssrc}
use gstreamer_web_rtc.Rtcp.{
  ReportBlock, set_ntp_of_sr, prepare_block, block_ssrc, highest_seq_no, seq_no_cycles, jitter,
  delay_since_sr, set_seq_no, set_jitter, set_block_ssrc, set_delay_since_sr,
}
use gstreamer_web_rtc.Rtcp.Session.{Session, incoming_header, incoming_binary}

low_of_htonll : (x : ℕ) → u32 (htonll x) ≡ htonl (u32 (x / 4294967296))
unfolding htonll
low_of_htonll x = omega (arith, htonl-lt (u32 (x / 4294967296)))

-- A report block carries the source, the highest sequence number, the cycles and the jitter that it
-- was prepared with, and of the delay the low 32 bits. Of the time of the last sender report it has
-- the highest 16 bits alone, where RFC 3550 has the middle 32 bits. The two counts of packets are
-- not used: the fraction of lost packets stays what it was in the memory of the block.
pub prepare_block_read :
    (ssrc_ lost total highest cycles jitter_ ntp delay : ℕ) (b : ReportBlock)
    → ssrc_ < 4294967296
    → highest < 65536
    → cycles < 65536
    → jitter_ < 4294967296
    → ntp < 18446744073709551616
    → (let p = prepare_block ssrc_ lost total highest cycles jitter_ ntp delay b in
        (block_ssrc p ≡ ssrc_)
        × (highest_seq_no p ≡ highest)
        × (seq_no_cycles p ≡ cycles)
        × (jitter p ≡ jitter_)
        × (delay_since_sr p ≡ delay % 4294967296)
        × (htonl p.raw_last_report ≡ ntp / 281474976710656)
        × (p.raw_fraction_lost ≡ b.raw_fraction_lost))
unfolding prepare_block block_ssrc highest_seq_no seq_no_cycles jitter delay_since_sr set_seq_no
    set_jitter set_block_ssrc set_ntp_of_sr set_delay_since_sr
prepare_block_read ssrc_ lost total highest cycles jitter_ ntp delay b hs hh hc hj hn =
    let top : u32 (ntp / 65536 / 4294967296) ≡ ntp / 281474976710656 = omega (arith, hn) in
    let small : ntp / 281474976710656 < 4294967296 = omega (arith, hn) in
    (
      htonl-htonl ssrc_ hs,
      htons-htons highest hh,
      htons-htons cycles hc,
      htonl-htonl jitter_ hj,
      htonl-htonl (u32 delay) (omega arith),
      ap htonl (low_of_htonll (ntp / 65536) ∙ ap htonl top)
          ∙ htonl-htonl (ntp / 281474976710656) small,
      refl,
    )

-- The test for the types of reports never holds, since a payload type has seven bits: an incoming
-- binary message with an RTP header of version 2 is passed on, whatever its type, and any other is
-- refused.
pub incoming_binary_passes :
    (bytes : List ℕ) (h : RtpHeader) (s : Session)
    → read_header bytes ≡ some h
    → h.raw_payload_type < 256
    → incoming_binary bytes s
      ≡ some (if version h == 2 then (record s { ssrc = ssrc h }, some bytes) else (s, none))
unfolding incoming_binary incoming_header payload_type
incoming_binary_passes bytes h s r b =
    let masked = bit_and-0x7f h.raw_payload_type b in
    let not_rr : (bit_and h.raw_payload_type 0x7f == 201) ≡ false = ground (arith, masked) in
    let not_sr : (bit_and h.raw_payload_type 0x7f == 200) ≡ false = ground (arith, masked) in
    elim (Bool-cases (version h == 2)) [
      | inl two ↦ rw (r, two, not_rr, not_sr) refl
      | inr other ↦ rw (r, other) refl
    ]
