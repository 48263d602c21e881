-- ===== src/Rtcp/Session.antt =====
-- src/rtcpreceivingsession.cpp: the receiving side of a media session. A message is its bytes, and a
-- read past their end has no result (`none`). The messages for the outgoing callback are a list; an
-- exception of the callback is caught.
use gstreamer_web_rtc.Prelude.{
  ℕ, ◌+◌, ◌*◌, Bool, true, not, ◌||◌, Option, none, some, List, [], ◌∷◌, ◌++◌, ltb, ◌==◌,
  if◌then◌else◌, ◌>>=◌,
}
use gstreamer_web_rtc.Prelude.Word.{u16, htonl, htonll, from_le32}
use gstreamer_web_rtc.Rtp.{RtpHeader, read_header, version, payload_type, ssrc}
use gstreamer_web_rtc.Rtcp.{
  RtcpHeader, ReportBlock, RtcpRr, RtcpFbHeader, RtcpRemb, prepare_rr, prepare_block, prepare_remb,
  set_remb_ssrc, prepare_pli,
}

pub data Control : Type 0 where
  receiver_report : RtcpRr → Control
  bandwidth : RtcpRemb → Control
  picture_loss : RtcpFbHeader → Control

pub record Session : Type 0 where
  pub ssrc : ℕ
  pub sync_rtp_ts : ℕ
  pub sync_ntp_ts : ℕ
  pub greatest_seq_no : ℕ
  pub requested_bitrate : ℕ
  pub sent : List Control

-- The zeros of a new message.
abbrev pub zero_header : RtcpHeader
zero_header = record { raw_first = 0; raw_payload_type = 0; raw_length = 0 }

abbrev pub zero_feedback : RtcpFbHeader
zero_feedback = record { header = zero_header; raw_packet_sender = 0; raw_media_source = 0 }

abbrev pub zero_block : ReportBlock
zero_block = record {
  raw_block_ssrc = 0;
  raw_fraction_lost = 0;
  raw_seq_no_cycles = 0;
  raw_highest_seq_no = 0;
  raw_jitter = 0;
  raw_last_report = 0;
  raw_delay = 0;
}

unfoldable pub send : Control → Session → Session
send message s = record s { sent = s.sent ++ message ∷ [] }

unfoldable pub push_remb : ℕ → Session → Session
unfolding prepare_remb set_remb_ssrc send
push_remb bitrate s =
    let zeros : RtcpRemb = record {
      feedback = zero_feedback;
      id = 0 ∷ 0 ∷ 0 ∷ 0 ∷ [];
      raw_bitrate = 0;
      raw_ssrcs = λ i. 0;
    } in
    send (bandwidth (set_remb_ssrc 0 s.ssrc (prepare_remb s.ssrc 1 bitrate zeros))) s

unfoldable pub push_rr : ℕ → Session → Session
unfolding prepare_rr prepare_block send
push_rr delay s =
    let zeros : RtcpRr = record { header = zero_header; raw_sender_ssrc = 0; block = zero_block } in
    let rr = prepare_rr s.ssrc 1 zeros in
    send
      (receiver_report (record rr {
        block = prepare_block s.ssrc 0 0 (u16 s.greatest_seq_no) 0 0 s.sync_ntp_ts delay rr.block;
      }))
      s

unfoldable pub push_pli : Session → Session
unfolding prepare_pli send
push_pli s = send (picture_loss (prepare_pli s.ssrc zero_feedback)) s

unfoldable pub request_keyframe : Session → Session × Bool
unfolding push_pli
request_keyframe s = (push_pli s, true)

unfoldable pub request_bitrate : ℕ → Session → Session
unfolding push_remb
request_bitrate bitrate s = push_remb bitrate (record s { requested_bitrate = bitrate })

-- The type and the sender of a report, and the two timestamps of a sender report.
unfoldable pub report_head : List ℕ → Option (ℕ × ℕ)
report_head (first ∷ type ∷ l0 ∷ l1 ∷ s0 ∷ s1 ∷ s2 ∷ s3 ∷ bytes) =
    some (type, htonl (from_le32 s0 s1 s2 s3))
report_head _ = none

unfoldable pub sr_timestamps : List ℕ → Option (ℕ × ℕ)
sr_timestamps
      (_ ∷ _ ∷ _ ∷ _ ∷ _ ∷ _ ∷ _ ∷ _ ∷ a ∷ b ∷ c ∷ d ∷ e ∷ f ∷ g ∷ h ∷ r0 ∷ r1 ∷ r2 ∷ r3 ∷ bytes) =
    some
      (htonll (from_le32 a b c d + from_le32 e f g h * 4294967296), htonl (from_le32 r0 r1 r2 r3))
sr_timestamps _ = none

unfoldable pub incoming_header : RtpHeader → List ℕ → Session → Session × Option (List ℕ)
incoming_header h bytes s =
    if not (version h == 2)
    then (s, none)
    else if payload_type h == 201 || payload_type h == 200
    then (s, none)
    else (record s { ssrc = ssrc h }, some bytes)

unfoldable pub incoming_binary : List ℕ → Session → Option (Session × Option (List ℕ))
unfolding incoming_header
incoming_binary bytes s = read_header bytes >>= λ h. some (incoming_header h bytes s)

unfoldable pub answer_sr : ℕ × ℕ → Session → Session
unfolding push_rr push_remb
answer_sr (ntp, rtp) s =
    let s1 = push_rr 0 (record s { sync_rtp_ts = rtp; sync_ntp_ts = ntp }) in
    if ltb 0 s1.requested_bitrate then push_remb s1.requested_bitrate s1 else s1

unfoldable pub incoming_report : List ℕ → ℕ × ℕ → Session → Option Session
unfolding answer_sr
incoming_report bytes (type, sender) s =
    if type == 201
    then some (record s { ssrc = sender })
    else if type == 200
    then (sr_timestamps bytes >>= λ times. some (answer_sr times (record s { ssrc = sender })))
    else some s

-- A control message is not passed on.
unfoldable pub incoming_control : List ℕ → Session → Option (Session × Option (List ℕ))
unfolding incoming_report
incoming_control bytes s =
    report_head bytes >>= λ head. incoming_report bytes head s >>= λ s1. some (s1, none)
