-- ===== src/Rtp/Header.antt =====
-- The RTP header of src/rtp.cpp: what the setters of a packetizer store is read back.
use gstreamer_web_rtc.Prelude.{
  ℕ, ◌+◌, ◌*◌, ◌/◌, ◌%◌, ◌<◌, ◌≡◌, refl, sym, ap, subst, ◌∙◌, Bool, true, false, some, List, ◌++◌,
  bit_and, bit_or, arith,
}
use gstreamer_web_rtc.Prelude.Word.{
  all_below, agree_below, bit_and-0x7f, bit_and-0x80, from_le16, from_le32, htons, htonl,
  htons-htons, htonl-htonl, htons-lt, htonl-lt, to_ℕ,
}
use gstreamer_web_rtc.Rtp.{
  RtpHeader, version, extension, csrc_count, marker, payload_type, seq_number, timestamp, ssrc,
  get_size, set_payload_type, set_seq_number, set_timestamp, set_ssrc, set_marker, set_extension,
  prepare_packet, header_bytes, read_header,
}
use gstreamer_web_rtc.Rtp.Packetizer.{RtpPacketizationConfig, plain_header}

-- A configuration whose numbers fit their fields.
pub record Fits (c : RtpPacketizationConfig) : Type 0 where
  pub payload_type-fits : c.payload_type < 128
  pub sequence_number-fits : c.sequence_number < 65536
  pub timestamp-fits : c.timestamp < 4294967296
  pub ssrc-fits : c.ssrc < 4294967296

-- What a receiver reads from the header of a packet.
pub record Describes (c : RtpPacketizationConfig) (marked extended : Bool) (h : RtpHeader)
    : Type 0 where
  pub version-two : version h ≡ 2
  pub extension-bit : extension h ≡ extended
  pub no_csrc : get_size h ≡ 12
  pub marker-bit : marker h ≡ to_ℕ marked * 128
  pub payload_type-read : payload_type h ≡ c.payload_type
  pub seq_number-read : seq_number h ≡ c.sequence_number
  pub timestamp-read : timestamp h ≡ c.timestamp
  pub ssrc-read : ssrc h ≡ c.ssrc

from_le16-le16 : (x : ℕ) → x < 65536 → from_le16 (x % 256) (x / 256 % 256) ≡ x
from_le16-le16 x h = omega arith

from_le32-le32 :
    (x : ℕ)
    → x < 4294967296
    → from_le32 (x % 256) (x / 256 % 256) (x / 65536 % 256) (x / 16777216 % 256) ≡ x
from_le32-le32 x h = omega arith

-- The header of a packet is read back whole.
pub read_header-header_bytes :
    (h : RtpHeader) (rest : List ℕ)
    → h.raw_seq_number < 65536
    → h.raw_timestamp < 4294967296
    → h.raw_ssrc < 4294967296
    → read_header (header_bytes h ++ rest) ≡ some h
unfolding read_header header_bytes
read_header-header_bytes h rest s t c =
    let s' = from_le16-le16 h.raw_seq_number s in
    let t' = from_le32-le32 h.raw_timestamp t in
    let c' = from_le32-le32 h.raw_ssrc c in
    λ i. some (record {
      raw_first = h.raw_first;
      raw_payload_type = h.raw_payload_type;
      raw_seq_number = s' i;
      raw_timestamp = t' i;
      raw_ssrc = c' i;
    })

-- The byte of the marker and the payload type.
type_byte : (x : ℕ) → x < 128 → bit_or (bit_and 0 0x80) (bit_and 0x7f x) ≡ x
unfolding all_below
type_byte = agree_below 128 (λ x. bit_or (bit_and 0 0x80) (bit_and 0x7f x)) (λ x. x) refl

marked_byte : (x : ℕ) → x < 128 → bit_or (bit_and x 0x7f) 128 ≡ x + 128
unfolding all_below
marked_byte = agree_below 128 (λ x. bit_or (bit_and x 0x7f) 128) (λ x. x + 128) refl

-- The header that the packetizer fills in.
abbrev filled : RtpPacketizationConfig → ℕ → ℕ → RtpHeader
filled c first type = record {
  raw_first = first;
  raw_payload_type = type;
  raw_seq_number = htons c.sequence_number;
  raw_timestamp = htonl c.timestamp;
  raw_ssrc = htonl c.ssrc;
}

plain-filled :
    (c : RtpPacketizationConfig) (marked : Bool)
    → Fits c
    → plain_header c marked ≡ filled c 0 (c.payload_type + to_ℕ marked * 128)
unfolding plain_header set_payload_type set_seq_number set_timestamp set_ssrc set_marker
plain-filled c false f =
    let byte : bit_or (bit_and 0 0x80) (bit_and 0x7f c.payload_type) ≡ c.payload_type + 0 =
      type_byte c.payload_type f.payload_type-fits ∙ omega arith in
    λ i. filled c 0 (byte i)
plain-filled c true f =
    let byte : bit_or (bit_and (bit_or (bit_and 0 0x80) (bit_and 0x7f c.payload_type)) 0x7f) 128
        ≡ c.payload_type + 128 =
      ap (λ x. bit_or (bit_and x 0x7f) 128) (type_byte c.payload_type f.payload_type-fits)
      ∙ marked_byte c.payload_type f.payload_type-fits in
    λ i. filled c 0 (byte i)

type_read : (x : ℕ) (marked : Bool) → x < 128 → bit_and (x + to_ℕ marked * 128) 0x7f ≡ x
type_read x false h = bit_and-0x7f (x + 0) (omega arith) ∙ omega (arith, h)
type_read x true h = bit_and-0x7f (x + 128) (omega arith) ∙ omega (arith, h)

marker_read :
    (x : ℕ) (marked : Bool) → x < 128 → bit_and (x + to_ℕ marked * 128) 0x80 ≡ to_ℕ marked * 128
marker_read x false h = bit_and-0x80 (x + 0) (omega arith) ∙ omega (arith, h)
marker_read x true h = bit_and-0x80 (x + 128) (omega arith) ∙ omega (arith, h)

filled-Describes :
    (c : RtpPacketizationConfig) (marked extended : Bool)
    → Fits c
    → Describes c marked extended
        (filled c (128 + to_ℕ extended * 16) (c.payload_type + to_ℕ marked * 128))
unfolding version extension get_size csrc_count marker payload_type seq_number timestamp ssrc
filled-Describes c marked false f = record {
  version-two = refl;
  extension-bit = refl;
  no_csrc = refl;
  marker-bit = marker_read c.payload_type marked f.payload_type-fits;
  payload_type-read = type_read c.payload_type marked f.payload_type-fits;
  seq_number-read = htons-htons c.sequence_number f.sequence_number-fits;
  timestamp-read = htonl-htonl c.timestamp f.timestamp-fits;
  ssrc-read = htonl-htonl c.ssrc f.ssrc-fits;
}
filled-Describes c marked true f = record {
  version-two = refl;
  extension-bit = refl;
  no_csrc = refl;
  marker-bit = marker_read c.payload_type marked f.payload_type-fits;
  payload_type-read = type_read c.payload_type marked f.payload_type-fits;
  seq_number-read = htons-htons c.sequence_number f.sequence_number-fits;
  timestamp-read = htonl-htonl c.timestamp f.timestamp-fits;
  ssrc-read = htonl-htonl c.ssrc f.ssrc-fits;
}

-- The header without and with an extension.
abbrev pub finished : RtpPacketizationConfig → Bool → Bool → RtpHeader
finished c marked false = prepare_packet (plain_header c marked)
finished c marked true = prepare_packet (set_extension true (plain_header c marked))

finished-filled :
    (c : RtpPacketizationConfig) (marked extended : Bool)
    → Fits c
    → finished c marked extended
      ≡ filled c (128 + to_ℕ extended * 16) (c.payload_type + to_ℕ marked * 128)
unfolding prepare_packet set_extension
finished-filled c marked false f = ap (λ h. prepare_packet h) (plain-filled c marked f)
finished-filled c marked true f =
    ap (λ h. prepare_packet (set_extension true h)) (plain-filled c marked f)

-- The fields that a packetizer stores are read back by a receiver.
pub finished-Describes :
    (c : RtpPacketizationConfig) (marked extended : Bool)
    → Fits c
    → Describes c marked extended (finished c marked extended)
finished-Describes c marked extended f =
    subst (λ h. Describes c marked extended h) (sym (finished-filled c marked extended f))
      (filled-Describes c marked extended f)

pub read_header-finished :
    (c : RtpPacketizationConfig) (marked extended : Bool) (rest : List ℕ)
    → Fits c
    → read_header (header_bytes (finished c marked extended) ++ rest)
      ≡ some (finished c marked extended)
read_header-finished c marked extended rest f =
    subst (λ h. read_header (header_bytes h ++ rest) ≡ some h)
      (sym (finished-filled c marked extended f))
      (read_header-header_bytes
        (filled c (128 + to_ℕ extended * 16) (c.payload_type + to_ℕ marked * 128)) rest
        (htons-lt c.sequence_number) (htonl-lt c.timestamp) (htonl-lt c.ssrc))
