-- ===== src/Rtp/Packetizer.antt =====
-- src/rtppacketizer.cpp and src/rtppacketizationconfig.cpp: RTP packets from payloads.
use gstreamer_web_rtc.Prelude.{
  ℕ, ◌+◌, ◌*◌, ◌/◌, Bool, true, false, not, ◌&&◌, Option, none, some, List, [], ◌∷◌, ◌++◌, ltb,
  ◌==◌, if◌then◌else◌, length, replicate, ◌>>=◌,
}
use gstreamer_web_rtc.Prelude.Word.{u16, htons, le16}
use gstreamer_web_rtc.Rtp.{
  RtpHeader, set_payload_type, set_seq_number, set_timestamp, set_ssrc, set_marker, set_extension,
  prepare_packet, header_bytes, clear_body, write_one_byte_header, write_current_video_orientation,
  write_at,
}

pub record RtpPacketizationConfig : Type 0 where
  pub ssrc : ℕ
  pub payload_type : ℕ
  pub video_orientation_id : ℕ
  pub sequence_number : ℕ
  pub timestamp : ℕ
  pub video_orientation : ℕ
  pub mid_id : ℕ
  pub mid : Option (List ℕ)
  pub rid_id : ℕ
  pub rid : Option (List ℕ)

unfoldable pub set_video_rotation : RtpPacketizationConfig → Bool → Bool
set_video_rotation c set_mark =
    not (c.video_orientation_id == 0)
    && ltb c.video_orientation_id 15
    && set_mark
    && not (c.video_orientation == 0)

unfoldable pub element_size : Option (List ℕ) → ℕ
element_size none = 0
element_size (some value) = 1 + length value

-- The bytes of the elements, and `rtpExtHeaderSize`.
unfoldable pub elements_size : RtpPacketizationConfig → Bool → ℕ
unfolding set_video_rotation element_size
elements_size c set_mark =
    (if set_video_rotation c set_mark then 2 else 0) + element_size c.mid + element_size c.rid

unfoldable pub rtp_ext_header_size : RtpPacketizationConfig → Bool → ℕ
unfolding elements_size
rtp_ext_header_size c set_mark =
    let size = elements_size c set_mark in if size == 0 then 0 else size + 4

-- The header before its extension bit and its version are set.
unfoldable pub plain_header : RtpPacketizationConfig → Bool → RtpHeader
unfolding set_payload_type set_seq_number set_timestamp set_ssrc set_marker
plain_header c set_mark =
    let zeros : RtpHeader = record {
      raw_first = 0;
      raw_payload_type = 0;
      raw_seq_number = 0;
      raw_timestamp = 0;
      raw_ssrc = 0;
    } in
    let h = set_ssrc c.ssrc (
      set_timestamp c.timestamp
        (set_seq_number c.sequence_number (set_payload_type c.payload_type zeros))) in
    if set_mark then set_marker true h else h

-- The number of words of the extension.
unfoldable pub header_length : ℕ → ℕ
header_length size = u16 ((u16 size + 3) / 4)

unfoldable pub write_element : ℕ → ℕ → ℕ → Option (List ℕ) → List ℕ → Option (List ℕ)
unfolding write_one_byte_header
write_element size offset id none memory = some memory
write_element size offset id (some value) memory = write_one_byte_header size offset id value memory

-- The elements of an extension whose body has `size` bytes, in the memory from the body on.
unfoldable pub write_elements : RtpPacketizationConfig → Bool → ℕ → List ℕ → Option (List ℕ)
unfolding set_video_rotation element_size write_element write_current_video_orientation clear_body
write_elements c set_mark size memory =
    let rotation = set_video_rotation c set_mark in
    let mid_offset = if rotation then 2 else 0 in
    clear_body size memory >>= λ cleared.
    (if rotation
      then write_current_video_orientation size 0 c.video_orientation_id c.video_orientation cleared
      else some cleared)
    >>= λ rotated. write_element size mid_offset c.mid_id c.mid rotated >>= λ named.
        write_element size (mid_offset + element_size c.mid) c.rid_id c.rid named

-- The header of the extension.
unfoldable pub extension_header : ℕ → List ℕ
extension_header words = le16 (htons 0xbede) ++ le16 (htons words)

-- The packet: its header, and the zeros of the memory after it, in which the extension and the
-- payload are written.
unfoldable pub packet_bytes : RtpPacketizationConfig → List ℕ → Bool → Option (List ℕ)
unfolding rtp_ext_header_size elements_size plain_header header_length write_elements
    extension_header write_at header_bytes set_extension prepare_packet
packet_bytes c payload set_mark =
    let size = elements_size c set_mark in
    let words = header_length size in
    let zeros = replicate (size + length payload) 0 in
    let h = plain_header c set_mark in
    if rtp_ext_header_size c set_mark == 0
    then (write_at 0 payload zeros >>= λ rest. some (header_bytes (prepare_packet h) ++ rest))
    else (write_elements c set_mark (words * 4) zeros >>= λ written.
        write_at size payload written >>= λ rest.
        some (
          header_bytes (prepare_packet (set_extension true h)) ++ (extension_header words ++ rest)))

unfoldable pub packetize :
    RtpPacketizationConfig → List ℕ → Bool → Option (List ℕ × RtpPacketizationConfig)
unfolding packet_bytes
packetize c payload set_mark = packet_bytes c payload set_mark >>= λ bytes.
    some (bytes, record c { sequence_number = u16 (c.sequence_number + 1) })

-- A list of payloads in turn; the last one is marked if `set_mark` holds.
unfoldable pub packetize_all :
    RtpPacketizationConfig → List (List ℕ) → Bool → Option (List (List ℕ) × RtpPacketizationConfig)
unfolding packetize
packetize_all c [] set_mark = some ([], c)
packetize_all c (payload ∷ []) set_mark =
    packetize c payload set_mark >>= λ (packet, c1). some (packet ∷ [], c1)
packetize_all c (payload ∷ next ∷ payloads) set_mark = packetize c payload false >>= λ (packet, c1).
    packetize_all c1 (next ∷ payloads) set_mark >>= λ (packets, c2). some (packet ∷ packets, c2)
