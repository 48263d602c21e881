-- ===== src/Rtp.antt =====
-- include/rtc/rtp.hpp and src/rtp.cpp: the RTP header and its extension. A record holds the numbers
-- that stand in the fields of the struct, as a little-endian host reads them from the memory. A
-- packet is the list of its bytes, and a read or write past its end has no result (`none`).
pub mod Header
pub mod Packetizer
pub mod Packets
pub mod Elements
pub mod Streams
pub mod Tests
use gstreamer_web_rtc.Prelude.{
  ℕ, zero, suc, ◌+◌, ◌-◌, ◌*◌, ◌/◌, ◌%◌, Bool, true, false, not, ◌&&◌, ◌||◌, Option, none, some,
  List, [], ◌∷◌, ◌++◌, ltb, leb, ◌==◌, if◌then◌else◌, length, take, drop, replicate, bit_and,
  bit_or, ◌>>=◌,
}
use gstreamer_web_rtc.Prelude.Word.{u8, to_ℕ, htons, htonl, le16, le32, from_le16, from_le32}

pub record RtpHeader : Type 0 where
  pub raw_first : ℕ
  pub raw_payload_type : ℕ
  pub raw_seq_number : ℕ
  pub raw_timestamp : ℕ
  pub raw_ssrc : ℕ

unfoldable pub version : RtpHeader → ℕ
version h = h.raw_first / 64

unfoldable pub padding : RtpHeader → Bool
padding h = not (bit_and (h.raw_first / 32) 0x01 == 0)

unfoldable pub extension : RtpHeader → Bool
extension h = not (bit_and (h.raw_first / 16) 0x01 == 0)

unfoldable pub csrc_count : RtpHeader → ℕ
csrc_count h = bit_and h.raw_first 0x0f

unfoldable pub marker : RtpHeader → ℕ
marker h = bit_and h.raw_payload_type 0x80

unfoldable pub payload_type : RtpHeader → ℕ
payload_type h = bit_and h.raw_payload_type 0x7f

unfoldable pub seq_number : RtpHeader → ℕ
seq_number h = htons h.raw_seq_number

unfoldable pub timestamp : RtpHeader → ℕ
timestamp h = htonl h.raw_timestamp

unfoldable pub ssrc : RtpHeader → ℕ
ssrc h = htonl h.raw_ssrc

-- The header with its contributing sources.
unfoldable pub get_size : RtpHeader → ℕ
unfolding csrc_count
get_size h = 12 + csrc_count h * 4

unfoldable pub prepare_packet : RtpHeader → RtpHeader
prepare_packet h = record h { raw_first = bit_or h.raw_first 0x80 }

unfoldable pub set_seq_number : ℕ → RtpHeader → RtpHeader
set_seq_number n h = record h { raw_seq_number = htons n }

unfoldable pub set_payload_type : ℕ → RtpHeader → RtpHeader
set_payload_type type h = record h {
  raw_payload_type = bit_or (bit_and h.raw_payload_type 0x80) (bit_and 0x7f type);
}

unfoldable pub set_ssrc : ℕ → RtpHeader → RtpHeader
set_ssrc n h = record h { raw_ssrc = htonl n }

unfoldable pub set_marker : Bool → RtpHeader → RtpHeader
set_marker b h = record h {
  raw_payload_type = bit_or (bit_and h.raw_payload_type 0x7f) (to_ℕ b * 128);
}

unfoldable pub set_timestamp : ℕ → RtpHeader → RtpHeader
set_timestamp n h = record h { raw_timestamp = htonl n }

unfoldable pub set_extension : Bool → RtpHeader → RtpHeader
set_extension b h = record h { raw_first = bit_or (bit_and h.raw_first 0xef) (to_ℕ b * 16) }

-- The header at the start of a packet.
unfoldable pub header_bytes : RtpHeader → List ℕ
header_bytes h =
    h.raw_first
    ∷ h.raw_payload_type
    ∷ (le16 h.raw_seq_number ++ (le32 h.raw_timestamp ++ le32 h.raw_ssrc))

unfoldable pub read_header : List ℕ → Option RtpHeader
read_header (f ∷ p ∷ s0 ∷ s1 ∷ t0 ∷ t1 ∷ t2 ∷ t3 ∷ c0 ∷ c1 ∷ c2 ∷ c3 ∷ bytes) = some (record {
  raw_first = f;
  raw_payload_type = p;
  raw_seq_number = from_le16 s0 s1;
  raw_timestamp = from_le32 t0 t1 t2 t3;
  raw_ssrc = from_le32 c0 c1 c2 c3;
})
read_header _ = none

-- The body of an extension as its header gives it: a number of words.
unfoldable pub extension_size : List ℕ → Option ℕ
extension_size (p0 ∷ p1 ∷ l0 ∷ l1 ∷ bytes) = some (htons (from_le16 l0 l1) * 4)
extension_size _ = none

unfoldable pub get_extension_header_size : RtpHeader → List ℕ → Option ℕ
unfolding extension get_size extension_size
get_extension_header_size h packet =
    if extension h
    then (extension_size (drop (get_size h) packet) >>= λ n. some (n + 4))
    else some 0

unfoldable pub get_body : List ℕ → Option (List ℕ)
unfolding read_header get_size get_extension_header_size
get_body packet = read_header packet >>= λ h.
    get_extension_header_size h packet >>= λ n. some (drop (get_size h + n) packet)

-- `memcpy` into the bytes from `offset` on.
unfoldable pub write_at : ℕ → List ℕ → List ℕ → Option (List ℕ)
write_at offset value memory =
    if leb (offset + length value) (length memory)
    then some (take offset memory ++ value ++ drop (offset + length value) memory)
    else none

-- `clearBody`, for a body of `size` bytes.
unfoldable pub clear_body : ℕ → List ℕ → Option (List ℕ)
unfolding write_at
clear_body size memory = write_at 0 (replicate size 0) memory

-- `writeOneByteHeader`, into the memory from the body on, for a body of `size` bytes.
unfoldable pub one_byte_header : ℕ → ℕ → ℕ
one_byte_header id n = if n == 1 then u8 (id * 16) else bit_or (u8 (id * 16)) (u8 (u8 n + 255))

unfoldable pub write_one_byte_header : ℕ → ℕ → ℕ → List ℕ → List ℕ → Option (List ℕ)
unfolding one_byte_header write_at
write_one_byte_header size offset id value memory =
    let n = length value in
    if id == 0 || ltb 14 id || n == 0 || ltb 16 n || ltb size (offset + 1 + n)
    then some memory
    else write_at offset (one_byte_header id n ∷ value) memory

unfoldable pub write_current_video_orientation : ℕ → ℕ → ℕ → ℕ → List ℕ → Option (List ℕ)
unfolding write_one_byte_header
write_current_video_orientation size offset id value memory =
    write_one_byte_header size offset id (value ∷ []) memory
