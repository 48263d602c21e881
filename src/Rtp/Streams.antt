-- ===== src/Rtp/Streams.antt =====
-- The packets that src/rtppacketizer.cpp makes for several payloads.
use gstreamer_web_rtc.Prelude.{
  ℕ, ◌+◌, ◌*◌, ◌-◌, ◌<◌, ◌≡◌, refl, sym, subst, Bool, false, not, some, List, [], ◌∷◌, ◌==◌, drop,
  arith,
}
use gstreamer_web_rtc.Prelude.Word.{u16}
use gstreamer_web_rtc.Rtp.Packetizer.{
  RtpPacketizationConfig, elements_size, header_length, packetize, packetize_all,
  set_video_rotation,
}
use gstreamer_web_rtc.Rtp.Header.{Fits}
use gstreamer_web_rtc.Rtp.Packets.{Read, packet_bytes-Read}

-- A configuration without an extension, or with elements that fill their words, for packets with
-- the marker and without it.
pub record Aligned (c : RtpPacketizationConfig) : Type 0 where
  pub words : (marked : Bool) → header_length (elements_size c marked) * 4 ≡ elements_size c marked
  pub small : (marked : Bool) → elements_size c marked < 65536

abbrev pub next_config : RtpPacketizationConfig → RtpPacketizationConfig
next_config c = record c { sequence_number = u16 (c.sequence_number + 1) }

-- Packets that carry payloads: a receiver reads each payload back, under consecutive sequence
-- numbers modulo 2 ^ 16, and only the last packet may have the marker.
abbrev pub Stream : RtpPacketizationConfig → Bool → List (List ℕ) → List (List ℕ) → Type 0
Stream c marked [] [] = Unit
Stream c marked (payload ∷ []) (packet ∷ []) =
    Read c marked (not (elements_size c marked == 0)) payload packet
Stream c marked (payload ∷ next ∷ payloads) (packet ∷ packets) =
    Read c false (not (elements_size c false == 0)) payload packet
    × Stream (next_config c) marked (next ∷ payloads) packets
Stream c marked _ _ = ⊥

size-next :
    (c : RtpPacketizationConfig) (marked : Bool)
    → elements_size (next_config c) marked ≡ elements_size c marked
unfolding elements_size set_video_rotation
size-next c marked = refl

Fits-next : (c : RtpPacketizationConfig) → Fits c → Fits (next_config c)
Fits-next c f = record {
  payload_type-fits = f.payload_type-fits;
  sequence_number-fits = omega arith;
  timestamp-fits = f.timestamp-fits;
  ssrc-fits = f.ssrc-fits;
}

Aligned-next : (c : RtpPacketizationConfig) → Aligned c → Aligned (next_config c)
Aligned-next c a = record {
  words =
      λ marked. subst (λ n. header_length n * 4 ≡ n) (sym (size-next c marked)) (a.words marked);
  small = λ marked. subst (λ n. n < 65536) (sym (size-next c marked)) (a.small marked);
}

one_packet :
    (c : RtpPacketizationConfig) (payload : List ℕ) (marked : Bool)
    → Fits c
    → Aligned c
    → (packet : List ℕ) × (packetize c payload marked ≡ some (packet, next_config c))
      × Read c marked (not (elements_size c marked == 0)) payload packet
unfolding packetize
one_packet c payload marked f a =
    let size = elements_size c marked in
    let (packet, made, read) =
      packet_bytes-Read c payload marked f (a.small marked) (omega (arith, a.words marked)) in
    let whole : header_length size * 4 - size ≡ 0 = omega (arith, a.words marked) in
    (
      packet,
      rw made refl,
      subst (λ n. Read c marked (not (elements_size c marked == 0)) (drop n payload) packet) whole
          read,
    )

pub packetize_all-Stream :
    (c : RtpPacketizationConfig) (payloads : List (List ℕ)) (marked : Bool)
    → Fits c
    → Aligned c
    → (packets : List (List ℕ)) × (c' : RtpPacketizationConfig) × (packetize_all c payloads marked
        ≡ some (packets, c'))
      × Stream c marked payloads packets
packetize_all-Stream c [] marked f a = ([], c, unfold packetize_all in refl, tt)
packetize_all-Stream c (payload ∷ []) marked f a =
    let (packet, made, read) = one_packet c payload marked f a in
    (packet ∷ [], next_config c, unfold packetize_all in rw made refl, read)
packetize_all-Stream c (payload ∷ next ∷ payloads) marked f a =
    let (packet, made, read) = one_packet c payload false f a in
    let (packets, c', all, stream) =
      packetize_all-Stream (next_config c) (next ∷ payloads) marked (Fits-next c f)
        (Aligned-next c a) in
    (
      packet ∷ packets,
      c',
      more c packet (next_config c) c' payload next payloads packets marked made all,
      (read, stream),
    )
  where
    more :
        (c : RtpPacketizationConfig) (packet : List ℕ) (c1 c' : RtpPacketizationConfig)
        (payload next : List ℕ) (payloads packets : List (List ℕ)) (marked : Bool)
        → packetize c payload false ≡ some (packet, c1)
        → packetize_all c1 (next ∷ payloads) marked ≡ some (packets, c')
        → packetize_all c (payload ∷ next ∷ payloads) marked ≡ some (packet ∷ packets, c')
    more c packet c1 c' payload next payloads packets marked made all =
        unfold packetize_all in rw (packetize_all, made, all) refl
