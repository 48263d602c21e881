-- ===== src/H264/Outgoing.antt =====
-- From the units of src/h264rtppacketizer.cpp to RTP packets, and back at a receiver.
use gstreamer_web_rtc.Prelude.{
  ℕ, ◌≤◌, ◌<◌, ◌≡◌, ◌≢◌, refl, ap, ◌∙◌, true, some, List, [], ◌∷◌, length, All,
}
use gstreamer_web_rtc.Nal.{generate_fragments}
use gstreamer_web_rtc.Nal.Reassembly.{reassemble}
use gstreamer_web_rtc.Nal.Carried.{Carries, whole, cut, IsUnit, generate_fragments-Carries}
use gstreamer_web_rtc.Rtp.Packetizer.{RtpPacketizationConfig, packetize_all}
use gstreamer_web_rtc.Rtp.Header.{Fits}
use gstreamer_web_rtc.Rtp.Streams.{Aligned, Stream, packetize_all-Stream}
use gstreamer_web_rtc.H264.{
  Separator, length_prefix, split_message, packets, outgoing_from, process_outgoing_binary_message,
}
use gstreamer_web_rtc.H264.Lengths.{Sized, with_lengths, split_message-with_lengths}

no_pieces : (unit : List ℕ) → reassemble [] ≡ some unit → ⊥
unfolding reassemble
no_pieces unit h = cc h

-- Units are carried by one payload at least.
carried_nonempty :
    (unit : List ℕ) (units fragments : List (List ℕ))
    → Carries (unit ∷ units) fragments
    → fragments ≢ []
carried_nonempty unit units _ (whole _ c) e = cc e
carried_nonempty unit units _ (cut _ [] joined c) e = absurd (no_pieces unit joined)
carried_nonempty unit units _ (cut _ (p ∷ pieces) joined c) e = cc e

one_message :
    (separator : Separator) (max : ℕ) (message : List ℕ) (c : RtpPacketizationConfig)
    (fragments sent : List (List ℕ)) (c' : RtpPacketizationConfig)
    → generate_fragments max (split_message separator message) ≡ some fragments
    → fragments ≢ []
    → packetize_all c fragments true ≡ some (sent, c')
    → process_outgoing_binary_message separator max (message ∷ []) c ≡ some (packets sent, c')
unfolding process_outgoing_binary_message outgoing_from
one_message separator max message c [] sent c' g ne p = absurd (ne refl)
one_message separator max message c (f ∷ fs) sent c' g ne p = rw (g, p) refl

-- A message that joins units, one at least, with their lengths becomes packets, if a fragment has
-- room for four bytes and its size fits 16 bits, the numbers of the configuration fit their fields,
-- and the elements of the extension, if there are any, fill whole words. A receiver reads from the packets, in the order of their sequence numbers, payloads
-- of at most the maximal size that carry the units in order, and only the last packet is marked.
pub outgoing_units :
    (max : ℕ) (unit : List ℕ) (units : List (List ℕ)) (c : RtpPacketizationConfig)
    → 4 ≤ max
    → max < 65536
    → All Sized (unit ∷ units)
    → All IsUnit (unit ∷ units)
    → Fits c
    → Aligned c
    → (fragments sent : List (List ℕ)) × (c' : RtpPacketizationConfig)
      × (process_outgoing_binary_message length_prefix max (with_lengths (unit ∷ units) ∷ []) c
          ≡ some (packets sent, c'))
      × Carries (unit ∷ units) fragments
      × All (λ f. length f ≤ max) fragments
      × Stream c true fragments sent
outgoing_units max unit units c four small s u f a =
    let split = split_message-with_lengths (unit ∷ units) s in
    let (fragments, made, carried, sizes) =
      generate_fragments-Carries max (unit ∷ units) four small u in
    let (sent, c', packed, stream) = packetize_all-Stream c fragments true f a in
    (
      fragments,
      sent,
      c',
      one_message length_prefix max (with_lengths (unit ∷ units)) c fragments sent c'
          (ap (generate_fragments max) split ∙ made) (carried_nonempty unit units fragments carried)
          packed,
      carried,
      sizes,
      stream,
    )
