-- ===== src/Rtp/Elements.antt =====
-- The header extension that src/rtppacketizer.cpp writes, element by element (RFC 8285).
use gstreamer_web_rtc.Prelude.{
  ℕ, ◌+◌, ◌-◌, ◌*◌, ◌/◌, ◌%◌, ◌<◌, ◌≤◌, ◌≡◌, ◌≢◌, refl, sym, ap, subst, ◌∙◌, Bool, true, false, not,
  ◌||◌, Option, none, some, List, [], ◌∷◌, ◌++◌, ◌==◌, ==_iff, leb, ltb, if◌then◌else◌, length,
  take, drop, replicate, length-append, length-drop, length-replicate, take-append_length,
  append-nil, bit_or, Bool-cases, inl, inr, ◌>>=◌, arith,
}
use gstreamer_web_rtc.Prelude.Word.{u8, all_below, agree_below}
use gstreamer_web_rtc.Rtp.{
  RtpHeader, header_bytes, write_at, clear_body, one_byte_header, write_one_byte_header,
  write_current_video_orientation,
}
use gstreamer_web_rtc.Rtp.Packetizer.{
  RtpPacketizationConfig, set_video_rotation, element_size, elements_size, header_length,
  write_element, write_elements, extension_header, packet_bytes,
}
use gstreamer_web_rtc.Rtp.Header.{Fits, finished}
use gstreamer_web_rtc.Rtp.Packets.{
  Keeps-write_at, extended_run, words_enough, Read, packet_bytes-Read,
}

-- RFC 8285, 4.2: an element with a one-byte header has its identifier in the upper four bits of
-- that byte and the length of its value less one in the lower four.
abbrev pub element_of : ℕ → Option (List ℕ) → List ℕ
element_of id none = []
element_of id (some value) = (id * 16 + (length value - 1)) ∷ value

-- An element that has a one-byte header: its identifier is 1 to 14, its value has 1 to 16 bytes.
abbrev pub IsElement : ℕ → Option (List ℕ) → Type 0
IsElement id none = Unit {0}
IsElement id (some value) = (0 < id) × (id < 15) × (0 < length value) × (length value ≤ 16)

-- The elements in their order: the orientation of the video, on the last packet only and when there
-- is a rotation, the media identification and the stream's identification.
abbrev rotation_of : RtpPacketizationConfig → Bool → List ℕ
rotation_of c true = element_of c.video_orientation_id (some (c.video_orientation ∷ []))
rotation_of c false = []

abbrev pub elements : RtpPacketizationConfig → Bool → List ℕ
elements c marked =
    rotation_of c (set_video_rotation c marked)
    ++ element_of c.mid_id c.mid
    ++ element_of c.rid_id c.rid

or-high : (n : ℕ) → n < 256 → bit_or (n / 16 * 16) (n % 16) ≡ n
unfolding all_below
or-high = agree_below 256 (λ n. bit_or (n / 16 * 16) (n % 16)) (λ n. n) refl

one_byte-element : (id n : ℕ) → id < 15 → 0 < n → n ≤ 16 → one_byte_header id n ≡ id * 16 + (n - 1)
unfolding one_byte_header
one_byte-element id n hid pos le =
    let whole = or-high (id * 16 + (n - 1)) (omega (arith, hid, le)) in
    let high : (id * 16 + (n - 1)) / 16 * 16 ≡ id * 16 = omega (arith, le, pos) in
    let low : (id * 16 + (n - 1)) % 16 ≡ n - 1 = omega (arith, le, pos) in
    let joined : bit_or (id * 16) (n - 1) ≡ id * 16 + (n - 1) = rw (high, low) at whole in
    let word : u8 (id * 16) ≡ id * 16 = omega (arith, hid) in
    let less : u8 (u8 n + 255) ≡ n - 1 = omega (arith, le, pos) in
    elim (Bool-cases (n == 1)) [
      | inl one ↦ let same : n ≡ 1 = (==_iff n 1).0 one in rw (one, word) (omega (arith, same))
      | inr more ↦ rw (more, word, less) joined
    ]

-- What a write puts behind the bytes that are done.
abbrev Writes : ℕ → List ℕ → List ℕ → Option (List ℕ) → Type 0
Writes n done value o =
    (rest : List ℕ) × (o ≡ some ((done ++ value) ++ rest)) × (length ((done ++ value) ++ rest) ≡ n)

write_at-Writes :
    (done rest value : List ℕ) (n : ℕ)
    → length (done ++ rest) ≡ n
    → length done + length value ≤ n
    → Writes n done value (write_at (length done) value (done ++ rest))
write_at-Writes done rest value n l h =
    let k = length done + length value in
    let inside : leb k (length (done ++ rest)) ≡ true = ground (arith, l, h) in
    let front = take-append_length done rest in
    (
      drop k (done ++ rest),
      unfold write_at in rw (inside, front) refl,
      omega (
        arith,
        l,
        h,
        length-append (done ++ value) (drop k (done ++ rest)),
        length-append done value,
        length-drop k (done ++ rest),
      ),
    )

write_element-Writes :
    (size id n : ℕ) (value : Option (List ℕ)) (done rest : List ℕ)
    → IsElement id value
    → length done + element_size value ≤ size
    → size ≤ n
    → length (done ++ rest) ≡ n
    → Writes n done (element_of id value) (write_element size (length done) id value (done ++ rest))
unfolding write_element element_size
write_element-Writes size id n none done rest w fits le l =
    (rest, rw (append-nil done) refl, rw (append-nil done) l)
write_element-Writes size id n (some value) done rest (pos, small, some_bytes, few) fits le l =
    let k = length value in
    let accepted : (id == 0 || ltb 14 id || k == 0 || ltb 16 k || ltb size (length done + 1 + k))
        ≡ false =
      ground (arith, pos, small, some_bytes, few, fits) in
    let head = one_byte-element id k small some_bytes few in
    rw (write_one_byte_header, accepted, head)
      (write_at-Writes done rest ((id * 16 + (k - 1)) ∷ value) n l (omega (arith, fits, le)))

element_of-size :
    (id : ℕ) (value : Option (List ℕ)) → length (element_of id value) ≡ element_size value
unfolding element_size
element_of-size id none = refl
element_of-size id (some value) = omega arith

-- The elements of the media and the stream have one-byte headers.
pub record Named (c : RtpPacketizationConfig) : Type 0 where
  pub media : IsElement c.mid_id c.mid
  pub stream : IsElement c.rid_id c.rid

rotation_of-size :
    (c : RtpPacketizationConfig) (b : Bool) → length (rotation_of c b) ≡ (if b then 2 else 0)
rotation_of-size c true = refl
rotation_of-size c false = refl

rotation-IsElement :
    (c : RtpPacketizationConfig) (marked : Bool)
    → set_video_rotation c marked ≡ true
    → IsElement c.video_orientation_id (some (c.video_orientation ∷ []))
unfolding set_video_rotation
rotation-IsElement c marked h = (ground (arith, h), ground (arith, h), omega arith, omega arith)

rotated :
    (c : RtpPacketizationConfig) (b : Bool) (size n : ℕ) (cleared : List ℕ)
    → (b ≡ true → IsElement c.video_orientation_id (some (c.video_orientation ∷ [])))
    → (if b then 2 else 0) ≤ size
    → size ≤ n
    → length cleared ≡ n
    → Writes n [] (rotation_of c b) (
        if b
        then write_current_video_orientation size 0 c.video_orientation_id c.video_orientation
            cleared
        else some cleared)
unfolding write_current_video_orientation write_element
rotated c true size n cleared w fits le l =
    write_element-Writes size c.video_orientation_id n (some (c.video_orientation ∷ [])) [] cleared
      (w refl) (unfold element_size in fits) le l
rotated c false size n cleared w fits le l = (cleared, refl, l)

elements-size :
    (c : RtpPacketizationConfig) (marked : Bool)
    → length (elements c marked) ≡ elements_size c marked
unfolding elements_size
elements-size c marked = omega (
  arith,
  length-append (rotation_of c (set_video_rotation c marked) ++ element_of c.mid_id c.mid)
      (element_of c.rid_id c.rid),
  length-append (rotation_of c (set_video_rotation c marked)) (element_of c.mid_id c.mid),
  rotation_of-size c (set_video_rotation c marked),
  element_of-size c.mid_id c.mid,
  element_of-size c.rid_id c.rid,
)

joins :
    {A B : Type 0} {o : Option A} {a : A} {r : Option B} (f : A → Option B)
    → o ≡ some a
    → f a ≡ r
    → (o >>= f) ≡ r
joins f e k = ap (λ o. o >>= f) e ∙ k

-- The three elements are written one behind the other.
written :
    (c : RtpPacketizationConfig) (marked : Bool) (size : ℕ) (memory : List ℕ)
    → Named c
    → elements_size c marked ≤ size
    → size ≤ length memory
    → Writes (length memory) [] (elements c marked) (write_elements c marked size memory)
unfolding write_elements elements_size clear_body
written c marked size memory named fits le =
    let n = length memory in
    let b = set_video_rotation c marked in
    let zeros : 0 + length (replicate size 0) ≤ n =
      omega (arith, le, length-replicate {A = ℕ} size 0) in
    let (cleared, clears, l0) = Keeps-write_at 0 (replicate size 0) memory zeros in
    let (r1, turned, l1) =
      rotated c b size n cleared (rotation-IsElement c marked) (omega (arith, fits)) le l0 in
    let front = rotation_of c b in
    let offset : length front ≡ (if b then 2 else 0) = rotation_of-size c b in
    let (r2, media, l2) =
      write_element-Writes size c.mid_id n c.mid front r1 named.media (omega (arith, fits, offset))
        le l1 in
    let offset2 : length (front ++ element_of c.mid_id c.mid)
        ≡ (if b then 2 else 0) + element_size c.mid =
      omega (
        arith,
        offset,
        length-append front (element_of c.mid_id c.mid),
        element_of-size c.mid_id c.mid,
      ) in
    let (r3, stream, l3) =
      write_element-Writes size c.rid_id n c.rid (front ++ element_of c.mid_id c.mid) r2
        named.stream (omega (arith, fits, offset2)) le l2 in
    (
      r3,
      joins _ clears (
          joins _ turned (
            joins _
              (subst
                (λ k.
                  write_element size k c.mid_id c.mid (front ++ r1)
                  ≡ some ((front ++ element_of c.mid_id c.mid) ++ r2))
                offset media)
              (subst
                (λ k.
                  write_element size k c.rid_id c.rid ((front ++ element_of c.mid_id c.mid) ++ r2)
                  ≡ some (elements c marked ++ r3))
                offset2 stream))),
      l3,
    )

none_of : (xs : List ℕ) → length xs ≡ 0 → xs ≡ []
none_of [] h = refl
none_of (x ∷ xs) h = absurd (omega (arith, h))

abbrev from_some : {A : Type 0} → A → Option A → A
from_some a none = a
from_some a (some b) = b

some-same : {A : Type 0} {o : Option A} {a b : A} → o ≡ some a → o ≡ some b → a ≡ b
some-same {a = a} e f = ap (from_some a) (sym e ∙ f)

behind_headers :
    (h : RtpHeader) (words : ℕ) (bytes : List ℕ)
    → drop 16 (header_bytes h ++ (extension_header words ++ bytes)) ≡ bytes
unfolding header_bytes extension_header
behind_headers h words bytes = refl

-- A packet with an extension has the elements behind its two headers.
extended_elements :
    (c : RtpPacketizationConfig) (payload : List ℕ) (marked : Bool) (packet : List ℕ)
    → Named c
    → elements_size c marked ≢ 0
    → elements_size c marked < 65536
    → header_length (elements_size c marked) * 4 ≤ elements_size c marked + length payload
    → packet_bytes c payload marked ≡ some packet
    → take (elements_size c marked) (drop 16 packet) ≡ elements c marked
extended_elements c payload marked packet named ne small room made =
    let size = elements_size c marked in
    let words = header_length size in
    let zeros = replicate (size + length payload) 0 in
    let zeros_length = length-replicate {A = ℕ} (size + length payload) 0 in
    let (rest, run, l) =
      written c marked (words * 4) zeros named (words_enough size small).0
        (omega (arith, room, zeros_length)) in
    let bytes = elements c marked ++ rest in
    let shape = extended_run c payload bytes marked ne run (l ∙ zeros_length) in
    let front : take size bytes ≡ elements c marked =
      subst (λ n. take n bytes ≡ elements c marked) (elements-size c marked)
        (take-append_length (elements c marked) rest) in
    let same = some-same made shape in
    let behind : drop 16 packet ≡ take size bytes ++ payload =
      ap (drop 16) same
      ∙ behind_headers (finished c marked true) words (take size bytes ++ payload) in
    rw (behind, front)
      (subst (λ n. take n (elements c marked ++ payload) ≡ elements c marked)
        (elements-size c marked) (take-append_length (elements c marked) payload))

-- The packet that is made for a payload has the version, the payload type, the sequence number, the
-- time stamp, the source, the mark and the extension bit of its configuration, and when it has an
-- extension, this begins with the elements that the configuration names, in their order, as RFC
-- 8285 writes them. Its body as a receiver finds it is the payload without as many bytes at the
-- start as the elements lack to a multiple of four. The conditions are that the configuration's
-- numbers and the elements fit their fields, and that the memory of the packet has room for the
-- words of the extension.
pub packet_bytes-elements :
    (c : RtpPacketizationConfig) (payload : List ℕ) (marked : Bool)
    → Fits c
    → Named c
    → elements_size c marked < 65536
    → header_length (elements_size c marked) * 4 ≤ elements_size c marked + length payload
    → (packet : List ℕ) × (packet_bytes c payload marked ≡ some packet)
      × Read c marked
          (not (elements_size c marked == 0))
          (drop (header_length (elements_size c marked) * 4 - elements_size c marked) payload)
          packet
      × (take (elements_size c marked) (drop 16 packet) ≡ elements c marked)
packet_bytes-elements c payload marked fits named small room =
    let (packet, made, read) = packet_bytes-Read c payload marked fits small room in
    elim (Bool-cases (elements_size c marked == 0)) [
      | inl empty ↦
          let e = (==_iff (elements_size c marked) 0).0 empty in
          let nothing = none_of (elements c marked) (elements-size c marked ∙ e) in
          (packet, made, read, ap (λ n. take n (drop 16 packet)) e ∙ sym nothing)
      | inr other ↦
          let ne : elements_size c marked ≢ 0 =
            λ e. cc ((==_iff (elements_size c marked) 0).1 e, other) in
          (packet, made, read, extended_elements c payload marked packet named ne small room made)
    ]
