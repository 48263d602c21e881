-- ===== src/Rtp/Packets.antt =====
-- The packets of src/rtppacketizer.cpp as a receiver reads them with src/rtp.cpp.
use gstreamer_web_rtc.Prelude.{
  ℕ, suc, ◌+◌, ◌-◌, ◌*◌, ◌/◌, ◌%◌, ◌<◌, ◌≤◌, ◌≡◌, ◌≢◌, refl, sym, ap, subst, ◌∙◌, Bool, true, false,
  not, ◌||◌, Option, none, some, List, [], ◌∷◌, ◌++◌, ◌==◌, ==_iff, leb, ltb, if◌then◌else◌, length,
  take, drop, replicate, length-append, length-take, length-drop, length-replicate, drop-drop,
  drop-append_length, append-nil, Bool-cases, inl, inr, ◌>>=◌, arith,
}
use gstreamer_web_rtc.Prelude.Word.{from_le16, htons, htons-htons, htons-lt}
use gstreamer_web_rtc.Rtp.{
  RtpHeader, extension, get_size, header_bytes, read_header, extension_size,
  get_extension_header_size, get_body, write_at, clear_body, one_byte_header, write_one_byte_header,
  write_current_video_orientation,
}
use gstreamer_web_rtc.Rtp.Packetizer.{
  RtpPacketizationConfig, set_video_rotation, element_size, elements_size, rtp_ext_header_size,
  header_length, write_element, write_elements, extension_header, packet_bytes,
}
use gstreamer_web_rtc.Rtp.Header.{
  Fits, Describes, finished, finished-Describes, read_header-finished,
}

-- A write in range gives a memory of the same length.
abbrev Keeps : ℕ → Option (List ℕ) → Type 0
Keeps n o = (memory : List ℕ) × (o ≡ some memory) × (length memory ≡ n)

Keeps-bind :
    (n : ℕ) (o : Option (List ℕ)) (f : List ℕ → Option (List ℕ))
    → Keeps n o
    → ((memory : List ℕ) → length memory ≡ n → Keeps n (f memory))
    → Keeps n (o >>= f)
Keeps-bind n none f (memory, e, l) k = absurd (cc e)
Keeps-bind n (some m) f (memory, e, l) k = k m (ap (λ o. length_or o) e ∙ l)
  where
    length_or : Option (List ℕ) → ℕ
    length_or none = 0
    length_or (some m) = length m

pub Keeps-write_at :
    (offset : ℕ) (value memory : List ℕ)
    → offset + length value ≤ length memory
    → Keeps (length memory) (write_at offset value memory)
unfolding write_at
Keeps-write_at offset value memory h =
    let inside : leb (offset + length value) (length memory) ≡ true = ground (arith, h) in
    let size : length (take offset memory ++ value ++ drop (offset + length value) memory)
        ≡ length memory =
      omega (
        arith,
        h,
        length-append (take offset memory ++ value) (drop (offset + length value) memory),
        length-append (take offset memory) value,
        length-take offset memory,
        length-drop (offset + length value) memory,
      ) in
    (take offset memory ++ value ++ drop (offset + length value) memory, rw inside refl, size)

Keeps-one_byte :
    (size offset id : ℕ) (value memory : List ℕ)
    → size ≤ length memory
    → Keeps (length memory) (write_one_byte_header size offset id value memory)
unfolding write_one_byte_header
Keeps-one_byte size offset id value memory h =
    let n = length value in
    let refused = id == 0 || ltb 14 id || n == 0 || ltb 16 n || ltb size (offset + 1 + n) in
    elim (Bool-cases refused) [
      | inl yes_ ↦ rw yes_ (memory, refl, refl)
      | inr other ↦
          let room : offset + suc n ≤ length memory = ground (arith, other, h) in
          rw other (Keeps-write_at offset (one_byte_header id n ∷ value) memory room)
    ]

Keeps-write_element :
    (size offset id n : ℕ) (value : Option (List ℕ)) (memory : List ℕ)
    → size ≤ n
    → length memory ≡ n
    → Keeps n (write_element size offset id value memory)
unfolding write_element
Keeps-write_element size offset id n none memory h l = (memory, refl, l)
Keeps-write_element size offset id n (some value) memory h l =
    subst (λ k. Keeps k (write_one_byte_header size offset id value memory)) l
      (Keeps-one_byte size offset id value memory (omega (arith, h, l)))

-- The elements stay inside the memory when the cleared body does.
Keeps-write_elements :
    (c : RtpPacketizationConfig) (marked : Bool) (size : ℕ) (memory : List ℕ)
    → size ≤ length memory
    → Keeps (length memory) (write_elements c marked size memory)
unfolding write_elements clear_body write_current_video_orientation
Keeps-write_elements c marked size memory h =
    let n = length memory in
    let rotation = set_video_rotation c marked in
    let offset = if rotation then 2 else 0 in
    let zeros : 0 + length (replicate size 0) ≤ n =
      omega (arith, h, length-replicate {A = ℕ} size 0) in
    Keeps-bind n _ _ (Keeps-write_at 0 (replicate size 0) memory zeros) (λ cleared lc.
      Keeps-bind n _ _ (rotated c rotation size cleared n h lc) (λ turned lt.
        Keeps-bind n _ _ (Keeps-write_element size offset c.mid_id n c.mid turned h lt) (λ named ln.
          Keeps-write_element size (offset + element_size c.mid) c.rid_id n c.rid named h ln)))
  where
    rotated :
        (c : RtpPacketizationConfig) (b : Bool) (size : ℕ) (cleared : List ℕ) (n : ℕ)
        → size ≤ n
        → length cleared ≡ n
        → Keeps n (
            if b
            then write_one_byte_header size 0 c.video_orientation_id
                (c.video_orientation ∷ [])
                cleared
            else some cleared)
    rotated c false size cleared n h l = (cleared, refl, l)
    rotated c true size cleared n h l =
        Keeps-write_element size 0 c.video_orientation_id n (some (c.video_orientation ∷ []))
          cleared h l

-- The payload fills the end of the memory.
payload-written :
    (size : ℕ) (payload written : List ℕ)
    → length written ≡ size + length payload
    → write_at size payload written ≡ some (take size written ++ payload)
unfolding write_at
payload-written size payload written l =
    let inside : leb (size + length payload) (length written) ≡ true = ground (arith, l) in
    let none_left : drop (size + length payload) written ≡ [] =
      empty_of (drop (size + length payload) written)
        (omega (arith, l, length-drop (size + length payload) written)) in
    rw (inside, none_left, append-nil (take size written ++ payload)) refl
  where
    empty_of : (xs : List ℕ) → length xs ≡ 0 → xs ≡ []
    empty_of [] h = refl
    empty_of (x ∷ xs) h = absurd (omega (arith, h))

drop-past : (n : ℕ) (xs ys : List ℕ) → length xs ≤ n → drop n (xs ++ ys) ≡ drop (n - length xs) ys
drop-past n xs ys h =
    let whole : n ≡ length xs + (n - length xs) = omega (arith, h) in
    sym (drop-drop (length xs) (n - length xs) n (xs ++ ys) whole)
    ∙ ap (drop (n - length xs)) (drop-append_length xs ys)

-- A receiver that skips the header and the extension by their lengths.
skip_header :
    (h : RtpHeader) (packet : List ℕ)
    → read_header packet ≡ some h
    → extension h ≡ false
    → get_size h ≡ 12
    → get_body packet ≡ some (drop 12 packet)
unfolding get_body get_extension_header_size
skip_header h packet r e s = rw (get_body, r, e, s) refl

skip_extension :
    (h : RtpHeader) (packet : List ℕ) (n : ℕ)
    → read_header packet ≡ some h
    → extension h ≡ true
    → get_size h ≡ 12
    → extension_size (drop 12 packet) ≡ some n
    → get_body packet ≡ some (drop (12 + (n + 4)) packet)
unfolding get_body get_extension_header_size
skip_extension h packet n r e s x = rw (get_body, r, e, s, x) refl

plain_body :
    (h : RtpHeader) (bytes : List ℕ)
    → read_header (header_bytes h ++ bytes) ≡ some h
    → extension h ≡ false
    → get_size h ≡ 12
    → get_body (header_bytes h ++ bytes) ≡ some bytes
plain_body h bytes r e s =
    skip_header h (header_bytes h ++ bytes) r e s ∙ (unfold header_bytes in refl)

extended_body :
    (h : RtpHeader) (words : ℕ) (front payload : List ℕ)
    → read_header (header_bytes h ++ (extension_header words ++ (front ++ payload))) ≡ some h
    → extension h ≡ true
    → get_size h ≡ 12
    → words < 65536
    → length front ≤ words * 4
    → get_body (header_bytes h ++ (extension_header words ++ (front ++ payload)))
      ≡ some (drop (words * 4 - length front) payload)
extended_body h words front payload r e s small fits =
    let packet = header_bytes h ++ (extension_header words ++ (front ++ payload)) in
    let raw : from_le16 (htons words % 256) (htons words / 256 % 256) ≡ htons words =
      omega (arith, htons-lt words) in
    let count : htons (from_le16 (htons words % 256) (htons words / 256 % 256)) ≡ words =
      ap htons raw ∙ htons-htons words small in
    let size : extension_size (drop 12 packet) ≡ some (words * 4) =
      unfold header_bytes extension_header extension_size in ap (λ k. some (k * 4)) count in
    let total : 12 + (words * 4 + 4) ≡ 16 + words * 4 = omega arith in
    let behind : drop 16 packet ≡ front ++ payload = unfold header_bytes extension_header in refl in
    skip_extension h packet (words * 4) r e s size
    ∙ ap (λ t. some t)
        (sym (drop-drop 16 (words * 4) (12 + (words * 4 + 4)) packet total)
          ∙ ap (drop (words * 4)) behind
          ∙ drop-past (words * 4) front payload fits)

-- A packet as a receiver reads it.
pub record Read (c : RtpPacketizationConfig) (marked extended : Bool) (body packet : List ℕ)
    : Type 0 where
  pub header : RtpHeader
  pub header-read : read_header packet ≡ some header
  pub header-Describes : Describes c marked extended header
  pub body-read : get_body packet ≡ some body

plain_packet :
    (c : RtpPacketizationConfig) (payload : List ℕ) (marked : Bool)
    → Fits c
    → elements_size c marked ≡ 0
    → (packet : List ℕ) × (packet_bytes c payload marked ≡ some packet)
      × Read c marked false payload packet
unfolding packet_bytes rtp_ext_header_size
plain_packet c payload marked f e =
    let h = finished c marked false in
    let d = finished-Describes c marked false f in
    let r = read_header-finished c marked false payload f in
    let whole : write_at 0 payload (replicate (0 + length payload) 0) ≡ some payload =
      payload-written 0 payload (replicate (0 + length payload) 0)
        (length-replicate {A = ℕ} (0 + length payload) 0) in
    (
      header_bytes h ++ payload,
      rw (e, whole) refl,
      record {
        header = h;
        header-read = r;
        header-Describes = d;
        body-read = plain_body h payload r d.extension-bit d.no_csrc;
      },
    )

-- The words of an extension.
pub words_enough :
    (size : ℕ) → size < 65536 → (size ≤ header_length size * 4) × (header_length size < 65536)
unfolding header_length
words_enough size h = (omega (arith, h), omega (arith, h))

pub extended_run :
    (c : RtpPacketizationConfig) (payload written : List ℕ) (marked : Bool)
    → elements_size c marked ≢ 0
    → write_elements c marked
        (header_length (elements_size c marked) * 4)
        (replicate (elements_size c marked + length payload) 0)
      ≡ some written
    → length written ≡ elements_size c marked + length payload
    → packet_bytes c payload marked
      ≡ some (
          header_bytes (finished c marked true)
          ++ (extension_header (header_length (elements_size c marked))
              ++ (take (elements_size c marked) written ++ payload)))
unfolding packet_bytes rtp_ext_header_size
extended_run c payload written marked ne run l =
    let extended : (elements_size c marked == 0) ≡ false = ground (arith, ne) in
    let positive : (elements_size c marked + 4 == 0) ≡ false = ground arith in
    let stored = payload-written (elements_size c marked) payload written l in
    rw (extended, positive, run, stored) refl

extended_packet :
    (c : RtpPacketizationConfig) (payload : List ℕ) (marked : Bool)
    → Fits c
    → elements_size c marked ≢ 0
    → elements_size c marked < 65536
    → header_length (elements_size c marked) * 4 ≤ elements_size c marked + length payload
    → (packet : List ℕ) × (packet_bytes c payload marked ≡ some packet)
      × Read c marked true
          (drop (header_length (elements_size c marked) * 4 - elements_size c marked) payload)
          packet
extended_packet c payload marked f ne small room =
    let size = elements_size c marked in
    let words = header_length size in
    let h = finished c marked true in
    let d = finished-Describes c marked true f in
    let zeros = replicate (size + length payload) 0 in
    let zeros_length = length-replicate {A = ℕ} (size + length payload) 0 in
    let (written, run, l) =
      Keeps-write_elements c marked (words * 4) zeros (omega (arith, room, zeros_length)) in
    let front = take size written in
    let front_length : length front ≡ size =
      omega (arith, l, zeros_length, length-take size written) in
    let r = read_header-finished c marked true (extension_header words ++ (front ++ payload)) f in
    let enough = words_enough size small in
    (
      header_bytes h ++ (extension_header words ++ (front ++ payload)),
      extended_run c payload written marked ne run (l ∙ zeros_length),
      record {
        header = h;
        header-read = r;
        header-Describes = d;
        body-read =
            extended_body h words front payload r d.extension-bit d.no_csrc enough.1
              (omega (arith, enough.0, front_length))
            ∙ ap (λ n. some (drop (words * 4 - n) payload)) front_length;
      },
    )

-- The packet that is made for a payload describes itself by its configuration, and its body as a
-- receiver finds it is the payload without as many bytes at the start as the elements of the
-- extension lack to a multiple of four.
pub packet_bytes-Read :
    (c : RtpPacketizationConfig) (payload : List ℕ) (marked : Bool)
    → Fits c
    → elements_size c marked < 65536
    → header_length (elements_size c marked) * 4 ≤ elements_size c marked + length payload
    → (packet : List ℕ) × (packet_bytes c payload marked ≡ some packet)
      × Read c marked
          (not (elements_size c marked == 0))
          (drop (header_length (elements_size c marked) * 4 - elements_size c marked) payload)
          packet
packet_bytes-Read c payload marked f small room = elim (Bool-cases (elements_size c marked == 0)) [
  | inl empty ↦
      let e = (==_iff (elements_size c marked) 0).0 empty in
      rw e (unfold header_length in plain_packet c payload marked f e)
  | inr other ↦
      let ne : elements_size c marked ≢ 0 =
        λ e. cc ((==_iff (elements_size c marked) 0).1 e, other) in
      rw other (extended_packet c payload marked f ne small room)
]
