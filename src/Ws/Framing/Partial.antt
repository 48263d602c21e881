-- ===== src/Ws/Framing/Partial.antt =====
-- What `readFrame` makes of any bytes, and of a buffer that is filled in parts.
use gstreamer_web_rtc.Prelude.{
  ℕ, zero, suc, ◌+◌, ◌≤◌, ◌<◌, ◌≡◌, refl, ap, Bool, true, false, not, inl, inr, Option, none, some,
  List, [], ◌∷◌, ◌++◌, ◌==◌, length, take, drop, bit_and, append-nil, length-append, length-drop,
  Option-cases, arith,
}
use gstreamer_web_rtc.Ws.Framing.{
  Frame, Key, send_frame, read_two, read_eight, read_length, read_key, read_payload, read_frame,
}
use gstreamer_web_rtc.Ws.Framing.RoundTrip.{IsKey, IsFrame, read_frame-send_frame}

-- A read that succeeds leaves a shorter buffer (by `k` bytes at least), and succeeds in the same
-- way with more bytes behind.
abbrev Extends : {A : Type 0} → ℕ → (List ℕ → Option (A × List ℕ)) → List ℕ → Type 0
Extends {A} k read cur =
    (a : A) (rest more : List ℕ)
    → read cur ≡ some (a, rest)
    → (read (cur ++ more) ≡ some (a, rest ++ more)) × (length rest + k ≤ length cur)

read_two-Extends : (cur : List ℕ) → Extends 0 read_two cur
unfolding read_two
read_two-Extends [] a rest more e = cc
read_two-Extends (x ∷ []) a rest more e = cc
read_two-Extends (x ∷ y ∷ l) a rest more e = ground arith

read_eight-Extends : (cur : List ℕ) → Extends 0 read_eight cur
unfolding read_eight
read_eight-Extends [] a rest more e = cc
read_eight-Extends (x ∷ []) a rest more e = cc
read_eight-Extends (x ∷ y ∷ []) a rest more e = cc
read_eight-Extends (x ∷ y ∷ z ∷ []) a rest more e = cc
read_eight-Extends (x ∷ y ∷ z ∷ t ∷ []) a rest more e = cc
read_eight-Extends (x ∷ y ∷ z ∷ t ∷ u ∷ []) a rest more e = cc
read_eight-Extends (x ∷ y ∷ z ∷ t ∷ u ∷ v ∷ []) a rest more e = cc
read_eight-Extends (x ∷ y ∷ z ∷ t ∷ u ∷ v ∷ w ∷ []) a rest more e = cc
read_eight-Extends (x ∷ y ∷ z ∷ t ∷ u ∷ v ∷ w ∷ s ∷ l) a rest more e = ground arith

read_length-Extends : (code : ℕ) (cur : List ℕ) → Extends 0 (read_length code) cur
unfolding read_length
read_length-Extends code cur a rest more e =
    ground (arith, read_two-Extends cur a rest more, read_eight-Extends cur a rest more)

read_key-Extends : (mask : Bool) (cur : List ℕ) → Extends 0 (read_key mask) cur
unfolding read_key
read_key-Extends false cur a rest more e = ground arith
read_key-Extends true [] a rest more e = cc
read_key-Extends true (x ∷ []) a rest more e = cc
read_key-Extends true (x ∷ y ∷ []) a rest more e = cc
read_key-Extends true (x ∷ y ∷ z ∷ []) a rest more e = cc
read_key-Extends true (x ∷ y ∷ z ∷ t ∷ l) a rest more e = ground arith

take-append_le : (n : ℕ) (xs ys : List ℕ) → n ≤ length xs → take n (xs ++ ys) ≡ take n xs
take-append_le zero xs ys h = refl
take-append_le (suc n) [] ys h = absurd (omega arith)
take-append_le (suc n) (x ∷ xs) ys h = ap (◌∷◌ x) (take-append_le n xs ys (omega arith))

drop-append_le : (n : ℕ) (xs ys : List ℕ) → n ≤ length xs → drop n (xs ++ ys) ≡ drop n xs ++ ys
drop-append_le zero xs ys h = refl
drop-append_le (suc n) [] ys h = absurd (omega arith)
drop-append_le (suc n) (x ∷ xs) ys h = drop-append_le n xs ys (omega arith)

read_payload-Extends :
    (o : ℕ) (fin mask : Bool) (n : ℕ) (key cur : List ℕ)
    → Extends 0 (read_payload o fin mask n key) cur
unfolding read_payload
read_payload-Extends o fin mask n key cur a rest more e = ground (
  arith,
  take-append_le n cur more,
  drop-append_le n cur more,
  length-append cur more,
  length-drop n cur,
)

read_frame-Extends : (buffer : List ℕ) → Extends 2 read_frame buffer
unfolding read_frame
read_frame-Extends [] a rest more e = cc
read_frame-Extends (x ∷ []) a rest more e = cc
read_frame-Extends (b1 ∷ b2 ∷ cur) a rest more e =
    elim (Option-cases (read_length (bit_and b2 0x7f) cur)) [
      | inl e₁ ↦ absurd (cc (rw e₁ at e))
      | inr ((n, cur1), e₁) ↦ elim (Option-cases (read_key (not (bit_and b2 0x80 == 0)) cur1)) [
        | inl e₂ ↦ absurd (cc (rw (e₁, e₂) at e))
        | inr ((key, cur2), e₂) ↦
            let (f₁, h₁) = read_length-Extends (bit_and b2 0x7f) cur n cur1 more e₁ in
            let (f₂, h₂) = read_key-Extends (not (bit_and b2 0x80 == 0)) cur1 key cur2 more e₂ in
            let (f₃, h₃) =
              read_payload-Extends (bit_and b1 0x0f) (not (bit_and b1 0x80 == 0))
                (not (bit_and b2 0x80 == 0)) n key cur2 a rest more (rw (e₁, e₂) at e) in
            (rw (f₁, f₂) f₃, omega arith)
      ]
    ]

-- A frame that `readFrame` finds takes two bytes at least, all of them in the buffer, and it is
-- found in the same way when more bytes have come in behind it.
pub read_frame_stable :
    (buffer rest more : List ℕ) (f : Frame)
    → read_frame buffer ≡ some (f, rest)
    → (length rest + 2 ≤ length buffer) × (read_frame (buffer ++ more) ≡ some (f, rest ++ more))
read_frame_stable buffer rest more f e =
    let (a, b) = read_frame-Extends buffer f rest more e in (b, a)

-- No proper prefix of what `sendFrame` writes is taken for a frame: `readFrame` waits for the
-- rest.
pub read_frame_waits :
    (key : Key) (f : Frame) (front back : List ℕ)
    → IsKey key
    → IsFrame f
    → send_frame key f ≡ front ++ back
    → 0 < length back
    → read_frame front ≡ none
read_frame_waits key f front back k v e h = elim (Option-cases (read_frame front)) [
  | inl e₁ ↦ e₁
  | inr ((g, rest), e₁) ↦
      let (n, e₂) = read_frame_stable front rest back g e₁ in
      let whole : read_frame (front ++ back) ≡ some (f, []) =
        rw (append-nil, e) at (read_frame-send_frame key f [] k v) in
      absurd (ground (arith, whole, e₂, length-append rest back))
]
