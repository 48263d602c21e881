-- ===== src/Ws/Framing/Tests.antt =====
-- Frames on the wire, and the theorems about them at concrete frames.
use gstreamer_web_rtc.Prelude.{
  ℕ, ◌+◌, ◌≤◌, ◌≡◌, refl, true, none, some, List, [], ◌∷◌, ◌++◌, length, arith,
}
use gstreamer_web_rtc.Ws.Framing.{
  Frame, Key, send_frame, apply_mask, read_frame, read_length, read_key, read_payload, text_frame,
}
use gstreamer_web_rtc.Ws.Framing.RoundTrip.{IsKey, IsFrame, read_frame-send_frame}
use gstreamer_web_rtc.Ws.Framing.Partial.{read_frame_stable, read_frame_waits}

-- The masked text frame "Hello" of RFC 6455, 5.7.
abbrev hello : Frame
hello = record {
  opcode = text_frame;
  payload = 0x48 ∷ 0x65 ∷ 0x6c ∷ 0x6c ∷ 0x6f ∷ [];
  fin = true;
  mask = true;
}

abbrev key : Key
key = record { k0 = 0x37; k1 = 0xfa; k2 = 0x21; k3 = 0x3d }

abbrev hello_bytes : List ℕ
hello_bytes = 0x81 ∷ 0x85 ∷ 0x37 ∷ 0xfa ∷ 0x21 ∷ 0x3d ∷ 0x7f ∷ 0x9f ∷ 0x4d ∷ 0x51 ∷ 0x58 ∷ []

send_hello : send_frame key hello ≡ hello_bytes
unfolding send_frame apply_mask
send_hello = refl

read_hello : read_frame (hello_bytes ++ 7 ∷ []) ≡ some (hello, 7 ∷ [])
unfolding read_frame read_length read_key read_payload apply_mask
read_hello = refl

key-IsKey : IsKey key
key-IsKey = omega arith

hello-IsFrame : IsFrame hello
hello-IsFrame = record { opcode = omega arith; bytes = omega arith; length = omega arith }

read_frame-send_frame_example : read_frame (send_frame key hello ++ 7 ∷ []) ≡ some (hello, 7 ∷ [])
read_frame-send_frame_example = read_frame-send_frame key hello (7 ∷ []) key-IsKey hello-IsFrame

read_frame_stable_example :
    (length {A = ℕ} (7 ∷ []) + 2 ≤ length (hello_bytes ++ 7 ∷ []))
    × (read_frame ((hello_bytes ++ 7 ∷ []) ++ 8 ∷ []) ≡ some (hello, (7 ∷ []) ++ 8 ∷ []))
read_frame_stable_example =
    read_frame_stable (hello_bytes ++ 7 ∷ []) (7 ∷ []) (8 ∷ []) hello read_hello

read_frame_waits_example : read_frame (0x81 ∷ 0x85 ∷ 0x37 ∷ []) ≡ none
read_frame_waits_example =
    read_frame_waits key hello (0x81 ∷ 0x85 ∷ 0x37 ∷ [])
      (0xfa ∷ 0x21 ∷ 0x3d ∷ 0x7f ∷ 0x9f ∷ 0x4d ∷ 0x51 ∷ 0x58 ∷ []) key-IsKey hello-IsFrame
      send_hello (omega arith)
