-- ===== src/Ws/Framing.antt =====
-- `sendFrame` and `readFrame` of src/impl/wstransport.cpp (RFC 6455, 5.2). A byte is a number below
-- 256, and a buffer is a list of bytes.
pub mod RoundTrip
pub mod Partial
pub mod Tests
use gstreamer_web_rtc.Prelude.{
  ℕ, zero, suc, ◌+◌, ◌-◌, ◌*◌, ◌/◌, ◌%◌, ◌≤◌, ◌<◌, ◌≡◌, refl, Bool, true, false, not, ◌&&◌, ◌||◌,
  Option, none, some, List, [], ◌∷◌, ◌++◌, ◌>>=◌, ltb, leb, ◌==◌, if◌then◌else◌, length, take, drop,
  get_or, bit_and, bit_or, bit_xor, arith,
}
use gstreamer_web_rtc.Prelude.Word.{u8, be16, be32, from_be16, from_be32}

-- `Opcode`, an enumeration over uint8_t: `readFrame` casts any four bits to it.
abbrev pub continuation : ℕ
continuation = 0

abbrev pub text_frame : ℕ
text_frame = 1

abbrev pub binary_frame : ℕ
binary_frame = 2

abbrev pub close_frame : ℕ
close_frame = 8

abbrev pub ping : ℕ
ping = 9

abbrev pub pong : ℕ
pong = 10

-- `Frame`; its `length` is the length of the payload.
pub record Frame : Type 0 where
  pub opcode : ℕ
  pub payload : List ℕ
  pub fin : Bool
  pub mask : Bool

abbrev pub flag : Bool → ℕ
flag true = 0x80
flag false = 0

abbrev pub be64 : ℕ → List ℕ
be64 x = be32 (x / 4294967296) ++ be32 x

abbrev pub length_code : ℕ → ℕ
length_code n = if ltb n 0x7e then n else if leb n 0xffff then 0x7e else 0x7f

abbrev pub extended_length : ℕ → List ℕ
extended_length n = if ltb n 0x7e then [] else if leb n 0xffff then be16 n else be64 n

-- `payload[i] ^= maskingKey[i % 4]`, from index `i` on.
unfoldable pub apply_mask : List ℕ → ℕ → List ℕ → List ℕ
apply_mask key i [] = []
apply_mask key i (x ∷ xs) = bit_xor x (get_or key (i % 4) 0) ∷ apply_mask key (i + 1) xs

-- The masking key: four bytes that the random engine draws.
pub record Key : Type 0 where
  pub k0 : ℕ
  pub k1 : ℕ
  pub k2 : ℕ
  pub k3 : ℕ

abbrev pub to_list : Key → List ℕ
to_list key = key.k0 ∷ key.k1 ∷ key.k2 ∷ key.k3 ∷ []

-- What `sendFrame` hands to the lower transport, for the key that was drawn.
unfoldable pub send_frame : Key → Frame → List ℕ
send_frame key frame =
    let n = length frame.payload in
    bit_or (bit_and frame.opcode 0x0f) (flag frame.fin)
    ∷ bit_or (bit_and (length_code n) 0x7f) (flag frame.mask)
    ∷ (extended_length n
        ++ (if frame.mask
            then to_list key ++ apply_mask (to_list key) 0 frame.payload
            else frame.payload))

unfoldable pub read_two : List ℕ → Option (ℕ × List ℕ)
read_two (a ∷ b ∷ rest) = some (from_be16 a b, rest)
read_two _ = none

unfoldable pub read_eight : List ℕ → Option (ℕ × List ℕ)
read_eight (a ∷ b ∷ c ∷ d ∷ e ∷ f ∷ g ∷ h ∷ rest) =
    some (from_be32 a b c d * 4294967296 + from_be32 e f g h, rest)
read_eight _ = none

-- The payload length with the bytes that follow it; `none` where bytes are missing.
unfoldable pub read_length : ℕ → List ℕ → Option (ℕ × List ℕ)
unfolding read_two read_eight
read_length code cur =
    if code == 0x7e then read_two cur else if code == 0x7f then read_eight cur else some (code, cur)

-- The masking key, empty if the frame has none, with the bytes that follow it.
unfoldable pub read_key : Bool → List ℕ → Option (List ℕ × List ℕ)
read_key false cur = some ([], cur)
read_key true (a ∷ b ∷ c ∷ d ∷ rest) = some (a ∷ b ∷ c ∷ d ∷ [], rest)
read_key true _ = none

abbrev unmask : Bool → List ℕ → List ℕ → List ℕ
unmask true key payload = apply_mask key 0 payload
unmask false key payload = payload

unfoldable pub read_payload : ℕ → Bool → Bool → ℕ → List ℕ → List ℕ → Option (Frame × List ℕ)
read_payload opcode fin mask n key cur =
    if ltb (length cur) n
    then none
    else some (
      record { opcode = opcode; payload = unmask mask key (take n cur); fin = fin; mask = mask },
      drop n cur,
    )

-- The frame at the front of the buffer with the bytes that follow it. `readFrame` returns 0 where
-- this is `none`, and otherwise the number of bytes before those that follow.
unfoldable pub read_frame : List ℕ → Option (Frame × List ℕ)
read_frame (b1 ∷ b2 ∷ cur) = do
  let mask = not (bit_and b2 0x80 == 0)
  (n, cur1) ← read_length (bit_and b2 0x7f) cur
  (key, cur2) ← read_key mask cur1
  read_payload (bit_and b1 0x0f) (not (bit_and b1 0x80 == 0)) mask n key cur2
read_frame _ = none
