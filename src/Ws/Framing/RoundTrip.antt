-- ===== src/Ws/Framing/RoundTrip.antt =====
-- What `readFrame` makes of the bytes that `sendFrame` wrote, and of any other bytes.
use gstreamer_web_rtc.Prelude.{
  ℕ, zero, suc, ◌+◌, ◌%◌, ◌<◌, ◌≡◌, refl, ap, Bool, true, false, not, none, some, List, [], ◌∷◌,
  ◌++◌, ◌==◌, ==_iff, length, get_or, bit_and, bit_or, bit_xor, append_assoc, length-append,
  take-append_length, drop-append_length, All, arith,
}
use gstreamer_web_rtc.Prelude.Word.{IsByte, all_below, all_below-true, agree_below}
use gstreamer_web_rtc.Ws.Framing.{
  Frame, Key, to_list, flag, length_code, extended_length, apply_mask, send_frame, read_length,
  read_key, read_payload, read_frame,
}

xor_table : all_below 256 (λ k. all_below 256 (λ x. bit_xor (bit_xor x k) k == x)) ≡ true
unfolding all_below
xor_table = refl

xor_twice : (x k : ℕ) → x < 256 → k < 256 → bit_xor (bit_xor x k) k ≡ x
xor_twice x k hx hk =
    (==_iff _ x).0 (all_below-true 256 _ x (all_below-true 256 _ k xor_table hk) hx)

pub record IsKey (key : Key) : Type 0 where
  pub b0 : key.k0 < 256
  pub b1 : key.k1 < 256
  pub b2 : key.k2 < 256
  pub b3 : key.k3 < 256

key_byte : (key : Key) (i : ℕ) → IsKey key → get_or (to_list key) i 0 < 256
key_byte key zero h = h.b0
key_byte key (suc zero) h = h.b1
key_byte key (suc (suc zero)) h = h.b2
key_byte key (suc (suc (suc zero))) h = h.b3
key_byte key (suc (suc (suc (suc j)))) h = omega arith

module _ (key : List ℕ) (bytes : (i : ℕ) → get_or key (i % 4) 0 < 256) where
  -- Masking twice by one key changes nothing.
  apply_mask_twice :
      (i : ℕ) (xs : List ℕ) → All IsByte xs → apply_mask key i (apply_mask key i xs) ≡ xs
  unfolding apply_mask
  apply_mask_twice i [] h = refl
  apply_mask_twice i (x ∷ xs) h =
      rw (xor_twice x _ h.0 (bytes i), apply_mask_twice (i + 1) xs h.1) refl

length-apply_mask : (key : List ℕ) (i : ℕ) (xs : List ℕ) → length (apply_mask key i xs) ≡ length xs
unfolding apply_mask
length-apply_mask key i [] = refl
length-apply_mask key i (x ∷ xs) = ap suc (length-apply_mask key (i + 1) xs)

-- The two flag bits and what stands below them.
low_bits : (x : ℕ) (b : Bool) → x < 16 → bit_and (bit_or (bit_and x 0x0f) (flag b)) 0x0f ≡ x
unfolding all_below
low_bits x true = agree_below 16 (λ y. bit_and (bit_or (bit_and y 0x0f) 0x80) 0x0f) (λ y. y) refl x
low_bits x false = agree_below 16 (λ y. bit_and (bit_or (bit_and y 0x0f) 0) 0x0f) (λ y. y) refl x

low_length : (x : ℕ) (b : Bool) → x < 128 → bit_and (bit_or (bit_and x 0x7f) (flag b)) 0x7f ≡ x
unfolding all_below
low_length x true =
    agree_below 128 (λ y. bit_and (bit_or (bit_and y 0x7f) 0x80) 0x7f) (λ y. y) refl x
low_length x false = agree_below 128 (λ y. bit_and (bit_or (bit_and y 0x7f) 0) 0x7f) (λ y. y) refl x

top_bit :
    (x : ℕ) (b : Bool) → x < 128 → not (bit_and (bit_or (bit_and x 0x7f) (flag b)) 0x80 == 0) ≡ b
unfolding all_below
top_bit x true h =
    let e : bit_and (bit_or (bit_and x 0x7f) 0x80) 0x80 ≡ 128 =
      agree_below 128 (λ y. bit_and (bit_or (bit_and y 0x7f) 0x80) 0x80) (λ y. 128) refl x h in
    rw e
top_bit x false h =
    let e : bit_and (bit_or (bit_and x 0x7f) 0) 0x80 ≡ 0 =
      agree_below 128 (λ y. bit_and (bit_or (bit_and y 0x7f) 0) 0x80) (λ y. 0) refl x h in
    rw e

top_bit_opcode :
    (x : ℕ) (b : Bool) → x < 16 → not (bit_and (bit_or (bit_and x 0x0f) (flag b)) 0x80 == 0) ≡ b
unfolding all_below
top_bit_opcode x true h =
    let e : bit_and (bit_or (bit_and x 0x0f) 0x80) 0x80 ≡ 128 =
      agree_below 16 (λ y. bit_and (bit_or (bit_and y 0x0f) 0x80) 0x80) (λ y. 128) refl x h in
    rw e
top_bit_opcode x false h =
    let e : bit_and (bit_or (bit_and x 0x0f) 0) 0x80 ≡ 0 =
      agree_below 16 (λ y. bit_and (bit_or (bit_and y 0x0f) 0) 0x80) (λ y. 0) refl x h in
    rw e

length_code-lt : (n : ℕ) → length_code n < 128
length_code-lt n = ground arith

-- The length field is read back, whichever of its three forms was written.
read_length-extended :
    (n : ℕ) (rest : List ℕ)
    → n < 18446744073709551616
    → read_length (length_code n) (extended_length n ++ rest) ≡ some (n, rest)
unfolding read_length
read_length-extended n rest h = ground arith

-- A frame that `sendFrame` can be given: four bits of opcode, bytes, a 64-bit length.
pub record IsFrame (f : Frame) : Type 0 where
  pub opcode : f.opcode < 16
  pub bytes : All IsByte f.payload
  pub length : length f.payload < 18446744073709551616

read_payload-append :
    (o : ℕ) (fin : Bool) (p rest : List ℕ)
    → read_payload o fin false (length p) [] (p ++ rest)
      ≡ some (record { opcode = o; payload = p; fin = fin; mask = false }, rest)
unfolding read_payload
read_payload-append o fin p rest =
    ground (arith, length-append p rest, take-append_length p rest, drop-append_length p rest)

read_payload-masked :
    (o : ℕ) (fin : Bool) (key p rest : List ℕ)
    → ((i : ℕ) → get_or key (i % 4) 0 < 256)
    → All IsByte p
    → read_payload o fin true (length p) key (apply_mask key 0 p ++ rest)
      ≡ some (record { opcode = o; payload = p; fin = fin; mask = true }, rest)
unfolding read_payload
read_payload-masked o fin key p rest hk hp =
    let q = apply_mask key 0 p in
    ground (
      arith,
      length-append q rest,
      length-apply_mask key 0 p,
      take-append_length q rest,
      drop-append_length q rest,
      apply_mask_twice key hk 0 p hp,
    )

-- Whatever follows it in the buffer, `readFrame` reads back the frame that `sendFrame` wrote: the
-- opcode, the final flag, the mask flag and the payload, unmasked, and it takes exactly the bytes
-- that were written.
pub read_frame-send_frame :
    (key : Key) (f : Frame) (rest : List ℕ)
    → IsKey key
    → IsFrame f
    → read_frame (send_frame key f ++ rest) ≡ some (f, rest)
unfolding read_frame send_frame read_key
read_frame-send_frame key f rest k v = go f.mask refl
  where
    n : ℕ
    n = length f.payload

    masked : List ℕ
    masked = apply_mask (to_list key) 0 f.payload

    go : (m : Bool) → f.mask ≡ m → read_frame (send_frame key f ++ rest) ≡ some (f, rest)
    go true e =
        rw
          (
            e,
            low_bits f.opcode f.fin v.opcode,
            top_bit_opcode f.opcode f.fin v.opcode,
            low_length (length_code n) true (length_code-lt n),
            top_bit (length_code n) true (length_code-lt n),
            append_assoc (extended_length n) (to_list key ++ masked) rest,
            read_length-extended n (to_list key ++ masked ++ rest) v.length,
          )
          (read_payload-masked f.opcode f.fin (to_list key) f.payload rest
            (λ i. key_byte key (i % 4) k) v.bytes)
    go false e =
        rw
          (
            e,
            low_bits f.opcode f.fin v.opcode,
            top_bit_opcode f.opcode f.fin v.opcode,
            low_length (length_code n) false (length_code-lt n),
            top_bit (length_code n) false (length_code-lt n),
            append_assoc (extended_length n) f.payload rest,
            read_length-extended n (f.payload ++ rest) v.length,
          )
          (read_payload-append f.opcode f.fin f.payload rest)

pub read_frame_empty : read_frame [] ≡ none
unfolding read_frame
read_frame_empty = refl

pub send_frame_cons :
    (key : Key) (f : Frame) → (x : ℕ) × (xs : List ℕ) × (send_frame key f ≡ x ∷ xs)
unfolding send_frame
send_frame_cons key f = (_, _, refl)
