-- ===== src/Nack.antt =====
-- include/rtc/rtp.hpp and src/rtp.cpp: the generic NACK packet of RTCP (RFC 4585, 6.2.1). The
-- fields of a part are the numbers that its accessors read and write; in the packet they are in
-- network order. `parts` is the memory from the first part on, by index. A shift by a negative
-- amount has no result (`none`).
pub mod Bits
pub mod Masks
pub mod RoundTrip
pub mod Tests
use gstreamer_web_rtc.Prelude.{
  ℕ, zero, suc, ◌+◌, ◌-◌, ◌/◌, ◌%◌, ◌^◌, Bool, true, false, not, ◌||◌, Option, none, some, List, [],
  ◌∷◌, ◌++◌, ltb, ◌==◌, if◌then◌else◌, bit_and, bit_or,
}
use gstreamer_web_rtc.Prelude.Word.{u16}

pub record NackPart : Type 0 where
  pub pid : ℕ
  pub blp : ℕ

-- The loop of `getSequenceNumbers`: `bitmask` has 16 bits, so that 16 rounds are enough.
unfoldable pub masked_numbers : ℕ → ℕ → ℕ → List ℕ
masked_numbers zero bitmask i = []
masked_numbers (suc rounds) bitmask i =
    let rest = masked_numbers rounds (bitmask / 2) (u16 (i + 1)) in
    if not (ltb 0 bitmask) then [] else if bit_and bitmask 0x1 == 0 then rest else i ∷ rest

unfoldable pub get_sequence_numbers : NackPart → List ℕ
unfolding masked_numbers
get_sequence_numbers part = part.pid ∷ masked_numbers 16 part.blp (u16 (part.pid + 1))

-- The packet's parts with the two variables of the caller that `addMissingPacket` updates.
pub record Fci : Type 0 where
  pub parts : ℕ → NackPart
  pub fci_count : ℕ
  pub fci_pid : ℕ

unfoldable pub set_part : (ℕ → NackPart) → ℕ → NackPart → ℕ → NackPart
set_part parts i part j = if j == i then part else parts j

unfoldable pub new_part : Fci → ℕ → Fci
new_part f missing = record {
  parts = set_part f.parts f.fci_count (record { pid = missing; blp = 0 });
  fci_count = f.fci_count + 1;
  fci_pid = missing;
}

unfoldable pub mark_bit : Fci → ℕ → Fci
mark_bit f missing =
    let last = f.parts (f.fci_count - 1) in
    let new_bit = u16 (2 ^ (missing - (1 + f.fci_pid))) in
    record f {
      parts = set_part f.parts (f.fci_count - 1) (record last { blp = bit_or last.blp new_bit });
    }

-- The result is true when the packet has grown. For the packet that the last part begins with, the
-- code shifts by -1.
unfoldable pub add_missing_packet : Fci → ℕ → Option (Bool × Fci)
unfolding new_part mark_bit
add_missing_packet f missing =
    if f.fci_count == 0 || (ltb missing f.fci_pid || ltb (f.fci_pid + 16) missing)
    then some (true, new_part f missing)
    else if ltb missing (1 + f.fci_pid)
    then none
    else some (false, mark_bit f missing)
