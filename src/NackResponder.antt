-- ===== src/NackResponder.antt =====
-- include/rtc/rtcpnackresponder.hpp and src/rtcpnackresponder.cpp: the packets that were sent last
-- and the answers to NACK messages. A packet is the list of its bytes. The elements linked from
-- `oldest` to `newest` are a list; `storage` is an association list with the newest entry last. A
-- read past the end of a message has no result (`none`).
pub mod Window
pub mod Tests
use gstreamer_web_rtc.Prelude.{
  ℕ, zero, suc, ◌+◌, ◌-◌, ◌*◌, ◌/◌, ◌%◌, Bool, true, false, not, ◌||◌, Option, none, some, List, [],
  ◌∷◌, ◌++◌, ltb, ◌==◌, if◌then◌else◌, length, drop, bit_and, ◌>>=◌,
}
use gstreamer_web_rtc.Prelude.Word.{u32, from_be16}
use gstreamer_web_rtc.Nack.{NackPart, get_sequence_numbers}

pub record Element : Type 0 where
  pub packet : List ℕ
  pub sequence_number : ℕ

pub record Storage : Type 0 where
  pub elements : List Element
  pub storage : List Element
  pub maximum_size : ℕ

unfoldable pub new : ℕ → Storage
new maximum_size = record { elements = []; storage = []; maximum_size = maximum_size }

-- `unordered_map::find`, `emplace`, which leaves an entry that is there, and `erase`.
unfoldable pub find : List Element → ℕ → Option Element
find [] n = none
find (e ∷ es) n = if e.sequence_number == n then some e else find es n

unfoldable pub emplace : List Element → Element → List Element
unfolding find
emplace es e = elim (find es e.sequence_number) [ none ↦ es ++ e ∷ [] | some _ ↦ es ]

unfoldable pub erase : List Element → ℕ → List Element
erase [] n = []
erase (e ∷ es) n = if e.sequence_number == n then es else e ∷ erase es n

unfoldable pub get : Storage → ℕ → Option (List ℕ)
unfolding find
get s n = find s.storage n >>= λ e. some e.packet

-- `seqNumber` of the RTP header, for a packet that is long enough to hold one.
unfoldable pub seq_number : List ℕ → ℕ
seq_number (_ ∷ _ ∷ high ∷ low ∷ _) = from_be16 high low
seq_number _ = 0

-- The end of `store`: the oldest element goes when there are too many.
unfoldable pub drop_oldest : Storage → List Element → Storage
unfolding erase
drop_oldest s [] = s
drop_oldest s (oldest ∷ rest) = record s {
  storage = erase s.storage oldest.sequence_number;
  elements = rest;
}

unfoldable pub trim : Storage → Storage
unfolding drop_oldest
trim s = if ltb s.maximum_size (length s.storage) then drop_oldest s s.elements else s

unfoldable pub link : Storage → Element → List Element
link s e = if length s.storage == 0 then e ∷ [] else s.elements ++ e ∷ []

unfoldable pub store : Storage → List ℕ → Storage
unfolding seq_number link emplace trim
store s packet =
    if ltb (length packet) 12
    then s
    else (let e : Element = record { packet = packet; sequence_number = seq_number packet } in
        trim (record s { elements = link s e; storage = emplace s.storage e }))

-- `processOutgoingBinaryMessage`.
unfoldable pub store_all : Storage → List (List ℕ) → Storage
unfolding store
store_all s [] = s
store_all s (packet ∷ packets) = store_all (store s packet) packets

-- The parts of a NACK that starts at the given bytes, `count` of them from the part on.
unfoldable pub read_parts : ℕ → List ℕ → Option (List ℕ)
unfolding get_sequence_numbers
read_parts zero bytes = some []
read_parts (suc count) (p1 ∷ p0 ∷ b1 ∷ b0 ∷ bytes) = read_parts count bytes >>= λ rest.
    some (get_sequence_numbers (record { pid = from_be16 p1 p0; blp = from_be16 b1 b0 }) ++ rest)
read_parts (suc count) _ = none

-- The packets in storage with the given numbers.
unfoldable pub requested : Storage → List ℕ → List (List ℕ)
unfolding get
requested s [] = []
requested s (n ∷ ns) = elim (get s n) [
  | none ↦ requested s ns
  | some packet ↦ packet ∷ requested s ns
]

-- What one RTCP packet asks for. `getSeqNoCount` is an unsigned difference of 32 bits.
unfoldable pub answer_one : Storage → ℕ → ℕ → ℕ → List ℕ → Option (List (List ℕ))
unfolding read_parts requested
answer_one s first payload_type len body =
    if not (payload_type == 205) || not (bit_and first 0x1f == 1)
    then some []
    else (read_parts (u32 (len + 4294967296 - 2)) (drop 8 body) >>= λ numbers.
        some (requested s numbers))

-- `processIncomingControlMessage`: each round goes on by the length of a packet, four bytes at
-- least, so that as many rounds as the message has bytes are enough.
unfoldable pub process_control : ℕ → Storage → List ℕ → Option (List (List ℕ))
unfolding answer_one
process_control rounds s [] = some []
process_control zero s (_ ∷ _) = none
process_control (suc rounds) s (first ∷ payload_type ∷ l1 ∷ l0 ∷ body) =
    let len = from_be16 l1 l0 in
    let later = process_control rounds s (drop (len * 4) body) in
    answer_one s first payload_type len body >>= λ packets. later >>= λ rest. some (packets ++ rest)
process_control (suc rounds) s (_ ∷ _) = none

unfoldable pub process_incoming_control : Storage → List ℕ → Option (List (List ℕ))
unfolding process_control
process_incoming_control s message = process_control (length message) s message
