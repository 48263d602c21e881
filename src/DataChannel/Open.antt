-- ===== src/DataChannel/Open.antt =====
-- The messages of the establishment protocol (RFC 8832) in src/impl/datachannel.cpp, as bytes: the
-- packed structures `OpenMessage` and `AckMessage`, with multi-byte fields in network order.
use gstreamer_web_rtc.Prelude.{
  ℕ, Bool, true, false, not, Option, none, some, List, [], ◌∷◌, ◌++◌, ltb, ◌==◌, if◌then◌else◌,
  length, bit_and, bit_or,
}
use gstreamer_web_rtc.Prelude.Word.{u16, u32, be16, be32, from_be16, from_be32}

abbrev pub message_open : ℕ
message_open = 0x03

abbrev pub message_ack : ℕ
message_ack = 0x02

abbrev pub channel_reliable : ℕ
channel_reliable = 0x00

abbrev pub channel_partial_reliable_rexmit : ℕ
channel_partial_reliable_rexmit = 0x01

abbrev pub channel_partial_reliable_timed : ℕ
channel_partial_reliable_timed = 0x02

-- `Reliability::rexmit`: the variant holds a number of retransmissions, an `int`, or milliseconds,
-- a signed 64-bit count. The number stands for the `int` or the count in two's complement.
pub data Rexmit : Type 0 where
  count : ℕ → Rexmit
  millis : ℕ → Rexmit

pub data ReliabilityType : Type 0 where
  reliable rexmit timed : ReliabilityType

pub record Reliability : Type 0 where
  pub type : ReliabilityType
  pub unordered : Bool
  pub limit : Rexmit

-- The value of the default constructor.
abbrev pub default_reliability : Reliability
default_reliability = record { type = reliable; unordered = false; limit = count 0 }

-- `std::get<int>` and `std::get<milliseconds>` throw at the other alternative.
abbrev get_count : Rexmit → Option ℕ
get_count (count n) = some n
get_count (millis n) = none

abbrev get_millis : Rexmit → Option ℕ
get_millis (count n) = none
get_millis (millis n) = some n

-- `uint32_t(std::max(n, 0))`, for an `int` in two's complement.
abbrev at_least_zero : ℕ → ℕ
at_least_zero n = if ltb n 0x80000000 then n else 0

abbrev pub set_unordered : Bool → ℕ → ℕ
set_unordered true channel_type = bit_or channel_type 0x80
set_unordered false channel_type = channel_type

-- The channel type and the reliability parameter that `open` writes; `none` is an exception.
unfoldable pub channel_parameters : ReliabilityType → Rexmit → Option (ℕ × ℕ)
channel_parameters rexmit limit = elim (get_count limit) [
  | none ↦ none
  | some n ↦ some (channel_partial_reliable_rexmit, at_least_zero n)
]
channel_parameters timed limit = elim (get_millis limit) [
  | none ↦ none
  | some n ↦ some (channel_partial_reliable_timed, u32 n)
]
channel_parameters reliable limit = some (channel_reliable, 0)

-- The bytes of the open message, with label and protocol behind the structure.
unfoldable pub open_message : ℕ → ℕ → List ℕ → List ℕ → List ℕ
open_message channel_type parameter label protocol =
    (message_open ∷ channel_type ∷ [])
    ++ (be16 0
        ++ (be32 parameter
            ++ (be16 (u16 (length label))
                ++ (be16 (u16 (length protocol)) ++ (label ++ protocol)))))

abbrev pub ack_message : List ℕ
ack_message = message_ack ∷ []

-- The fields of a message that is not shorter than the structure.
pub record OpenMessage : Type 0 where
  pub channel_type : ℕ
  pub parameter : ℕ
  pub label_length : ℕ
  pub protocol_length : ℕ
  pub text : List ℕ

-- `none`: the message is too small.
unfoldable pub parse_open : List ℕ → Option OpenMessage
parse_open (_ ∷ ct ∷ _ ∷ _ ∷ r3 ∷ r2 ∷ r1 ∷ r0 ∷ l1 ∷ l0 ∷ p1 ∷ p0 ∷ text) = some (record {
  channel_type = ct;
  parameter = from_be32 r3 r2 r1 r0;
  label_length = from_be16 l1 l0;
  protocol_length = from_be16 p1 p0;
  text = text;
})
parse_open _ = none

-- The switch over the channel type.
unfoldable pub parse_reliability : ℕ → ℕ → Reliability
parse_reliability channel_type parameter =
    let unordered = not (bit_and channel_type 0x80 == 0) in
    let kind = bit_and channel_type 0x7f in
    if kind == channel_partial_reliable_rexmit
    then (record { type = rexmit; unordered = unordered; limit = count parameter })
    else if kind == channel_partial_reliable_timed
    then (record { type = timed; unordered = unordered; limit = millis parameter })
    else (record { type = reliable; unordered = unordered; limit = count 0 })
