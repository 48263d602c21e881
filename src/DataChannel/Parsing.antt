-- ===== src/DataChannel/Parsing.antt =====
-- The open message of a data channel, parsed back to what it was made from.
use gstreamer_web_rtc.Prelude.{
  ℕ, ◌<◌, ◌≡◌, refl, ◌∙◌, Bool, true, false, some, List, ◌++◌, length, arith,
}
use gstreamer_web_rtc.DataChannel.Open.{
  Reliability, reliable, rexmit, timed, count, millis, open_message, set_unordered,
  channel_parameters, parse_open, parse_reliability,
}

-- What an open message can carry: the variant fits the type, a number of retransmissions is not
-- negative, and a lifetime fits 32 bits.
pub data IsNegotiable (r : Reliability) : Type 0 where
  always : r.type ≡ reliable → r.limit ≡ count 0 → IsNegotiable r
  retransmissions : (n : ℕ) → r.type ≡ rexmit → r.limit ≡ count n → n < 0x80000000 → IsNegotiable r
  lifetime : (n : ℕ) → r.type ≡ timed → r.limit ≡ millis n → n < 0x100000000 → IsNegotiable r

-- The open message is parsed back to the fields that it was built from.
pub parse_open-open_message :
    (channel_type parameter : ℕ) (label protocol : List ℕ)
    → parameter < 0x100000000
    → length label < 65536
    → length protocol < 65536
    → parse_open (open_message channel_type parameter label protocol)
      ≡ some (record {
        channel_type = channel_type;
        parameter = parameter;
        label_length = length label;
        protocol_length = length protocol;
        text = label ++ protocol;
      })
unfolding parse_open open_message
parse_open-open_message ct parameter label protocol h k l = ground arith

parse_reliable :
    (u : Bool) (n : ℕ)
    → parse_reliability (set_unordered u 0) n
      ≡ record { type = reliable; unordered = u; limit = count 0 }
unfolding parse_reliability
parse_reliable true n = refl
parse_reliable false n = refl

parse_rexmit :
    (u : Bool) (n : ℕ)
    → parse_reliability (set_unordered u 1) n
      ≡ record { type = rexmit; unordered = u; limit = count n }
unfolding parse_reliability
parse_rexmit true n = refl
parse_rexmit false n = refl

parse_timed :
    (u : Bool) (n : ℕ)
    → parse_reliability (set_unordered u 2) n
      ≡ record { type = timed; unordered = u; limit = millis n }
unfolding parse_reliability
parse_timed true n = refl
parse_timed false n = refl

-- The channel type and the parameter stand for the reliability that they were made from.
pub parse_reliability-channel_parameters :
    (r : Reliability)
    → IsNegotiable r
    → (ct : ℕ) × (parameter : ℕ) × (channel_parameters r.type r.limit ≡ some (ct, parameter))
      × (parameter < 0x100000000)
      × (parse_reliability (set_unordered r.unordered ct) parameter ≡ r)
unfolding channel_parameters parse_reliability
parse_reliability-channel_parameters r (always t l) =
    (0, 0, ground arith, omega arith, parse_reliable r.unordered 0 ∙ ground arith)
parse_reliability-channel_parameters r (retransmissions n t l h) =
    (1, n, ground arith, omega arith, parse_rexmit r.unordered n ∙ ground arith)
parse_reliability-channel_parameters r (lifetime n t l h) =
    (2, n, ground arith, omega arith, parse_timed r.unordered n ∙ ground arith)
