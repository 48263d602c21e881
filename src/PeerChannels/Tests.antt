-- ===== src/PeerChannels/Tests.antt =====
-- The channels of a small connection, and the theorems about them.
use gstreamer_web_rtc.Prelude.{
  ℕ, ◌≡◌, ◌≢◌, ◌≤◌, ◌<◌, ◌%◌, ◌==◌, if◌then◌else◌, refl, true, false, Option, none, some, [], ◌∷◌,
  arith,
}
use gstreamer_web_rtc.Transport.{control, string}
use gstreamer_web_rtc.DataChannel.{Message}
use gstreamer_web_rtc.PeerChannels.{
  Methods, PeerChannels, lock, find_data_channel, is_taken, search, first_stream,
  max_data_channel_stream, assign_found, assign_loop, cleared, assign_data_channels, update,
  emplace, emplace_if,
}
use gstreamer_web_rtc.PeerChannels.Assignment.{assign_loop_lowest}

-- A channel that is its stream, and throws when a stream is assigned twice.
assign_once : ℕ → Option ℕ → Option (Option ℕ)
assign_once stream none = some (some stream)
assign_once stream (some old) = none

abbrev methods : Methods (Option ℕ)
methods = record {
  new_incoming = none;
  is_open = λ c. true;
  close = λ c. c;
  assign_stream = assign_once;
  receive = λ m c. c;
}

-- Channel 0 has stream 0; channels 1 and 2 wait for a stream.
abbrev connection : PeerChannels (Option ℕ)
connection = record {
  active = some true;
  sctp_max = some 3;
  channels = λ stream. if stream == 0 then some 0 else none;
  unassigned = 1 ∷ 2 ∷ [];
  alive = λ ref. true;
  store = λ ref. none;
  next = 3;
  resets = [];
}

second_stream : search 4 0 3 connection ≡ some 2
unfolding search find_data_channel lock is_taken
second_stream = refl

-- The second of the channels finds no stream, and the exception leaves the first in the list.
too_many :
    ((assign_data_channels methods connection).1 ≡ false)
    × ((assign_data_channels methods connection).0.unassigned ≡ 1 ∷ 2 ∷ [])
unfolding assign_data_channels assign_loop cleared search find_data_channel lock is_taken
    first_stream max_data_channel_stream assign_found update emplace emplace_if assign_once
too_many = (refl, refl)

assign_loop_lowest_example :
    (s : ℕ) × (p1 : PeerChannels (Option ℕ)) × (assign_loop methods true (1 ∷ 2 ∷ []) connection
      ≡ assign_loop methods true (2 ∷ []) p1)
    × (s ≤ 2)
    × (s % 2 ≡ 0)
    × (is_taken (find_data_channel s connection) ≡ false)
    × ((i : ℕ) → i < s → i % 2 ≡ 0 → is_taken (find_data_channel i connection) ≡ true)
    × (find_data_channel s p1 ≡ some 1)
    × (p1.store 1 ≡ some s)
    × ((i : ℕ) → i ≢ s → find_data_channel i p1 ≡ find_data_channel i connection)
unfolding max_data_channel_stream
assign_loop_lowest_example =
    assign_loop_lowest methods connection true 1 2 (2 ∷ []) (λ s. some s) refl
      (λ s. unfold assign_once in refl) (λ s ref e. refl) (omega arith) (omega arith) refl
      (unfold is_taken find_data_channel lock in refl)

abbrev opening : Message
opening = record { type = control; bytes = 3 ∷ []; stream = 1; reliability = none }

abbrev reopened : PeerChannels (Option ℕ)
reopened = record connection { channels = λ stream. if stream == 1 then some 0 else none }

abbrev text : Message
text = record { type = string; bytes = 0x68 ∷ []; stream = 1; reliability = none }
