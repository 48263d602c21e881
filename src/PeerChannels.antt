-- ===== src/PeerChannels.antt =====
-- src/impl/peerconnection.cpp: the data channels of a peer connection, by stream. A channel is a
-- number in a store, which a weak pointer names; `alive` says whether the pointer can be locked. The
-- data channels are a parameter, a record of their methods. The state of an exception is a result.
pub mod Assignment
pub mod Forwarding
pub mod Tests
use gstreamer_web_rtc.Prelude.{
  ℕ, zero, suc, ◌+◌, ◌%◌, Bool, true, false, not, ◌&&◌, Option, none, some, List, [], ◌∷◌, ◌++◌,
  ltb, ◌==◌, if◌then◌else◌,
}
use gstreamer_web_rtc.Prelude.Word.{u16}
use gstreamer_web_rtc.Transport.{MessageType, binary, string, control, reset}
use gstreamer_web_rtc.DataChannel.{Message}
use gstreamer_web_rtc.DataChannel.Open.{message_open}

-- The methods of a data channel that the connection calls; `assign_stream` may throw (`none`).
pub record Methods (C : Type 0) : Type 0 where
  pub new_incoming : C
  pub is_open : C → Bool
  pub close : C → C
  pub assign_stream : ℕ → C → Option C
  pub receive : Message → C → C

-- `active` is the role of the ICE transport and `sctp_max` the greatest stream of the SCTP
-- transport, if there are such transports. `resets` are the calls of closeStream.
pub record PeerChannels (C : Type 0) : Type 0 where
  pub active : Option Bool
  pub sctp_max : Option ℕ
  pub channels : ℕ → Option ℕ
  pub unassigned : List ℕ
  pub alive : ℕ → Bool
  pub store : ℕ → C
  pub next : ℕ
  pub resets : List ℕ

unfoldable pub is_reset : MessageType → Bool
is_reset reset = true
is_reset _ = false

unfoldable pub is_open_message : Message → Bool
is_open_message m = elim m.type [
  | control ↦ elim m.bytes [ [] ↦ false | b ∷ bytes ↦ b == message_open ]
  | _ ↦ false
]

-- The stream that the search begins with.
unfoldable pub first_stream : Bool → ℕ
first_stream true = 0
first_stream false = 1

unfoldable pub is_taken : Option ℕ → Bool
is_taken none = false
is_taken (some ref) = true

module _ {C : Type 0} where
  unfoldable pub lock : PeerChannels C → Option ℕ → Option ℕ
  lock p none = none
  lock p (some ref) = if p.alive ref then some ref else none

  unfoldable pub find_data_channel : ℕ → PeerChannels C → Option ℕ
  unfolding lock
  find_data_channel stream p = lock p (p.channels stream)

  unfoldable pub max_data_channel_stream : PeerChannels C → ℕ
  max_data_channel_stream p = elim p.sctp_max [ none ↦ 1023 | some n ↦ n ]

  -- `emplace` in the map does nothing when there is an entry for the stream.
  unfoldable pub emplace_if : Option ℕ → ℕ → ℕ → PeerChannels C → PeerChannels C
  emplace_if (some old) stream ref p = p
  emplace_if none stream ref p = record p {
    channels = λ s. if s == stream then some ref else p.channels s;
  }

  unfoldable pub emplace : ℕ → ℕ → PeerChannels C → PeerChannels C
  unfolding emplace_if
  emplace stream ref p = emplace_if (p.channels stream) stream ref p

  unfoldable pub update : ℕ → C → PeerChannels C → PeerChannels C
  update ref c p = record p { store = λ r. if r == ref then c else p.store r }

  unfoldable pub cleanup_data_channels : PeerChannels C → PeerChannels C
  unfolding lock
  cleanup_data_channels p = record p { channels = λ stream. lock p (p.channels stream) }

  unfoldable pub close_stream : ℕ → PeerChannels C → PeerChannels C
  close_stream stream p = record p { resets = p.resets ++ stream ∷ [] }

  -- The search for a stream of the right parity that no channel has; `none` is an exception. The
  -- streams below 2 ^ 16 - 2 do not wrap around.
  unfoldable pub search : ℕ → ℕ → ℕ → PeerChannels C → Option ℕ
  unfolding find_data_channel is_taken
  search zero stream max p = none
  search (suc rounds) stream max p =
      let rest = search rounds (u16 (stream + 2)) max p in
      if ltb max stream
      then none
      else if is_taken (find_data_channel stream p)
      then rest
      else some stream

module _ {C : Type 0} (methods : Methods C) where
  unfoldable pub assign_found : Option ℕ → ℕ → PeerChannels C → Option (PeerChannels C)
  unfolding update emplace
  assign_found none ref p = none
  assign_found (some stream) ref p = elim (methods.assign_stream stream (p.store ref)) [
    | none ↦ none
    | some c ↦ some (emplace stream ref (update ref c p))
  ]

  -- The loop of `assignDataChannels`; after an exception the channels that were assigned stay so.
  unfoldable pub assign_loop : Bool → List ℕ → PeerChannels C → PeerChannels C × Bool
  unfolding search first_stream max_data_channel_stream assign_found
  assign_loop active [] p = (p, true)
  assign_loop active (ref ∷ refs) p =
      let max = max_data_channel_stream p in
      let found = assign_found (search (suc max) (first_stream active) max p) ref p in
      let skipped = assign_loop active refs p in
      elim (p.alive ref) [
        | false ↦ skipped
        | true ↦ elim found [ none ↦ (p, false) | some p1 ↦ assign_loop active refs p1 ]
      ]

  unfoldable pub cleared : PeerChannels C × Bool → PeerChannels C × Bool
  cleared (p, true) = (record p { unassigned = [] }, true)
  cleared (p, false) = (p, false)

  unfoldable pub assign_data_channels : PeerChannels C → PeerChannels C × Bool
  unfolding assign_loop cleared
  assign_data_channels p = elim p.active [
    | none ↦ (p, false)
    | some active ↦ cleared (assign_loop active p.unassigned p)
  ]

  unfoldable pub deliver : Message → ℕ → PeerChannels C → PeerChannels C
  unfolding update
  deliver m ref p = update ref (methods.receive m (p.store ref)) p

  unfoldable pub close_open : Option ℕ → PeerChannels C → PeerChannels C
  unfolding update
  close_open none p = p
  close_open (some ref) p =
      if methods.is_open (p.store ref) then update ref (methods.close (p.store ref)) p else p

  -- A new channel for an open message, which the callback of the connection keeps alive.
  unfoldable pub accept : C → ℕ → Message → PeerChannels C → PeerChannels C
  unfolding emplace deliver
  accept c stream m p =
      let ref = p.next in
      let p1 = record p {
        store = λ r. if r == ref then c else p.store r;
        alive = λ r. if r == ref then true else p.alive r;
        next = suc ref;
      } in
      deliver m ref (emplace stream ref p1)

  unfoldable pub open_channel : Bool → ℕ → Message → PeerChannels C → PeerChannels C
  unfolding find_data_channel close_stream close_open accept
  open_channel active stream m p =
      if not (stream % 2 == (if active then 1 else 0))
      then close_stream m.stream p
      else elim (methods.assign_stream stream methods.new_incoming) [
        | none ↦ close_open (find_data_channel stream p) p
        | some c ↦ accept c stream m (close_open (find_data_channel stream p) p)
      ]

  unfoldable pub deliver_to : Option ℕ → Message → PeerChannels C → PeerChannels C
  unfolding deliver is_reset close_stream
  deliver_to none m p = if is_reset m.type then p else close_stream m.stream p
  deliver_to (some ref) m p = deliver m ref p

  unfoldable pub forward : Bool → Message → PeerChannels C → PeerChannels C
  unfolding is_open_message open_channel find_data_channel deliver_to
  forward active m p =
      let stream = u16 m.stream in
      if is_open_message m
      then open_channel active stream m p
      else deliver_to (find_data_channel stream p) m p

  -- `forwardMessage` for a message that is not null.
  unfoldable pub forward_message : Message → PeerChannels C → PeerChannels C
  unfolding forward
  forward_message m p = elim p.active [
    | none ↦ p
    | some active ↦ elim p.sctp_max [ none ↦ p | some n ↦ forward active m p ]
  ]
