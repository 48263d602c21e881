-- ===== src/PeerChannels/Forwarding.antt =====
-- What src/impl/peerconnection.cpp does with the open messages of the peer.
use gstreamer_web_rtc.Prelude.{
  ℕ, ◌%◌, ◌≡◌, refl, sym, ap, ◌∙◌, Bool, true, Option, none, some, ◌==◌, if◌then◌else◌, Bool-cases,
  Option-cases, inl, inr, arith,
}
use gstreamer_web_rtc.Prelude.Word.{u16}
use gstreamer_web_rtc.DataChannel.{Message}
use gstreamer_web_rtc.PeerChannels.{
  Methods, PeerChannels, is_open_message, lock, find_data_channel, emplace_if, emplace, update,
  close_open, deliver, accept, open_channel, forward,
}

module _ {C : Type 0} (methods : Methods C) where
  -- Closing the old channel changes the store alone.
  close_open-channels :
      (o : Option ℕ) (p : PeerChannels C)
      → ((close_open methods o p).channels ≡ p.channels)
        × ((close_open methods o p).alive ≡ p.alive)
        × ((close_open methods o p).next ≡ p.next)
  unfolding close_open update
  close_open-channels none p = (refl, refl, refl)
  close_open-channels (some ref) p = elim (Bool-cases (methods.is_open (p.store ref))) [
    | inl opened ↦ rw opened (refl, refl, refl)
    | inr closed ↦ rw closed (refl, refl, refl)
  ]

  found :
      (stream ref : ℕ) (p : PeerChannels C)
      → p.channels stream ≡ some ref
      → p.alive ref ≡ true
      → find_data_channel stream p ≡ some ref
  unfolding find_data_channel lock
  found stream ref p e live = rw (e, live) refl

  -- The map and the store after a new channel.
  accept-entry :
      (c : C) (stream : ℕ) (m : Message) (q : PeerChannels C)
      → q.channels stream ≡ none
      → (accept methods c stream m q).channels stream ≡ some q.next
  unfolding accept emplace emplace_if deliver update
  accept-entry c stream m q absent =
      let same : (stream == stream) ≡ true = ground arith in rw (absent, same) refl

  emplace-alive :
      (o : Option ℕ) (stream ref : ℕ) (q : PeerChannels C)
      → ((emplace_if o stream ref q).alive ≡ q.alive)
        × ((emplace_if o stream ref q).store ≡ q.store)
  unfolding emplace_if
  emplace-alive none stream ref q = (refl, refl)
  emplace-alive (some old) stream ref q = (refl, refl)

  accept-alive :
      (c : C) (stream : ℕ) (m : Message) (q : PeerChannels C) (ref : ℕ)
      → (accept methods c stream m q).alive ref ≡ (if ref == q.next then true else q.alive ref)
  unfolding accept emplace deliver update
  accept-alive c stream m q ref =
      ap (λ f. f ref) (emplace-alive (q.channels stream) stream q.next _).0

  accept-store :
      (c : C) (stream : ℕ) (m : Message) (q : PeerChannels C)
      → (accept methods c stream m q).store q.next ≡ methods.receive m c
  unfolding accept emplace deliver update emplace_if
  accept-store c stream m q =
      let here : (q.next == q.next) ≡ true = ground arith in
      elim (Option-cases (q.channels stream)) [
        | inl e ↦ rw (e, here) refl
        | inr (old, e) ↦ rw (e, here) refl
      ]

  accept-new :
      (c : C) (stream : ℕ) (m : Message) (q : PeerChannels C)
      → q.channels stream ≡ none
      → find_data_channel stream (accept methods c stream m q) ≡ some q.next
  accept-new c stream m q absent =
      let here : (q.next == q.next) ≡ true = ground arith in
      found stream q.next (accept methods c stream m q) (accept-entry c stream m q absent)
        (accept-alive c stream m q q.next ∙ (rw here refl))

module _ {C : Type 0} (methods : Methods C) (p : PeerChannels C) (m : Message) (c : C) where
  -- An open message on a stream of the peer's parity, for which a new channel can be made.
  pub record Opens (active : Bool) : Type 0 where
    pub opens : is_open_message m ≡ true
    pub of_peer : (u16 m.stream % 2 == (if active then 1 else 0)) ≡ true
    pub assigned : methods.assign_stream (u16 m.stream) methods.new_incoming ≡ some c

  opened :
      (active : Bool)
      → Opens active
      → forward methods active m p
        ≡ accept methods c
            (u16 m.stream)
            m
            (close_open methods (find_data_channel (u16 m.stream) p) p)
  unfolding forward open_channel
  opened active o = rw (o.opens, o.of_peer, o.assigned) refl

  -- An open message on a stream without an entry makes a channel that is found there and that has
  -- received the message.
  pub open_message_new :
      (active : Bool)
      → Opens active
      → p.channels (u16 m.stream) ≡ none
      → (find_data_channel (u16 m.stream) (forward methods active m p) ≡ some p.next)
        × ((forward methods active m p).store p.next ≡ methods.receive m c)
  open_message_new active o absent =
      let q = close_open methods (find_data_channel (u16 m.stream) p) p in
      let (channels, alive, next) =
        close_open-channels methods (find_data_channel (u16 m.stream) p) p in
      let empty : q.channels (u16 m.stream) ≡ none = ap (λ f. f (u16 m.stream)) channels ∙ absent in
      rw (opened active o) (
        accept-new methods c (u16 m.stream) m q empty ∙ ap some next,
        ap (accept methods c (u16 m.stream) m q).store (sym next)
            ∙ accept-store methods c (u16 m.stream) m q,
      )
