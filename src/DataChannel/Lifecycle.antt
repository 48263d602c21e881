-- ===== src/DataChannel/Lifecycle.antt =====
-- A data channel over any sequence of calls: it opens at most once and closes exactly once.
use gstreamer_web_rtc.Prelude.{
  ℕ, ◌≤◌, ◌≡◌, true, false, ◌&&◌, inl, inr, none, some, List, [], ◌∷◌, if◌then◌else◌, Option-cases,
  arith,
}
use gstreamer_web_rtc.Transport.{MessageType}
use gstreamer_web_rtc.DataChannel.{
  DataChannel, Message, open_channel, incoming, close, remote_close, receive, outgoing,
}
use gstreamer_web_rtc.DataChannel.Counts.{
  Inv, opens_in, closes_in, remote_close-Inv, close-Inv, incoming-Inv, open_as-Inv, outgoing-Inv,
}

-- What the application, the transport and the other side can do to a channel. An incoming message
-- may have to wait for room in the receive queue, and then nothing is done.
pub data Action : Type 0 where
  opens closes remote_closes receives : Action
  sends : MessageType → List ℕ → Action
  arrives : Message → Action

pub act : DataChannel → Action → DataChannel
act d opens = (open_channel d).0
act d closes = close d
act d remote_closes = remote_close d
act d receives = (receive d).1
act d (sends type bytes) = (outgoing d type bytes).0
act d (arrives m) = elim (incoming d m) [ none ↦ d | some (e, x) ↦ e ]

pub run : DataChannel → List Action → DataChannel
run d [] = d
run d (a ∷ l) = run (act d a) l

act-Inv : (d : DataChannel) (a : Action) → Inv d → Inv (act d a)
unfolding act open_channel receive
act-Inv d opens v = open_as-Inv d.class d v
act-Inv d closes v = close-Inv d v
act-Inv d remote_closes v = remote_close-Inv d v
act-Inv d receives v = record { closes = v.closes; opens = v.opens }
act-Inv d (sends type bytes) v = outgoing-Inv d type bytes v
act-Inv d (arrives m) v = elim (Option-cases (incoming d m)) [
  | inl e ↦ rw (e, act) v
  | inr ((e, x), h) ↦ rw (h, act) (incoming-Inv d e m x v h)
]

run-Inv : (d : DataChannel) (l : List Action) → Inv d → Inv (run d l)
unfolding run
run-Inv d [] v = v
run-Inv d (a ∷ l) v = run-Inv (act d a) l (act-Inv d a v)

-- A channel that starts neither open nor closed, with no callback called yet, whatever is done to
-- it: the callback for opening is called at most once, the callback for closing is called once if
-- the channel is closed and not at all otherwise, the channel is never open and closed at once, and
-- when it is open the callback for opening was called.
pub opens_and_closes_once :
    (d : DataChannel) (l : List Action)
    → d.is_open ≡ false
    → d.is_closed ≡ false
    → d.events ≡ []
    → let e = run d l in
      (opens_in e.events ≤ 1)
      × (closes_in e.events ≡ (if e.is_closed then 1 else 0))
      × ((e.is_open && e.is_closed) ≡ false)
      × (e.is_open ≡ true → opens_in e.events ≡ 1)
opens_and_closes_once d l o c es =
    let v =
      run-Inv d l (record { closes = ground (arith, c, es); opens = ground (arith, o, c, es) }) in
    ground (arith, v.closes, v.opens)
