-- ===== src/Ws/Fragments.antt =====
-- Messages sent in fragments, with control frames between them; closing and idle connections.
use gstreamer_web_rtc.Prelude.{
  ℕ, zero, suc, ◌+◌, ◌≤◌, ◌<◌, ◌≡◌, refl, ◌∙◌, true, false, ◌⊎◌, Option, none, some, List, [], ◌∷◌,
  ◌++◌, append_assoc, if◌then◌else◌, arith,
}
use gstreamer_web_rtc.Transport.{connected, disconnected, failed, MessageType}
use gstreamer_web_rtc.Ws.Framing.{
  Frame, send_frame, continuation, text_frame, binary_frame, ping, pong, close_frame,
}
use gstreamer_web_rtc.Ws.{
  Handshake, WsTransport, message, message_type, transmit, send, close, recv_frame, incoming, idle,
}

-- The frames that end a message, with control frames between them, and the bytes they carry.
pub data Rest : List Frame → List ℕ → Type 0 where
  last : (f : Frame) → f.opcode ≡ continuation → f.fin ≡ true → Rest (f ∷ []) f.payload
  more :
      (f : Frame) {fs : List Frame} {p : List ℕ}
      → f.opcode ≡ continuation
      → f.fin ≡ false
      → Rest fs p
      → Rest (f ∷ fs) (f.payload ++ p)
  control :
      (f : Frame) {fs : List Frame} {p : List ℕ}
      → (f.opcode ≡ ping) ⊎ (f.opcode ≡ pong)
      → Rest fs p
      → Rest (f ∷ fs) p

pub recv_all : WsTransport → List Frame → WsTransport
recv_all t [] = t
recv_all t (f ∷ fs) = recv_all (recv_frame t f) fs

recv_last :
    (t : WsTransport) (f : Frame)
    → f.opcode ≡ continuation
    → f.fin ≡ true
    → ((recv_frame t f).received
        ≡ t.received ++ message (message_type t.partial_opcode) (t.partial ++ f.payload) ∷ [])
      × ((recv_frame t f).partial ≡ [])
unfolding recv_frame
recv_last t f e k = ground arith

recv_more :
    (t : WsTransport) (f : Frame)
    → f.opcode ≡ continuation
    → f.fin ≡ false
    → ((recv_frame t f).received ≡ t.received)
      × ((recv_frame t f).partial ≡ t.partial ++ f.payload)
      × ((recv_frame t f).partial_opcode ≡ t.partial_opcode)
unfolding recv_frame
recv_more t f e k = ground arith

recv_control :
    (t : WsTransport) (f : Frame)
    → (f.opcode ≡ ping) ⊎ (f.opcode ≡ pong)
    → ((recv_frame t f).received ≡ t.received)
      × ((recv_frame t f).partial ≡ t.partial)
      × ((recv_frame t f).partial_opcode ≡ t.partial_opcode)
unfolding recv_frame transmit
recv_control t f e = ground arith

recv_remaining :
    {fs : List Frame} {p : List ℕ} (t : WsTransport)
    → Rest fs p
    → ((recv_all t fs).received
        ≡ t.received ++ message (message_type t.partial_opcode) (t.partial ++ p) ∷ [])
      × ((recv_all t fs).partial ≡ [])
unfolding recv_all
recv_remaining t (last f e k) = recv_last t f e k
recv_remaining t (more f {p = p} e k r) =
    let (a, b, c) = recv_more t f e k in
    let (d, g) = recv_remaining (recv_frame t f) r in
    (d ∙ rw (a, b, c) (rw (append_assoc t.partial f.payload p)), g)
recv_remaining t (control f e r) =
    let (a, b, c) = recv_control t f e in
    let (d, g) = recv_remaining (recv_frame t f) r in (d ∙ rw (a, b, c), g)

recv_first :
    (t : WsTransport) (f : Frame)
    → (f.opcode ≡ text_frame) ⊎ (f.opcode ≡ binary_frame)
    → f.fin ≡ false
    → t.partial ≡ []
    → ((recv_frame t f).received ≡ t.received)
      × ((recv_frame t f).partial ≡ f.payload)
      × ((recv_frame t f).partial_opcode ≡ f.opcode)
unfolding recv_frame
recv_first t f e k p = ground arith

-- A message that comes in fragments, the first with the opcode for text or for binary data and the
-- others continuations, with any pings and pongs between them, is delivered once, after its last
-- fragment, with the fragments' payloads joined in order and the type that the first one names, and
-- nothing of it is left over.
pub recv_fragments :
    (t : WsTransport) (f : Frame) {fs : List Frame} {p : List ℕ}
    → (f.opcode ≡ text_frame) ⊎ (f.opcode ≡ binary_frame)
    → f.fin ≡ false
    → t.partial ≡ []
    → Rest fs p
    → ((recv_all t (f ∷ fs)).received
        ≡ t.received ++ message (message_type f.opcode) (f.payload ++ p) ∷ [])
      × ((recv_all t (f ∷ fs)).partial ≡ [])
unfolding recv_all
recv_fragments t f e k p r =
    let (a, b, c) = recv_first t f e k p in
    let (d, g) = recv_remaining (recv_frame t f) r in (d ∙ rw (a, b, c), g)

-- On a connected transport that has sent no closing frame, `close` sends one, does not disconnect,
-- and a second `close` changes nothing.
pub close_once :
    (t : WsTransport)
    → t.state ≡ connected
    → t.close_sent ≡ false
    → ((close t).sent
        ≡ t.sent
          ++ send_frame
              (t.keys t.drawn)
              (record { opcode = close_frame; payload = []; fin = true; mask = t.is_client })
            ∷ [])
      × ((close t).state ≡ connected)
      × (close (close t) ≡ close t)
unfolding close transmit
close_once t e k = ground arith

-- A connected transport that reads a closing frame sends one of its own, unless it has sent one
-- before, when it sends nothing; it is disconnected then, every further message from the lower
-- transport is dropped, and nothing can be sent.
pub recv_close :
    (h : Handshake) (t : WsTransport) (f : Frame) (m : Option (List ℕ)) (type : MessageType)
    (payload : List ℕ)
    → f.opcode ≡ close_frame
    → t.state ≡ connected
    → let u = recv_frame t f in
      (u.state ≡ disconnected)
      × (u.close_sent ≡ true)
      × (u.sent ≡ (
          if t.close_sent
          then t.sent
          else t.sent
            ++ send_frame
                (t.keys t.drawn)
                (record { opcode = close_frame; payload = []; fin = true; mask = t.is_client })
              ∷ []))
      × (incoming h u m ≡ u)
      × (send u type payload ≡ (u, false))
unfolding recv_frame incoming send close transmit
recv_close h t f none type payload e k = ground arith
recv_close h t f (some m) type payload e k = ground arith

pub iterate_idle : ℕ → WsTransport → WsTransport
iterate_idle zero t = t
iterate_idle (suc n) t = iterate_idle n (idle t)

idle_counts :
    (t : WsTransport)
    → ((idle t).outstanding_pings ≡ t.outstanding_pings + 1)
      × ((idle t).max_outstanding_pings ≡ t.max_outstanding_pings)
      × (t.outstanding_pings + 1 ≤ t.max_outstanding_pings → (idle t).state ≡ t.state)
      × (0 < t.max_outstanding_pings
          → t.max_outstanding_pings < t.outstanding_pings + 1
          → (idle t).state ≡ failed)
unfolding idle transmit
idle_counts t = ground arith

idle_keeps :
    (n : ℕ) (t : WsTransport)
    → t.outstanding_pings + n ≤ t.max_outstanding_pings
    → ((iterate_idle n t).state ≡ t.state)
      × ((iterate_idle n t).outstanding_pings ≡ t.outstanding_pings + n)
      × ((iterate_idle n t).max_outstanding_pings ≡ t.max_outstanding_pings)
unfolding iterate_idle
idle_keeps zero t h = (refl, omega arith, refl)
idle_keeps (suc n) t h =
    let (a, b, c, d) = idle_counts t in
    let (x, y, z) = idle_keeps n (idle t) (omega arith) in (x ∙ c (omega arith), omega arith, z ∙ b)

-- A connection that stays idle survives exactly the allowed number of pings without an answer:
-- from no outstanding ping, it stays in its state for up to that number of idle timeouts, and one
-- more makes it fail. (A limit of 0 is no limit.)
pub idle_limit :
    (n : ℕ) (t : WsTransport)
    → t.outstanding_pings ≡ 0
    → 0 < t.max_outstanding_pings
    → n ≤ t.max_outstanding_pings
    → ((iterate_idle n t).state ≡ t.state)
      × ((idle (iterate_idle t.max_outstanding_pings t)).state ≡ failed)
idle_limit n t e h k =
    let (a, b, c) = idle_keeps t.max_outstanding_pings t (omega arith) in
    let (_, _, _, fails) = idle_counts (iterate_idle t.max_outstanding_pings t) in
    ((idle_keeps n t (omega arith)).0, fails (omega arith) (omega arith))
