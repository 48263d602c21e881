-- ===== src/Ws/Stream.antt =====
-- The byte stream of a connection: how the lower transport cuts it into messages does not matter.
use gstreamer_web_rtc.Prelude.{
  ℕ, zero, suc, ◌+◌, ◌≤◌, ◌≡◌, refl, sym, ap, ◌∙◌, Bool, true, false, if◌then◌else◌, inl, inr, none,
  some, List, [], ◌∷◌, ◌++◌, length, append_assoc, length-append, Option-cases, arith,
}
use gstreamer_web_rtc.Transport.{connected, disconnected}
use gstreamer_web_rtc.Ws.Framing.{Frame, read_frame}
use gstreamer_web_rtc.Ws.Framing.Partial.{read_frame_stable}
use gstreamer_web_rtc.Ws.{
  Handshake, WsTransport, is_connected, is_empty, flush_partial, begin_message, recv_data,
  recv_continuation, dispatch, transmit, FrameKind, frame_kind, data_kind, continuation_kind,
  ping_kind, pong_kind, close_kind, unknown_kind, recv_frame, close, drain, connected_incoming,
  incoming,
}

abbrev with_buffer : WsTransport → List ℕ → WsTransport
with_buffer t b = record t { buffer = b }

if-buffer :
    (c : Bool) (x y x' y' : WsTransport) (b : List ℕ)
    → x' ≡ with_buffer x b
    → y' ≡ with_buffer y b
    → (if c then x' else y') ≡ with_buffer (if c then x else y) b
if-buffer true x y x' y' b p q = p
if-buffer false x y x' y' b p q = q

close-buffer : (t : WsTransport) (b : List ℕ) → close (with_buffer t b) ≡ with_buffer (close t) b
unfolding close transmit
close-buffer t b =
    if-buffer (is_connected t.state) _ t _ (with_buffer t b) b
      (if-buffer t.close_sent t _ (with_buffer t b) _ b refl refl) refl

flush_partial-buffer :
    (t : WsTransport) (b : List ℕ)
    → flush_partial (with_buffer t b) ≡ with_buffer (flush_partial t) b
unfolding flush_partial
flush_partial-buffer t b = if-buffer (is_empty t.partial) _ _ _ _ b refl refl

begin_message-buffer :
    (t : WsTransport) (f : Frame) (b : List ℕ)
    → begin_message (with_buffer t b) f ≡ with_buffer (begin_message t f) b
unfolding begin_message
begin_message-buffer t f b = if-buffer f.fin _ _ _ _ b refl refl

recv_data-buffer :
    (t : WsTransport) (f : Frame) (b : List ℕ)
    → recv_data (with_buffer t b) f ≡ with_buffer (recv_data t f) b
unfolding recv_data
recv_data-buffer t f b =
    ap (λ (u : WsTransport). begin_message u f) (flush_partial-buffer t b)
    ∙ begin_message-buffer (flush_partial t) f b

recv_continuation-buffer :
    (t : WsTransport) (f : Frame) (b : List ℕ)
    → recv_continuation (with_buffer t b) f ≡ with_buffer (recv_continuation t f) b
unfolding recv_continuation
recv_continuation-buffer t f b = if-buffer f.fin _ _ _ _ b refl refl

dispatch-buffer :
    (k : FrameKind) (t : WsTransport) (f : Frame) (b : List ℕ)
    → dispatch k (with_buffer t b) f ≡ with_buffer (dispatch k t f) b
unfolding dispatch transmit
dispatch-buffer data_kind t f b = recv_data-buffer t f b
dispatch-buffer continuation_kind t f b = recv_continuation-buffer t f b
dispatch-buffer ping_kind t f b = refl
dispatch-buffer pong_kind t f b = refl
dispatch-buffer close_kind t f b =
    ap (λ (u : WsTransport). record u { state = disconnected }) (close-buffer t b)
dispatch-buffer unknown_kind t f b = close-buffer t b

-- `recvFrame` neither reads nor changes the buffer.
recv_frame-buffer :
    (t : WsTransport) (f : Frame) (b : List ℕ)
    → recv_frame (with_buffer t b) f ≡ with_buffer (recv_frame t f) b
unfolding recv_frame
recv_frame-buffer t f b = dispatch-buffer (frame_kind f.opcode) t f b

abbrev after_frame : WsTransport → Frame → List ℕ → WsTransport
after_frame t f rest = record (recv_frame t f) { buffer = rest }

pub drain_stops : (n : ℕ) (t : WsTransport) → read_frame t.buffer ≡ none → drain n t ≡ t
unfolding drain
drain_stops zero t e = refl
drain_stops (suc n) t e = rw (e, drain)

pub drain_step :
    (n : ℕ) (t : WsTransport) (f : Frame) (rest : List ℕ)
    → read_frame t.buffer ≡ some (f, rest)
    → drain (suc n) t ≡ drain n (after_frame t f rest)
unfolding drain
drain_step n t f rest e = rw (e, drain)

-- As many rounds as the buffer has bytes are enough, and more change nothing.
pub drain_enough :
    (n m : ℕ) (t : WsTransport) → length t.buffer ≤ n → length t.buffer ≤ m → drain n t ≡ drain m t
unfolding drain
drain_enough zero m t hn hm = elim (Option-cases (read_frame t.buffer)) [
  | inl e ↦ sym (drain_stops m t e)
  | inr ((f, rest), e) ↦ absurd (omega (arith, (read_frame_stable t.buffer rest [] f e).0))
]
drain_enough (suc n) zero t hn hm = elim (Option-cases (read_frame t.buffer)) [
  | inl e ↦ drain_stops (suc n) t e
  | inr ((f, rest), e) ↦ absurd (omega (arith, (read_frame_stable t.buffer rest [] f e).0))
]
drain_enough (suc n) (suc m) t hn hm = elim (Option-cases (read_frame t.buffer)) [
  | inl e ↦ drain_stops (suc n) t e ∙ sym (drain_stops (suc m) t e)
  | inr ((f, rest), e) ↦
      let shorter = (read_frame_stable t.buffer rest [] f e).0 in
      drain_step n t f rest e
      ∙ drain_enough n m (after_frame t f rest) (omega arith) (omega arith)
      ∙ sym (drain_step m t f rest e)
]

drain_none : (t : WsTransport) → drain zero t ≡ t
unfolding drain
drain_none t = refl

settled :
    (m k : ℕ) (t : WsTransport) (more : List ℕ)
    → length t.buffer + length more ≤ m
    → length t.buffer + length more ≤ k
    → drain m (with_buffer t (t.buffer ++ more)) ≡ drain k (with_buffer t (t.buffer ++ more))
settled m k t more hm hk =
    drain_enough m k (with_buffer t (t.buffer ++ more)) (omega (arith, length-append t.buffer more))
      (omega (arith, length-append t.buffer more))

-- Frames that are complete are taken alike before and after more bytes come in.
drain-append :
    (n m k : ℕ) (t : WsTransport) (more : List ℕ)
    → length t.buffer ≤ n
    → length t.buffer + length more ≤ m
    → length (drain n t).buffer + length more ≤ k
    → drain m (with_buffer t (t.buffer ++ more))
      ≡ drain k (with_buffer (drain n t) ((drain n t).buffer ++ more))
drain-append zero m k t more hn hm hk =
    rw (drain_none t) (settled m k t more hm (rw (drain_none t) at hk))
drain-append (suc n) zero k t more hn hm hk = elim (Option-cases (read_frame t.buffer)) [
  | inl e ↦
      rw (drain_stops (suc n) t e) (settled zero k t more hm (rw (drain_stops (suc n) t e) at hk))
  | inr ((f, rest), e) ↦ absurd (omega (arith, (read_frame_stable t.buffer rest [] f e).0))
]
drain-append (suc n) (suc m) k t more hn hm hk = elim (Option-cases (read_frame t.buffer)) [
  | inl e ↦
      rw (drain_stops (suc n) t e)
        (settled (suc m) k t more hm (rw (drain_stops (suc n) t e) at hk))
  | inr ((f, rest), e) ↦
      let (shorter, longer) = read_frame_stable t.buffer rest more f e in
      rw (drain_step n t f rest e) (
        drain_step m (with_buffer t (t.buffer ++ more)) f (rest ++ more) longer
        ∙ rw (recv_frame-buffer t f (t.buffer ++ more)) (
            drain-append n m k (after_frame t f rest) more (omega arith) (omega arith)
              (rw (drain_step n t f rest e) at hk)))
]

-- A message from the lower transport to a connected transport.
pub incoming_connected :
    (h : Handshake) (t : WsTransport) (x : ℕ) (xs : List ℕ)
    → t.state ≡ connected
    → incoming h t (some (x ∷ xs))
      ≡ drain (length (t.buffer ++ x ∷ xs)) (with_buffer t (t.buffer ++ x ∷ xs))
unfolding incoming connected_incoming
incoming_connected h t x xs e = rw e

-- A connected transport that is still connected after the first of two messages from the lower
-- transport reaches the same state as if their bytes had come in one message.
pub incoming_chunks :
    (h : Handshake) (t : WsTransport) (x y : ℕ) (xs ys : List ℕ)
    → t.state ≡ connected
    → (incoming h t (some (x ∷ xs))).state ≡ connected
    → incoming h (incoming h t (some (x ∷ xs))) (some (y ∷ ys))
      ≡ incoming h t (some (x ∷ (xs ++ y ∷ ys)))
incoming_chunks h t x y xs ys e₁ e₂ =
    let b = t.buffer ++ x ∷ xs in
    let u = drain (length b) (with_buffer t b) in
    let first = incoming_connected h t x xs e₁ in
    let still : u.state ≡ connected = rw first at e₂ in
    rw (first, incoming_connected h u y ys still, incoming_connected h t x (xs ++ y ∷ ys) e₁)
      (rw (← append_assoc t.buffer (x ∷ xs) (y ∷ ys)) (
        sym (
          drain-append (length b) (length (b ++ y ∷ ys)) (length (u.buffer ++ y ∷ ys))
            (with_buffer t b) (y ∷ ys) (omega arith) (omega (arith, length-append b (y ∷ ys)))
            (omega (arith, length-append u.buffer (y ∷ ys))))))
