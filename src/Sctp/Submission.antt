-- ===== src/Sctp/Submission.antt =====
-- Sequences of calls on the SCTP transport (src/impl/sctptransport.cpp): what is sent, and what is
-- left in the queue.
use gstreamer_web_rtc.Prelude.{
  ℕ, suc, ◌+◌, ◌<◌, ◌≡◌, refl, sym, ap, subst, ◌∙◌, inl, inr, true, none, some, List, [], ◌∷◌, ◌++◌,
  append-nil, append_assoc, ltb, ◌==◌, if◌then◌else◌, length, All, All-append, arith, Bool-cases,
}
use gstreamer_web_rtc.Queue.{stop, stop_keeps, peek_front, push_live, push_stopped}
use gstreamer_web_rtc.Transport.{State, connected, reset}
use gstreamer_web_rtc.DataChannel.{Message}
use gstreamer_web_rtc.Sctp.{
  Usrsctp, Sctp, Attempt, yes_sent, not_sent, throws, same_state, is_connected, message_size,
  change_state, set_amount, add_amount, try_send_message, send_loop, try_send_queue,
  enqueue_message, send_direct, send_after, send, flush, do_flush, close_stream, close, flush_task,
}
use gstreamer_web_rtc.Sctp.Amounts.{
  queued, queued-append, Inv, Tried, try_send_message-Tried, add_amount-Inv, added_same,
}
use gstreamer_web_rtc.Sctp.Order.{keep-Inv, send_loop-Inv, send_loop_empties}

module _ {S : Type 0} (u : Usrsctp S) where
  enqueue_message-Inv :
      (all : List Message) (m : Message) (s : Sctp S)
      → m.stream < 65536
      → Inv all s
      → Inv (all ++ m ∷ []) (enqueue_message u m s).0 × ((enqueue_message u m s).1 ≡ not_sent)
  unfolding enqueue_message
  enqueue_message-Inv all m s lt v =
      let (r, pushed, left, limit, live) = push_live s.send_queue m v.unlimited v.live in
      let fits : ltb m.stream 65536 ≡ true = ground (arith, lt) in
      let s' = record s { send_queue = r } in
      let (taken_same, queue_same) = added_same u m.stream (message_size m) s' in
      let more = add_amount-Inv u m s.send_queue.queue s' v.amounts in
      rw (enqueue_message, pushed, fits)
        (
          rw queue_same (record {
            order =
                ap (λ l. l ++ r.queue) taken_same
                ∙ ap (λ l. s.taken ++ l) left
                ∙ sym (append_assoc s.taken s.send_queue.queue (m ∷ []))
                ∙ ap (λ l. l ++ m ∷ []) v.order;
            unlimited = limit;
            live = live;
            streams =
                subst (λ l. All (λ x. x.stream < 65536) l) (sym left)
                  (All-append (λ x. x.stream < 65536) s.send_queue.queue (m ∷ []) v.streams
                    (lt, tt));
            amounts = λ i. more i ∙ ap (queued i) (sym left);
          }),
          refl,
        )

  -- Which messages a call of `send` takes over: those that it does not throw for.
  abbrev accepted : Message → Attempt → List Message
  accepted m throws = []
  accepted m yes_sent = m ∷ []
  accepted m not_sent = m ∷ []

  send_direct-Inv :
      (all : List Message) (m : Message) (s : Sctp S) (x : Sctp S × Attempt)
      → m.stream < 65536
      → s.send_queue.queue ≡ []
      → Tried m s x
      → Inv all s
      → Inv (all ++ accepted m (send_direct u m x).1) (send_direct u m x).0
  unfolding send_direct
  send_direct-Inv all m s (s1, yes_sent) lt nothing (t, q, b) v = record {
    order =
        ap (λ l. l ++ s1.send_queue.queue) t
        ∙ ap (λ l. (s.taken ++ m ∷ []) ++ l) (ap (λ q. q.queue) q ∙ nothing)
        ∙ append-nil (s.taken ++ m ∷ [])
        ∙ ap (λ l. l ++ m ∷ [])
            (sym (append-nil s.taken) ∙ ap (λ l. s.taken ++ l) (sym nothing) ∙ v.order);
    unlimited = ap (λ q. q.limit) q ∙ v.unlimited;
    live = ap (λ q. q.stopping) q ∙ v.live;
    streams = subst (λ q. All (λ x. x.stream < 65536) q.queue) (sym q) v.streams;
    amounts = λ i. ap (λ f. f i) b ∙ v.amounts i ∙ ap (λ q. queued i q.queue) (sym q);
  }
  send_direct-Inv all m s (s1, not_sent) lt nothing (t, q, b) v =
      let (w, kept) =
        enqueue_message-Inv all m s1 lt (keep-Inv all s s1 (t ∙ append-nil s.taken) q b v) in
      rw kept w
  send_direct-Inv all m s (s1, throws) lt nothing (t, q, b) v =
      rw (append-nil all) (keep-Inv all s s1 (t ∙ append-nil s.taken) q b v)

  send_after-Inv :
      (all : List Message) (m : Message) (x : Sctp S × Attempt)
      → m.stream < 65536
      → (x.1 ≡ yes_sent → x.0.send_queue.queue ≡ [])
      → Inv all x.0
      → Inv (all ++ accepted m (send_after u m x).1) (send_after u m x).0
  unfolding send_after
  send_after-Inv all m (s, yes_sent) lt empties v =
      send_direct-Inv all m s (try_send_message u m s) lt (empties refl)
        (try_send_message-Tried u m s) v
  send_after-Inv all m (s, not_sent) lt empties v =
      let (w, kept) = enqueue_message-Inv all m s lt v in rw kept w
  send_after-Inv all m (s, throws) lt empties v = rw (append-nil all) v

  -- What a call takes over: `send` only when the transport is connected.
  abbrev pub submitted : Message → Sctp S → List Message
  submitted m s = if is_connected s.state then accepted m (send u (some m) s).1 else []

  send-Inv :
      (all : List Message) (m : Message) (s : Sctp S)
      → m.stream < 65536
      → Inv all s
      → Inv (all ++ submitted m s) (send u (some m) s).0
  unfolding send try_send_queue
  send-Inv all m s lt v = elim (Bool-cases (is_connected s.state)) [
    | inr down ↦ rw (down, append-nil all) v
    | inl up ↦
        let rounds = suc (length s.send_queue.queue) in
        rw up (
          send_after-Inv all m (send_loop u rounds s) lt (send_loop_empties u rounds s)
            (send_loop-Inv u rounds all s v))
  ]

  flush-Inv : (all : List Message) (s : Sctp S) → Inv all s → Inv all (flush u s)
  unfolding flush try_send_queue
  flush-Inv all s v = elim (Bool-cases (is_connected s.state)) [
    | inr down ↦ rw down v
    | inl up ↦ rw up (send_loop-Inv u (suc (length s.send_queue.queue)) all s v)
  ]

  do_flush-Inv : (all : List Message) (s : Sctp S) → Inv all s → Inv all (do_flush u s)
  unfolding do_flush try_send_queue
  do_flush-Inv all s v = send_loop-Inv u (suc (length s.send_queue.queue)) all _ v

  abbrev reset_message : ℕ → Message
  reset_message stream = record { type = reset; bytes = []; stream = stream; reliability = none }

  reset_queued :
      (i stream : ℕ) (l : List Message) → queued i (l ++ reset_message stream ∷ []) ≡ queued i l
  unfolding queued message_size
  reset_queued i stream l = ground (arith, queued-append i l (reset_message stream ∷ []))

  close_stream-Inv :
      (all : List Message) (stream : ℕ) (s : Sctp S)
      → stream < 65536
      → Inv all s
      → Inv (all ++ reset_message stream ∷ []) (close_stream u stream s).0
  unfolding close_stream
  close_stream-Inv all stream s lt v =
      let (r, pushed, left, limit, live) =
        push_live s.send_queue (reset_message stream) v.unlimited v.live in
      let fits : ltb stream 65536 ≡ true = ground (arith, lt) in
      rw (close_stream, pushed, fits)
        (record {
          order =
              ap (λ l. s.taken ++ l) left
              ∙ sym (append_assoc s.taken s.send_queue.queue (reset_message stream ∷ []))
              ∙ ap (λ l. l ++ reset_message stream ∷ []) v.order;
          unlimited = limit;
          live = live;
          streams =
              subst (λ l. All (λ x. x.stream < 65536) l) (sym left)
                (All-append (λ x. x.stream < 65536) s.send_queue.queue (reset_message stream ∷ [])
                  v.streams (lt, tt));
          amounts = λ i.
              v.amounts i ∙ sym (ap (queued i) left ∙ reset_queued i stream s.send_queue.queue);
        })

  -- A queue whose first message cannot be sent stays as it is.
  blocked :
      (first : Message) (rest : List Message) (s s1 : Sctp S)
      → s.send_queue.queue ≡ first ∷ rest
      → try_send_message u first s ≡ (s1, not_sent)
      → send_loop u (suc (length s.send_queue.queue)) s ≡ (s1, not_sent)
  unfolding send_loop
  blocked first rest s s1 e tried =
      rw (send_loop, peek_front s.send_queue first rest e, tried) (ap (λ x. (x.0, not_sent)) tried)

  up_connected : (s : Sctp S) → s.state ≡ connected → is_connected s.state ≡ true
  unfolding is_connected
  up_connected s up = rw up refl

  send_queues :
      (m : Message) (s s1 : Sctp S)
      → is_connected s.state ≡ true
      → send_loop u (suc (length s.send_queue.queue)) s ≡ (s1, not_sent)
      → send u (some m) s ≡ enqueue_message u m s1
  unfolding send try_send_queue send_after
  send_queues m s s1 up e = rw (up, e) refl

  dropped :
      (m : Message) (s : Sctp S)
      → m.stream < 65536
      → s.send_queue.stopping ≡ true
      → ((enqueue_message u m s).1 ≡ not_sent)
        × ((enqueue_message u m s).0.send_queue ≡ s.send_queue)
        × ((enqueue_message u m s).0.buffered m.stream ≡ s.buffered m.stream + message_size m)
  unfolding enqueue_message add_amount set_amount
  dropped m s lt stopped =
      let fits : ltb m.stream 65536 ≡ true = ground (arith, lt) in
      let same = push_stopped s.send_queue m stopped in
      let here : (m.stream == m.stream) ≡ true = ground arith in
      elim (Bool-cases (message_size m == 0)) [
        | inl empty ↦ rw (enqueue_message, same, fits, empty) (refl, refl, ground (arith, empty))
        | inr full ↦ rw (enqueue_message, same, fits, full, here) (refl, refl, refl)
      ]

  abbrev closing : Sctp S → Sctp S
  closing s = record s { send_queue = stop s.send_queue; tasks = s.tasks ++ flush_task ∷ [] }

  close_connected : (s : Sctp S) → s.state ≡ connected → close u s ≡ closing s
  unfolding close
  close_connected s up = rw up refl

  -- When a connected transport is closed while usrsctp does not take the first message of its queue,
  -- a message that is sent after that is reported as queued and its size is added to the buffered
  -- amount of its stream, but it is not put into the queue.
  pub send_after_stop :
      (m first : Message) (rest : List Message) (s s1 : Sctp S)
      → m.stream < 65536
      → s.state ≡ connected
      → s.send_queue.queue ≡ first ∷ rest
      → try_send_message u first (close u s) ≡ (s1, not_sent)
      → ((send u (some m) (close u s)).1 ≡ not_sent)
        × ((send u (some m) (close u s)).0.send_queue.queue ≡ s.send_queue.queue)
        × ((send u (some m) (close u s)).0.buffered m.stream ≡ s.buffered m.stream + message_size m)
  send_after_stop m first rest s s1 lt up e tried =
      let closed = close_connected s up in
      let refused : try_send_message u first (closing s) ≡ (s1, not_sent) = rw closed at tried in
      let (same, stopped) = stop_keeps s.send_queue in
      let (_, q, b) = rw refused at (try_send_message-Tried u first (closing s)) in
      let (kept, queue, amount) = dropped m s1 lt (ap (λ q. q.stopping) q ∙ stopped) in
      let sent =
        send_queues m (closing s) s1 (up_connected s up)
          (blocked first rest (closing s) s1 (same ∙ e) refused) in
      rw (closed, sent)
        (
          kept,
          ap (λ q. q.queue) (queue ∙ q) ∙ same,
          amount ∙ ap (λ f. f m.stream + message_size m) b,
        )

-- What happens to a transport that is not closed. The state may change at any time.
pub data Call : Type 0 where
  sends : Message → Call
  flushes do_flushes : Call
  closes_stream : ℕ → Call
  changes : State → Call

abbrev pub Fits : Call → Type 0
Fits (sends m) = m.stream < 65536
Fits (closes_stream stream) = stream < 65536
Fits _ = Unit {0}

module _ {S : Type 0} (u : Usrsctp S) where
  -- A call, and the messages that it takes over.
  unfoldable pub call : Call → Sctp S → Sctp S × List Message
  unfolding send flush do_flush close_stream change_state
  call (sends m) s = ((send u (some m) s).0, submitted u m s)
  call flushes s = (flush u s, [])
  call do_flushes s = (do_flush u s, [])
  call (closes_stream stream) s = ((close_stream u stream s).0, reset_message u stream ∷ [])
  call (changes state) s = (change_state state s, [])

  unfoldable pub calls : List Call → Sctp S → Sctp S × List Message
  unfolding call
  calls [] s = (s, [])
  calls (c ∷ cs) s = let (s1, now) = call c s in let (s2, later) = calls cs s1 in (s2, now ++ later)

  call-Inv :
      (all : List Message) (c : Call) (s : Sctp S)
      → Fits c
      → Inv all s
      → Inv (all ++ (call c s).1) (call c s).0
  unfolding call change_state
  call-Inv all (sends m) s lt v = send-Inv u all m s lt v
  call-Inv all flushes s lt v = rw (append-nil all) (flush-Inv u all s v)
  call-Inv all do_flushes s lt v = rw (append-nil all) (do_flush-Inv u all s v)
  call-Inv all (closes_stream stream) s lt v = close_stream-Inv u all stream s lt v
  call-Inv all (changes state) s lt v = elim (Bool-cases (same_state s.state state)) [
    | inl same ↦ rw (append-nil all, same) v
    | inr other ↦ rw (append-nil all, other) v
  ]

  -- Over any sequence of calls on a transport that is not closed, whatever usrsctp answers and
  -- whatever calls throw: the messages handed to usrsctp followed by those in the send queue are
  -- those at the start followed by the messages that the calls took over, in order, and the
  -- buffered amount of each stream is the size of its messages in the queue. The streams fit 16
  -- bits.
  pub calls-Inv :
      (all : List Message) (cs : List Call) (s : Sctp S)
      → All Fits cs
      → Inv all s
      → Inv (all ++ (calls cs s).1) (calls cs s).0
  unfolding calls
  calls-Inv all [] s fits v = rw (append-nil all) v
  calls-Inv all (c ∷ cs) s (fit, fits) v =
      rw (← append_assoc)
        (calls-Inv (all ++ (call c s).1) cs (call c s).0 fits (call-Inv all c s fit v))
