-- ===== src/Sctp/Order.antt =====
-- The order in which the SCTP transport hands messages to usrsctp (src/impl/sctptransport.cpp).
use gstreamer_web_rtc.Prelude.{
  ℕ, zero, suc, ◌<◌, ◌≡◌, refl, sym, ap, subst, ◌∙◌, ◌⊎◌, inl, inr, true, ◌||◌, List, [], ◌∷◌, ◌++◌,
  append-nil, append_assoc, ltb, All, arith, Bool-cases,
}
use gstreamer_web_rtc.Queue
use gstreamer_web_rtc.Queue.{Queue, push_live, pop_nonempty}
use gstreamer_web_rtc.Transport.{disconnected}
use gstreamer_web_rtc.DataChannel.{Message}
use gstreamer_web_rtc.Sctp.{
  Usrsctp, ShutdownResult, shut, not_connected, shutdown_failed, Sctp, Attempt, yes_sent, not_sent,
  throws, same_state, message_size, change_state, remove_amount, try_send_message, shutdown_result,
  queue_empty, pop_sent, send_loop,
}
use gstreamer_web_rtc.Sctp.Amounts.{
  queued, Inv, took, try_send_message-Tried, remove_amount-Inv, amounts_same,
}

Attempt-cases : (a : Attempt) → (a ≡ yes_sent) ⊎ (a ≡ not_sent) ⊎ (a ≡ throws)
Attempt-cases yes_sent = inl refl
Attempt-cases not_sent = inr (inl refl)
Attempt-cases throws = inr (inr refl)

module _ {S : Type 0} where
  pub keep-Inv :
      (all : List Message) (s s' : Sctp S)
      → s'.taken ≡ s.taken
      → s'.send_queue ≡ s.send_queue
      → s'.buffered ≡ s.buffered
      → Inv all s
      → Inv all s'
  keep-Inv all s s' t q b v = rw (t, q, b) v

module _ {S : Type 0} (u : Usrsctp S) where
  pop_sent-Inv :
      (all : List Message) (m : Message) (rest : List Message) (s s1 : Sctp S)
      → s1.taken ≡ s.taken ++ m ∷ []
      → s1.send_queue ≡ s.send_queue
      → s1.buffered ≡ s.buffered
      → s.send_queue.queue ≡ m ∷ rest
      → Inv all s
      → ((pop_sent u m s1).1 ≡ yes_sent) × Inv all (pop_sent u m s1).0
  unfolding pop_sent
  pop_sent-Inv all m rest s s1 t q b e v =
      let listed = subst (λ l. All (λ x. x.stream < 65536) l) e v.streams in
      let fits : ltb m.stream 65536 ≡ true = ground (arith, listed.0) in
      let (r, popped, left, limit, live) =
        pop_nonempty s1.send_queue m rest (ap (λ q. q.queue) q ∙ e) in
      let s' = record s1 { send_queue = (Queue.pop s1.send_queue).1 } in
      let (taken_same, queue_same) = amounts_same u m.stream (message_size m) s' in
      let now : (remove_amount m.stream (message_size m) s').send_queue ≡ r =
        queue_same ∙ ap (λ x. x.1) popped in
      let unsent =
        remove_amount-Inv u m rest s' (λ i. ap (λ f. f i) b ∙ v.amounts i ∙ ap (queued i) e) in
      rw fits (
        refl,
        rw now (record {
          order =
              ap (λ l. l ++ r.queue) (taken_same ∙ t)
              ∙ ap (λ l. (s.taken ++ m ∷ []) ++ l) left
              ∙ append_assoc s.taken (m ∷ []) rest
              ∙ ap (λ l. s.taken ++ l) (sym e)
              ∙ v.order;
          unlimited = limit ∙ ap (λ q. q.limit) q ∙ v.unlimited;
          live = live ∙ ap (λ q. q.stopping) q ∙ v.live;
          streams = subst (λ l. All (λ x. x.stream < 65536) l) (sym left) listed.1;
          amounts = λ i. unsent i ∙ ap (queued i) (sym left);
        }),
      )

  shutdown_result-Inv :
      (all : List Message) (r : ShutdownResult) (s : Sctp S)
      → Inv all s
      → Inv all (shutdown_result u r s)
  unfolding shutdown_result change_state
  shutdown_result-Inv all shut s v = v
  shutdown_result-Inv all not_connected s v = v
  shutdown_result-Inv all shutdown_failed s v =
      elim (Bool-cases (same_state s.state disconnected)) [
        | inl same ↦ rw same v
        | inr other ↦ rw other v
      ]

  queue_empty-Inv : (all : List Message) (s : Sctp S) → Inv all s → Inv all (queue_empty u s).0
  unfolding queue_empty
  queue_empty-Inv all s v = elim (Bool-cases (Queue.running s.send_queue || s.send_shutdown)) [
    | inl on ↦ rw on v
    | inr off ↦ rw off (shutdown_result-Inv all _ _ v)
  ]

  -- The loop over the queue, whatever usrsctp answers.
  pub send_loop-Inv :
      (rounds : ℕ) (all : List Message) (s : Sctp S) → Inv all s → Inv all (send_loop u rounds s).0
  unfolding send_loop
  send_loop-Inv zero all s v = v
  send_loop-Inv (suc rounds) all s v = elim (Queue.peek-cases s.send_queue) [
    | inl (none_left, _) ↦ rw (send_loop, none_left) (queue_empty-Inv all s v)
    | inr (m, rest, e, next) ↦
        let (t, q, b) = try_send_message-Tried u m s in
        let s1 = (try_send_message u m s).0 in
        elim (Attempt-cases (try_send_message u m s).1) [
          | inr (inl kept) ↦
              rw (send_loop, next, kept)
                (keep-Inv all s s1 (t ∙ ap (λ a. s.taken ++ took m a) kept ∙ append-nil s.taken) q b
                  v)
          | inr (inr threw) ↦
              rw (send_loop, next, threw)
                (keep-Inv all s s1 (t ∙ ap (λ a. s.taken ++ took m a) threw ∙ append-nil s.taken) q
                  b v)
          | inl yes_ ↦
              let (popped, w) =
                pop_sent-Inv all m rest s s1 (t ∙ ap (λ a. s.taken ++ took m a) yes_) q b e v in
              rw (send_loop, next, yes_, popped) (send_loop-Inv rounds all (pop_sent u m s1).0 w)
        ]
  ]

  shutdown_result-queue :
      (r : ShutdownResult) (s : Sctp S) → (shutdown_result u r s).send_queue ≡ s.send_queue
  unfolding shutdown_result change_state
  shutdown_result-queue shut s = refl
  shutdown_result-queue not_connected s = refl
  shutdown_result-queue shutdown_failed s = elim (Bool-cases (same_state s.state disconnected)) [
    | inl same ↦ rw same refl
    | inr other ↦ rw other refl
  ]

  queue_empty-queue : (s : Sctp S) → (queue_empty u s).0.send_queue ≡ s.send_queue
  unfolding queue_empty
  queue_empty-queue s = elim (Bool-cases (Queue.running s.send_queue || s.send_shutdown)) [
    | inl on ↦ rw on refl
    | inr off ↦ rw off (shutdown_result-queue _ _)
  ]

  -- The loop reports success only when nothing is left.
  pub send_loop_empties :
      (rounds : ℕ) (s : Sctp S)
      → (send_loop u rounds s).1 ≡ yes_sent
      → (send_loop u rounds s).0.send_queue.queue ≡ []
  unfolding send_loop
  send_loop_empties zero s = λ h. absurd (cc h)
  send_loop_empties (suc rounds) s = elim (Queue.peek-cases s.send_queue) [
    | inl (none_left, nothing) ↦
        rw (send_loop, none_left) (λ h. ap (λ q. q.queue) (queue_empty-queue s) ∙ nothing)
    | inr (m, rest, e, next) ↦ elim (Attempt-cases (try_send_message u m s).1) [
      | inr (inl kept) ↦ rw (send_loop, next, kept) (λ h. absurd (cc h))
      | inr (inr threw) ↦ rw (send_loop, next, threw) (λ h. absurd (cc h))
      | inl yes_ ↦ elim (Attempt-cases (pop_sent u m (try_send_message u m s).0).1) [
        | inl popped ↦
            rw (send_loop, next, yes_, popped)
              (send_loop_empties rounds (pop_sent u m (try_send_message u m s).0).0)
        | inr (inl kept) ↦ rw (send_loop, next, yes_, kept) (λ h. absurd (cc h))
        | inr (inr threw) ↦ rw (send_loop, next, yes_, threw) (λ h. absurd (cc h))
      ]
    ]
  ]
