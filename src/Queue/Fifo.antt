-- ===== src/Queue/Fifo.antt =====
-- Sequences of calls on a queue of src/impl/queue.hpp, and what they deliver.
use gstreamer_web_rtc.Prelude.{
  ◌+◌, ◌≡◌, refl, ◌⊎◌, inl, inr, ◌↔◌, true, false, some, List, [], ◌∷◌, ◌++◌, append-nil,
  append_assoc, Option-cases, if◌then◌else◌, arith,
}
use gstreamer_web_rtc.Prelude.Word.{u64}
use gstreamer_web_rtc.Queue.{
  Queue, IsValid, push, may_push, pop, pop_front, exchange, exchange_front, stop, running,
  push-IsValid, pop-IsValid, total, Call, pushes, pops, stops, to_list, call, run,
}

module _ {A : Type 0} where
  pop_front-fifo :
      (q : Queue A) (xs : List A)
      → xs ≡ to_list (pop_front xs q).0 ++ (pop_front xs (record q { queue = xs })).1.queue
  unfolding pop_front
  pop_front-fifo q [] = refl
  pop_front-fifo q (x ∷ xs) = refl

  pop-fifo : (q : Queue A) → q.queue ≡ to_list (pop q).0 ++ (pop q).1.queue
  unfolding pop
  pop-fifo q = pop_front-fifo q q.queue

  call-fifo :
      (q r : Queue A) (c : Call A) (out acc : List A)
      → call q c ≡ some (r, out, acc)
      → q.queue ++ acc ≡ out ++ r.queue
  unfolding call push stop
  call-fifo q r (pushes a) out acc e = ground (arith, append-nil q.queue)
  call-fifo q r pops out acc e = ground (arith, pop-fifo q, append-nil q.queue)
  call-fifo q r stops out acc e = ground (arith, append-nil q.queue)

  -- Over any sequence of calls of `push`, `pop` and `stop` that return, the elements handed out
  -- followed by those left in the queue are those queued at the start followed by those taken in,
  -- in order: none is lost, made up or overtaken.
  pub run-fifo :
      (q s : Queue A) (cs : List (Call A)) (outs accs : List A)
      → run q cs ≡ some (s, outs, accs)
      → q.queue ++ accs ≡ outs ++ s.queue
  unfolding run
  run-fifo q s [] outs accs e = ground (arith, append-nil q.queue)
  run-fifo q s (c ∷ cs) outs accs e = elim (Option-cases (call q c)) [
    | inl none_ ↦ absurd (cc (rw (none_) at e))
    | inr ((r, out, acc), e₁) ↦ elim (Option-cases (run r cs)) [
      | inl none_ ↦ absurd (cc (rw (e₁, none_) at e))
      | inr ((t, outs', accs'), e₂) ↦ ground (
        arith,
        call-fifo q r c out acc e₁,
        run-fifo r t cs outs' accs' e₂,
        append_assoc q.queue acc accs',
        append_assoc out r.queue accs',
        append_assoc out outs' t.queue,
      )
    ]
  ]

  call-IsValid :
      (q r : Queue A) (c : Call A) (out acc : List A)
      → IsValid q
      → call q c ≡ some (r, out, acc)
      → IsValid r
  unfolding call stop
  call-IsValid q r (pushes a) out acc v e = elim (Option-cases (push q a)) [
    | inl none_ ↦ absurd (cc (rw none_ at e))
    | inr (r', e₁) ↦
        let same : r' ≡ r = ground (arith, e, e₁) in rw (← same) (push-IsValid q r' a v e₁)
  ]
  call-IsValid q r pops out acc v e =
      let same : (pop q).1 ≡ r = ground (arith, e) in rw (← same) (pop-IsValid q v)
  call-IsValid q r stops out acc v e =
      let same : record q { stopping = true } ≡ r = ground (arith, e) in
      rw (← same) (record { counted = v.counted; within = v.within; sized = v.sized })

  -- Any sequence of calls of `push`, `pop` and `stop` that return keeps the count of amounts right
  -- and the limit respected.
  pub run-IsValid :
      (q s : Queue A) (cs : List (Call A)) (outs accs : List A)
      → IsValid q
      → run q cs ≡ some (s, outs, accs)
      → IsValid s
  unfolding run
  run-IsValid q s [] outs accs v e = let same : q ≡ s = ground (arith, e) in rw (← same) v
  run-IsValid q s (c ∷ cs) outs accs v e = elim (Option-cases (call q c)) [
    | inl none_ ↦ absurd (cc (rw (none_) at e))
    | inr ((r, out, acc), e₁) ↦ elim (Option-cases (run r cs)) [
      | inl none_ ↦ absurd (cc (rw (e₁, none_) at e))
      | inr ((t, outs', accs'), e₂) ↦
          let same : t ≡ s = ground (arith, e, e₁, e₂) in
          rw (← same) (run-IsValid r t cs outs' accs' (call-IsValid q r c out acc v e₁) e₂)
    ]
  ]

  -- What no call waits for: a queue without limit, or one that is stopping.
  abbrev pub IsOpen : Queue A → Type 0
  IsOpen q = (q.limit ≡ 0) ⊎ (q.stopping ≡ true)

  pop_front-IsOpen : (xs : List A) (q : Queue A) → IsOpen q → IsOpen (pop_front xs q).1
  unfolding pop_front
  pop_front-IsOpen [] q h = h
  pop_front-IsOpen (x ∷ xs) q h = h

  call-IsOpen :
      (q : Queue A) (c : Call A)
      → IsOpen q
      → (r : Queue A) × (out : List A) × (acc : List A) × (call q c ≡ some (r, out, acc)) × IsOpen r
  unfolding call push may_push stop pop
  call-IsOpen q (pushes a) h = elim (Option-cases (push q a)) [
    | inl none_ ↦ absurd (ground (arith, h, none_))
    | inr (r, e) ↦
        (r, [], if q.stopping then [] else a ∷ [], ground (arith, e), ground (arith, e, h))
  ]
  call-IsOpen q pops h = (_, _, _, refl, pop_front-IsOpen q.queue q h)
  call-IsOpen q stops h = (_, _, _, refl, inr refl)

  -- No call waits on a queue without limit, or on one that is stopping, so every sequence of calls
  -- returns.
  pub run_returns :
      (cs : List (Call A)) (q : Queue A)
      → IsOpen q
      → (s : Queue A) × (outs : List A) × (accs : List A) × (run q cs ≡ some (s, outs, accs))
  unfolding run
  run_returns [] q h = (q, [], [], refl)
  run_returns (c ∷ cs) q h =
      let (r, out, acc, e, h') = call-IsOpen q c h in
      let (s, outs, accs, e') = run_returns cs r h' in (s, out ++ outs, acc ++ accs, rw (e, e'))

  -- After `stop` the queue reports that it runs exactly while elements are left in it.
  pub running-stop : (q : Queue A) → (running (stop q) ≡ false) ↔ (q.queue ≡ [])
  unfolding running stop
  running-stop q = ground arith

  exchange_front-counted :
      (q : Queue A) (x a : A) (xs : List A)
      → IsValid q
      → q.queue ≡ x ∷ xs
      → (q.amount ≡ u64 (total q.amount_function (a ∷ xs)))
        ↔ (q.amount_function a ≡ q.amount_function x)
  exchange_front-counted q x a xs v e =
      let counted : q.amount ≡ u64 (q.amount_function x + total q.amount_function xs) =
        ground (arith, v.counted, e) in
      (λ h. omega (arith, v.sized x, v.sized a), λ h. omega (arith, v.sized x))

  -- `exchange` at a queue that is not empty hands the front out and puts the new element in its
  -- place, without touching `amount`: the count stays right exactly when the two amounts are equal.
  pub exchange_counted :
      (q : Queue A) (x a : A) (xs : List A)
      → IsValid q
      → q.queue ≡ x ∷ xs
      → ((exchange q a).0 ≡ some x)
        × ((exchange q a).1.queue ≡ a ∷ xs)
        × ((((exchange q a).1.amount
              ≡ u64 (total (exchange q a).1.amount_function (exchange q a).1.queue)))
            ↔ (q.amount_function a ≡ q.amount_function x))
  unfolding exchange
  exchange_counted q x a xs v e =
      rw (e, exchange_front) (refl, refl, exchange_front-counted q x a xs v e)
