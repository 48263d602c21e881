-- ===== src/Queue/Tests.antt =====
-- Runs of the queue, and its theorems at concrete inputs.
use gstreamer_web_rtc.Prelude.{
  ℕ, ◌%◌, ◌≡◌, refl, inr, ◌↔◌, true, false, none, some, List, [], ◌∷◌, ◌++◌, arith,
}
use gstreamer_web_rtc.Prelude.Word.{u64}
use gstreamer_web_rtc.Queue.{
  Queue, IsValid, push, pop, exchange, stop, running, total, Call, pushes, pops, stops, call, run,
}
use gstreamer_web_rtc.Queue.Fifo.{
  run-fifo, run-IsValid, run_returns, running-stop, exchange_counted,
}

-- A queue of packets given by their sizes.
abbrev sizes : Queue ℕ
sizes = record {
  limit = 2;
  amount = 12;
  queue = 7 ∷ 5 ∷ [];
  amount_function = λ n. n % 65536;
  stopping = false;
}

abbrev calls : List (Call ℕ)
calls = pops ∷ pushes 9 ∷ pops ∷ stops ∷ pushes 3 ∷ []

abbrev after : Queue ℕ
after = record sizes { amount = 9; queue = 9 ∷ []; stopping = true }

calls_result : run sizes calls ≡ some (after, 7 ∷ 5 ∷ [], 9 ∷ [])
unfolding run call push pop stop
calls_result = refl

-- The queue is full: one more `push` has to wait.
push_waits : push sizes 1 ≡ none
unfolding push
push_waits = refl

sizes-IsValid : IsValid sizes
sizes-IsValid = record {
  counted = omega arith;
  within = inr (omega arith);
  sized = λ a. omega arith;
}

run-fifo_example : sizes.queue ++ 9 ∷ [] ≡ (7 ∷ 5 ∷ []) ++ after.queue
run-fifo_example = run-fifo sizes after calls (7 ∷ 5 ∷ []) (9 ∷ []) calls_result

run-IsValid_example : IsValid after
run-IsValid_example = run-IsValid sizes after calls (7 ∷ 5 ∷ []) (9 ∷ []) sizes-IsValid calls_result

run_returns_example :
    (s : Queue ℕ) × (outs : List ℕ) × (accs : List ℕ) × (run (stop sizes) calls
      ≡ some (s, outs, accs))
unfolding stop
run_returns_example = run_returns calls (stop sizes) (inr refl)

running-stop_example : (running (stop sizes) ≡ false) ↔ (sizes.queue ≡ [])
running-stop_example = running-stop sizes

exchange_counted_example :
    ((exchange sizes 6).0 ≡ some 7)
    × ((exchange sizes 6).1.queue ≡ 6 ∷ 5 ∷ [])
    × ((((exchange sizes 6).1.amount
          ≡ u64 (total (exchange sizes 6).1.amount_function (exchange sizes 6).1.queue)))
        ↔ (◌≡◌ {A = ℕ} 6 7))
exchange_counted_example = exchange_counted sizes 7 6 (5 ∷ []) sizes-IsValid refl
