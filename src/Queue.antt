-- ===== src/Queue.antt =====
-- src/impl/queue.hpp: the bounded queue that carries messages and tasks. Every method runs under
-- the queue's mutex, so a method is one step on the state; `push` at a full queue waits, and has no
-- result (`none`) until another call makes room or stops the queue.
pub mod Fifo
pub mod Tests
use gstreamer_web_rtc.Prelude.{
  ℕ, zero, suc, ◌+◌, ◌-◌, ◌≤◌, ◌<◌, ◌≡◌, refl, ◌⊎◌, inl, inr, ◌≢◌, ◌↔◌, Bool, true, false, not,
  ◌&&◌, ◌||◌, Option, none, some, List, [], ◌∷◌, ◌++◌, ltb, leb, ◌==◌, if◌then◌else◌, length,
  length-append, ◌>>=◌, arith,
}
use gstreamer_web_rtc.Prelude.Word.{u64}

pub record Queue (A : Type 0) : Type 0 where
  pub limit : ℕ
  pub amount : ℕ
  pub queue : List A
  pub amount_function : A → ℕ
  pub stopping : Bool

module _ {A : Type 0} where
  abbrev pub is_empty : List A → Bool
  is_empty [] = true
  is_empty (x ∷ xs) = false

  unfoldable pub new : ℕ → (A → ℕ) → Queue A
  new limit func = record {
    limit = limit;
    amount = 0;
    queue = [];
    amount_function = func;
    stopping = false;
  }

  unfoldable pub stop : Queue A → Queue A
  stop q = record q { stopping = true }

  unfoldable pub running : Queue A → Bool
  running q = not (is_empty q.queue) || not q.stopping

  pub full : Queue A → Bool
  full q = leb q.limit (length q.queue)

  -- The condition that `push` waits for.
  pub may_push : Queue A → Bool
  may_push q = q.limit == 0 || ltb (length q.queue) q.limit || q.stopping

  unfoldable pub push : Queue A → A → Option (Queue A)
  unfolding may_push
  push q element =
      if may_push q
      then some (
          if q.stopping then q else (record q {
            amount = u64 (q.amount + q.amount_function element);
            queue = q.queue ++ element ∷ [];
          }))
      else none

  pop_front : List A → Queue A → Option A × Queue A
  pop_front [] q = (none, q)
  pop_front (x ∷ xs) q = (
    some x,
    record q { amount = u64 (q.amount + 18446744073709551616 - q.amount_function x); queue = xs },
  )

  unfoldable pub pop : Queue A → Option A × Queue A
  unfolding pop_front
  pop q = pop_front q.queue q

  abbrev front : List A → Option A
  front [] = none
  front (x ∷ xs) = some x

  unfoldable pub peek : Queue A → Option A
  peek q = front q.queue

  exchange_front : List A → A → Queue A → Option A × Queue A
  exchange_front [] element q = (none, q)
  exchange_front (x ∷ xs) element q = (some x, record q { queue = element ∷ xs })

  pub exchange : Queue A → A → Option A × Queue A
  unfolding exchange_front
  exchange q element = exchange_front q.queue element q

  -- The sum of the amounts of the elements.
  abbrev pub total : (A → ℕ) → List A → ℕ
  total f [] = 0
  total f (x ∷ xs) = f x + total f xs

  pub total-append : (f : A → ℕ) (xs ys : List A) → total f (xs ++ ys) ≡ total f xs + total f ys
  total-append f [] ys = omega arith
  total-append f (x ∷ xs) ys = omega (arith, total-append f xs ys)

  -- `amount` counts what is queued, as a size_t, and a limit is kept.
  pub record IsValid (q : Queue A) : Type 0 where
    pub counted : q.amount ≡ u64 (total q.amount_function q.queue)
    pub within : (q.limit ≡ 0) ⊎ (length q.queue ≤ q.limit)
    pub sized : (a : A) → q.amount_function a < 18446744073709551616

  -- What a call of `push` leaves, when it returns, is valid if the queue was.
  pub push-IsValid : (q r : Queue A) (a : A) → IsValid q → push q a ≡ some r → IsValid r
  unfolding push
  push-IsValid q r a v e = record {
    counted = ground (arith, v.counted, total-append q.amount_function q.queue (a ∷ []));
    within = ground (arith, v.within, length-append q.queue (a ∷ []));
    sized = λ b. ground (arith, v.sized b);
  }

  pop_front-IsValid :
      (xs : List A) (q : Queue A) → q.queue ≡ xs → IsValid q → IsValid (pop_front xs q).1
  unfolding pop_front
  pop_front-IsValid [] q e v = v
  pop_front-IsValid (x ∷ xs) q e v = record {
    counted = ground (arith, v.counted, v.sized x);
    within = ground (arith, v.within);
    sized = v.sized;
  }

  pub pop-IsValid : (q : Queue A) → IsValid q → IsValid (pop q).1
  unfolding pop
  pop-IsValid q v = pop_front-IsValid q.queue q refl v

-- Sequences of calls of `push`, `pop` and `stop`. `exchange` is left out: it hands the front out and
-- puts an element before the others, and does not count it.
pub data Call (A : Type 0) : Type 0 where
  pushes : A → Call A
  pops : Call A
  stops : Call A

module _ {A : Type 0} where
  abbrev pub to_list : Option A → List A
  to_list none = []
  to_list (some a) = a ∷ []

  -- One call: the queue after it, the elements handed out and those taken in. A queue that is
  -- stopping takes no element in.
  pub call : Queue A → Call A → Option (Queue A × List A × List A)
  call q (pushes a) = do r ← push q a; some (r, [], if q.stopping then [] else a ∷ [])
  call q pops = let (o, r) = pop q in some (r, to_list o, [])
  call q stops = some (stop q, [], [])

  pub run : Queue A → List (Call A) → Option (Queue A × List A × List A)
  run q [] = some (q, [], [])
  run q (c ∷ cs) = do
    (r, out, acc) ← call q c
    (s, outs, accs) ← run r cs
    some (s, out ++ outs, acc ++ accs)

  -- What clients compute with, the definitions shut.
  pub push_live :
      (q : Queue A) (a : A)
      → q.limit ≡ 0
      → q.stopping ≡ false
      → (r : Queue A) × (push q a ≡ some r)
        × (r.queue ≡ q.queue ++ a ∷ [])
        × (r.limit ≡ 0)
        × (r.stopping ≡ false)
  unfolding push
  push_live q a hl hs = (
    record q { amount = u64 (q.amount + q.amount_function a); queue = q.queue ++ a ∷ [] },
    ground (arith, hl, hs),
    refl,
    hl,
    hs,
  )

  pub pop_empty : (q : Queue A) → q.queue ≡ [] → pop q ≡ (none, q)
  unfolding pop
  pop_empty q e = rw (e, pop_front)

  pub pop_nonempty :
      (q : Queue A) (x : A) (xs : List A)
      → q.queue ≡ x ∷ xs
      → (r : Queue A) × (pop q ≡ (some x, r))
        × (r.queue ≡ xs)
        × (r.limit ≡ q.limit)
        × (r.stopping ≡ q.stopping)
  unfolding pop
  pop_nonempty q x xs e = (
    record q { amount = u64 (q.amount + 18446744073709551616 - q.amount_function x); queue = xs },
    rw (e, pop_front) refl,
    refl,
    refl,
    refl,
  )

  pub peek_front : (q : Queue A) (x : A) (xs : List A) → q.queue ≡ x ∷ xs → peek q ≡ some x
  unfolding peek
  peek_front q x xs e = rw e refl

  pub stop_keeps : (q : Queue A) → ((stop q).queue ≡ q.queue) × ((stop q).stopping ≡ true)
  unfolding stop
  stop_keeps q = (refl, refl)

  pub push_stopped : (q : Queue A) (a : A) → q.stopping ≡ true → push q a ≡ some q
  unfolding push
  push_stopped q a h = ground (arith, h)

  front-cases :
      (xs : List A)
      → (front xs ≡ none) × (xs ≡ [])
        ⊎ (x : A) × (rest : List A) × (xs ≡ x ∷ rest) × (front xs ≡ some x)
  front-cases [] = inl (refl, refl)
  front-cases (x ∷ xs) = inr (x, xs, refl, refl)

  pub peek-cases :
      (q : Queue A)
      → (peek q ≡ none) × (q.queue ≡ [])
        ⊎ (x : A) × (rest : List A) × (q.queue ≡ x ∷ rest) × (peek q ≡ some x)
  unfolding peek
  peek-cases q = front-cases q.queue
