-- ===== src/Processor/Order.antt =====
-- One task at a time, in the order of `enqueue`, whatever the thread pool does.
use gstreamer_web_rtc.Prelude.{
  ℕ, ◌≤◌, ◌≡◌, refl, sym, ◌∙◌, ◌⊎◌, inl, inr, true, false, some, List, [], ◌∷◌, ◌++◌, append-nil,
  append_assoc, length, arith,
}
use gstreamer_web_rtc.Queue
use gstreamer_web_rtc.Queue.{Queue, push_live, pop_empty, pop_nonempty}
use gstreamer_web_rtc.Processor.{
  Dispatch, System, Step, enqueues, starts, ends, Reach, here, next, new, enqueue, schedule,
  schedule_next, joined, initial,
}

-- The task that the pool has, started or not, is at most one, and `pending` tells whether there is
-- one. What ended, that task and the queue make up the tasks enqueued, in order.
pub data Shape (s : System) : Type 0 where
  idle :
      s.dispatch.processor.pending ≡ false
      → s.dispatch.processor.tasks.queue ≡ []
      → s.dispatch.pooled ≡ []
      → s.running ≡ []
      → s.enqueued ≡ s.finished
      → Shape s
  waiting :
      (task : ℕ)
      → s.dispatch.processor.pending ≡ true
      → s.dispatch.pooled ≡ task ∷ []
      → s.running ≡ []
      → s.enqueued ≡ s.finished ++ task ∷ s.dispatch.processor.tasks.queue
      → Shape s
  busy :
      (task : ℕ)
      → s.dispatch.processor.pending ≡ true
      → s.dispatch.pooled ≡ []
      → s.running ≡ task ∷ []
      → s.enqueued ≡ s.finished ++ task ∷ s.dispatch.processor.tasks.queue
      → Shape s

pub record IsValid (s : System) : Type 0 where
  pub shape : Shape s
  pub unlimited : s.dispatch.processor.tasks.limit ≡ 0
  pub live : s.dispatch.processor.tasks.stopping ≡ false

singleton_split :
    (before after : List ℕ) (a t : ℕ)
    → t ∷ [] ≡ before ++ a ∷ after
    → (before ≡ []) × (after ≡ []) × (a ≡ t)
singleton_split [] after a t e = ground (arith, e)
singleton_split (x ∷ []) after a t e = absurd (ground (arith, e))
singleton_split (x ∷ y ∷ before) after a t e = absurd (ground (arith, e))

empty_split : (before after : List ℕ) (a : ℕ) → [] ≡ before ++ a ∷ after → ⊥
empty_split [] after a e = cc
empty_split (x ∷ before) after a e = cc

List-cases : (l : List ℕ) → (l ≡ []) ⊎ ((x : ℕ) × (xs : List ℕ) × (l ≡ x ∷ xs))
List-cases [] = inl refl
List-cases (x ∷ xs) = inr (x, xs, refl)

enqueues-IsValid :
    (s : System) (task : ℕ) (d : Dispatch)
    → enqueue s.dispatch task ≡ some d
    → IsValid s
    → IsValid (record s { dispatch = d; enqueued = s.enqueued ++ task ∷ [] })
unfolding enqueue
enqueues-IsValid s task d e v = go v.shape
  where
    Goal : Type 0
    Goal = IsValid (record s { dispatch = d; enqueued = s.enqueued ++ task ∷ [] })

    queued :
        s.dispatch.processor.pending ≡ true
        → (d.processor.pending ≡ true)
          × (d.pooled ≡ s.dispatch.pooled)
          × (d.processor.tasks.queue ≡ s.dispatch.processor.tasks.queue ++ task ∷ [])
          × (d.processor.tasks.limit ≡ 0)
          × (d.processor.tasks.stopping ≡ false)
    queued p =
        let (r, pushed, items, l, t) =
          push_live s.dispatch.processor.tasks task v.unlimited v.live in
        ground (arith, e, p, pushed, items, l, t)

    go : Shape s → Goal
    go (idle p q o r f) = record {
      shape =
          waiting task (ground (arith, e, p)) (ground (arith, e, p, o)) r
            (ground (arith, e, p, q, f));
      unlimited = ground (arith, e, p, v.unlimited);
      live = ground (arith, e, p, v.live);
    }
    go (waiting t p o r f) =
        let (p', o', items, l, h) = queued p in
        record {
          shape = waiting t p' (o' ∙ o) r (
              rw (f, items)
                (append_assoc s.finished (t ∷ s.dispatch.processor.tasks.queue) (task ∷ [])));
          unlimited = l;
          live = h;
        }
    go (busy t p o r f) =
        let (p', o', items, l, h) = queued p in
        record {
          shape = busy t p' (o' ∙ o) r (
              rw (f, items)
                (append_assoc s.finished (t ∷ s.dispatch.processor.tasks.queue) (task ∷ [])));
          unlimited = l;
          live = h;
        }

starts-IsValid :
    (s : System) (before after : List ℕ) (task : ℕ)
    → s.dispatch.pooled ≡ before ++ task ∷ after
    → IsValid s
    → IsValid (record s {
      dispatch = record s.dispatch { pooled = before ++ after };
      running = task ∷ s.running;
    })
starts-IsValid s before after task e v = record {
  shape = shape v.shape;
  unlimited = v.unlimited;
  live = v.live;
}
  where
    shape :
        Shape s
        → Shape (record s {
          dispatch = record s.dispatch { pooled = before ++ after };
          running = task ∷ s.running;
        })
    shape (idle p q o r f) = absurd (empty_split before after task (sym o ∙ e))
    shape (busy t p o r f) = absurd (empty_split before after task (sym o ∙ e))
    shape (waiting t p o r f) =
        let (b, a, h) = singleton_split before after task t (sym o ∙ e) in
        busy task p (rw (b, a)) (rw r) (rw (h) f)

ends-IsValid :
    (s : System) (before after : List ℕ) (task : ℕ)
    → s.running ≡ before ++ task ∷ after
    → IsValid s
    → IsValid (record s {
      dispatch = schedule s.dispatch;
      running = before ++ after;
      finished = s.finished ++ task ∷ [];
    })
unfolding schedule
ends-IsValid s before after task e v = go v.shape (List-cases s.dispatch.processor.tasks.queue)
  where
    tasks : Queue ℕ
    tasks = s.dispatch.processor.tasks

    Goal : Type 0
    Goal = IsValid (record s {
      dispatch = schedule s.dispatch;
      running = before ++ after;
      finished = s.finished ++ task ∷ [];
    })

    go : Shape s → (tasks.queue ≡ []) ⊎ ((x : ℕ) × (xs : List ℕ) × (tasks.queue ≡ x ∷ xs)) → Goal
    go (idle p q o r f) c = absurd (empty_split before after task (sym r ∙ e))
    go (waiting t p o r f) c = absurd (empty_split before after task (sym r ∙ e))
    go (busy t p o r f) (inl q) =
        let (b, a, h) = singleton_split before after task t (sym r ∙ e) in
        rw (pop_empty tasks q, schedule_next)
          (record {
            shape = idle refl q o (rw (b, a)) (rw (f, q, h));
            unlimited = v.unlimited;
            live = v.live;
          })
    go (busy t p o r f) (inr (x, xs, q)) =
        let (b, a, h) = singleton_split before after task t (sym r ∙ e) in
        let (rest, popped, items, l, st) = pop_nonempty tasks x xs q in
        rw (popped, schedule_next)
          (record {
            shape =
                waiting x p (rw o) (rw (b, a))
                  (rw (f, q, items, h) (sym (append_assoc s.finished (t ∷ []) (x ∷ xs))));
            unlimited = l ∙ v.unlimited;
            live = st ∙ v.live;
          })

Step-IsValid : {s t : System} → Step s t → IsValid s → IsValid t
Step-IsValid {s = s} (enqueues task d e) v = enqueues-IsValid s task d e v
Step-IsValid {s = s} (starts before after task e) v = starts-IsValid s before after task e v
Step-IsValid {s = s} (ends before after task e) v = ends-IsValid s before after task e v

initial-IsValid : IsValid initial
unfolding initial new Queue.new
initial-IsValid = record { shape = idle refl refl refl refl refl; unlimited = refl; live = refl }

pub Reach-IsValid : {s t : System} → IsValid s → Reach s t → IsValid t
Reach-IsValid v here = v
Reach-IsValid v (next r st) = Step-IsValid st (Reach-IsValid v r)

-- At any time, at most one task of the processor is being executed, and the tasks that have ended
-- did so in the order of `enqueue`: they begin the list of the tasks enqueued, and the task being
-- executed is the next in that list.
pub tasks_in_order :
    {s : System}
    → Reach initial s
    → (length s.running ≤ 1) × ((rest : List ℕ) × (s.enqueued ≡ (s.finished ++ s.running) ++ rest))
tasks_in_order {s} r = go (Reach-IsValid initial-IsValid r).shape
  where
    go :
        Shape s
        → (length s.running ≤ 1)
          × ((rest : List ℕ) × (s.enqueued ≡ (s.finished ++ s.running) ++ rest))
    go (idle p q o r f) = (rw r (omega arith), ([], rw (r, append-nil, append-nil) f))
    go (waiting t p o r f) =
        (rw r (omega arith), (t ∷ s.dispatch.processor.tasks.queue, rw (r, append-nil) f))
    go (busy t p o r f) =
        (rw r (omega arith), (s.dispatch.processor.tasks.queue, rw (r, append_assoc) f))

-- `join` goes on only when every task that was enqueued has ended.
pub joined_all :
    {s : System} → Reach initial s → joined s.dispatch.processor ≡ true → s.finished ≡ s.enqueued
joined_all {s} r j = go (Reach-IsValid initial-IsValid r).shape
  where
    go : Shape s → s.finished ≡ s.enqueued
    go (idle p q o r f) = sym f
    go (waiting t p o r f) = unfold joined in absurd (ground (arith, p, j))
    go (busy t p o r f) = unfold joined in absurd (ground (arith, p, j))
