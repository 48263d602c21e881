-- ===== src/Processor.antt =====
-- src/impl/processor.hpp and src/impl/processor.cpp: a processor hands its tasks to the shared
-- thread pool one at a time. A task is a number here. The thread pool is its environment: it may
-- start any task that it was given, on any worker, and a started task may end at any time. What
-- the pool holds of other processors' tasks plays no part.
-- `enqueue` takes the task queue's `push` under the processor's mutex. Every processor of the
-- program has no limit (0), so that `push` does not wait.
pub mod Order
pub mod Tests
use gstreamer_web_rtc.Prelude.{
  ℕ, ◌≡◌, Bool, true, false, not, ◌&&◌, Option, none, some, List, [], ◌∷◌, ◌++◌, ◌>>=◌,
  if◌then◌else◌,
}
use gstreamer_web_rtc.Queue
use gstreamer_web_rtc.Queue.{Queue, is_empty}

pub record Processor : Type 0 where
  pub tasks : Queue ℕ
  pub pending : Bool

-- The processor with the tasks that the thread pool has from it and has not started.
pub record Dispatch : Type 0 where
  pub processor : Processor
  pub pooled : List ℕ

pub new : Processor
new = record { tasks = Queue.new 0 (λ t. 1); pending = false }

-- `none`: the caller waits in `push`.
pub enqueue : Dispatch → ℕ → Option Dispatch
enqueue d task =
    let p = d.processor in
    if p.pending
    then (Queue.push p.tasks task >>= λ tasks.
        some (record d { processor = record p { tasks = tasks } }))
    else some (record { processor = record p { pending = true }; pooled = d.pooled ++ task ∷ [] })

-- The scope guard of each task calls `schedule` when the task ends.
pub schedule_next : Option ℕ → Queue ℕ → Dispatch → Dispatch
schedule_next none tasks d = record d { processor = record { tasks = tasks; pending = false } }
schedule_next (some next) tasks d = record d {
  processor = record { tasks = tasks; pending = d.processor.pending };
  pooled = d.pooled ++ next ∷ [];
}

pub schedule : Dispatch → Dispatch
unfolding schedule_next
schedule d = let (next, tasks) = Queue.pop d.processor.tasks in schedule_next next tasks d

-- The condition that `join` waits for.
pub joined : Processor → Bool
joined p = not p.pending && is_empty p.tasks.queue

-- The processor in its environment: `running` and `finished` are ghost state, the tasks that
-- workers are executing and those that have ended, in the order in which they ended.
pub record System : Type 0 where
  pub dispatch : Dispatch
  pub running : List ℕ
  pub finished : List ℕ
  pub enqueued : List ℕ

pub data Step (s : System) : System → Type 0 where
  enqueues :
      (task : ℕ) (d : Dispatch)
      → enqueue s.dispatch task ≡ some d
      → Step s (record s { dispatch = d; enqueued = s.enqueued ++ task ∷ [] })
  starts :
      (before after : List ℕ) (task : ℕ)
      → s.dispatch.pooled ≡ before ++ task ∷ after
      → Step s (record s {
        dispatch = record s.dispatch { pooled = before ++ after };
        running = task ∷ s.running;
      })
  ends :
      (before after : List ℕ) (task : ℕ)
      → s.running ≡ before ++ task ∷ after
      → Step s (record s {
        dispatch = schedule s.dispatch;
        running = before ++ after;
        finished = s.finished ++ task ∷ [];
      })

pub data Reach (s : System) : System → Type 0 where
  here : Reach s s
  next : {t u : System} → Reach s t → Step t u → Reach s u

pub initial : System
initial = record {
  dispatch = record { processor = new; pooled = [] };
  running = [];
  finished = [];
  enqueued = [];
}
