-- ===== src/Processor/Tests.antt =====
-- A run of two tasks, and the theorems at it.
use gstreamer_web_rtc.Prelude.{ℕ, ◌≤◌, ◌≡◌, refl, true, false, List, [], ◌∷◌, ◌++◌, length}
use gstreamer_web_rtc.Queue
use gstreamer_web_rtc.Processor.{
  System, Reach, here, next, enqueues, starts, ends, initial, new, enqueue, schedule, schedule_next,
  joined,
}
use gstreamer_web_rtc.Processor.Order.{tasks_in_order, joined_all}

-- Both tasks are enqueued, and the first is being executed.
abbrev two_tasks : System
two_tasks = record {
  dispatch = record {
    processor = record {
      tasks = record {
        limit = 0;
        amount = 1;
        queue = 8 ∷ [];
        amount_function = λ t. 1;
        stopping = false;
      };
      pending = true;
    };
    pooled = [];
  };
  running = 7 ∷ [];
  finished = [];
  enqueued = 7 ∷ 8 ∷ [];
}

two_tasks-Reach : Reach initial two_tasks
unfolding initial new Queue.new Queue.push enqueue
two_tasks-Reach =
    next (next (next here (enqueues 7 _ refl)) (enqueues 8 _ refl)) (starts [] [] 7 refl)

tasks_in_order_example :
    (length two_tasks.running ≤ 1)
    × ((rest : List ℕ) × (two_tasks.enqueued ≡ (two_tasks.finished ++ two_tasks.running) ++ rest))
tasks_in_order_example = tasks_in_order two_tasks-Reach

-- Both have ended.
abbrev all_done : System
all_done = record {
  dispatch = record {
    processor = record {
      tasks = record {
        limit = 0;
        amount = 0;
        queue = [];
        amount_function = λ t. 1;
        stopping = false;
      };
      pending = false;
    };
    pooled = [];
  };
  running = [];
  finished = 7 ∷ 8 ∷ [];
  enqueued = 7 ∷ 8 ∷ [];
}

all_done-Reach : Reach initial all_done
unfolding schedule schedule_next Queue.pop
all_done-Reach =
    next (next (next two_tasks-Reach (ends [] [] 7 refl)) (starts [] [] 8 refl)) (ends [] [] 8 refl)

joined_all_example : all_done.finished ≡ all_done.enqueued
joined_all_example = joined_all all_done-Reach (unfold joined in refl)
