-- ===== src/Tests/Schedules.antt =====
-- src/scheduler.cpp at small inputs.
use tigerkin.Prelude.{◌≡◌, refl, true, false, none, some, [], ◌∷◌, arith, All}
use tigerkin.Scheduler.{Scheduler, take_task, start, stop, rest, stopping}
use tigerkin.Scheduler.Queue.{Takes, take_task-Takes}
use tigerkin.Scheduler.Threads.{running, gone, Pool, here, next, stops, goes}
use tigerkin.Scheduler.Threads.Leaving.{IsDone, stopping-IsDone}

-- A task for thread 4, and a callback for any thread.
abbrev two_tasks : Scheduler
two_tasks = record {
  tasks =
      record { co = some 1; cb = none; thread_id = 4 }
      ∷ record { co = none; cb = some 2; thread_id = 0 }
      ∷ [];
  auto_stop = false;
  is_stopping = false;
  active_threads = 2;
  idle_threads = 1;
  caller_thread = 4;
}

take_task-Takes_example : Takes 5 two_tasks (take_task 5 two_tasks)
take_task-Takes_example = take_task-Takes 5 two_tasks (refl, (refl, tt))

abbrev not_started : Scheduler
not_started = record {
  tasks = [];
  auto_stop = false;
  is_stopping = true;
  active_threads = 0;
  idle_threads = 0;
  caller_thread = 4;
}

-- The caller 4 has stopped the scheduler, and its thread 5 has left.
abbrev left_pool : Pool
left_pool = record {
  sched = record not_started { auto_stop = true };
  threads = record { id = 4; phase = running } ∷ record { id = 5; phase = gone } ∷ [];
}

stopping-IsDone_example : (left_pool.sched.tasks ≡ []) × All (IsDone 4) left_pool.threads
unfolding start stop rest stopping
stopping-IsDone_example =
    stopping-IsDone (5 ∷ []) not_started true left_pool refl refl refl tt (refl, tt) (omega arith)
      (next (next here (stops 4 refl))
        (goes 1 (record { id = 5; phase = running }) true left_pool.sched refl refl refl refl))
      refl
