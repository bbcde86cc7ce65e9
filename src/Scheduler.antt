-- ===== src/Scheduler.antt =====
-- src/scheduler.h and src/scheduler.cpp: the list of tasks, and what a thread of the scheduler does in
-- a round of run. A task has a coroutine or a callback, each a number, and thread 0 stands for any
-- thread. What is done under the scheduler's lock is one step. The state of a coroutine is asked of a
-- parameter, and `quiet` is what IOManager adds to `stopping`: that no event is pending.
pub mod Queue
pub mod Threads
use tigerkin.Prelude.{
  ℕ, zero, suc, ◌+◌, ◌-◌, ◌%◌, ◌^◌, Bool, true, false, not, ◌&&◌, ◌||◌, Option, none, some, List,
  [], ◌∷◌, ◌++◌, ltb, ◌==◌, if◌then◌else◌,
}

-- Scheduler::Task.
pub record Task : Type 0 where
  pub co : Option ℕ
  pub cb : Option ℕ
  pub thread_id : ℕ

pub record Scheduler : Type 0 where
  pub tasks : List Task
  pub auto_stop : Bool
  pub is_stopping : Bool
  pub active_threads : ℕ
  pub idle_threads : ℕ
  pub caller_thread : ℕ

-- The atomic counters.
abbrev pub up : ℕ → ℕ
up n = (n + 1) % 2 ^ 64

abbrev pub down : ℕ → ℕ
down n = (n + 2 ^ 64 - 1) % 2 ^ 64

abbrev pub is_some : {A : Type 0} → Option A → Bool
is_some none = false
is_some (some _) = true

abbrev pub is_nil : {A : Type 0} → List A → Bool
is_nil [] = true
is_nil (_ ∷ _) = false

-- `task.cb || task.co`.
abbrev pub has_work : Task → Bool
has_work t = is_some t.cb || is_some t.co

-- Scheduler::scheduleWithoutLock: the scheduler, and whether a thread is to be tickled. The task in
-- the list is a copy, which the later assignment to threadId does not change.
pub schedule_without_lock : Task → Bool → Scheduler → Scheduler × Bool
schedule_without_lock task force s =
    let tasks' = if has_work task then s.tasks ++ (task ∷ []) else s.tasks in
    if s.auto_stop && not force
    then (s, false)
    else (record s { tasks = tasks' }, not (is_nil tasks') && ltb 0 s.idle_threads)

-- Scheduler::schedule; the second component is whether tickle is called.
pub schedule : Task → Bool → Scheduler → Scheduler × Bool
unfolding schedule_without_lock
schedule task force s = schedule_without_lock task force s

-- Scheduler::scheduleIterator over callbacks or coroutines, for any thread.
pub schedule_iterator : List Task → Bool → Scheduler → Scheduler × Bool
unfolding schedule_without_lock
schedule_iterator [] force s = (s, false)
schedule_iterator (t ∷ ts) force s =
    let (s', tickle) = schedule_without_lock (record t { thread_id = 0 }) force s in
    let (s'', more) = schedule_iterator ts force s' in (s'', tickle || more)

-- The search of run through the list: the task found and the list without it, and whether a task of
-- another thread was passed. A task with nothing to run fails an assertion.
pub data Found : Type 0 where
  finds : Task → List Task → Bool → Found
  finds_none : Bool → Found
  asserts : Found

abbrev pub is_for_other : ℕ → Task → Bool
is_for_other me t = not (t.thread_id == 0) && not (t.thread_id == me)

abbrev pub passed : Task → Found → Found
passed t (finds u rest tickle) = finds u (t ∷ rest) true
passed t (finds_none tickle) = finds_none true
passed t asserts = asserts

pub find_task : ℕ → List Task → Found
find_task me [] = finds_none false
find_task me (t ∷ ts) =
    let later = passed t (find_task me ts) in
    if is_for_other me t then later else if has_work t then finds t ts false else asserts

-- The first part of a round of run, under the lock: the task taken, and whether to tickle.
pub data Taken : Type 0 where
  takes : Option Task → Bool → Scheduler → Taken
  take_asserts : Taken

pub take_task : ℕ → Scheduler → Taken
unfolding find_task
take_task me s = elim (find_task me s.tasks) [
  | finds t rest tickle ↦
      takes (some t) (tickle || (not (is_nil rest) && ltb 0 s.idle_threads))
        (record s { tasks = rest })
  | finds_none tickle ↦ takes none (tickle || (not (is_nil s.tasks) && ltb 0 s.idle_threads)) s
  | asserts ↦ take_asserts
]

-- Scheduler::stopping and Scheduler::canEarlyClosure.
unfoldable pub stopping : Bool → Scheduler → Bool
stopping quiet s =
    ((s.auto_stop && s.is_stopping) && (is_nil s.tasks && (s.active_threads == 0))) && quiet

pub can_early_closure : Bool → Scheduler → Bool
can_early_closure quiet s = (s.auto_stop && (is_nil s.tasks && (s.idle_threads == 0))) && quiet

-- What a round does with what it has taken: it resumes a coroutine, makes one for a callback, begins
-- the next round, or has nothing to do.
pub data Next : Type 0 where
  resumes : ℕ → Next
  wraps : (cb thread_id : ℕ) → Next
  begins_again : Next
  has_nothing : Next

-- `done co` is that the coroutine is in state TERMINAL or EXCEPT.
pub next_of : (ℕ → Bool) → Option Task → Next
next_of done none = has_nothing
next_of done (some t) =
    let without_co = elim t.cb as (λ _. Next) [
      | some f ↦ wraps f t.thread_id
      | none ↦ begins_again
    ] in
    elim t.co [ none ↦ without_co | some c ↦ if done c then without_co else resumes c ]

-- The task that a round puts back: the coroutine made for a callback, and one that is READY after it
-- was resumed, with the thread that it ran on.
pub wrap_task : ℕ → ℕ → Scheduler → Scheduler × Bool
unfolding schedule
wrap_task co thread_id s =
    schedule (record { co = some co; cb = none; thread_id = thread_id }) true s

-- The last part of a round, with nothing to do: the thread idles, begins the next round, or leaves.
pub data Rest : Type 0 where
  idles : Scheduler → Rest
  rounds : Scheduler → Rest
  leaves : Scheduler → Rest

unfoldable pub rest : Bool → ℕ → Scheduler → Rest
unfolding stopping can_early_closure
rest quiet me s =
    let sleep = idles (record s { idle_threads = up s.idle_threads }) in
    if s.caller_thread == me
    then if stopping quiet s then leaves s else sleep
    else if can_early_closure quiet s
    then leaves (record s { active_threads = down s.active_threads })
    else if s.auto_stop
    then rounds s
    else sleep

-- When the idle coroutine comes back.
pub wake : Scheduler → Scheduler
wake s = record s { idle_threads = down s.idle_threads }

-- Scheduler::start for `n` new threads: whether it starts, and the state with the threads counted.
abbrev pub count_up : ℕ → ℕ → ℕ
count_up zero k = k
count_up (suc n) k = count_up n (up k)

unfoldable pub start : ℕ → Scheduler → Scheduler × Bool
start n s =
    if s.is_stopping
    then (
      record s {
        is_stopping = false;
        auto_stop = false;
        active_threads = count_up n s.active_threads;
      },
      true,
    )
    else (s, false)

-- Scheduler::stop, up to the join of the threads; only the caller's thread may call it.
unfoldable pub stop : ℕ → Scheduler → Scheduler
stop me s = if s.caller_thread == me then record s { auto_stop = true; is_stopping = true } else s
