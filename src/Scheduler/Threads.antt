-- ===== src/Scheduler/Threads.antt =====
-- src/scheduler.cpp: the threads of a scheduler, as a step relation.
pub mod Counts
pub mod Leaving
use tigerkin.Prelude.{
  ℕ, zero, suc, ◌+◌, ◌^◌, ◌≤◌, ◌<◌, ◌≡◌, ◌⊎◌, inl, inr, refl, sym, ap, subst, ◌∙◌, Bool, true,
  false, Option, some, List, [], ◌∷◌, All, Bool-cases, if◌then◌else◌, if_cases, arith, get_elem?,
  set, length, length-set, ◌==◌, ==_refl,
}
use tigerkin.Scheduler.{
  Task, Scheduler, up, down, is_nil, schedule, takes, take_task, stopping, can_early_closure, idles,
  leaves, rest, wake, stop, start, count_up,
}
use tigerkin.Scheduler.Queue.{AllWork, SameThreads, taken-AllWork, schedule-AllWork}

-- A thread is in a round of run, in the idle coroutine, or has left run.
pub data Phase : Type 0 where
  running idling gone : Phase

pub record Thread : Type 0 where
  pub id : ℕ
  pub phase : Phase

pub record Pool : Type 0 where
  pub sched : Scheduler
  pub threads : List Thread

abbrev pub put_phase : ℕ → Thread → Phase → List Thread → List Thread
put_phase k t p ts = set ts k (record t { phase = p })

-- What one thread does at a time. Any thread may schedule a task.
pub data Step (p q : Pool) : Type 0 where
  takes_task :
      (k : ℕ) (t : Thread) (o : Option Task) (tickle : Bool) (s : Scheduler)
      → get_elem? p.threads k ≡ some t
      → t.phase ≡ running
      → take_task t.id p.sched ≡ takes o tickle s
      → q ≡ record p { sched = s }
      → Step p q
  schedules :
      (task : Task) (force : Bool)
      → q ≡ record p { sched = (schedule task force p.sched).0 }
      → Step p q
  stops : (me : ℕ) → q ≡ record p { sched = stop me p.sched } → Step p q
  goes_idle :
      (k : ℕ) (t : Thread) (quiet : Bool) (s : Scheduler)
      → get_elem? p.threads k ≡ some t
      → t.phase ≡ running
      → rest quiet t.id p.sched ≡ idles s
      → q ≡ record { sched = s; threads = put_phase k t idling p.threads }
      → Step p q
  comes_back :
      (k : ℕ) (t : Thread)
      → get_elem? p.threads k ≡ some t
      → t.phase ≡ idling
      → q ≡ record { sched = wake p.sched; threads = put_phase k t running p.threads }
      → Step p q
  goes :
      (k : ℕ) (t : Thread) (quiet : Bool) (s : Scheduler)
      → get_elem? p.threads k ≡ some t
      → t.phase ≡ running
      → rest quiet t.id p.sched ≡ leaves s
      → q ≡ record { sched = s; threads = put_phase k t gone p.threads }
      → Step p q

pub data Reach (p : Pool) : Pool → Type 0 where
  here : Reach p p
  next : {q r : Pool} → Reach p q → Step q r → Reach p r

-- The threads that the two counters count.
abbrev pub idle_weight : Thread → ℕ
idle_weight t = elim t.phase [ idling ↦ 1 | _ ↦ 0 ]

abbrev pub active_weight : ℕ → Thread → ℕ
active_weight caller t = elim t.phase [ gone ↦ 0 | _ ↦ if caller == t.id then 0 else 1 ]

abbrev pub total : (Thread → ℕ) → List Thread → ℕ
total f [] = 0
total f (t ∷ ts) = f t + total f ts

pub total-set :
    (f : Thread → ℕ) (ts : List Thread) (k : ℕ) (t u : Thread)
    → get_elem? ts k ≡ some t
    → total f (set ts k u) + f t ≡ total f ts + f u
total-set f [] k t u e = absurd (cc)
total-set f (x ∷ ts) zero t u e = let same : x ≡ t = cc in rw (sym same) (omega arith)
total-set f (x ∷ ts) (suc k) t u e = omega (arith, total-set f ts k t u e)

pub total-le :
    (f : Thread → ℕ) (ts : List Thread) → ((t : Thread) → f t ≤ 1) → total f ts ≤ length ts
total-le f [] h = omega arith
total-le f (t ∷ ts) h = omega (arith, h t, total-le f ts h)

-- The counters are the numbers of idle threads and of the workers that have not left, and every task
-- has work.
pub record IsConsistent (p : Pool) : Type 0 where
  pub idle_counted : p.sched.idle_threads ≡ total idle_weight p.threads
  pub active_counted :
      p.sched.active_threads ≡ total (active_weight p.sched.caller_thread) p.threads
  pub few : length p.threads + 1 < 2 ^ 64
  pub work : AllWork p.sched.tasks
