-- ===== src/Scheduler/Threads/Leaving.antt =====
-- src/scheduler.cpp: when the caller's thread may leave.
use tigerkin.Prelude.{
  ℕ, zero, suc, ◌+◌, ◌^◌, ◌<◌, ◌≡◌, ◌⊎◌, inl, inr, refl, sym, ap, ◌∙◌, Bool, true, false, List, [],
  ◌∷◌, All, Bool-cases, arith, length, ◌==◌, ==_refl,
}
use tigerkin.Scheduler.{Task, Scheduler, up, is_nil, stopping, start, count_up}
use tigerkin.Scheduler.Queue.{AllWork}
use tigerkin.Scheduler.Threads.{
  Phase, running, idling, gone, Thread, Pool, Reach, idle_weight, active_weight, total,
  IsConsistent,
}
use tigerkin.Scheduler.Threads.Counts.{Reach-IsConsistent, worker_weight}

-- A thread is the caller's, or has left run.
abbrev pub IsDone : ℕ → Thread → Type 0
IsDone caller t = ((caller == t.id) ≡ true) ⊎ (t.phase ≡ gone)

none_active-IsDone : (c : ℕ) (ts : List Thread) → total (active_weight c) ts ≡ 0 → All (IsDone c) ts
none_active-IsDone c [] e = tt
none_active-IsDone c (t ∷ ts) e = (go t.phase refl, none_active-IsDone c ts (omega arith))
  where
    go : (p : Phase) → t.phase ≡ p → IsDone c t
    go gone r = inr r
    go running r = elim (Bool-cases (c == t.id)) [
      | inl m ↦ inl m
      | inr m ↦ absurd (omega (arith, worker_weight c t r m))
    ]
    go idling r = elim (Bool-cases (c == t.id)) [
      | inl m ↦ inl m
      | inr m ↦ absurd (let w : active_weight c t ≡ 1 = rw (r, m) refl in omega arith)
    ]

-- The threads of a scheduler that start has started: the caller's and `ids`.
abbrev pub workers : List ℕ → List Thread
workers [] = []
workers (i ∷ ids) = record { id = i; phase = running } ∷ workers ids

abbrev pub started : List ℕ → Scheduler → Pool
started ids s = record {
  sched = (start (length ids) s).0;
  threads = record { id = s.caller_thread; phase = running } ∷ workers ids;
}

count_up_add : (n k : ℕ) → n + k < 2 ^ 64 → count_up n k ≡ n + k
count_up_add zero k lt = omega arith
count_up_add (suc n) k lt =
    let one : up k ≡ k + 1 = omega arith in count_up_add n (up k) (omega arith) ∙ omega arith

started_total :
    (caller : ℕ) (ids : List ℕ)
    → All (λ i. (caller == i) ≡ false) ids
    → total (active_weight caller) (workers ids) ≡ length ids
started_total caller [] h = refl
started_total caller (i ∷ ids) h = rw h.0 (omega (arith, started_total caller ids h.1))

started_idle : (ids : List ℕ) → total idle_weight (workers ids) ≡ 0
started_idle [] = refl
started_idle (i ∷ ids) = omega (arith, started_idle ids)

started_length : (ids : List ℕ) → length (workers ids) ≡ length ids
started_length [] = refl
started_length (i ∷ ids) = ap suc (started_length ids)

started-IsConsistent :
    (ids : List ℕ) (s : Scheduler)
    → s.is_stopping ≡ true
    → s.active_threads ≡ 0
    → s.idle_threads ≡ 0
    → AllWork s.tasks
    → All (λ i. (s.caller_thread == i) ≡ false) ids
    → length ids + 2 < 2 ^ 64
    → IsConsistent (started ids s)
unfolding start
started-IsConsistent ids s st active idle work others few = rw st (record {
  idle_counted = omega (arith, idle, started_idle ids);
  active_counted = rw (==_refl s.caller_thread) (
      omega (
        arith,
        count_up_add (length ids) s.active_threads (omega (arith, active, few)),
        started_total s.caller_thread ids others,
        active,
      ));
  few = omega (arith, started_length ids, few);
  work = work;
})

is_nil_eq : (ts : List Task) → is_nil ts ≡ true → ts ≡ []
is_nil_eq [] e = refl
is_nil_eq (t ∷ ts) e = absurd (cc)

-- Let a scheduler that has not been started, with no active or idle threads and only tasks that
-- have work, be started with fewer than 2^64 - 2 threads, none of them the caller's. After any
-- steps of its threads, calls of schedule and calls of stop: where stopping is true, no task is
-- left, and every thread is the caller's or has left run.
pub stopping-IsDone :
    (ids : List ℕ) (s : Scheduler) (quiet : Bool) (p : Pool)
    → s.is_stopping ≡ true
    → s.active_threads ≡ 0
    → s.idle_threads ≡ 0
    → AllWork s.tasks
    → All (λ i. (s.caller_thread == i) ≡ false) ids
    → length ids + 2 < 2 ^ 64
    → Reach (started ids s) p
    → stopping quiet p.sched ≡ true
    → (p.sched.tasks ≡ []) × All (IsDone p.sched.caller_thread) p.threads
unfolding stopping
stopping-IsDone ids s quiet p st active idle work others few r t =
    let v = Reach-IsConsistent r (started-IsConsistent ids s st active idle work others few) in
    let nil : is_nil p.sched.tasks ≡ true = ground (arith, t) in
    let none_active : p.sched.active_threads ≡ 0 = ground (arith, t) in
    (
      is_nil_eq p.sched.tasks nil,
      none_active-IsDone p.sched.caller_thread p.threads (sym v.active_counted ∙ none_active),
    )
