-- ===== src/Scheduler/Queue.antt =====
-- src/scheduler.cpp: which task a thread takes, and what the list holds afterwards.
use tigerkin.Prelude.{
  ℕ, ◌≡◌, inl, inr, refl, sym, ap, subst, Bool, true, false, not, ◌&&◌, Option, none, some, List,
  [], ◌∷◌, ◌++◌, All, All-append, Bool-cases, if_cases,
}
use tigerkin.Scheduler.{
  Task, Scheduler, has_work, schedule, schedule_without_lock, Found, finds, finds_none, asserts,
  is_for_other, passed, find_task, Taken, takes, take_asserts, take_task,
}

-- Every task of a list has a coroutine or a callback.
abbrev pub AllWork : List Task → Type 0
AllWork ts = All (λ t. has_work t ≡ true) ts

-- All tasks of a list are for other threads.
abbrev pub AllOther : ℕ → List Task → Type 0
AllOther me ts = All (λ t. is_for_other me t ≡ true) ts

-- `t` is the first task of the list that the thread `me` may run, and `rest` the list without it.
abbrev pub FirstOf : ℕ → List Task → Task → List Task → Type 0
FirstOf me ts t rest =
    (front : List Task) × (back : List Task) × (ts ≡ front ++ (t ∷ back))
    × (rest ≡ front ++ back)
    × AllOther me front
    × (is_for_other me t ≡ false)

abbrev Finds : ℕ → List Task → Found → Type 0
Finds me ts (finds t rest tickle) = FirstOf me ts t rest
Finds me ts (finds_none tickle) = AllOther me ts
Finds me ts asserts = ⊥

passed-Finds :
    (me : ℕ) (t : Task) (ts : List Task) (f : Found)
    → is_for_other me t ≡ true
    → Finds me ts f
    → Finds me (t ∷ ts) (passed t f)
passed-Finds me t ts (finds u rest tickle) o (front, back, whole, left, others, mine) =
    (t ∷ front, back, ap (◌∷◌ t) whole, ap (◌∷◌ t) left, (o, others), mine)
passed-Finds me t ts (finds_none tickle) o others = (o, others)
passed-Finds me t ts asserts o f = f

find_task-Finds : (me : ℕ) (ts : List Task) → AllWork ts → Finds me ts (find_task me ts)
unfolding find_task
find_task-Finds me [] w = tt
find_task-Finds me (t ∷ ts) w = elim (Bool-cases (is_for_other me t)) [
  | inl o ↦ rw o (passed-Finds me t ts (find_task me ts) o (find_task-Finds me ts w.1))
  | inr mine ↦ rw (mine, w.0) ([], ts, refl, refl, tt, mine)
]

-- What take_task does: it takes the first task that the thread may run, or none if there is none.
abbrev pub Takes : ℕ → Scheduler → Taken → Type 0
Takes me s (takes (some t) tickle s') =
    (left : List Task) × FirstOf me s.tasks t left × (s' ≡ record s { tasks = left })
Takes me s (takes none tickle s') = AllOther me s.tasks × (s' ≡ s)
Takes me s take_asserts = ⊥

-- In a list of tasks that all have work, a round of run takes out the first task that is for
-- this thread or for any, and leaves the others in their order; it takes none just where all
-- tasks are for other threads.
pub take_task-Takes : (me : ℕ) (s : Scheduler) → AllWork s.tasks → Takes me s (take_task me s)
unfolding take_task
take_task-Takes me s w = go (find_task me s.tasks) refl (find_task-Finds me s.tasks w)
  where
    go : (f : Found) → find_task me s.tasks ≡ f → Finds me s.tasks f → Takes me s (take_task me s)
    go (finds t left tickle) e h = rw (e, take_task) (left, h, refl)
    go (finds_none tickle) e h = rw (e, take_task) (h, refl)
    go asserts e h = absurd h

All-parts :
    (P : Task → Type 0) (front : List Task) (t : Task) (back : List Task)
    → All P (front ++ (t ∷ back))
    → All P (front ++ back)
All-parts P [] t back h = h.1
All-parts P (u ∷ front) t back h = (h.0, All-parts P front t back h.1)

-- Only the list of tasks may differ.
pub record SameThreads (s s' : Scheduler) : Type 0 where
  pub idle_eq : s'.idle_threads ≡ s.idle_threads
  pub active_eq : s'.active_threads ≡ s.active_threads
  pub caller_eq : s'.caller_thread ≡ s.caller_thread

same-threads : (s s' : Scheduler) (ts : List Task) → s' ≡ record s { tasks = ts } → SameThreads s s'
same-threads s s' ts e = record {
  idle_eq = ap (λ (x : Scheduler). x.idle_threads) e;
  active_eq = ap (λ (x : Scheduler). x.active_threads) e;
  caller_eq = ap (λ (x : Scheduler). x.caller_thread) e;
}

-- Taking a task leaves tasks with work.
pub taken-AllWork :
    (me : ℕ) (s s' : Scheduler) (o : Option Task) (tickle : Bool)
    → AllWork s.tasks
    → take_task me s ≡ takes o tickle s'
    → AllWork s'.tasks × SameThreads s s'
taken-AllWork me s s' o tickle w e = go o (subst (Takes me s) e (take_task-Takes me s w))
  where
    go : (o : Option Task) → Takes me s (takes o tickle s') → AllWork s'.tasks × SameThreads s s'
    go none (_, same) =
        (subst (λ (x : Scheduler). AllWork x.tasks) (sym same) w, same-threads s s' s.tasks same)
    go (some t) (left, (front, back, whole, rest, _, _), same) = (
      subst (λ (x : Scheduler). AllWork x.tasks) (sym same)
          (subst AllWork (sym rest)
            (All-parts (λ t. has_work t ≡ true) front t back (subst AllWork whole w))),
      same-threads s s' left same,
    )

-- Scheduling keeps tasks with work.
pub schedule-AllWork :
    (t : Task) (force : Bool) (s : Scheduler)
    → AllWork s.tasks
    → AllWork (schedule t force s).0.tasks × SameThreads s (schedule t force s).0
unfolding schedule schedule_without_lock
schedule-AllWork t force s w =
    if_cases (λ (r : Scheduler × Bool). AllWork r.0.tasks × SameThreads s r.0)
      (s.auto_stop && not force) _ _
      (λ _. (w, record { idle_eq = refl; active_eq = refl; caller_eq = refl }))
      (λ _. (
        if_cases AllWork (has_work t) (s.tasks ++ (t ∷ [])) s.tasks
            (λ e. All-append (λ u. has_work u ≡ true) s.tasks (t ∷ []) w (e, tt)) (λ _. w),
        record { idle_eq = refl; active_eq = refl; caller_eq = refl },
      ))
