-- ===== src/IoManager.antt =====
-- src/iomanager.h and src/iomanager.cpp: the events that coroutines and callbacks wait for. A context
-- stands in the table at its descriptor, and a pointer to it is that index. The two bits of
-- FdContext::events, READ and WRITE, are the fields `reads` and `writes`. A callback, a coroutine and
-- a scheduler is a number, and a null one is `none`. epoll_ctl is a parameter over the state of the
-- kernel. Each call is one step; `scheduled` is what the schedulers have been given, in order.
pub mod Contexts
pub mod Invariant
pub mod Kernel
pub mod Calls
pub mod Delivery
pub mod Reachable
use tigerkin.Prelude.{
  ℕ, zero, suc, ◌+◌, ◌-◌, ◌*◌, ◌/◌, ◌%◌, ◌^◌, Bool, true, false, not, ◌&&◌, ◌||◌, Option, none,
  some, List, [], ◌∷◌, ◌++◌, ltb, leb, ◌==◌, if◌then◌else◌, length, get_elem?, set, take, tabulate,
}
use tigerkin.Prelude.Bytes.{ℤ, pos, negsuc}
use tigerkin.Scheduler.{Task, up, down}

pub data Event : Type 0 where
  read_event write_event : Event

pub record EventContext : Type 0 where
  pub scheduler : Option ℕ
  pub thread_id : ℕ
  pub co : Option ℕ
  pub cb : Option ℕ

pub record FdContext : Type 0 where
  pub read : EventContext
  pub write : EventContext
  pub fd : ℕ
  pub reads : Bool
  pub writes : Bool

pub record IoManager (K : Type 0) : Type 0 where
  pub contexts : List FdContext
  pub pending : ℕ
  pub kernel : K
  pub scheduled : List (ℕ × Task)

-- How a call ends: it returns, an assertion of it fails, it indexes the table outside of it, or it
-- calls a null scheduler.
pub data Call (K A : Type 0) : Type 0 where
  returns : A → IoManager K → Call K A
  aborts : Call K A
  out_of_bounds : Call K A
  null_scheduler : Call K A

abbrev pub and_then : {K A B : Type 0} → Call K A → (A → IoManager K → Call K B) → Call K B
and_then (returns a m) f = f a m
and_then aborts f = aborts
and_then out_of_bounds f = out_of_bounds
and_then null_scheduler f = null_scheduler

abbrev pub empty_context : EventContext
empty_context = record { scheduler = none; thread_id = 0; co = none; cb = none }

abbrev pub new_context : ℕ → FdContext
new_context fd = record {
  read = empty_context;
  write = empty_context;
  fd = fd;
  reads = false;
  writes = false;
}

-- FdContext::getEventContext, and the assignment through the reference that it gives.
abbrev pub get_event_context : Event → FdContext → EventContext
get_event_context read_event c = c.read
get_event_context write_event c = c.write

abbrev pub put_event_context : Event → EventContext → FdContext → FdContext
put_event_context read_event s c = record c { read = s }
put_event_context write_event s c = record c { write = s }

-- FdContext::resetContext.
abbrev pub reset_context : EventContext → EventContext
reset_context s = record { scheduler = none; thread_id = 0; co = none; cb = none }

-- `events & event`, `events | event` and `events & ~event`.
abbrev pub has : Event → FdContext → Bool
has read_event c = c.reads
has write_event c = c.writes

abbrev pub with_bit : Event → Bool → FdContext → FdContext
with_bit read_event bit c = record c { reads = bit }
with_bit write_event bit c = record c { writes = bit }

abbrev pub any_event : FdContext → Bool
any_event c = c.reads || c.writes

-- The task that FdContext::triggerEvent schedules, by swapping out the callback or the coroutine, and
-- what is left of the event's context.
abbrev pub task_of : EventContext → Task
task_of s = elim s.cb [
  | some f ↦ record { co = none; cb = some f; thread_id = s.thread_id }
  | none ↦ record { co = s.co; cb = none; thread_id = s.thread_id }
]

abbrev pub swapped_out : EventContext → EventContext
swapped_out s = elim s.cb [
  | some f ↦ record s { scheduler = none; cb = none }
  | none ↦ record s { scheduler = none; co = none }
]

pub data Triggered : Type 0 where
  triggers : FdContext → ℕ → Task → Triggered
  asserts : Triggered
  no_scheduler : Triggered

-- FdContext::triggerEvent.
pub trigger_event : Event → FdContext → Triggered
trigger_event e c =
    let s = get_event_context e c in
    let left = put_event_context e (swapped_out s) (with_bit e false c) in
    if has e c
    then elim s.scheduler [ none ↦ no_scheduler | some to ↦ triggers left to (task_of s) ]
    else asserts

-- Scheduler::schedule by force: a task with nothing to run is not put into the list.
pub push : ℕ → Task → List (ℕ × Task) → List (ℕ × Task)
push to task list = elim task.cb [
  | some _ ↦ list ++ ((to, task) ∷ [])
  | none ↦ elim task.co [ some _ ↦ list ++ ((to, task) ∷ []) | none ↦ list ]
]

-- IOManager::fdContextsResize.
pub fd_contexts_resize : ℕ → List FdContext → List FdContext
fd_contexts_resize size xs = take size xs ++ tabulate new_context (length xs) (size - length xs)

-- The operation that epoll_ctl is asked for.
pub data Op : Type 0 where
  ctl_add ctl_mod ctl_del : Op

-- The thread that calls addEvent: its scheduler, its coroutine, whether that is executing, and its id.
pub record Caller : Type 0 where
  pub scheduler : Option ℕ
  pub co : ℕ
  pub executing : Bool
  pub thread_id : ℕ

-- An event of epoll_wait: the tickle pipe's, or that of a context with the bits that it reports.
pub data Report : Type 0 where
  tickled : Report
  reported : (index : ℕ) (err_or_hup epollin epollout : Bool) → Report

-- What addEvent puts into the event's context.
abbrev pub waiting : Caller → Option ℕ → EventContext → EventContext
waiting who (some f) s = record s { scheduler = who.scheduler; cb = some f }
waiting who none s = record s {
  scheduler = who.scheduler;
  co = some who.co;
  thread_id = who.thread_id;
}

-- `!eventCtx.scheduler && !eventCtx.co && !eventCtx.cb`.
abbrev pub is_empty : EventContext → Bool
is_empty s = elim s.scheduler [
  | some _ ↦ false
  | none ↦ elim s.co [ some _ ↦ false | none ↦ elim s.cb [ some _ ↦ false | none ↦ true ] ]
]

-- `cb` or the assertion that the coroutine is executing.
abbrev pub can_wait : Caller → Option ℕ → Bool
can_wait who (some _) = true
can_wait who none = who.executing

-- The table in which addEvent looks: it grows to one and a half times the descriptor.
pub room_for : ℕ → List FdContext → List FdContext
unfolding fd_contexts_resize
room_for fd xs = if ltb fd (length xs) then xs else fd_contexts_resize (3 * fd / 2) xs

module _ {K : Type 0} where
  -- triggerEvent on a context of the table, and the count down.
  pub fire : Event → ℕ → IoManager K → Call K (Unit {0})
  unfolding trigger_event push
  fire e fd m = elim (get_elem? m.contexts fd) [
    | none ↦ out_of_bounds
    | some c ↦ elim (trigger_event e c) [
      | asserts ↦ aborts
      | no_scheduler ↦ null_scheduler
      | triggers c' to task ↦ returns tt (record m {
        contexts = set m.contexts fd c';
        scheduled = push to task m.scheduled;
        pending = down m.pending;
      })
    ]
  ]

  pub fire_if : Bool → Event → ℕ → IoManager K → Call K (Unit {0})
  unfolding fire
  fire_if true e fd m = fire e fd m
  fire_if false e fd m = returns tt m

  -- The two calls of triggerEvent in a row that cancelAllEvent and idle make.
  pub fire_both : Bool → Bool → ℕ → IoManager K → Call K (Unit {0})
  unfolding fire_if
  fire_both r w fd m = and_then (fire_if r read_event fd m) λ _ m'. fire_if w write_event fd m'

  -- The assertion at the end of cancelAllEvent.
  pub all_fired : ℕ → IoManager K → Call K Bool
  all_fired fd m = elim (get_elem? m.contexts fd) [
    | none ↦ out_of_bounds
    | some c ↦ if any_event c then aborts else returns true m
  ]

module _ {K : Type 0} (epoll_ctl : Op → ℕ → Bool → Bool → K → K × Bool) where
  -- addEvent from the lock of the context on; true is ADD_EVENT_SUC.
  pub add_to : Caller → ℕ → Event → Option ℕ → FdContext → IoManager K → Call K Bool
  add_to who fd e cb c m =
      let op = if any_event c then ctl_mod else ctl_add in
      let wanted = with_bit e true c in
      let r = epoll_ctl op fd wanted.reads wanted.writes m.kernel in
      let s = get_event_context e c in
      if has e c
      then returns false m
      else if r.1
      then returns false (record m { kernel = r.0 })
      else if is_empty s && can_wait who cb
      then returns true (record m {
        kernel = r.0;
        pending = up m.pending;
        contexts = set m.contexts fd (put_event_context e (waiting who cb s) wanted);
      })
      else aborts

  -- IOManager::addEvent.
  pub add_event : Caller → ℤ → Event → Option ℕ → IoManager K → Call K Bool
  unfolding add_to room_for
  add_event who (negsuc _) e cb m = out_of_bounds
  add_event who (pos fd) e cb m =
      let m' = record m { contexts = room_for fd m.contexts } in
      elim (get_elem? m'.contexts fd) [ none ↦ out_of_bounds | some c ↦ add_to who fd e cb c m' ]

  -- The epoll_ctl of delEvent, cancelEvent and cancelAllEvent: the operation depends on what is left.
  abbrev pub ctl_left : ℕ → FdContext → K → K × Bool
  ctl_left fd left k =
      epoll_ctl (if any_event left then ctl_mod else ctl_del) fd left.reads left.writes k

  -- IOManager::delEvent.
  pub del_event : ℤ → Event → IoManager K → Call K Bool
  del_event (negsuc _) e m = out_of_bounds
  del_event (pos fd) e m = elim (get_elem? m.contexts fd) [
    | none ↦ returns false m
    | some c ↦
        let left = with_bit e false c in
        let r = ctl_left fd left m.kernel in
        if has e c
        then if r.1
          then returns false (record m { kernel = r.0 })
          else returns true (record m {
            kernel = r.0;
            pending = down m.pending;
            contexts =
                set m.contexts fd
                  (put_event_context e (reset_context (get_event_context e c)) left);
          })
        else returns false m
  ]

  -- IOManager::cancelEvent.
  pub cancel_event : ℤ → Event → IoManager K → Call K Bool
  unfolding fire
  cancel_event (negsuc _) e m = out_of_bounds
  cancel_event (pos fd) e m = elim (get_elem? m.contexts fd) [
    | none ↦ returns false m
    | some c ↦
        let r = ctl_left fd (with_bit e false c) m.kernel in
        if has e c
        then if r.1
          then returns false (record m { kernel = r.0 })
          else and_then (fire e fd (record m { kernel = r.0 })) (λ _ m'. returns true m')
        else returns false m
  ]

  -- IOManager::cancelAllEvent. Its first triggerEvent leaves the other bit as it is.
  pub cancel_all_event : ℤ → IoManager K → Call K Bool
  unfolding fire_both all_fired
  cancel_all_event (negsuc _) m = out_of_bounds
  cancel_all_event (pos fd) m = elim (get_elem? m.contexts fd) [
    | none ↦ returns false m
    | some c ↦
        let r = epoll_ctl ctl_del fd false false m.kernel in
        if any_event c
        then if r.1
          then returns false (record m { kernel = r.0 })
          else and_then (fire_both c.reads c.writes fd (record m { kernel = r.0 }))
              (λ _ m'. all_fired fd m')
        else returns false m
  ]

  -- The body of the loop of idle over the events of epoll_wait.
  pub handle_report : Report → IoManager K → Call K (Unit {0})
  unfolding fire_both
  handle_report tickled m = returns tt m
  handle_report (reported i err epollin epollout) m = elim (get_elem? m.contexts i) [
    | none ↦ out_of_bounds
    | some c ↦
        let r = err || epollin in
        let w = err || epollout in
        let left = record c { reads = c.reads && not r; writes = c.writes && not w } in
        let k = ctl_left c.fd left m.kernel in
        if (c.reads && r) || (c.writes && w)
        then if k.1
          then returns tt (record m { kernel = k.0 })
          else fire_both r w i (record m { kernel = k.0 })
        else returns tt m
  ]

  pub handle_reports : List Report → IoManager K → Call K (Unit {0})
  unfolding handle_report
  handle_reports [] m = returns tt m
  handle_reports (x ∷ xs) m = and_then (handle_report x m) λ _ m'. handle_reports xs m'

-- IOManager::IOManager, with the state of the kernel after the tickle pipe is added.
pub new_manager : {K : Type 0} → K → IoManager K
unfolding fd_contexts_resize
new_manager k = record {
  contexts = fd_contexts_resize 64 [];
  pending = 0;
  kernel = k;
  scheduled = [];
}
