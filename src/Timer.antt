-- ===== src/Timer.antt =====
-- src/timer.h and src/timer.cpp: timers and the ordered set of a manager. A timer is an object that
-- its owner and the set share, so the manager's state has a heap from addresses to timers, and the
-- set is the list of addresses in the set's order. A callback is a number, and none is the empty
-- std::function. The clock is an argument of each call. Each method runs under the manager's lock,
-- as one step; `wakes` counts the calls of onTimerRefresh, which a subclass gives.
pub mod Order
pub mod Invariant
pub mod Due
pub mod Rearm
pub mod Expiry
pub mod Methods
use tigerkin.Prelude.{
  ℕ, zero, suc, ◌+◌, ◌-◌, ◌%◌, ◌^◌, Bool, true, false, ◌&&◌, Option, none, some, List, [], ◌∷◌,
  ◌++◌, ltb, leb, ◌==◌, if◌then◌else◌,
}

pub record Timer : Type 0 where
  pub ms : ℕ
  pub next : ℕ
  pub cb : Option ℕ
  pub recurring : Bool

pub record TimerManager : Type 0 where
  pub heap : ℕ → Timer
  pub timers : List ℕ
  pub wakes : ℕ

abbrev pub update : (ℕ → Timer) → ℕ → Timer → ℕ → Timer
update h a t x = if a == x then t else h x

-- Timer::Comparator on two timers that are there: the due time first, then the address.
unfoldable pub before : ℕ → ℕ → ℕ → ℕ → Bool
before next_l l next_r r =
    if ltb next_l next_r then true else if ltb next_r next_l then false else ltb l r

-- Timer::Comparator on pointers, null ones included.
pub compare_timers : (ℕ → Timer) → Option ℕ → Option ℕ → Bool
unfolding before
compare_timers h none none = false
compare_timers h (some l) none = true
compare_timers h none (some r) = false
compare_timers h (some l) (some r) = before (h l).next l (h r).next r

-- std::set by this order: a key that is equivalent to an element is that element.
unfoldable pub less : (ℕ → Timer) → ℕ → ℕ → Bool
unfolding compare_timers
less h l r = compare_timers h (some l) (some r)

pub find : (ℕ → Timer) → ℕ → List ℕ → Bool
unfolding less
find h a [] = false
find h a (x ∷ xs) = if less h x a then find h a xs else if less h a x then false else true

pub erase : (ℕ → Timer) → ℕ → List ℕ → List ℕ
unfolding less
erase h a [] = []
erase h a (x ∷ xs) =
    let rest = x ∷ erase h a xs in if less h x a then rest else if less h a x then x ∷ xs else xs

pub insert : (ℕ → Timer) → ℕ → List ℕ → List ℕ
unfolding less
insert h a [] = a ∷ []
insert h a (x ∷ xs) =
    let rest = x ∷ insert h a xs in
    if less h x a then rest else if less h a x then a ∷ x ∷ xs else x ∷ xs

-- `it == m_timers.begin()` for the place of an element.
pub is_first : ℕ → List ℕ → Bool
is_first a [] = false
is_first a (x ∷ xs) = a == x

-- uint64_t addition.
abbrev pub add64 : ℕ → ℕ → ℕ
add64 a b = (a + b) % 2 ^ 64

-- Insertion, with the call of onTimerRefresh where the timer comes first.
pub place : ℕ → TimerManager → TimerManager
unfolding insert is_first
place a m =
    let timers = insert m.heap a m.timers in
    record m { timers = timers; wakes = if is_first a timers then m.wakes + 1 else m.wakes }

-- Timer::Timer(ms, cb, mgr, recurring).
pub new_timer : ℕ → ℕ → Option ℕ → Bool → Timer
new_timer now ms cb recurring = record {
  ms = ms;
  next = add64 now ms;
  cb = cb;
  recurring = recurring;
}

-- TimerManager::addTimer, with the address that `new` gave.
pub add_timer : ℕ → ℕ → ℕ → Option ℕ → Bool → TimerManager → TimerManager
unfolding new_timer place
add_timer now a ms cb recurring m =
    place a (record m { heap = update m.heap a (new_timer now ms cb recurring) })

-- TimerManager::addCondTimer. `bound` is the callback made of `cb` and the condition; the call of
-- addTimer leaves `recurring` to its default.
pub add_cond_timer : ℕ → ℕ → ℕ → Option ℕ → Bool → TimerManager → TimerManager
unfolding add_timer
add_cond_timer now a ms bound recurring m = add_timer now a ms bound false m

abbrev pub has_cb : Timer → Bool
has_cb t = elim t.cb [ none ↦ false | some _ ↦ true ]

-- Timer::cancel, and its part after the callback is dropped.
cancel_in : TimerManager → ℕ → TimerManager × Bool
unfolding find erase
cancel_in m a =
    if find m.heap a m.timers
    then (record m { timers = erase m.heap a m.timers }, true)
    else (m, false)

pub cancel : ℕ → TimerManager → TimerManager × Bool
unfolding cancel_in
cancel a m =
    if has_cb (m.heap a)
    then cancel_in (record m { heap = update m.heap a (record (m.heap a) { cb = none }) }) a
    else (m, false)

-- Timer::refresh.
pub refresh : ℕ → ℕ → TimerManager → TimerManager × Bool
unfolding find erase place
refresh now a m =
    if has_cb (m.heap a)
    then if find m.heap a m.timers
      then (
        place a (record m {
          heap = update m.heap a (record (m.heap a) { next = add64 now (m.heap a).ms });
          timers = erase m.heap a m.timers;
        }),
        true,
      )
      else (record m { heap = update m.heap a (record (m.heap a) { cb = none }) }, false)
    else (m, false)

-- Timer::reset.
pub reset : ℕ → ℕ → ℕ → TimerManager → TimerManager × Bool
unfolding find erase place
reset now ms a m =
    if ms == (m.heap a).ms
    then (m, true)
    else if has_cb (m.heap a)
    then if find m.heap a m.timers
      then (
        place a (record m {
          heap = update m.heap a (record (m.heap a) { ms = ms; next = add64 ms now });
          timers = erase m.heap a m.timers;
        }),
        true,
      )
      else (m, false)
    else (m, false)

-- TimerManager::cancelAllTimers.
cancel_each : (ℕ → Timer) → List ℕ → ℕ → Timer
cancel_each h [] = h
cancel_each h (x ∷ xs) = cancel_each (update h x (record (h x) { cb = none })) xs

pub cancel_all_timers : TimerManager → TimerManager
unfolding cancel_each
cancel_all_timers m = record m { heap = cancel_each m.heap m.timers; timers = [] }

-- `m_timers.lower_bound(nowTimer)`: the elements before it, and the others. `probe` is the address
-- of the temporary timer.
lower_bound : (ℕ → Timer) → ℕ → ℕ → List ℕ → List ℕ × List ℕ
unfolding before
lower_bound h now probe [] = ([], [])
lower_bound h now probe (x ∷ xs) =
    let (front, rest) = lower_bound h now probe xs in
    if before (h x).next x now probe then (x ∷ front, rest) else ([], x ∷ xs)

-- `while (it != end && (*it)->m_next == nowMs) ++it`: the elements passed, and the others.
due_now : (ℕ → Timer) → ℕ → List ℕ → List ℕ × List ℕ
due_now h now [] = ([], [])
due_now h now (x ∷ xs) =
    let (front, rest) = due_now h now xs in
    if (h x).next == now then (x ∷ front, rest) else ([], x ∷ xs)

pub split_due : (ℕ → Timer) → ℕ → ℕ → List ℕ → List ℕ × List ℕ
unfolding lower_bound due_now
split_due h now probe xs =
    let (front, rest) = lower_bound h now probe xs in
    let (equal, later) = due_now h now rest in (front ++ equal, later)

-- The loop over the expired timers, which are out of the set by then: the heap, the set and the
-- callbacks that it leaves.
pub rearm : ℕ → List ℕ → (ℕ → Timer) → List ℕ → (ℕ → Timer) × List ℕ × List (Option ℕ)
unfolding insert
rearm now [] h timers = (h, timers, [])
rearm now (x ∷ xs) h timers =
    let h' = update h x (record (h x) { next = add64 now (h x).ms }) in
    let again = rearm now xs h' (insert h' x timers) in
    let once = rearm now xs (update h x (record (h x) { cb = none })) timers in
    let (heap, set, cbs) = if (h x).recurring then again else once in (heap, set, (h x).cb ∷ cbs)

-- TimerManager::listExpiredCbs. On an empty set it returns at once.
pub list_expired_cbs : ℕ → ℕ → TimerManager → TimerManager × List (Option ℕ)
unfolding split_due rearm
list_expired_cbs now probe m = elim m.timers [
  | [] ↦ (m, [])
  | _ ∷ _ ↦
      let (due, later) = split_due m.heap now probe m.timers in
      let (heap, timers, cbs) = rearm now due m.heap later in
      (record m { heap = heap; timers = timers }, cbs)
]

-- TimerManager::getNextTime.
next_time : (ℕ → Timer) → ℕ → List ℕ → ℕ
next_time h now [] = 2 ^ 64 - 1
next_time h now (x ∷ xs) = if leb (h x).next now then 0 else (h x).next - now

pub get_next_time : ℕ → TimerManager → ℕ
unfolding next_time
get_next_time now m = next_time m.heap now m.timers
