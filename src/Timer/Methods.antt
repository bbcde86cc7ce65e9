-- ===== src/Timer/Methods.antt =====
-- src/timer.cpp: what the methods of a timer report, and every state that a manager can reach.
use tigerkin.Prelude.{
  ℕ, ◌+◌, ◌≡◌, ◌↔◌, inl, inr, refl, sym, ap, subst, Bool, true, false, none, some, List, [], ◌∷◌,
  arith, ==_iff, ==_refl, if_cases, All,
}
use tigerkin.Timer.{
  Timer, TimerManager, update, less, find, insert, is_first, place, add_timer, add_cond_timer,
  new_timer, has_cb, cancel, cancel_in, refresh, reset, cancel_all_timers, list_expired_cbs,
}
use tigerkin.Timer.Order.{
  IsSorted, In, All-In, find-In, In-find, erase-not_In, later_than_head, less_total,
}
use tigerkin.Timer.Invariant.{
  Inv, update_self, add_timer-Inv, cancel-Inv, refresh-Inv, reset-Inv, cancel_all_timers-Inv,
  disarm-IsSorted,
}
use tigerkin.Timer.Expiry.{list_expired_cbs-Expires}

-- A call by the program, at some time. An added timer has a callback and an address of its own.
pub data Step (m : TimerManager) : TimerManager → Type 0 where
  adds :
      (now a ms cb : ℕ) (recurring : Bool)
      → ¬ In a m.timers
      → Step m (add_timer now a ms (some cb) recurring m)
  adds_cond :
      (now a ms cb : ℕ) (recurring : Bool)
      → ¬ In a m.timers
      → Step m (add_cond_timer now a ms (some cb) recurring m)
  cancels : (a : ℕ) → Step m (cancel a m).0
  refreshes : (now a : ℕ) → Step m (refresh now a m).0
  resets : (now ms a : ℕ) → Step m (reset now ms a m).0
  cancels_all : Step m (cancel_all_timers m)
  expires : (now probe : ℕ) → Step m (list_expired_cbs now probe m).0

pub data Reach (m : TimerManager) : TimerManager → Type 0 where
  here : Reach m m
  next : {n o : TimerManager} → Reach m n → Step n o → Reach m o

Step-Inv : {m n : TimerManager} → Step m n → Inv m → Inv n
unfolding add_cond_timer
Step-Inv {m} (adds now a ms cb recurring out) v = add_timer-Inv now a ms cb recurring m out v
Step-Inv {m} (adds_cond now a ms cb recurring out) v = add_timer-Inv now a ms cb false m out v
Step-Inv {m} (cancels a) v = cancel-Inv a m v
Step-Inv {m} (refreshes now a) v = refresh-Inv now a m v
Step-Inv {m} (resets now ms a) v = reset-Inv now ms a m v
Step-Inv {m} cancels_all v = cancel_all_timers-Inv m
Step-Inv {m} (expires now probe) v = (list_expired_cbs-Expires now probe m v).valid

-- In every state that calls can reach from a manager with no timers, the set is in the order of
-- the due times with no timer twice, and each timer in it still has its callback. The calls add
-- a timer that is not in the set yet, with a callback.
pub Reach-Inv : {m n : TimerManager} → m.timers ≡ [] → Reach m n → Inv n
Reach-Inv {m} e here = record {
  sorted = subst (IsSorted m.heap) (sym e) tt;
  armed = subst (All (λ x. has_cb (m.heap x) ≡ true)) (sym e) tt;
}
Reach-Inv e (next r s) = Step-Inv s (Reach-Inv e r)

-- What a cancelled timer, and the report of it, look like.
abbrev Cancelled : ℕ → List ℕ → TimerManager × Bool → Type 0
Cancelled a xs (m, done) =
    ((done ≡ true) ↔ In a xs) × (¬ In a m.timers) × (has_cb (m.heap a) ≡ false)

cancel_in-Cancelled :
    (h : ℕ → Timer) (xs : List ℕ) (a wakes : ℕ)
    → has_cb (h a) ≡ false
    → IsSorted h xs
    → Cancelled a xs (cancel_in (record { heap = h; timers = xs; wakes = wakes }) a)
unfolding cancel_in
cancel_in-Cancelled h xs a wakes off s =
    if_cases (Cancelled a xs) (find h a xs) _ _
      (λ e. (((λ _. find-In h a xs e), (λ _. refl)), erase-not_In h a xs s, off))
      (λ e.
        let out : ¬ In a xs = λ i. cc (e, In-find h a xs s i) in
        (((λ p. absurd (cc p)), (λ i. absurd (out i))), out, off))

-- In a state with the invariant, cancel reports true exactly for a timer that is in the set;
-- afterwards the timer is not in the set, and has no callback.
pub cancel_lem :
    (a : ℕ) (m : TimerManager)
    → Inv m
    → (((cancel a m).1 ≡ true) ↔ In a m.timers)
      × (¬ In a (cancel a m).0.timers)
      × (has_cb ((cancel a m).0.heap a) ≡ false)
unfolding cancel
cancel_lem a m v =
    let t : Timer = record (m.heap a) { cb = none } in
    if_cases (Cancelled a m.timers) (has_cb (m.heap a)) _ _
      (λ e.
        cancel_in-Cancelled (update m.heap a t) m.timers a m.wakes
          (ap has_cb (update_self m.heap a t)) (disarm-IsSorted a m.heap m.timers v.sorted))
      (λ e.
        let out : ¬ In a m.timers =
          λ i. cc (e, All-In (λ x. has_cb (m.heap x) ≡ true) m.timers a v.armed i) in
        (((λ p. absurd (cc p)), (λ i. absurd (out i))), out, e))

is_first-insert :
    (h : ℕ → Timer) (a : ℕ) (xs : List ℕ)
    → IsSorted h xs
    → ¬ In a xs
    → (is_first a (insert h a xs) ≡ true) ↔ All (λ x. less h a x ≡ true) xs
unfolding is_first insert
is_first-insert h a [] s out = ((λ _. tt), (λ _. ==_refl a))
is_first-insert h a (x ∷ xs) s out = elim (less_total h x a) [
  | inl (e, f) ↦ rw e ((λ p. absurd (out (inl ((==_iff a x).0 p)))), (λ q. absurd (cc (q.0, f))))
  | inr (inl (f, e)) ↦ rw (f, e) ((λ _. (refl, later_than_head h a x xs e s.0)), (λ _. ==_refl a))
  | inr (inr (same, _, _)) ↦ absurd (out (inl (sym same)))
]

-- In a state with the invariant, a timer that is not in the set and is put into it wakes the
-- waiting thread exactly if it comes before all others.
place_wakes :
    (a : ℕ) (m : TimerManager)
    → Inv m
    → ¬ In a m.timers
    → ((place a m).wakes ≡ m.wakes + 1) ↔ All (λ x. less m.heap a x ≡ true) m.timers
unfolding place
place_wakes a m v out =
    let first = is_first-insert m.heap a m.timers v.sorted out in
    if_cases (λ w. (w ≡ m.wakes + 1) ↔ All (λ x. less m.heap a x ≡ true) m.timers)
      (is_first a (insert m.heap a m.timers)) (m.wakes + 1) m.wakes
      (λ e. ((λ _. first.0 e), (λ _. refl)))
      (λ e. ((λ p. absurd (omega (arith, p))), (λ q. absurd (cc (first.1 q, e)))))

-- The timer that addCondTimer makes does not recur, whatever its flag says.
add_cond_timer_once :
    (now a ms cb : ℕ) (recurring : Bool) (m : TimerManager)
    → ((add_cond_timer now a ms (some cb) recurring m).heap a).recurring ≡ false
unfolding add_cond_timer add_timer place new_timer
add_cond_timer_once now a ms cb recurring m =
    ap (λ (t : Timer). t.recurring) (update_self m.heap a (new_timer now ms (some cb) false))
