-- ===== src/Timer/Expiry.antt =====
-- src/timer.cpp: listExpiredCbs and getNextTime.
use tigerkin.Prelude.{
  ℕ, ◌+◌, ◌-◌, ◌^◌, ◌≤◌, ◌<◌, ◌≡◌, ◌↔◌, ◌⊎◌, inl, inr, refl, sym, subst, true, Option, List, [],
  ◌∷◌, ◌++◌, map, arith, leb, if_cases, All, leb→le,
}
use tigerkin.Timer.{
  Timer, TimerManager, has_cb, split_due, rearm, list_expired_cbs, next_time, get_next_time,
}
use tigerkin.Timer.Order.{IsSorted, In}
use tigerkin.Timer.Invariant.{Inv}
use tigerkin.Timer.Due.{head-next-le, split_due-Split, All-parts, IsSorted-parts}
use tigerkin.Timer.Rearm.{
  fired, rearm-cbs, rearm-Inv, rearm-heap_other, rearm-heap_due, rearm-In, In-rearm,
}

-- What listExpiredCbs does at time `now`: the set was the due timers and then the later ones; the
-- callbacks are those of the due ones, in their order; each of those is fired, no other timer is
-- changed, and only those that recur, and the later ones, are in the set.
pub record Expires (now : ℕ) (m n : TimerManager) (cbs : List (Option ℕ)) : Type 0 where
  pub due : List ℕ
  pub later : List ℕ
  pub whole : due ++ later ≡ m.timers
  pub due_by : All (λ x. (m.heap x).next ≤ now) due
  pub due_after : All (λ x. now < (m.heap x).next) later
  pub cbs_eq : cbs ≡ map (λ x. (m.heap x).cb) due
  pub fires : (y : ℕ) → In y due → n.heap y ≡ fired now (m.heap y)
  pub keeps : (y : ℕ) → ¬ In y due → n.heap y ≡ m.heap y
  pub stays : (y : ℕ) → In y n.timers ↔ (In y later ⊎ (In y due × ((m.heap y).recurring ≡ true)))
  pub valid : Inv n

expire :
    (now probe : ℕ) (h : ℕ → Timer) (xs : List ℕ) (wakes : ℕ)
    → Inv (record { heap = h; timers = xs; wakes = wakes })
    → let s = split_due h now probe xs in
      let r = rearm now s.0 h s.1 in
      Expires now
        (record { heap = h; timers = xs; wakes = wakes })
        (record { heap = r.0; timers = r.1; wakes = wakes })
        r.2
expire now probe h xs wakes v =
    let s = split_due h now probe xs in
    let (whole, by, after) = split_due-Split h now probe xs v.sorted in
    let (d, sorted, apart) = IsSorted-parts h s.0 s.1 (subst (IsSorted h) (sym whole) v.sorted) in
    let (armed_due, armed_later) =
      All-parts (λ x. has_cb (h x) ≡ true) s.0 s.1
        (subst (All (λ x. has_cb (h x) ≡ true)) (sym whole) v.armed) in
    record {
      due = s.0;
      later = s.1;
      whole = whole;
      due_by = by;
      due_after = after;
      cbs_eq = rearm-cbs now s.0 h s.1 d;
      fires = λ y i. rearm-heap_due now s.0 h s.1 y d i;
      keeps = λ y out. rearm-heap_other now s.0 h s.1 y out;
      stays = λ y. (rearm-In now s.0 h s.1 y d, In-rearm now s.0 h s.1 y d);
      valid =
          rearm-Inv now s.0 h s.1 wakes d apart armed_due
            (record { sorted = sorted; armed = armed_later });
    }

Expires-list_expired_cbs :
    (now probe : ℕ) (h : ℕ → Timer) (xs : List ℕ) (wakes : ℕ)
    → Inv (record { heap = h; timers = xs; wakes = wakes })
    → let r = list_expired_cbs now probe (record { heap = h; timers = xs; wakes = wakes }) in
      Expires now (record { heap = h; timers = xs; wakes = wakes }) r.0 r.1
unfolding list_expired_cbs
Expires-list_expired_cbs now probe h [] wakes v = record {
  due = [];
  later = [];
  whole = refl;
  due_by = tt;
  due_after = tt;
  cbs_eq = refl;
  fires = λ y i. absurd i;
  keeps = λ y out. refl;
  stays = λ y. ((λ i. inl i), (λ i. elim i [ inl j ↦ j | inr (j, _) ↦ absurd j ]));
  valid = v;
}
Expires-list_expired_cbs now probe h (x ∷ xs) wakes v = expire now probe h (x ∷ xs) wakes v

-- In a state with the invariant, listExpiredCbs parts the set into the timers due at `now` and
-- the later ones and gives the callbacks of the due ones in the order of the set. Due timers
-- that recur get their next time, and the others lose their callback; no other timer changes;
-- the new set holds the later timers and the due ones that recur, and no others; and the
-- invariant holds again.
pub list_expired_cbs-Expires :
    (now probe : ℕ) (m : TimerManager)
    → Inv m
    → Expires now m (list_expired_cbs now probe m).0 (list_expired_cbs now probe m).1
list_expired_cbs-Expires now probe m v =
    Expires-list_expired_cbs now probe m.heap m.timers m.wakes v

-- The time to wait, by the timers in the set.
abbrev pub Waits : (ℕ → Timer) → ℕ → List ℕ → ℕ → Type 0
Waits h now xs r =
    ((xs ≡ []) × (r ≡ 2 ^ 64 - 1))
    ⊎ ((y : ℕ) × In y xs × ((h y).next ≤ now) × (r ≡ 0))
    ⊎ ((y : ℕ) × In y xs × (now + r ≡ (h y).next) × (0 < r) × All (λ x. now + r ≤ (h x).next) xs)

next_time-Waits :
    (h : ℕ → Timer) (now : ℕ) (xs : List ℕ) → IsSorted h xs → Waits h now xs (next_time h now xs)
unfolding next_time
next_time-Waits h now [] s = inl (refl, refl)
next_time-Waits h now (z ∷ zs) s =
    if_cases (Waits h now (z ∷ zs)) (leb (h z).next now) 0 ((h z).next - now)
      (λ e. inr (inl (z, inl refl, leb→le _ _ e, refl)))
      (λ e.
        let r : now + ((h z).next - now) ≡ (h z).next = ground (arith, e) in
        inr (
          inr (
            z,
            inl refl,
            r,
            ground (arith, e),
            subst (λ k. All (λ x. k ≤ (h x).next) (z ∷ zs)) (sym r) (head-next-le h z zs s),
          )))

-- In a state with the invariant, getNextTime gives 2^64 - 1 if there is no timer, 0 if some
-- timer is due, and otherwise the positive time to the earliest one.
pub get_next_time-Waits :
    (now : ℕ) (m : TimerManager) → Inv m → Waits m.heap now m.timers (get_next_time now m)
unfolding get_next_time
get_next_time-Waits now m v = next_time-Waits m.heap now m.timers v.sorted
