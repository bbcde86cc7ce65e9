-- ===== src/Timer/Invariant.antt =====
-- src/timer.cpp: what holds of a manager between calls, and that each method keeps it.
use tigerkin.Prelude.{
  ℕ, ◌≡◌, ◌≢◌, inl, inr, refl, ap, subst, ◌∙◌, Bool, true, false, none, some, List, [], ◌∷◌, arith,
  ◌==◌, ==_iff, ==_refl, Bool-cases, All,
}
use tigerkin.Timer.{
  Timer, TimerManager, update, less, find, erase, insert, place, add_timer, add64, new_timer,
  has_cb, cancel, cancel_in, refresh, reset, cancel_all_timers, compare_timers,
}
use tigerkin.Timer.Order.{
  IsSorted, In, All-In, All-of_In, All-insert, All-erase, insert-IsSorted, erase-IsSorted, In-erase,
  erase-not_In, In-find,
}

-- The set is in order and has no address twice, and each timer in it still has its callback.
pub record Inv (m : TimerManager) : Type 0 where
  pub sorted : IsSorted m.heap m.timers
  pub armed : All (λ x. has_cb (m.heap x) ≡ true) m.timers

pub update_self : (h : ℕ → Timer) (a : ℕ) (t : Timer) → update h a t a ≡ t
update_self h a t = rw (==_refl a)

pub update_other : (h : ℕ → Timer) (a : ℕ) (t : Timer) (x : ℕ) → x ≢ a → update h a t x ≡ h x
update_other h a t x ne = ground arith

-- Where the due times agree, so does the order.
less_cong :
    (h h' : ℕ → Timer) (x y : ℕ)
    → (h' x).next ≡ (h x).next
    → (h' y).next ≡ (h y).next
    → less h x y ≡ true
    → less h' x y ≡ true
unfolding less compare_timers
less_cong h h' x y p q e = rw (p, q) e

IsSorted-cong :
    (h h' : ℕ → Timer) (xs : List ℕ)
    → ((x : ℕ) → In x xs → (h' x).next ≡ (h x).next)
    → IsSorted h xs
    → IsSorted h' xs
IsSorted-cong h h' [] same s = tt
IsSorted-cong h h' (x ∷ xs) same s = (
  All-of_In (λ y. less h' x y ≡ true) xs
      (λ y i.
        less_cong h h' x y (same x (inl refl)) (same y (inr i))
          (All-In (λ y. less h x y ≡ true) xs y s.0 i)),
  IsSorted-cong h h' xs (λ y i. same y (inr i)) s.1,
)

-- A timer that is not in the set may be changed at will.
pub outside-Inv :
    (h : ℕ → Timer) (xs : List ℕ) (a : ℕ) (t : Timer) (wakes wakes' : ℕ)
    → ¬ In a xs
    → Inv (record { heap = h; timers = xs; wakes = wakes })
    → Inv (record { heap = update h a t; timers = xs; wakes = wakes' })
outside-Inv h xs a t wakes wakes' out v = record {
  sorted =
      IsSorted-cong h (update h a t) xs
        (λ x i.
          ap (λ (s : Timer). s.next) (update_other h a t x (λ e. out (subst (λ y. In y xs) e i))))
        v.sorted;
  armed =
      All-of_In (λ x. has_cb (update h a t x) ≡ true) xs
        (λ x i.
          rw (update_other h a t x (λ e. out (subst (λ y. In y xs) e i)))
            (All-In (λ x. has_cb (h x) ≡ true) xs x v.armed i));
}

pub insert-Inv :
    (h : ℕ → Timer) (xs : List ℕ) (a wakes wakes' : ℕ)
    → has_cb (h a) ≡ true
    → Inv (record { heap = h; timers = xs; wakes = wakes })
    → Inv (record { heap = h; timers = insert h a xs; wakes = wakes' })
insert-Inv h xs a wakes wakes' cb v = record {
  sorted = insert-IsSorted h a xs v.sorted;
  armed = All-insert h (λ x. has_cb (h x) ≡ true) a xs cb v.armed;
}

erase-Inv :
    (h : ℕ → Timer) (xs : List ℕ) (a wakes : ℕ)
    → Inv (record { heap = h; timers = xs; wakes = wakes })
    → Inv (record { heap = h; timers = erase h a xs; wakes = wakes })
erase-Inv h xs a wakes v = record {
  sorted = erase-IsSorted h a xs v.sorted;
  armed = All-erase h (λ x. has_cb (h x) ≡ true) a xs v.armed;
}

pub place-Inv : (a : ℕ) (m : TimerManager) → has_cb (m.heap a) ≡ true → Inv m → Inv (place a m)
unfolding place
place-Inv a m cb v = insert-Inv m.heap m.timers a m.wakes _ cb v

-- A new timer has an address that is in use by no timer of the set, and a callback.
pub add_timer-Inv :
    (now a ms cb : ℕ) (recurring : Bool) (m : TimerManager)
    → ¬ In a m.timers
    → Inv m
    → Inv (add_timer now a ms (some cb) recurring m)
unfolding add_timer new_timer
add_timer-Inv now a ms cb recurring m out v =
    let t = new_timer now ms (some cb) recurring in
    place-Inv a _ (ap has_cb (update_self m.heap a t))
      (outside-Inv m.heap m.timers a t m.wakes m.wakes out v)

-- Taking a timer out, changing it and putting it back.
move-Inv :
    (a : ℕ) (t : Timer) (m : TimerManager)
    → has_cb t ≡ true
    → Inv m
    → Inv (place a (record m { heap = update m.heap a t; timers = erase m.heap a m.timers }))
move-Inv a t m cb v = place-Inv a _ (ap has_cb (update_self m.heap a t) ∙ cb) (
    outside-Inv m.heap (erase m.heap a m.timers) a t m.wakes m.wakes
      (erase-not_In m.heap a m.timers v.sorted) (erase-Inv m.heap m.timers a m.wakes v))

-- A timer that the search does not find is not in the set.
pub not_found :
    (a : ℕ) (m : TimerManager)
    → IsSorted m.heap m.timers
    → find m.heap a m.timers ≡ false
    → ¬ In a m.timers
not_found a m s e i = cc (e, In-find m.heap a m.timers s i)

-- The due times stay when a callback is dropped, and with them the order.
pub disarm-IsSorted :
    (a : ℕ) (h : ℕ → Timer) (xs : List ℕ)
    → IsSorted h xs
    → IsSorted (update h a (record (h a) { cb = none })) xs
disarm-IsSorted a h xs s =
    IsSorted-cong h (update h a (record (h a) { cb = none })) xs
      (λ x i. elim (Bool-cases (a == x)) [
        | inl e ↦ rw e (ap (λ y. (h y).next) ((==_iff a x).0 e))
        | inr e ↦ rw e
      ])
      s

cancel_in-Inv :
    (h : ℕ → Timer) (xs : List ℕ) (a wakes : ℕ)
    → Inv (record { heap = h; timers = xs; wakes = wakes })
    → Inv
        (cancel_in
          (record { heap = update h a (record (h a) { cb = none }); timers = xs; wakes = wakes })
          a).0
unfolding cancel_in
cancel_in-Inv h xs a wakes v =
    let t : Timer = record (h a) { cb = none } in
    let h' = update h a t in
    let s = disarm-IsSorted a h xs v.sorted in
    elim (Bool-cases (find h' a xs)) [
      | inl e ↦ rw e (
          let out = erase-not_In h' a xs s in
          record {
            sorted = erase-IsSorted h' a xs s;
            armed =
                All-of_In (λ x. has_cb (h' x) ≡ true) (erase h' a xs)
                  (λ x i.
                    rw (update_other h a t x (λ p. out (subst (λ y. In y (erase h' a xs)) p i)))
                      (All-In (λ x. has_cb (h x) ≡ true) xs x v.armed (In-erase h' a x xs i)));
          })
      | inr e ↦ rw e (
          outside-Inv h xs a t wakes wakes
            (not_found a (record { heap = h'; timers = xs; wakes = wakes }) s e) v)
    ]

pub cancel-Inv : (a : ℕ) (m : TimerManager) → Inv m → Inv (cancel a m).0
unfolding cancel
cancel-Inv a m v = elim (Bool-cases (has_cb (m.heap a))) [
  | inl e ↦ rw e (cancel_in-Inv m.heap m.timers a m.wakes v)
  | inr e ↦ rw e v
]

pub refresh-Inv : (now a : ℕ) (m : TimerManager) → Inv m → Inv (refresh now a m).0
unfolding refresh
refresh-Inv now a m v = elim (Bool-cases (has_cb (m.heap a))) [
  | inl e ↦ elim (Bool-cases (find m.heap a m.timers)) [
    | inl f ↦ rw e (rw f (move-Inv a (record (m.heap a) { next = add64 now (m.heap a).ms }) m e v))
    | inr f ↦ rw e (
        rw f (
          outside-Inv m.heap m.timers a (record (m.heap a) { cb = none }) m.wakes m.wakes
            (not_found a m v.sorted f) v))
  ]
  | inr e ↦ rw e v
]

pub reset-Inv : (now ms a : ℕ) (m : TimerManager) → Inv m → Inv (reset now ms a m).0
unfolding reset
reset-Inv now ms a m v = elim (Bool-cases (ms == (m.heap a).ms)) [
  | inl same ↦ rw same v
  | inr other ↦ elim (Bool-cases (has_cb (m.heap a))) [
    | inl e ↦ elim (Bool-cases (find m.heap a m.timers)) [
      | inl f ↦
          rw other
            (rw e (rw f (move-Inv a (record (m.heap a) { ms = ms; next = add64 ms now }) m e v)))
      | inr f ↦ rw other (rw e (rw f v))
    ]
    | inr e ↦ rw other (rw e v)
  ]
]

pub cancel_all_timers-Inv : (m : TimerManager) → Inv (cancel_all_timers m)
unfolding cancel_all_timers
cancel_all_timers-Inv m = record { sorted = tt; armed = tt }
