-- ===== src/Timer/Rearm.antt =====
-- src/timer.cpp: the loop of listExpiredCbs over the timers that it has taken out.
use tigerkin.Prelude.{
  ℕ, ◌≡◌, ◌≢◌, ◌⊎◌, inl, inr, refl, sym, ap, ap₂, subst, ◌∙◌, true, false, Option, none, List, [],
  ◌∷◌, map, arith, if◌then◌else◌, if_cases, All,
}
use tigerkin.Timer.{Timer, update, insert, add64, has_cb, rearm}
use tigerkin.Timer.Order.{In, In-insert, insert-In_old, insert-In_new}
use tigerkin.Timer.Invariant.{Inv, update_self, update_other, outside-Inv, insert-Inv}
use tigerkin.Timer.Due.{Distinct}

-- What the loop makes of a timer.
abbrev pub fired : ℕ → Timer → Timer
fired now t = if t.recurring then record t { next = add64 now t.ms } else record t { cb = none }

fired_again :
    (now : ℕ) (t : Timer) → t.recurring ≡ true → fired now t ≡ record t { next = add64 now t.ms }
fired_again now t e = ground arith

fired_once : (now : ℕ) (t : Timer) → t.recurring ≡ false → fired now t ≡ record t { cb = none }
fired_once now t e = ground arith

map-update :
    (h : ℕ → Timer) (x : ℕ) (t : Timer) (xs : List ℕ)
    → ¬ In x xs
    → map (λ y. (update h x t y).cb) xs ≡ map (λ y. (h y).cb) xs
map-update h x t [] out = refl
map-update h x t (y ∷ ys) out =
    ap₂ ◌∷◌ (ap (λ (s : Timer). s.cb) (update_other h x t y (λ e. out (inl (sym e)))))
      (map-update h x t ys (λ i. out (inr i)))

All-update :
    (P : Timer → Type 0) (h : ℕ → Timer) (x : ℕ) (t : Timer) (xs : List ℕ)
    → ¬ In x xs
    → All (λ y. P (h y)) xs
    → All (λ y. P (update h x t y)) xs
All-update P h x t [] out q = tt
All-update P h x t (y ∷ ys) out q = (
  subst P (sym (update_other h x t y (λ e. out (inl (sym e))))) q.0,
  All-update P h x t ys (λ i. out (inr i)) q.1,
)

not-In-insert :
    (h : ℕ → Timer) (x : ℕ) (timers xs : List ℕ)
    → ¬ In x xs
    → All (λ y. ¬ In y timers) xs
    → All (λ y. ¬ In y (insert h x timers)) xs
not-In-insert h x timers [] out q = tt
not-In-insert h x timers (y ∷ ys) out q = (
  (λ i. elim (In-insert h x y timers i) [ inl e ↦ out (inl (sym e)) | inr j ↦ q.0 j ]),
  not-In-insert h x timers ys (λ i. out (inr i)) q.1,
)

-- The two timers that the loop may leave in place of one.
abbrev again : ℕ → Timer → Timer
again now t = record t { next = add64 now t.ms }

abbrev disarmed : Timer → Timer
disarmed t = record t { cb = none }

-- One round of the loop, by the kind of its timer.
rearm_round {ℓ} :
    (P : (ℕ → Timer) × List ℕ × List (Option ℕ) → Type ℓ) (now x : ℕ) (xs : List ℕ) (h : ℕ → Timer)
    (timers : List ℕ)
    → ((h x).recurring ≡ true
        → P (
            rearm now xs
              (update h x (again now (h x)))
              (insert (update h x (again now (h x))) x timers)))
    → ((h x).recurring ≡ false → P (rearm now xs (update h x (disarmed (h x))) timers))
    → P (
        if (h x).recurring
        then rearm now xs
            (update h x (again now (h x)))
            (insert (update h x (again now (h x))) x timers)
        else rearm now xs (update h x (disarmed (h x))) timers)
rearm_round P now x xs h timers = if_cases P (h x).recurring _ _

-- The callbacks are those that the timers had before the loop.
pub rearm-cbs :
    (now : ℕ) (due : List ℕ) (h : ℕ → Timer) (timers : List ℕ)
    → Distinct due
    → (rearm now due h timers).2 ≡ map (λ x. (h x).cb) due
unfolding rearm
rearm-cbs now [] h timers d = refl
rearm-cbs now (x ∷ xs) h timers d = ap (◌∷◌ (h x).cb) (
    rearm_round (λ r. r.2 ≡ map (λ y. (h y).cb) xs) now x xs h timers
      (λ e.
        rearm-cbs now xs (update h x (again now (h x))) _ d.1
        ∙ map-update h x (again now (h x)) xs d.0)
      (λ e.
        rearm-cbs now xs (update h x (disarmed (h x))) timers d.1
        ∙ map-update h x (disarmed (h x)) xs d.0))

-- The loop keeps the invariant, if the expired timers are out of the set and armed.
pub rearm-Inv :
    (now : ℕ) (due : List ℕ) (h : ℕ → Timer) (timers : List ℕ) (wakes : ℕ)
    → Distinct due
    → All (λ x. ¬ In x timers) due
    → All (λ x. has_cb (h x) ≡ true) due
    → Inv (record { heap = h; timers = timers; wakes = wakes })
    → Inv (record {
      heap = (rearm now due h timers).0;
      timers = (rearm now due h timers).1;
      wakes = wakes;
    })
unfolding rearm
rearm-Inv now [] h timers wakes d out cb v = v
rearm-Inv now (x ∷ xs) h timers wakes d out cb v =
    let t = again now (h x) in
    let h' = update h x t in
    rearm_round (λ r. Inv (record { heap = r.0; timers = r.1; wakes = wakes })) now x xs h timers
      (λ e.
        rearm-Inv now xs h' (insert h' x timers) wakes d.1 (not-In-insert h' x timers xs d.0 out.1)
          (All-update (λ s. has_cb s ≡ true) h x t xs d.0 cb.1)
          (insert-Inv h' timers x wakes wakes (ap has_cb (update_self h x t) ∙ cb.0)
            (outside-Inv h timers x t wakes wakes out.0 v)))
      (λ e.
        rearm-Inv now xs (update h x (disarmed (h x))) timers wakes d.1 out.1
          (All-update (λ s. has_cb s ≡ true) h x (disarmed (h x)) xs d.0 cb.1)
          (outside-Inv h timers x (disarmed (h x)) wakes wakes out.0 v))

-- The loop changes no timer that is not due.
pub rearm-heap_other :
    (now : ℕ) (due : List ℕ) (h : ℕ → Timer) (timers : List ℕ) (y : ℕ)
    → ¬ In y due
    → (rearm now due h timers).0 y ≡ h y
unfolding rearm
rearm-heap_other now [] h timers y out = refl
rearm-heap_other now (x ∷ xs) h timers y out =
    rearm_round (λ r. r.0 y ≡ h y) now x xs h timers
      (λ e.
        rearm-heap_other now xs (update h x (again now (h x))) _ y (λ i. out (inr i))
        ∙ update_other h x (again now (h x)) y (λ p. out (inl p)))
      (λ e.
        rearm-heap_other now xs (update h x (disarmed (h x))) timers y (λ i. out (inr i))
        ∙ update_other h x (disarmed (h x)) y (λ p. out (inl p)))

-- A due timer is due again after its period if it recurs, and loses its callback otherwise.
pub rearm-heap_due :
    (now : ℕ) (due : List ℕ) (h : ℕ → Timer) (timers : List ℕ) (y : ℕ)
    → Distinct due
    → In y due
    → (rearm now due h timers).0 y ≡ fired now (h y)
unfolding rearm
rearm-heap_due now [] h timers y d i = absurd i
rearm-heap_due now (x ∷ xs) h timers y d (inl same) = rw same (
    rearm_round (λ r. r.0 x ≡ fired now (h x)) now x xs h timers
      (λ e.
        rearm-heap_other now xs (update h x (again now (h x))) _ x d.0
        ∙ update_self h x (again now (h x))
        ∙ sym (fired_again now (h x) e))
      (λ e.
        rearm-heap_other now xs (update h x (disarmed (h x))) timers x d.0
        ∙ update_self h x (disarmed (h x))
        ∙ sym (fired_once now (h x) e)))
rearm-heap_due now (x ∷ xs) h timers y d (inr i) =
    let ne : y ≢ x = λ e. d.0 (subst (λ z. In z xs) e i) in
    rearm_round (λ r. r.0 y ≡ fired now (h y)) now x xs h timers
      (λ e.
        rearm-heap_due now xs (update h x (again now (h x))) _ y d.1 i
        ∙ ap (fired now) (update_other h x (again now (h x)) y ne))
      (λ e.
        rearm-heap_due now xs (update h x (disarmed (h x))) timers y d.1 i
        ∙ ap (fired now) (update_other h x (disarmed (h x)) y ne))

-- The set holds what it held and the due timers that recur.
pub rearm-In :
    (now : ℕ) (due : List ℕ) (h : ℕ → Timer) (timers : List ℕ) (y : ℕ)
    → Distinct due
    → In y (rearm now due h timers).1
    → In y timers ⊎ (In y due × ((h y).recurring ≡ true))
unfolding rearm
rearm-In now [] h timers y d i = inl i
rearm-In now (x ∷ xs) h timers y d here =
    rearm_round (λ r. In y r.1 → In y timers ⊎ (In y (x ∷ xs) × ((h y).recurring ≡ true))) now x xs
      h timers
      (λ e i. elim (rearm-In now xs (update h x (again now (h x))) _ y d.1 i) [
        | inl j ↦ elim (In-insert (update h x (again now (h x))) x y timers j) [
          | inl same ↦ inr (inl same, ap (λ z. (h z).recurring) same ∙ e)
          | inr k ↦ inl k
        ]
        | inr (j, r) ↦ inr (inr j, sym (keeps (again now (h x)) refl j) ∙ r)
      ])
      (λ e i. elim (rearm-In now xs (update h x (disarmed (h x))) timers y d.1 i) [
        | inl j ↦ inl j
        | inr (j, r) ↦ inr (inr j, sym (keeps (disarmed (h x)) refl j) ∙ r)
      ])
      here
  where
    keeps :
        (t : Timer)
        → t.recurring ≡ (h x).recurring
        → In y xs
        → (update h x t y).recurring ≡ (h y).recurring
    keeps t same j =
        ap (λ (s : Timer). s.recurring) (update_other h x t y (λ e. d.0 (subst (λ z. In z xs) e j)))

-- The set keeps what it held, and gets the due timers that recur.
pub In-rearm :
    (now : ℕ) (due : List ℕ) (h : ℕ → Timer) (timers : List ℕ) (y : ℕ)
    → Distinct due
    → In y timers ⊎ (In y due × ((h y).recurring ≡ true))
    → In y (rearm now due h timers).1
unfolding rearm
In-rearm now [] h timers y d (inl i) = i
In-rearm now [] h timers y d (inr (i, _)) = absurd i
In-rearm now (x ∷ xs) h timers y d i =
    rearm_round (λ r. In y r.1) now x xs h timers
      (λ e. In-rearm now xs (update h x (again now (h x))) _ y d.1 (elim i [
        | inl j ↦ inl (insert-In_old (update h x (again now (h x))) x y timers j)
        | inr (inl same, _) ↦ inl (
            subst (λ z. In z (insert (update h x (again now (h x))) x timers)) (sym same)
              (insert-In_new (update h x (again now (h x))) x timers))
        | inr (inr j, r) ↦ inr (j, keeps (again now (h x)) refl j ∙ r)
      ]))
      (λ e. In-rearm now xs (update h x (disarmed (h x))) timers y d.1 (elim i [
        | inl j ↦ inl j
        | inr (inl same, r) ↦ absurd (let f = sym (ap (λ z. (h z).recurring) same) ∙ r in cc)
        | inr (inr j, r) ↦ inr (j, keeps (disarmed (h x)) refl j ∙ r)
      ]))
  where
    keeps :
        (t : Timer)
        → t.recurring ≡ (h x).recurring
        → In y xs
        → (update h x t y).recurring ≡ (h y).recurring
    keeps t same j =
        ap (λ (s : Timer). s.recurring) (update_other h x t y (λ e. d.0 (subst (λ z. In z xs) e j)))
