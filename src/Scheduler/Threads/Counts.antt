-- ===== src/Scheduler/Threads/Counts.antt =====
-- src/scheduler.cpp: the two counters of a scheduler count its threads in every state.
use tigerkin.Prelude.{
  ℕ, zero, suc, ◌+◌, ◌≤◌, ◌≡◌, ◌⊎◌, inl, inr, refl, sym, subst, ◌∙◌, Bool, true, false, some, List,
  [], ◌∷◌, Bool-cases, if_cases, arith, get_elem?, set, length-set, ◌==◌,
}
use tigerkin.Scheduler.{
  Scheduler, up, down, schedule, stopping, can_early_closure, idles, leaves, rest, wake, stop,
}
use tigerkin.Scheduler.Queue.{AllWork, SameThreads, taken-AllWork, schedule-AllWork}
use tigerkin.Scheduler.Threads.{
  Phase, running, idling, gone, Thread, Pool, Step, takes_task, schedules, stops, goes_idle,
  comes_back, goes, Reach, here, next, idle_weight, active_weight, total, total-set, total-le,
  IsConsistent,
}

idle_at :
    (t : Thread) (p : Phase) → t.phase ≡ p → idle_weight t ≡ idle_weight (record t { phase = p })
idle_at t p e = rw e refl

active_at :
    (c : ℕ) (t : Thread) (p : Phase)
    → t.phase ≡ p
    → active_weight c t ≡ active_weight c (record t { phase = p })
active_at c t p e = rw e refl

idle_le : (t : Thread) → idle_weight t ≤ 1
idle_le t = go t.phase refl
  where
    go : (p : Phase) → t.phase ≡ p → idle_weight t ≤ 1
    go running e = rw e (omega arith)
    go idling e = rw e (omega arith)
    go gone e = rw e (omega arith)

active_le : (c : ℕ) (t : Thread) → active_weight c t ≤ 1
active_le c t = go t.phase refl
  where
    go : (p : Phase) → t.phase ≡ p → active_weight c t ≤ 1
    go running e = rw e (ground arith)
    go idling e = rw e (ground arith)
    go gone e = rw e (omega arith)

-- What the last part of a round leaves.
rest_idles :
    (quiet : Bool) (me : ℕ) (s s' : Scheduler)
    → rest quiet me s ≡ idles s'
    → s' ≡ record s { idle_threads = up s.idle_threads }
unfolding rest
rest_idles quiet me s s' e = elim (Bool-cases (s.caller_thread == me)) [
  | inl c ↦ elim (Bool-cases (stopping quiet s)) [
    | inl t ↦ absurd (let f = rw (c, t, rest) at e in cc)
    | inr t ↦ let f = rw (c, t, rest) at e in cc
  ]
  | inr c ↦ elim (Bool-cases (can_early_closure quiet s)) [
    | inl t ↦ absurd (let f = rw (c, t, rest) at e in cc)
    | inr t ↦ elim (Bool-cases s.auto_stop) [
      | inl a ↦ absurd (let f = rw (c, t, a, rest) at e in cc)
      | inr a ↦ let f = rw (c, t, a, rest) at e in cc
    ]
  ]
]

rest_leaves :
    (quiet : Bool) (me : ℕ) (s s' : Scheduler)
    → rest quiet me s ≡ leaves s'
    → (((s.caller_thread == me) ≡ true) × (stopping quiet s ≡ true) × (s' ≡ s))
      ⊎ (((s.caller_thread == me) ≡ false)
          × (s' ≡ record s { active_threads = down s.active_threads }))
unfolding rest
rest_leaves quiet me s s' e = elim (Bool-cases (s.caller_thread == me)) [
  | inl c ↦ elim (Bool-cases (stopping quiet s)) [
    | inl t ↦ let f = rw (c, t, rest) at e in inl (c, t, sym (cc))
    | inr t ↦ absurd (let f = rw (c, t, rest) at e in cc)
  ]
  | inr c ↦ elim (Bool-cases (can_early_closure quiet s)) [
    | inl t ↦ let f = rw (c, t, rest) at e in inr (c, sym (cc))
    | inr t ↦ elim (Bool-cases s.auto_stop) [
      | inl a ↦ absurd (let f = rw (c, t, a, rest) at e in cc)
      | inr a ↦ absurd (let f = rw (c, t, a, rest) at e in cc)
    ]
  ]
]

-- The state with other counters and another phase of a thread.
moved-IsConsistent :
    (p : Pool) (s : Scheduler) (k : ℕ) (t u : Thread)
    → IsConsistent p
    → get_elem? p.threads k ≡ some t
    → s.tasks ≡ p.sched.tasks
    → s.caller_thread ≡ p.sched.caller_thread
    → (s.idle_threads + idle_weight t ≡ p.sched.idle_threads + idle_weight u)
    → (s.active_threads + active_weight p.sched.caller_thread t
        ≡ p.sched.active_threads + active_weight p.sched.caller_thread u)
    → IsConsistent (record { sched = s; threads = set p.threads k u })
moved-IsConsistent p s k t u v h same caller idle active = record {
  idle_counted = omega (arith, total-set idle_weight p.threads k t u h, v.idle_counted, idle);
  active_counted = rw caller (
      omega (
        arith,
        total-set (active_weight p.sched.caller_thread) p.threads k t u h,
        v.active_counted,
        active,
      ));
  few = rw (length-set p.threads k u) v.few;
  work = rw same v.work;
}

total-get :
    (f : Thread → ℕ) (ts : List Thread) (k : ℕ) (t : Thread)
    → get_elem? ts k ≡ some t
    → f t ≤ total f ts
total-get f [] k t e = absurd (cc)
total-get f (x ∷ ts) zero t e = let same : x ≡ t = cc in rw (sym same) (omega arith)
total-get f (x ∷ ts) (suc k) t e = omega (arith, total-get f ts k t e)

pub worker_weight :
    (c : ℕ) (t : Thread) → t.phase ≡ running → (c == t.id) ≡ false → active_weight c t ≡ 1
worker_weight c t e ne = rw (e, ne) refl

IsConsistent-same :
    (p : Pool) (s : Scheduler)
    → IsConsistent p
    → AllWork s.tasks
    → SameThreads p.sched s
    → IsConsistent (record p { sched = s })
IsConsistent-same p s v w same = record {
  idle_counted = same.idle_eq ∙ v.idle_counted;
  active_counted = rw same.caller_eq (same.active_eq ∙ v.active_counted);
  few = v.few;
  work = w;
}

Step-IsConsistent : {p q : Pool} → Step p q → IsConsistent p → IsConsistent q
unfolding stop wake
Step-IsConsistent {p} (takes_task k t o tickle s h r e is) v =
    let (w, same) = taken-AllWork t.id p.sched s o tickle v.work e in
    subst IsConsistent (sym is) (IsConsistent-same p s v w same)
Step-IsConsistent {p} (schedules task force is) v =
    let (w, same) = schedule-AllWork task force p.sched v.work in
    subst IsConsistent (sym is) (IsConsistent-same p (schedule task force p.sched).0 v w same)
Step-IsConsistent {p} (stops me is) v = subst IsConsistent (sym is) (
    if_cases (λ (s : Scheduler). IsConsistent (record p { sched = s }))
      (p.sched.caller_thread == me) _ _
      (λ _. record {
        idle_counted = v.idle_counted;
        active_counted = v.active_counted;
        few = v.few;
        work = v.work;
      })
      (λ _. v))
Step-IsConsistent {p} (goes_idle k t quiet s h r e is) v =
    let e' = rest_idles quiet t.id p.sched s e in
    let u : Thread = record t { phase = idling } in
    subst IsConsistent (sym is) (
      subst (λ (x : Scheduler). IsConsistent (record { sched = x; threads = set p.threads k u }))
        (sym e')
        (moved-IsConsistent p (record p.sched { idle_threads = up p.sched.idle_threads }) k t u v h
          refl refl
          (omega (
            arith,
            idle_at t running r,
            total-le idle_weight p.threads idle_le,
            v.few,
            v.idle_counted,
          ))
          (rw r refl)))
Step-IsConsistent {p} (comes_back k t h r is) v =
    let u : Thread = record t { phase = running } in
    subst IsConsistent (sym is) (
      moved-IsConsistent p (wake p.sched) k t u v h refl refl
        (omega (
          arith,
          idle_at t idling r,
          total-le idle_weight p.threads idle_le,
          total-get idle_weight p.threads k t h,
          v.few,
          v.idle_counted,
        ))
        (rw r refl))
Step-IsConsistent {p} (goes k t quiet s h r e is) v =
    let u : Thread = record t { phase = gone } in
    subst IsConsistent (sym is) (elim (rest_leaves quiet t.id p.sched s e) [
      | inl (c, _, same) ↦
          subst
            (λ (x : Scheduler). IsConsistent (record { sched = x; threads = set p.threads k u }))
            (sym same)
            (moved-IsConsistent p p.sched k t u v h refl refl (omega (arith, idle_at t running r))
              (rw (r, c) refl))
      | inr (c, same) ↦
          subst
            (λ (x : Scheduler). IsConsistent (record { sched = x; threads = set p.threads k u }))
            (sym same)
            (moved-IsConsistent p (record p.sched { active_threads = down p.sched.active_threads })
              k t u v h refl refl (omega (arith, idle_at t running r))
              (omega (
                arith,
                worker_weight p.sched.caller_thread t r c,
                total-get (active_weight p.sched.caller_thread) p.threads k t h,
                total-le (active_weight p.sched.caller_thread) p.threads
                    (active_le p.sched.caller_thread),
                v.few,
                v.active_counted,
              )))
    ])

pub Reach-IsConsistent : {p q : Pool} → Reach p q → IsConsistent p → IsConsistent q
Reach-IsConsistent here v = v
Reach-IsConsistent (next r s) v = Step-IsConsistent s (Reach-IsConsistent r v)
