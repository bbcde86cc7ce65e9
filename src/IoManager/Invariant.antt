-- ===== src/IoManager/Invariant.antt =====
-- src/iomanager.cpp: what holds of a manager between calls, and how the parts of a call change it.
use tigerkin.Prelude.{
  ℕ, ◌+◌, ◌%◌, ◌^◌, ◌≤◌, ◌≡◌, ◌⊎◌, inl, inr, refl, sym, ap, subst, ◌∙◌, Bool, true, false, none,
  some, List, [], ◌∷◌, ◌++◌, arith, ◌==◌, ==_iff, length, get_elem?, set, Bool-cases,
  get_elem?-set_self, get_elem?-set_ne, length-set,
}
use tigerkin.Scheduler.{Task, up, down}
use tigerkin.IoManager.{
  Event, read_event, write_event, EventContext, FdContext, IoManager, returns, aborts,
  get_event_context, put_event_context, has, with_bit, task_of, swapped_out, trigger_event, push,
  fire, new_context,
}
use tigerkin.IoManager.Contexts.{count, count-set, get_elem?-lt, Roomy}

-- The context of an event that nothing waits for, and of one with a callback or a coroutine.
abbrev pub IsIdle : EventContext → Type 0
IsIdle s = (s.scheduler ≡ none) × ((s.co ≡ none) × (s.cb ≡ none))

abbrev pub IsWaiting : EventContext → Type 0
IsWaiting s =
    ((to : ℕ) × (s.scheduler ≡ some to))
    × ((((f : ℕ) × (s.cb ≡ some f)) × (s.co ≡ none))
        ⊎ ((s.cb ≡ none) × ((c : ℕ) × (s.co ≡ some c))))

abbrev pub Slot : Bool → EventContext → Type 0
Slot true s = IsWaiting s
Slot false s = IsIdle s

-- A context stands at its descriptor, and just the events whose bits are set are waited for.
pub record IsSound (i : ℕ) (c : FdContext) : Type 0 where
  pub named : c.fd ≡ i
  pub read_slot : Slot c.reads c.read
  pub write_slot : Slot c.writes c.write

-- The table is sound, and the counter is the number of bits in it.
pub record Sound (cs : List FdContext) (pending : ℕ) : Type 0 where
  pub each : (i : ℕ) (c : FdContext) → get_elem? cs i ≡ some c → IsSound i c
  pub counted : pending ≡ count cs % 2 ^ 64
  pub wide : 2 ≤ length cs

pub holds-Slot :
    (e : Event) (i : ℕ) (c : FdContext) → IsSound i c → Slot (has e c) (get_event_context e c)
holds-Slot read_event i c s = s.read_slot
holds-Slot write_event i c s = s.write_slot

-- The context with another event context and another bit for an event.
abbrev pub changed : Event → Bool → EventContext → FdContext → FdContext
changed e b s c = put_event_context e s (with_bit e b c)

pub changed-IsSound :
    (e : Event) (b : Bool) (s : EventContext) (i : ℕ) (c : FdContext)
    → IsSound i c
    → Slot b s
    → IsSound i (changed e b s c)
changed-IsSound read_event b s i c v slot = record {
  named = v.named;
  read_slot = slot;
  write_slot = v.write_slot;
}
changed-IsSound write_event b s i c v slot = record {
  named = v.named;
  read_slot = v.read_slot;
  write_slot = slot;
}

-- A context of the table is replaced by a sound one.
pub set-Sound :
    (cs : List FdContext) (pending pending' i : ℕ) (c d : FdContext)
    → Sound cs pending
    → get_elem? cs i ≡ some c
    → IsSound i d
    → pending' ≡ count (set cs i d) % 2 ^ 64
    → Sound (set cs i d) pending'
set-Sound cs pending pending' i c d v e sound n = record {
  each = λ j x h. elim (Bool-cases (j == i)) [
    | inl t ↦
        let same : j ≡ i = (==_iff j i).0 t in
        let here : some d ≡ some x =
          sym (get_elem?-set_self cs i d (get_elem?-lt cs i c e))
          ∙ (ap (get_elem? (set cs i d)) (sym same) ∙ h) in
        let eq : d ≡ x = cc in
        subst (λ y. IsSound j y) eq (subst (λ k. IsSound k d) (sym same) sound)
    | inr t ↦
        v.each j x
          (sym (get_elem?-set_ne cs i j d (λ p. absurd (let f = (==_iff j i).1 (sym p) in cc))) ∙ h)
  ];
  counted = n;
  wide = rw (length-set cs i d) v.wide;
}

abbrev pub flip : Event → Bool → Bool × Bool → Bool × Bool
flip read_event b (r, w) = (b, w)
flip write_event b (r, w) = (r, b)

pub count-drop :
    (e : Event) (s : EventContext) (cs : List FdContext) (i : ℕ) (c : FdContext)
    → get_elem? cs i ≡ some c
    → has e c ≡ true
    → count (set cs i (changed e false s c)) + 1 ≡ count cs
count-drop read_event s cs i c h t =
    let n = count-set cs i c (changed read_event false s c) h in omega (arith, rw t at n)
count-drop write_event s cs i c h t =
    let n = count-set cs i c (changed write_event false s c) h in omega (arith, rw t at n)

pub count-raise :
    (e : Event) (s : EventContext) (cs : List FdContext) (i : ℕ) (c : FdContext)
    → get_elem? cs i ≡ some c
    → has e c ≡ false
    → count (set cs i (changed e true s c)) ≡ count cs + 1
count-raise read_event s cs i c h t =
    let n = count-set cs i c (changed read_event true s c) h in omega (arith, rw t at n)
count-raise write_event s cs i c h t =
    let n = count-set cs i c (changed write_event true s c) h in omega (arith, rw t at n)

-- An event is no longer waited for, and the counter goes down.
pub drop-Sound :
    (e : Event) (s : EventContext) (cs : List FdContext) (pending i : ℕ) (c : FdContext)
    → Sound cs pending
    → get_elem? cs i ≡ some c
    → has e c ≡ true
    → IsIdle s
    → Sound (set cs i (changed e false s c)) (down pending)
drop-Sound e s cs pending i c v h t idle =
    set-Sound cs pending (down pending) i c (changed e false s c) v h
      (changed-IsSound e false s i c (v.each i c h) idle)
      (omega (arith, v.counted, count-drop e s cs i c h t))

-- An event is waited for, and the counter goes up.
pub raise-Sound :
    (e : Event) (s : EventContext) (cs : List FdContext) (pending i : ℕ) (c : FdContext)
    → Sound cs pending
    → get_elem? cs i ≡ some c
    → has e c ≡ false
    → IsWaiting s
    → Sound (set cs i (changed e true s c)) (up pending)
raise-Sound e s cs pending i c v h t waits =
    set-Sound cs pending (up pending) i c (changed e true s c) v h
      (changed-IsSound e true s i c (v.each i c h) waits)
      (omega (arith, v.counted, count-raise e s cs i c h t))

pub swapped_out-IsIdle : (s : EventContext) → IsWaiting s → IsIdle (swapped_out s)
swapped_out-IsIdle s (_, inl ((f, cb), co)) = rw cb (refl, (co, refl))
swapped_out-IsIdle s (_, inr (cb, (c, co))) = rw cb (refl, (refl, refl))

pub push-waiting :
    (s : EventContext) (to : ℕ) (list : List (ℕ × Task))
    → IsWaiting s
    → push to (task_of s) list ≡ list ++ ((to, task_of s) ∷ [])
unfolding push
push-waiting s to list (_, inl ((f, cb), co)) = rw cb refl
push-waiting s to list (_, inr (cb, (c, co))) = rw (cb, co) refl

Slot-true : (b : Bool) (s : EventContext) → b ≡ true → Slot b s → IsWaiting s
Slot-true b s t slot = subst (λ x. Slot x s) t slot

-- What triggerEvent makes of a manager.
abbrev pub fired : {K : Type 0} → Event → ℕ → FdContext → ℕ → IoManager K → IoManager K
fired e i c to m = record m {
  contexts = set m.contexts i (changed e false (swapped_out (get_event_context e c)) c);
  scheduled = m.scheduled ++ ((to, task_of (get_event_context e c)) ∷ []);
  pending = down m.pending;
}

pub fire_lem :
    {K : Type 0} (e : Event) (i : ℕ) (m : IoManager K) (c : FdContext)
    → Sound m.contexts m.pending
    → get_elem? m.contexts i ≡ some c
    → has e c ≡ true
    → (to : ℕ) × ((get_event_context e c).scheduler ≡ some to)
      × (fire e i m ≡ returns tt (fired e i c to m))
      × Sound (fired e i c to m).contexts (fired e i c to m).pending
unfolding fire trigger_event
fire_lem e i m c v h t =
    let waits = Slot-true (has e c) (get_event_context e c) t (holds-Slot e i c (v.each i c h)) in
    let ((to, sch), _) = waits in
    (
      to,
      sch,
      rw (h, fire)
          (rw t (
            rw sch (
              ap
                (λ l. returns tt (record m {
                  contexts =
                      set m.contexts i (changed e false (swapped_out (get_event_context e c)) c);
                  scheduled = l;
                  pending = down m.pending;
                }))
                (push-waiting (get_event_context e c) to m.scheduled waits)))),
      drop-Sound e (swapped_out (get_event_context e c)) m.contexts m.pending i c v h t
          (swapped_out-IsIdle (get_event_context e c) waits),
    )

-- An event that is not registered aborts.
pub fire_aborts :
    {K : Type 0} (e : Event) (i : ℕ) (m : IoManager K) (c : FdContext)
    → get_elem? m.contexts i ≡ some c
    → has e c ≡ false
    → fire e i m ≡ aborts
unfolding fire trigger_event
fire_aborts e i m c h t = rw (h, fire) (rw t refl)

pub new_context-IsSound : (i : ℕ) → IsSound i (new_context i)
new_context-IsSound i = record {
  named = refl;
  read_slot = (refl, (refl, refl));
  write_slot = (refl, (refl, refl));
}

-- The table in which addEvent looks is as sound as the one it grew from.
pub Roomy-Sound :
    (fd : ℕ) (cs ds : List FdContext) (pending : ℕ)
    → Roomy fd cs ds
    → Sound cs pending
    → Sound ds pending
Roomy-Sound fd cs ds pending r v = record {
  each = λ i c h. elim (r.old_or_new i c h) [
    | inl old ↦ v.each i c old
    | inr new ↦ subst (λ x. IsSound i x) (sym new) (new_context-IsSound i)
  ];
  counted = rw r.same_count v.counted;
  wide = omega (arith, r.longer, v.wide);
}
