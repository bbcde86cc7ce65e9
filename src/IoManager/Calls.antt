-- ===== src/IoManager/Calls.antt =====
-- src/iomanager.cpp: addEvent, delEvent and cancelEvent in a valid manager.
use tigerkin.Prelude.{
  ℕ, ◌≡◌, ◌⊎◌, inl, inr, refl, sym, ap, ap₂, subst, ◌∙◌, Bool, true, false, ◌&&◌, Option, none,
  some, [], ◌∷◌, ◌++◌, arith, ◌==◌, if◌then◌else◌, get_elem?, set, Bool-cases, get_elem?-some,
}
use tigerkin.Prelude.Bytes.{pos}
use tigerkin.Scheduler.{up, down}
use tigerkin.IoManager.{
  Event, EventContext, FdContext, IoManager, Call, returns, and_then, get_event_context, has,
  with_bit, any_event, task_of, swapped_out, reset_context, Op, ctl_add, ctl_mod, ctl_del, Caller,
  waiting, is_empty, can_wait, add_to, room_for, add_event, del_event, cancel_event,
}
use tigerkin.IoManager.Contexts.{Roomy-room_for}
use tigerkin.IoManager.Invariant.{
  Slot, IsIdle, IsWaiting, holds-Slot, changed, drop-Sound, raise-Sound, fired, fire_lem,
  Roomy-Sound,
}
use tigerkin.IoManager.Kernel.{
  Obeys, wanted, wanted_left, pick, flip, IsValid, failed-IsValid, Switches, switched,
  changed-agrees,
}

wanted_more :
    (c : FdContext) (b : Bool × Bool) → wanted (if any_event c then ctl_mod else ctl_add) b ≡ b
wanted_more c b = ground arith

waiting-IsWaiting :
    (who : Caller) (to : ℕ) (cb : Option ℕ) (s : EventContext)
    → who.scheduler ≡ some to
    → IsIdle s
    → IsWaiting (waiting who cb s)
waiting-IsWaiting who to (some f) s sch (_, (co, _)) = ((to, sch), inl ((f, refl), co))
waiting-IsWaiting who to none s sch (_, (_, cb)) = ((to, sch), inr (cb, (who.co, refl)))

is_empty_idle : (s : EventContext) → IsIdle s → is_empty s ≡ true
is_empty_idle s (sch, (co, cb)) = rw (sch, co, cb) refl

module _ {K : Type 0} (epoll_ctl : Op → ℕ → Bool → Bool → K → K × Bool)
    (interest : K → ℕ → Bool × Bool) (tickle_fd : ℕ) (obeys : Obeys epoll_ctl interest) where
  -- delEvent
  pub del_event-Switches :
      (fd : ℕ) (e : Event) (m : IoManager K)
      → IsValid epoll_ctl interest tickle_fd obeys m
      → (b : Bool) × (n : IoManager K) × (del_event epoll_ctl (pos fd) e m ≡ returns b n)
        × Switches epoll_ctl interest tickle_fd obeys e false fd m b n
        × (n.scheduled ≡ m.scheduled)
  unfolding del_event
  del_event-Switches fd e m v = go (get_elem? m.contexts fd) refl
    where
      Dels : Type 0
      Dels =
          (b : Bool) × (n : IoManager K) × (del_event epoll_ctl (pos fd) e m ≡ returns b n)
          × Switches epoll_ctl interest tickle_fd obeys e false fd m b n
          × (n.scheduled ≡ m.scheduled)

      go : (o : Option FdContext) → get_elem? m.contexts fd ≡ o → Dels
      go none q = (false, m, rw (q, del_event) refl, (v, (λ j. refl), inl refl), refl)
      go (some c) q =
          let left = with_bit e false c in
          let op = if any_event left then ctl_mod else ctl_del in
          let k = (epoll_ctl op fd left.reads left.writes m.kernel).0 in
          elim (Bool-cases (has e c)) [
            | inr f ↦ (false, m, rw (q, del_event) (rw f refl), (v, (λ j. refl), inl refl), refl)
            | inl t ↦ elim (Bool-cases (epoll_ctl op fd left.reads left.writes m.kernel).1) [
              | inl err ↦ (
                false,
                record m { kernel = k },
                rw (q, del_event) (rw t (rw err refl)),
                (
                  failed-IsValid epoll_ctl interest tickle_fd obeys op fd left.reads left.writes m v
                      err,
                  (λ j. refl),
                  inl refl,
                ),
                refl,
              )
              | inr ok ↦
                  let s = reset_context (get_event_context e c) in
                  let n : IoManager K = record m {
                    kernel = k;
                    pending = down m.pending;
                    contexts = set m.contexts fd (changed e false s c);
                  } in
                  let valid : IsValid epoll_ctl interest tickle_fd obeys n = record {
                    sound =
                        drop-Sound e s m.contexts m.pending fd c v.sound q t (refl, (refl, refl));
                    agrees =
                        changed-agrees epoll_ctl interest tickle_fd obeys op e false fd s c m v q ok
                          (wanted_left left);
                  } in
                  (
                    true,
                    n,
                    rw (q, del_event) (rw t (rw ok refl)),
                    switched epoll_ctl interest tickle_fd obeys e false fd s c m n valid q t refl,
                    refl,
                  )
            ]
          ]

  -- What a call that fires an event gives to its scheduler.
  abbrev pub Hands : Event → ℕ → IoManager K → IoManager K → Type 0
  Hands e fd m n =
      (c : FdContext) × (to : ℕ) × (get_elem? m.contexts fd ≡ some c)
      × ((get_event_context e c).scheduler ≡ some to)
      × (n.scheduled ≡ m.scheduled ++ ((to, task_of (get_event_context e c)) ∷ []))

  -- cancelEvent
  pub cancel_event-Switches :
      (fd : ℕ) (e : Event) (m : IoManager K)
      → IsValid epoll_ctl interest tickle_fd obeys m
      → (b : Bool) × (n : IoManager K) × (cancel_event epoll_ctl (pos fd) e m ≡ returns b n)
        × Switches epoll_ctl interest tickle_fd obeys e false fd m b n
        × (((b ≡ false) × (n.scheduled ≡ m.scheduled)) ⊎ ((b ≡ true) × Hands e fd m n))
  unfolding cancel_event
  cancel_event-Switches fd e m v = go (get_elem? m.contexts fd) refl
    where
      Cancels : Type 0
      Cancels =
          (b : Bool) × (n : IoManager K) × (cancel_event epoll_ctl (pos fd) e m ≡ returns b n)
          × Switches epoll_ctl interest tickle_fd obeys e false fd m b n
          × (((b ≡ false) × (n.scheduled ≡ m.scheduled)) ⊎ ((b ≡ true) × Hands e fd m n))

      go : (o : Option FdContext) → get_elem? m.contexts fd ≡ o → Cancels
      go none q =
          (false, m, rw (q, cancel_event) refl, (v, (λ j. refl), inl refl), inl (refl, refl))
      go (some c) q =
          let left = with_bit e false c in
          let op = if any_event left then ctl_mod else ctl_del in
          let m1 : IoManager K = record m {
            kernel = (epoll_ctl op fd left.reads left.writes m.kernel).0;
          } in
          elim (Bool-cases (has e c)) [
            | inr f ↦ (
              false,
              m,
              rw (q, cancel_event) (rw f refl),
              (v, (λ j. refl), inl refl),
              inl (refl, refl),
            )
            | inl t ↦ elim (Bool-cases (epoll_ctl op fd left.reads left.writes m.kernel).1) [
              | inl err ↦ (
                false,
                m1,
                rw (q, cancel_event) (rw t (rw err refl)),
                (
                  failed-IsValid epoll_ctl interest tickle_fd obeys op fd left.reads left.writes m v
                      err,
                  (λ j. refl),
                  inl refl,
                ),
                inl (refl, refl),
              )
              | inr ok ↦
                  let s = swapped_out (get_event_context e c) in
                  let (to, sch, ran, sound) = fire_lem e fd m1 c v.sound q t in
                  let valid : IsValid epoll_ctl interest tickle_fd obeys (fired e fd c to m1) =
                    record {
                      sound = sound;
                      agrees =
                          changed-agrees epoll_ctl interest tickle_fd obeys op e false fd s c m v q
                            ok (wanted_left left);
                    } in
                  (
                    true,
                    fired e fd c to m1,
                    rw (q, cancel_event)
                        (rw t (rw ok (ap (λ r. and_then r (λ _ n. returns true n)) ran))),
                    switched epoll_ctl interest tickle_fd obeys e false fd s c m
                        (fired e fd c to m1) valid q t refl,
                    inr (refl, (c, to, q, sch, refl)),
                  )
            ]
          ]

  -- addEvent from the lock of the context on.
  add_to-Switches :
      (who : Caller) (to fd : ℕ) (e : Event) (cb : Option ℕ) (c : FdContext) (m : IoManager K)
      → IsValid epoll_ctl interest tickle_fd obeys m
      → get_elem? m.contexts fd ≡ some c
      → who.scheduler ≡ some to
      → can_wait who cb ≡ true
      → (b : Bool) × (n : IoManager K) × (add_to epoll_ctl who fd e cb c m ≡ returns b n)
        × Switches epoll_ctl interest tickle_fd obeys e true fd m b n
        × (n.scheduled ≡ m.scheduled)
  unfolding add_to
  add_to-Switches who to fd e cb c m v q sch can = elim (Bool-cases (has e c)) [
    | inl t ↦ (false, m, rw (t, add_to) refl, (v, (λ j. refl), inl refl), refl)
    | inr f ↦ elim (Bool-cases (epoll_ctl op fd more.reads more.writes m.kernel).1) [
      | inl err ↦ (
        false,
        record m { kernel = (epoll_ctl op fd more.reads more.writes m.kernel).0 },
        rw (f, add_to) (rw err refl),
        (
          failed-IsValid epoll_ctl interest tickle_fd obeys op fd more.reads more.writes m v err,
          (λ j. refl),
          inl refl,
        ),
        refl,
      )
      | inr ok ↦
          let s = get_event_context e c in
          let idle : IsIdle s = subst (λ b. Slot b s) f (holds-Slot e fd c (v.sound.each fd c q)) in
          let s' = waiting who cb s in
          let n : IoManager K = record m {
            kernel = (epoll_ctl op fd more.reads more.writes m.kernel).0;
            pending = up m.pending;
            contexts = set m.contexts fd (changed e true s' c);
          } in
          let valid : IsValid epoll_ctl interest tickle_fd obeys n = record {
            sound =
                raise-Sound e s' m.contexts m.pending fd c v.sound q f
                  (waiting-IsWaiting who to cb s sch idle);
            agrees =
                changed-agrees epoll_ctl interest tickle_fd obeys op e true fd s' c m v q ok
                  (wanted_more c (more.reads, more.writes));
          } in
          (
            true,
            n,
            rw (f, add_to) (rw ok (rw (is_empty_idle s idle, can) refl)),
            switched epoll_ctl interest tickle_fd obeys e true fd s' c m n valid q f refl,
            refl,
          )
    ]
  ]
    where
      more : FdContext
      more = with_bit e true c

      op : Op
      op = if any_event c then ctl_mod else ctl_add

  -- addEvent
  pub add_event-Switches :
      (who : Caller) (to fd : ℕ) (e : Event) (cb : Option ℕ) (m : IoManager K)
      → IsValid epoll_ctl interest tickle_fd obeys m
      → who.scheduler ≡ some to
      → can_wait who cb ≡ true
      → (b : Bool) × (n : IoManager K) × (add_event epoll_ctl who (pos fd) e cb m ≡ returns b n)
        × Switches epoll_ctl interest tickle_fd obeys e true fd m b n
        × (n.scheduled ≡ m.scheduled)
  unfolding add_event
  add_event-Switches who to fd e cb m v sch can =
      let cs = room_for fd m.contexts in
      let roomy = Roomy-room_for fd m.contexts v.sound.wide in
      let m' : IoManager K = record m { contexts = cs } in
      let v' : IsValid epoll_ctl interest tickle_fd obeys m' = record {
        sound = Roomy-Sound fd m.contexts cs m.pending roomy v.sound;
        agrees = λ j ne. v.agrees j ne ∙ sym (roomy.same_bits j);
      } in
      let (c, q) = get_elem?-some cs fd roomy.room in
      let (b, n, ran, (valid, all, was), log) = add_to-Switches who to fd e cb c m' v' q sch can in
      (
        b,
        n,
        rw (q, add_event) ran,
        (
          valid,
          (λ j.
              all j
              ∙ ap₂ (λ x y. if b && (j == fd) then flip e true x else y) (roomy.same_bits fd)
                  (roomy.same_bits j)),
          elim was [ inl f ↦ inl f | inr f ↦ inr (ap (pick e) (sym (roomy.same_bits fd)) ∙ f) ],
        ),
        log,
      )

  -- A call returns, and its result and the manager that it leaves are as `P` says.
  abbrev pub Runs : Call K Bool → (Bool → IoManager K → Type 0) → Type 0
  Runs call P = (b : Bool) × (n : IoManager K) × (call ≡ returns b n) × P b n

  -- Let epoll_ctl be as it should, the manager be valid, and the caller have a scheduler and a
  -- callback or a coroutine that executes. addEvent, delEvent and cancelEvent for a descriptor
  -- that is not negative return and leave a valid manager, in which the bit of the event is
  -- switched where they succeed and all other bits are as they were. addEvent and delEvent
  -- schedule nothing; cancelEvent schedules the task that waits for the event just where it
  -- succeeds.
  pub calls-Switches :
      (who : Caller) (to fd : ℕ) (e : Event) (cb : Option ℕ) (m : IoManager K)
      → IsValid epoll_ctl interest tickle_fd obeys m
      → who.scheduler ≡ some to
      → can_wait who cb ≡ true
      → Runs (add_event epoll_ctl who (pos fd) e cb m) (λ b n.
        Switches epoll_ctl interest tickle_fd obeys e true fd m b n × (n.scheduled ≡ m.scheduled))
        × Runs (del_event epoll_ctl (pos fd) e m) (λ b n.
          Switches epoll_ctl interest tickle_fd obeys e false fd m b n
          × (n.scheduled ≡ m.scheduled))
        × Runs (cancel_event epoll_ctl (pos fd) e m) (λ b n.
          Switches epoll_ctl interest tickle_fd obeys e false fd m b n
          × (((b ≡ false) × (n.scheduled ≡ m.scheduled)) ⊎ ((b ≡ true) × Hands e fd m n)))
  calls-Switches who to fd e cb m v sch can =
      let (a, n, adds, a_switches, a_log) = add_event-Switches who to fd e cb m v sch can in
      let (d, o, dels, d_switches, d_log) = del_event-Switches fd e m v in
      let (c, p, cancels, c_switches, c_log) = cancel_event-Switches fd e m v in
      (
        (a, n, adds, (a_switches, a_log)),
        (d, o, dels, (d_switches, d_log)),
        (c, p, cancels, (c_switches, c_log)),
      )
