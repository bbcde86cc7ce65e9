-- ===== src/IoManager/Reachable.antt =====
-- src/iomanager.cpp: every state that the calls of a manager lead to.
use tigerkin.Prelude.{
  ℕ, ◌≡◌, ◌≢◌, inl, inr, sym, subst, ◌∙◌, Bool, true, false, Option, some, [], arith, get_elem?,
}
use tigerkin.Prelude.Bytes.{pos}
use tigerkin.IoManager.{
  Event, FdContext, IoManager, Call, returns, Op, Caller, can_wait, add_event, del_event,
  cancel_event, cancel_all_event, reported, handle_report, new_manager, fd_contexts_resize,
}
use tigerkin.IoManager.Contexts.{Roomy-grown}
use tigerkin.IoManager.Invariant.{IsSound, new_context-IsSound}
use tigerkin.IoManager.Kernel.{Obeys, IsValid}
use tigerkin.IoManager.Calls.{del_event-Switches, cancel_event-Switches, add_event-Switches}
use tigerkin.IoManager.Delivery.Ends.{cancel_all_event-Delivered, handle_report-Delivered}

module _ {K : Type 0} (epoll_ctl : Op → ℕ → Bool → Bool → K → K × Bool)
    (interest : K → ℕ → Bool × Bool) (tickle_fd : ℕ) (obeys : Obeys epoll_ctl interest) where
  -- A call that returns. Events are added by a thread that has a scheduler, with a callback or from a
  -- coroutine that is executing, and the kernel reports contexts of the table.
  pub data Step (m n : IoManager K) : Type 0 where
    adds :
        (who : Caller) (to fd : ℕ) (e : Event) (cb : Option ℕ) (b : Bool)
        → who.scheduler ≡ some to
        → can_wait who cb ≡ true
        → add_event epoll_ctl who (pos fd) e cb m ≡ returns b n
        → Step m n
    deletes :
        (fd : ℕ) (e : Event) (b : Bool) → del_event epoll_ctl (pos fd) e m ≡ returns b n → Step m n
    cancels :
        (fd : ℕ) (e : Event) (b : Bool)
        → cancel_event epoll_ctl (pos fd) e m ≡ returns b n
        → Step m n
    cancels_all :
        (fd : ℕ) (b : Bool) → cancel_all_event epoll_ctl (pos fd) m ≡ returns b n → Step m n
    handles :
        (i : ℕ) (err epollin epollout : Bool) (c : FdContext)
        → get_elem? m.contexts i ≡ some c
        → handle_report epoll_ctl (reported i err epollin epollout) m ≡ returns tt n
        → Step m n

  pub data Reach (m : IoManager K) : IoManager K → Type 0 where
    here : Reach m m
    next : {n o : IoManager K} → Reach m n → Step n o → Reach m o

  abbrev Good : IoManager K → Type 0
  Good = IsValid epoll_ctl interest tickle_fd obeys

  new_manager-IsValid :
      (k : K) → ((j : ℕ) → j ≢ tickle_fd → interest k j ≡ (false, false)) → Good (new_manager k)
  unfolding new_manager fd_contexts_resize
  new_manager-IsValid k quiet =
      let roomy = Roomy-grown 0 64 [] (omega arith) (omega arith) in
      record {
        sound = record {
          each = λ i c h. elim (roomy.old_or_new i c h) [
            | inl old ↦ absurd (cc)
            | inr new ↦ subst (λ x. IsSound i x) (sym new) (new_context-IsSound i)
          ];
          counted = omega (arith, roomy.same_count);
          wide = omega arith;
        };
        agrees = λ j ne. quiet j ne ∙ sym (roomy.same_bits j);
      }

  result_eq :
      {A : Type 0} {a b : A} {m n : IoManager K} {c : Call K A}
      → c ≡ returns a m
      → c ≡ returns b n
      → m ≡ n
  result_eq p q = cc

  Step-IsValid : {m n : IoManager K} → Step m n → Good m → Good n
  Step-IsValid {m} {n} (adds who to fd e cb b sch can ran) v =
      let (_, o, ran', (good, _, _), _) =
        add_event-Switches epoll_ctl interest tickle_fd obeys who to fd e cb m v sch can in
      subst Good (result_eq ran' ran) good
  Step-IsValid {m} {n} (deletes fd e b ran) v =
      let (_, o, ran', (good, _, _), _) =
        del_event-Switches epoll_ctl interest tickle_fd obeys fd e m v in
      subst Good (result_eq ran' ran) good
  Step-IsValid {m} {n} (cancels fd e b ran) v =
      let (_, o, ran', (good, _, _), _) =
        cancel_event-Switches epoll_ctl interest tickle_fd obeys fd e m v in
      subst Good (result_eq ran' ran) good
  Step-IsValid {m} {n} (cancels_all fd b ran) v =
      let (_, o, ran', good, _) =
        cancel_all_event-Delivered epoll_ctl interest tickle_fd obeys fd m v in
      subst Good (result_eq ran' ran) good
  Step-IsValid {m} {n} (handles i err epollin epollout c q ran) v =
      elim (handle_report-Delivered epoll_ctl interest tickle_fd obeys i err epollin epollout c m v
        q) [
          | inl (o, ran', good, _) ↦ subst Good (result_eq ran' ran) good
          | inr (_, _, bad) ↦ absurd (cc)
        ]

  Reach-Good : {m n : IoManager K} → Reach m n → Good m → Good n
  Reach-Good here v = v
  Reach-Good (next r s) v = Step-IsValid s (Reach-Good r v)

  -- Let epoll_ctl set what the kernel watches of its descriptor, or fail and change nothing, and
  -- let a new manager begin with a kernel that watches nothing but the tickle pipe. After any
  -- sequence of calls that return, of addEvent (by a thread that has a scheduler, with a
  -- callback or from a coroutine that executes), delEvent, cancelEvent, cancelAllEvent and the
  -- handling of reported contexts of the table: each context stands at its descriptor, just the
  -- events whose bits are set have a scheduler and a callback or a coroutine, the counter is the
  -- number of bits, and the kernel watches of each descriptor but the pipe's what its bits say.
  pub Reach-IsValid :
      (k : K) (n : IoManager K)
      → ((j : ℕ) → j ≢ tickle_fd → interest k j ≡ (false, false))
      → Reach (new_manager k) n
      → IsValid epoll_ctl interest tickle_fd obeys n
  Reach-IsValid k n quiet r = Reach-Good r (new_manager-IsValid k quiet)
