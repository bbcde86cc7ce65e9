-- ===== src/Tests/Events.antt =====
-- src/iomanager.cpp at small inputs: a kernel that does all it is asked for.
use tigerkin.Prelude.{
  ℕ, zero, suc, ◌≡◌, ◌≢◌, ◌⊎◌, inl, refl, subst, Bool, true, false, none, some, [], ◌∷◌, ◌++◌,
  arith, ◌==◌, if◌then◌else◌, get_elem?,
}
use tigerkin.Prelude.Bytes.{pos}
use tigerkin.IoManager.{
  read_event, write_event, FdContext, IoManager, returns, aborts, Op, Caller, reported, add_event,
  del_event, cancel_event, cancel_all_event, handle_report, empty_context, new_context, new_manager,
  ctl_left,
}
use tigerkin.IoManager.Contexts.{bits}
use tigerkin.IoManager.Invariant.{IsSound, new_context-IsSound}
use tigerkin.IoManager.Kernel.{Obeys, IsValid, Switches, wanted}
use tigerkin.IoManager.Calls.{Hands, Runs, calls-Switches}
use tigerkin.IoManager.Delivery.{handed, covered, cut}
use tigerkin.IoManager.Delivery.Ends.{
  overlaps, left_of, cancel_all_event-Delivered, handle_report-Delivered,
}
use tigerkin.IoManager.Reachable.{adds, here, next, Reach-IsValid}

abbrev Kernel : Type 0
Kernel = ℕ → Bool × Bool

abbrev control : Op → ℕ → Bool → Bool → Kernel → Kernel × Bool
control op fd r w k = (λ j. if j == fd then wanted op (r, w) else k j, false)

abbrev watched : Kernel → ℕ → Bool × Bool
watched k j = k j

control-Obeys : Obeys control watched
control-Obeys op fd r w k j = refl

-- The callback 9 of the scheduler 7 waits for reads of descriptor 1.
abbrev waiting_context : FdContext
waiting_context = record {
  read = record { scheduler = some 7; thread_id = 0; co = none; cb = some 9 };
  write = empty_context;
  fd = 1;
  reads = true;
  writes = false;
}

abbrev one_waits : IoManager Kernel
one_waits = record {
  contexts = new_context 0 ∷ waiting_context ∷ [];
  pending = 1;
  kernel = λ j. if j == 1 then (true, false) else (false, false);
  scheduled = [];
}

each-IsSound : (i : ℕ) (c : FdContext) → get_elem? one_waits.contexts i ≡ some c → IsSound i c
each-IsSound zero c e =
    let same : new_context 0 ≡ c = cc in subst (IsSound 0) same (new_context-IsSound 0)
each-IsSound (suc zero) c e =
    let same : waiting_context ≡ c = cc in
    subst (IsSound 1) same (record {
      named = refl;
      read_slot = ((7, refl), inl ((9, refl), refl));
      write_slot = (refl, (refl, refl));
    })
each-IsSound (suc (suc i)) c e = absurd (cc)

agrees : (j : ℕ) → j ≢ 0 → watched one_waits.kernel j ≡ bits one_waits.contexts j
agrees zero ne = refl
agrees (suc zero) ne = refl
agrees (suc (suc j)) ne = let off : (suc (suc j) == 1) ≡ false = ground arith in rw off refl

one_waits-IsValid : IsValid control watched 0 control-Obeys one_waits
one_waits-IsValid = record {
  sound = record { each = each-IsSound; counted = refl; wide = omega arith };
  agrees = agrees;
}

abbrev caller : Caller
caller = record { scheduler = some 7; co = 3; executing = true; thread_id = 2 }

calls-Switches_example :
    Runs control watched 0 control-Obeys
      (add_event control caller (pos 1) write_event none one_waits)
      (λ b n.
        Switches control watched 0 control-Obeys write_event true 1 one_waits b n
        × (n.scheduled ≡ one_waits.scheduled))
    × Runs control watched 0 control-Obeys (del_event control (pos 1) write_event one_waits) (λ b n.
      Switches control watched 0 control-Obeys write_event false 1 one_waits b n
      × (n.scheduled ≡ one_waits.scheduled))
    × Runs control watched 0 control-Obeys
        (cancel_event control (pos 1) write_event one_waits)
        (λ b n.
          Switches control watched 0 control-Obeys write_event false 1 one_waits b n
          × (((b ≡ false) × (n.scheduled ≡ one_waits.scheduled))
              ⊎ ((b ≡ true) × Hands control watched 0 control-Obeys write_event 1 one_waits n)))
calls-Switches_example =
    calls-Switches control watched 0 control-Obeys caller 7 1 write_event none one_waits
      one_waits-IsValid refl refl

cancel_all_event-Delivered_example :
    (b : Bool) × (n : IoManager Kernel) × (cancel_all_event control (pos 1) one_waits ≡ returns b n)
    × IsValid control watched 0 control-Obeys n
    × (((b ≡ false)
          × (n.scheduled ≡ one_waits.scheduled)
          × ((j : ℕ) → bits n.contexts j ≡ bits one_waits.contexts j))
        ⊎ ((b ≡ true)
            × ((c : FdContext) × (get_elem? one_waits.contexts 1 ≡ some c)
                × (n.scheduled ≡ one_waits.scheduled ++ handed c.reads c.writes c))
            × ((j : ℕ)
                → bits n.contexts j
                  ≡ (if j == 1 then (false, false) else bits one_waits.contexts j))))
cancel_all_event-Delivered_example =
    cancel_all_event-Delivered control watched 0 control-Obeys 1 one_waits one_waits-IsValid

handle_report-Delivered_example :
    let call = handle_report control (reported 1 false true false) one_waits in
    ((n : IoManager Kernel) × (call ≡ returns tt n)
      × IsValid control watched 0 control-Obeys n
      × (((n.contexts ≡ one_waits.contexts)
            × (n.scheduled ≡ one_waits.scheduled)
            × ((overlaps true false waiting_context ≡ false)
                ⊎ ((ctl_left control 1 (left_of true false waiting_context) one_waits.kernel).1
                    ≡ true)))
          ⊎ ((overlaps true false waiting_context ≡ true)
              × (covered true false waiting_context ≡ true)
              × (n.scheduled ≡ one_waits.scheduled ++ handed true false waiting_context)
              × ((j : ℕ)
                  → bits n.contexts j ≡ (
                      if j == 1
                      then cut true false (true, false)
                      else bits one_waits.contexts j)))))
    ⊎ ((overlaps true false waiting_context ≡ true)
        × (covered true false waiting_context ≡ false)
        × (call ≡ aborts))
handle_report-Delivered_example =
    handle_report-Delivered control watched 0 control-Obeys 1 false true false waiting_context
      one_waits one_waits-IsValid refl

abbrev quiet_kernel : Kernel
quiet_kernel j = (false, false)

-- After a call of addEvent.
Reach-IsValid_example : (n : IoManager Kernel) × IsValid control watched 0 control-Obeys n
Reach-IsValid_example =
    let start =
      Reach-IsValid control watched 0 control-Obeys quiet_kernel (new_manager quiet_kernel)
        (λ j ne. refl) here in
    let ((b, n, ran, _), _, _) =
      calls-Switches control watched 0 control-Obeys caller 7 1 read_event none
        (new_manager quiet_kernel) start refl refl in
    (
      n,
      Reach-IsValid control watched 0 control-Obeys quiet_kernel n (λ j ne. refl)
          (next here (adds caller 7 1 read_event none b refl refl ran)),
    )
