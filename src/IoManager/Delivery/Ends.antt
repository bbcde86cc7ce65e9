-- ===== src/IoManager/Delivery/Ends.antt =====
-- src/iomanager.cpp: the events that cancelAllEvent and idle deliver.
use tigerkin.Prelude.{
  ℕ, ◌≡◌, ◌⊎◌, inl, inr, refl, sym, ap, ap₂, ◌∙◌, Bool, true, false, not, ◌&&◌, ◌||◌, Option, none,
  some, ◌++◌, arith, ◌==◌, ==_refl, if◌then◌else◌, get_elem?, Bool-cases,
}
use tigerkin.Prelude.Bytes.{pos}
use tigerkin.IoManager.{
  FdContext, IoManager, returns, aborts, and_then, any_event, Op, ctl_mod, ctl_del, all_fired,
  reported, handle_report, cancel_all_event, ctl_left,
}
use tigerkin.IoManager.Contexts.{bits, bits_of}
use tigerkin.IoManager.Kernel.{
  Obeys, IsValid, failed-IsValid, succeeded-agrees, wanted, wanted_left,
}
use tigerkin.IoManager.Delivery.{
  handed, cut, covered, Delivered, cut_self, covered_self, fire_both-Delivered, fire_both_aborts,
}

-- Whether some registered event is reported.
abbrev pub overlaps : Bool → Bool → FdContext → Bool
overlaps r w c = (c.reads && r) || (c.writes && w)

-- The context as idle asks the kernel to watch it.
abbrev pub left_of : Bool → Bool → FdContext → FdContext
left_of r w c = record c { reads = c.reads && not r; writes = c.writes && not w }

left_of-cut :
    (r w : Bool) (c : FdContext)
    → ((left_of r w c).reads, (left_of r w c).writes) ≡ cut r w (c.reads, c.writes)
left_of-cut r w c = ground arith

module _ {K : Type 0} (epoll_ctl : Op → ℕ → Bool → Bool → K → K × Bool)
    (interest : K → ℕ → Bool × Bool) (tickle_fd : ℕ) (obeys : Obeys epoll_ctl interest) where
  -- The manager after a call of epoll_ctl that succeeds and the delivery of the events.
  left-IsValid :
      (op : Op) (r w x y : Bool) (i fd : ℕ) (c : FdContext) (m n : IoManager K)
      → IsValid epoll_ctl interest tickle_fd obeys m
      → fd ≡ i
      → (epoll_ctl op fd x y m.kernel).1 ≡ false
      → wanted op (x, y) ≡ cut r w (c.reads, c.writes)
      → Delivered r w i c (record m { kernel = (epoll_ctl op fd x y m.kernel).0 }) n
      → IsValid epoll_ctl interest tickle_fd obeys n
  left-IsValid op r w x y i fd c m n v named ok asked d = record {
    sound = d.sound;
    agrees = λ j ne.
        ap (λ k. interest k j) d.kernel_eq
        ∙ succeeded-agrees epoll_ctl interest tickle_fd obeys op fd x y m n.contexts v ok
            (λ j.
              d.bits_eq j
              ∙ ap₂ (λ f b. if j == f then b else bits m.contexts j) (sym named) (sym asked))
            j ne;
  }

  -- Let epoll_ctl be as it should. In a valid manager cancelAllEvent for a descriptor that is
  -- not negative returns and leaves a valid manager: either it gives false, with the bits and
  -- the tasks as they were, or it gives true, both bits of the descriptor are cleared, and the
  -- tasks that wait for its registered events are scheduled, the read first.
  pub cancel_all_event-Delivered :
      (fd : ℕ) (m : IoManager K)
      → IsValid epoll_ctl interest tickle_fd obeys m
      → (b : Bool) × (n : IoManager K) × (cancel_all_event epoll_ctl (pos fd) m ≡ returns b n)
        × IsValid epoll_ctl interest tickle_fd obeys n
        × (((b ≡ false)
              × (n.scheduled ≡ m.scheduled)
              × ((j : ℕ) → bits n.contexts j ≡ bits m.contexts j))
            ⊎ ((b ≡ true)
                × ((c : FdContext) × (get_elem? m.contexts fd ≡ some c)
                    × (n.scheduled ≡ m.scheduled ++ handed c.reads c.writes c))
                × ((j : ℕ)
                    → bits n.contexts j ≡ (if j == fd then (false, false) else bits m.contexts j))))
  unfolding cancel_all_event all_fired
  cancel_all_event-Delivered fd m v = go (get_elem? m.contexts fd) refl
    where
      Cancels : Type 0
      Cancels =
          (b : Bool) × (n : IoManager K) × (cancel_all_event epoll_ctl (pos fd) m ≡ returns b n)
          × IsValid epoll_ctl interest tickle_fd obeys n
          × (((b ≡ false)
                × (n.scheduled ≡ m.scheduled)
                × ((j : ℕ) → bits n.contexts j ≡ bits m.contexts j))
              ⊎ ((b ≡ true)
                  × ((c : FdContext) × (get_elem? m.contexts fd ≡ some c)
                      × (n.scheduled ≡ m.scheduled ++ handed c.reads c.writes c))
                  × ((j : ℕ)
                      → bits n.contexts j
                        ≡ (if j == fd then (false, false) else bits m.contexts j))))

      go : (o : Option FdContext) → get_elem? m.contexts fd ≡ o → Cancels
      go none q = (false, m, rw (q, cancel_all_event) refl, v, inl (refl, refl, λ j. refl))
      go (some c) q = elim (Bool-cases (any_event c)) [
        | inr f ↦ (false, m, rw (q, cancel_all_event) (rw f refl), v, inl (refl, refl, λ j. refl))
        | inl t ↦
            let k = (epoll_ctl ctl_del fd false false m.kernel).0 in
            let m1 : IoManager K = record m { kernel = k } in
            elim (Bool-cases (epoll_ctl ctl_del fd false false m.kernel).1) [
              | inl err ↦ (
                false,
                m1,
                rw (q, cancel_all_event) (rw t (rw err refl)),
                failed-IsValid epoll_ctl interest tickle_fd obeys ctl_del fd false false m v err,
                inl (refl, refl, λ j. refl),
              )
              | inr ok ↦
                  let (n, ran, d) =
                    fire_both-Delivered c.reads c.writes fd c m1 v.sound q (covered_self c) in
                  let left = d.left in
                  let gone : (left.reads, left.writes) ≡ (false, false) =
                    sym (ap bits_of d.here) ∙ (d.bits_eq fd ∙ rw (==_refl fd) (cut_self c)) in
                  let none_left : any_event left ≡ false = ap (λ b. b.0 || b.1) gone in
                  (
                    true,
                    n,
                    rw (q, cancel_all_event)
                        (rw t (
                          rw ok (
                            ap (λ x. and_then x (λ _ m'. all_fired fd m')) ran
                            ∙ rw (d.here, all_fired) (rw none_left refl)))),
                    left-IsValid ctl_del c.reads c.writes false false fd fd c m n v refl ok
                        (sym (cut_self c)) d,
                    inr (
                      refl,
                      (c, q, d.log_eq),
                      λ j.
                          d.bits_eq j
                          ∙ ap (λ b. if j == fd then b else bits m.contexts j) (cut_self c),
                    ),
                  )
            ]
      ]

  -- Let epoll_ctl be as it should. In a valid manager an event of epoll_wait for a context of
  -- the table has one of three ends. It returns with table and tasks as they were, and then no
  -- reported event is registered or epoll_ctl failed; or every reported event is registered, the
  -- tasks of these events are scheduled and their bits are cleared; in both cases the manager
  -- stays valid. Or one reported event is registered and another is not, and the process aborts.
  pub handle_report-Delivered :
      (i : ℕ) (err epollin epollout : Bool) (c : FdContext) (m : IoManager K)
      → IsValid epoll_ctl interest tickle_fd obeys m
      → get_elem? m.contexts i ≡ some c
      → let r = err || epollin in
        let w = err || epollout in
        let call = handle_report epoll_ctl (reported i err epollin epollout) m in
        ((n : IoManager K) × (call ≡ returns tt n)
          × IsValid epoll_ctl interest tickle_fd obeys n
          × (((n.contexts ≡ m.contexts)
                × (n.scheduled ≡ m.scheduled)
                × ((overlaps r w c ≡ false)
                    ⊎ ((ctl_left epoll_ctl c.fd (left_of r w c) m.kernel).1 ≡ true)))
              ⊎ ((overlaps r w c ≡ true)
                  × (covered r w c ≡ true)
                  × (n.scheduled ≡ m.scheduled ++ handed r w c)
                  × ((j : ℕ)
                      → bits n.contexts j
                        ≡ (if j == i then cut r w (c.reads, c.writes) else bits m.contexts j)))))
        ⊎ ((overlaps r w c ≡ true) × (covered r w c ≡ false) × (call ≡ aborts))
  unfolding handle_report
  handle_report-Delivered i err epollin epollout c m v q =
      let r = err || epollin in
      let w = err || epollout in
      let left = left_of r w c in
      let op = if any_event left then ctl_mod else ctl_del in
      let m1 : IoManager K = record m {
        kernel = (epoll_ctl op c.fd left.reads left.writes m.kernel).0;
      } in
      elim (Bool-cases (overlaps r w c)) [
        | inr f ↦ inl (m, rw (q, handle_report) (rw f refl), v, inl (refl, refl, inl f))
        | inl t ↦ elim (Bool-cases (epoll_ctl op c.fd left.reads left.writes m.kernel).1) [
          | inl e ↦ inl (
            m1,
            rw (q, handle_report) (rw t (rw e refl)),
            failed-IsValid epoll_ctl interest tickle_fd obeys op c.fd left.reads left.writes m v e,
            inl (refl, refl, inr e),
          )
          | inr ok ↦ elim (Bool-cases (covered r w c)) [
            | inr bad ↦ inr (
              t,
              bad,
              rw (q, handle_report) (rw t (rw ok (fire_both_aborts r w i c m1 v.sound q bad))),
            )
            | inl good ↦
                let (n, ran, d) = fire_both-Delivered r w i c m1 v.sound q good in
                inl (
                  n,
                  rw (q, handle_report) (rw t (rw ok ran)),
                  left-IsValid op r w left.reads left.writes i c.fd c m n v
                      (v.sound.each i c q).named ok (wanted_left left ∙ left_of-cut r w c) d,
                  inr (t, good, d.log_eq, d.bits_eq),
                )
          ]
        ]
      ]
