-- ===== src/IoManager/Kernel.antt =====
-- src/iomanager.cpp: the calls of epoll_ctl, the managers whose table agrees with the kernel, and what one
-- call of epoll_ctl makes of them.
use tigerkin.Prelude.{
  ℕ, ◌≡◌, ◌≢◌, ◌⊎◌, inr, refl, sym, ap, ◌∙◌, Bool, true, false, not, ◌&&◌, some, List, arith, ◌==◌,
  if◌then◌else◌, get_elem?, set,
}
use tigerkin.IoManager.{
  Event, read_event, write_event, EventContext, FdContext, IoManager, has, with_bit, any_event, Op,
  ctl_mod, ctl_del,
}
use tigerkin.IoManager.Contexts.{bits, bits_of, bits-set}
use tigerkin.IoManager.Invariant.{Sound, changed}

-- What is wanted of a descriptor by a call of epoll_ctl that succeeds.
abbrev pub wanted : Op → Bool × Bool → Bool × Bool
wanted ctl_del b = (false, false)
wanted _ b = b

-- One event of a pair of bits.
abbrev pub pick : Event → Bool × Bool → Bool
pick read_event b = b.0
pick write_event b = b.1

abbrev pub flip : Event → Bool → Bool × Bool → Bool × Bool
flip read_event x b = (x, b.1)
flip write_event x b = (b.0, x)

-- epoll_ctl sets what the kernel watches of its descriptor, or fails and changes nothing.
abbrev pub Obeys :
    {K : Type 0} → (Op → ℕ → Bool → Bool → K → K × Bool) → (K → ℕ → Bool × Bool) → Type 0
Obeys {K} epoll_ctl interest =
    (op : Op) (fd : ℕ) (r w : Bool) (k : K) (j : ℕ)
    → interest (epoll_ctl op fd r w k).0 j ≡ (
        if (epoll_ctl op fd r w k).1
        then interest k j
        else if j == fd
        then wanted op (r, w)
        else interest k j)

pub wanted_left :
    (c : FdContext)
    → wanted (if any_event c then ctl_mod else ctl_del) (c.reads, c.writes) ≡ (c.reads, c.writes)
wanted_left c = ground arith

pick-has : (e : Event) (c : FdContext) → pick e (c.reads, c.writes) ≡ has e c
pick-has read_event c = refl
pick-has write_event c = refl

flip-with :
    (e : Event) (to : Bool) (c : FdContext)
    → flip e to (c.reads, c.writes) ≡ ((with_bit e to c).reads, (with_bit e to c).writes)
flip-with read_event to c = refl
flip-with write_event to c = refl

flip-changed :
    (e : Event) (to : Bool) (s : EventContext) (c : FdContext)
    → ((changed e to s c).reads, (changed e to s c).writes) ≡ flip e to (c.reads, c.writes)
flip-changed read_event to s c = refl
flip-changed write_event to s c = refl

bits-changed :
    (e : Event) (to : Bool) (s : EventContext) (cs : List FdContext) (fd : ℕ) (c : FdContext)
    → get_elem? cs fd ≡ some c
    → (j : ℕ)
    → bits (set cs fd (changed e to s c)) j
      ≡ (if j == fd then flip e to (c.reads, c.writes) else bits cs j)
bits-changed e to s cs fd c h j =
    bits-set cs fd c (changed e to s c) h j
    ∙ ap (λ x. if j == fd then x else bits cs j) (flip-changed e to s c)

module _ {K : Type 0} (epoll_ctl : Op → ℕ → Bool → Bool → K → K × Bool)
    (interest : K → ℕ → Bool × Bool) (tickle_fd : ℕ) (obeys : Obeys epoll_ctl interest) where
  -- The table is sound, and the kernel watches the events that are registered. The tickle pipe is
  -- watched besides.
  pub record IsValid (m : IoManager K) : Type 0 where
    pub sound : Sound m.contexts m.pending
    pub agrees : (j : ℕ) → j ≢ tickle_fd → interest m.kernel j ≡ bits m.contexts j

  -- A call of epoll_ctl that fails leaves the manager valid.
  pub failed-IsValid :
      (op : Op) (fd : ℕ) (r w : Bool) (m : IoManager K)
      → IsValid m
      → (epoll_ctl op fd r w m.kernel).1 ≡ true
      → IsValid (record m { kernel = (epoll_ctl op fd r w m.kernel).0 })
  failed-IsValid op fd r w m v e = record {
    sound = v.sound;
    agrees = λ j ne. (obeys op fd r w m.kernel j ∙ rw e refl) ∙ v.agrees j ne;
  }

  -- One that succeeds agrees with a table in which the descriptor has the bits that were asked for.
  pub succeeded-agrees :
      (op : Op) (fd : ℕ) (r w : Bool) (m : IoManager K) (cs : List FdContext)
      → IsValid m
      → (epoll_ctl op fd r w m.kernel).1 ≡ false
      → ((j : ℕ) → bits cs j ≡ (if j == fd then wanted op (r, w) else bits m.contexts j))
      → (j : ℕ) → j ≢ tickle_fd
      → interest (epoll_ctl op fd r w m.kernel).0 j ≡ bits cs j
  succeeded-agrees op fd r w m cs v e h j ne =
      (obeys op fd r w m.kernel j ∙ rw e refl)
      ∙ (ap (λ b. if j == fd then wanted op (r, w) else b) (v.agrees j ne) ∙ sym (h j))

  -- How a call for one event of a descriptor ends: with a valid manager in which the bit of the event
  -- is `to`, and was not, if the result `b` is true. No other bit has changed.
  abbrev pub Switches : Event → Bool → ℕ → IoManager K → Bool → IoManager K → Type 0
  Switches e to fd m b n =
      IsValid n
      × ((j : ℕ)
          → bits n.contexts j
            ≡ (if b && (j == fd) then flip e to (bits m.contexts fd) else bits m.contexts j))
      × ((b ≡ false) ⊎ (pick e (bits m.contexts fd) ≡ not to))

  pub switched :
      (e : Event) (to : Bool) (fd : ℕ) (s : EventContext) (c : FdContext) (m n : IoManager K)
      → IsValid n
      → get_elem? m.contexts fd ≡ some c
      → has e c ≡ not to
      → n.contexts ≡ set m.contexts fd (changed e to s c)
      → Switches e to fd m true n
  switched e to fd s c m n v h t same = (
    v,
    λ j.
        ap (λ cs. bits cs j) same
        ∙ (bits-changed e to s m.contexts fd c h j
            ∙ ap (λ x. if j == fd then flip e to x else bits m.contexts j) (sym (ap bits_of h))),
    inr (ap (λ o. pick e (bits_of o)) h ∙ (pick-has e c ∙ t)),
  )

  -- The kernel after a call that asks for the bits of a changed context.
  pub changed-agrees :
      (op : Op) (e : Event) (to : Bool) (fd : ℕ) (s : EventContext) (c : FdContext)
      (m : IoManager K)
      → IsValid m
      → get_elem? m.contexts fd ≡ some c
      → (epoll_ctl op fd (with_bit e to c).reads (with_bit e to c).writes m.kernel).1 ≡ false
      → wanted op ((with_bit e to c).reads, (with_bit e to c).writes)
        ≡ ((with_bit e to c).reads, (with_bit e to c).writes)
      → (j : ℕ) → j ≢ tickle_fd
      → interest (epoll_ctl op fd (with_bit e to c).reads (with_bit e to c).writes m.kernel).0 j
        ≡ bits (set m.contexts fd (changed e to s c)) j
  changed-agrees op e to fd s c m v h ok w =
      succeeded-agrees op fd (with_bit e to c).reads (with_bit e to c).writes m
        (set m.contexts fd (changed e to s c)) v ok
        (λ j.
          bits-changed e to s m.contexts fd c h j
          ∙ ap (λ x. if j == fd then x else bits m.contexts j) (flip-with e to c ∙ sym w))
