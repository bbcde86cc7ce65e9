-- ===== src/IoManager/Delivery.antt =====
-- src/iomanager.cpp: what the two calls of triggerEvent in a row deliver.
pub mod Ends
use tigerkin.Prelude.{
  ℕ, ◌≡◌, ◌⊎◌, inl, inr, refl, sym, ap, ap₂, ◌∙◌, Bool, true, false, not, ◌&&◌, ◌||◌, Option, none,
  some, List, [], ◌∷◌, ◌++◌, append_assoc, append-nil, arith, ◌==◌, ==_refl, ==_iff, if◌then◌else◌,
  get_elem?, Bool-cases, get_elem?-set_self,
}
use tigerkin.Prelude.Bytes.{pos}
use tigerkin.Scheduler.{Task}
use tigerkin.IoManager.{
  read_event, write_event, EventContext, FdContext, IoManager, returns, aborts, and_then, any_event,
  task_of, swapped_out, Op, ctl_mod, ctl_del, fire, fire_if, fire_both, all_fired, reported,
  handle_report, cancel_all_event, ctl_left,
}
use tigerkin.IoManager.Contexts.{bits, bits_of, bits-set, get_elem?-lt}
use tigerkin.IoManager.Invariant.{Sound, changed, fired, fire_lem, fire_aborts}
use tigerkin.IoManager.Kernel.{
  Obeys, IsValid, failed-IsValid, succeeded-agrees, wanted, wanted_left,
}

-- The task of an event for the scheduler that waits for it.
abbrev pub entry : EventContext → List (ℕ × Task)
entry s = elim s.scheduler [ none ↦ [] | some to ↦ (to, task_of s) ∷ [] ]

-- The tasks of the events of a context that are reported, and the bits that are left.
abbrev pub handed : Bool → Bool → FdContext → List (ℕ × Task)
handed r w c = (if r then entry c.read else []) ++ (if w then entry c.write else [])

abbrev pub cut : Bool → Bool → Bool × Bool → Bool × Bool
cut r w b = (if r then false else b.0, if w then false else b.1)

-- Every event that is reported is registered.
abbrev pub covered : Bool → Bool → FdContext → Bool
covered r w c = (not r || c.reads) && (not w || c.writes)

-- The events of a context, those of `r` and `w`, have been delivered.
pub record Delivered {K : Type 0} (r w : Bool) (i : ℕ) (c : FdContext) (m n : IoManager K)
    : Type 0 where
  pub left : FdContext
  pub here : get_elem? n.contexts i ≡ some left
  pub sound : Sound n.contexts n.pending
  pub kernel_eq : n.kernel ≡ m.kernel
  pub bits_eq :
      (j : ℕ)
      → bits n.contexts j ≡ (if j == i then cut r w (c.reads, c.writes) else bits m.contexts j)
  pub log_eq : n.scheduled ≡ m.scheduled ++ handed r w c

entry-some : (s : EventContext) (to : ℕ) → s.scheduler ≡ some to → entry s ≡ (to, task_of s) ∷ []
entry-some s to e = rw e refl

pub bits-same :
    (cs : List FdContext) (i : ℕ) (c : FdContext)
    → get_elem? cs i ≡ some c
    → (j : ℕ) → bits cs j ≡ (if j == i then (c.reads, c.writes) else bits cs j)
bits-same cs i c h j = elim (Bool-cases (j == i)) [
  | inl t ↦ let same : j ≡ i = (==_iff j i).0 t in rw t (ap (bits cs) same ∙ ap bits_of h)
  | inr t ↦ rw t refl
]

pub cut_self : (c : FdContext) → cut c.reads c.writes (c.reads, c.writes) ≡ (false, false)
cut_self c = ground arith

pub covered_self : (c : FdContext) → covered c.reads c.writes c ≡ true
covered_self c = ground arith

module _ {K : Type 0} where
  both_bits :
      (i : ℕ) (c d : FdContext) (m n o : IoManager K)
      → d.reads ≡ false
      → d.writes ≡ c.writes
      → ((j : ℕ)
          → bits n.contexts j
            ≡ (if j == i then cut true false (c.reads, c.writes) else bits m.contexts j))
      → ((j : ℕ)
          → bits o.contexts j
            ≡ (if j == i then cut false true (d.reads, d.writes) else bits n.contexts j))
      → (j : ℕ)
      → bits o.contexts j
        ≡ (if j == i then cut true true (c.reads, c.writes) else bits m.contexts j)
  both_bits i c d m n o no_read same a b j = elim (Bool-cases (j == i)) [
    | inl t ↦ rw t (rw t at (b j) ∙ ap (λ x. (x, false)) no_read)
    | inr t ↦ rw t (rw t at (b j) ∙ (rw t at (a j)))
  ]

  fire-Delivered_read :
      (i : ℕ) (c : FdContext) (m : IoManager K)
      → Sound m.contexts m.pending
      → get_elem? m.contexts i ≡ some c
      → c.reads ≡ true
      → (n : IoManager K) × (fire read_event i m ≡ returns tt n)
        × Delivered true false i c m n
        × ((d : FdContext) × (get_elem? n.contexts i ≡ some d)
            × (d.reads ≡ false)
            × (d.writes ≡ c.writes)
            × (d.write ≡ c.write))
  fire-Delivered_read i c m v h t =
      let (to, sch, ran, sound) = fire_lem read_event i m c v h t in
      let n = fired read_event i c to m in
      let d = changed read_event false (swapped_out c.read) c in
      let here = get_elem?-set_self m.contexts i d (get_elem?-lt m.contexts i c h) in
      (
        n,
        ran,
        record {
          left = d;
          here = here;
          sound = sound;
          kernel_eq = refl;
          bits_eq = bits-set m.contexts i c d h;
          log_eq =
              ap (λ l. m.scheduled ++ l)
                (sym (entry-some c.read to sch) ∙ sym (append-nil (entry c.read)));
        },
        (d, here, refl, refl, refl),
      )

  fire-Delivered_write :
      (i : ℕ) (c : FdContext) (m : IoManager K)
      → Sound m.contexts m.pending
      → get_elem? m.contexts i ≡ some c
      → c.writes ≡ true
      → (n : IoManager K) × (fire write_event i m ≡ returns tt n) × Delivered false true i c m n
  fire-Delivered_write i c m v h t =
      let (to, sch, ran, sound) = fire_lem write_event i m c v h t in
      let d = changed write_event false (swapped_out c.write) c in
      (
        fired write_event i c to m,
        ran,
        record {
          left = d;
          here = get_elem?-set_self m.contexts i d (get_elem?-lt m.contexts i c h);
          sound = sound;
          kernel_eq = refl;
          bits_eq = bits-set m.contexts i c d h;
          log_eq = ap (λ l. m.scheduled ++ l) (sym (entry-some c.write to sch));
        },
      )

  -- Registered events are delivered, the read event first.
  pub fire_both-Delivered :
      (r w : Bool) (i : ℕ) (c : FdContext) (m : IoManager K)
      → Sound m.contexts m.pending
      → get_elem? m.contexts i ≡ some c
      → covered r w c ≡ true
      → (n : IoManager K) × (fire_both r w i m ≡ returns tt n) × Delivered r w i c m n
  unfolding fire_both fire_if
  fire_both-Delivered false false i c m v h t = (
    m,
    refl,
    record {
      left = c;
      here = h;
      sound = v;
      kernel_eq = refl;
      bits_eq = bits-same m.contexts i c h;
      log_eq = sym (append-nil m.scheduled);
    },
  )
  fire_both-Delivered true false i c m v h t =
      let (n, ran, d, _) = fire-Delivered_read i c m v h (ground arith) in
      (n, ap (λ x. and_then x (λ _ m'. returns tt m')) ran, d)
  fire_both-Delivered false true i c m v h t =
      let (n, ran, d) = fire-Delivered_write i c m v h t in (n, ran, d)
  fire_both-Delivered true true i c m v h t =
      let (n, ran, a, (d, q, no_read, same, slot)) = fire-Delivered_read i c m v h (ground arith) in
      let (o, ran', b) = fire-Delivered_write i d n a.sound q (same ∙ ground arith) in
      (
        o,
        ap (λ x. and_then x (λ _ m'. fire write_event i m')) ran ∙ ran',
        record {
          left = b.left;
          here = b.here;
          sound = b.sound;
          kernel_eq = b.kernel_eq ∙ a.kernel_eq;
          bits_eq = λ j. both_bits i c d m n o no_read same a.bits_eq b.bits_eq j;
          log_eq =
              b.log_eq
              ∙ (ap₂ (λ l x. l ++ entry x) a.log_eq slot
                  ∙ (append_assoc m.scheduled (entry c.read ++ []) (entry c.write)
                      ∙ ap (λ l. m.scheduled ++ (l ++ entry c.write)) (append-nil (entry c.read))));
        },
      )

  -- An event that is not registered makes triggerEvent abort.
  pub fire_both_aborts :
      (r w : Bool) (i : ℕ) (c : FdContext) (m : IoManager K)
      → Sound m.contexts m.pending
      → get_elem? m.contexts i ≡ some c
      → covered r w c ≡ false
      → fire_both r w i m ≡ aborts
  unfolding fire_both fire_if
  fire_both_aborts false false i c m v h t = absurd (cc)
  fire_both_aborts true false i c m v h t =
      ap (λ x. and_then x (λ _ m'. returns tt m')) (fire_aborts read_event i m c h (ground arith))
  fire_both_aborts false true i c m v h t = fire_aborts write_event i m c h t
  fire_both_aborts true true i c m v h t = elim (Bool-cases c.reads) [
    | inr f ↦
        ap (λ x. and_then x (λ _ m'. fire write_event i m')) (fire_aborts read_event i m c h f)
    | inl r ↦
        let (n, ran, a, (d, q, no_read, same, slot)) = fire-Delivered_read i c m v h r in
        ap (λ x. and_then x (λ _ m'. fire write_event i m')) ran
        ∙ fire_aborts write_event i n d q (same ∙ ground (arith, t, r))
  ]
