-- ===== src/Timer/Order.antt =====
-- src/timer.cpp: the comparator is a strict order, and the set operations keep a list ordered by it.
use tigerkin.Prelude.{
  ℕ, ◌<◌, ◌≡◌, ◌≢◌, ◌⊎◌, inl, inr, refl, sym, ap, subst, ◌∙◌, true, false, List, [], ◌∷◌, arith,
  All,
}
use tigerkin.Timer.{Timer, before, compare_timers, less, find, erase, insert}

-- `l` stands before `r`: it is due earlier, or at the same time at a lower address.
abbrev pub Earlier : (ℕ → Timer) → ℕ → ℕ → Type 0
Earlier h l r = ((h l).next < (h r).next) ⊎ (((h l).next ≡ (h r).next) × (l < r))

pub less_iff-Earlier : (h : ℕ → Timer) (l r : ℕ) → (less h l r ≡ true) → Earlier h l r
unfolding less compare_timers before
less_iff-Earlier h l r e = ground arith

pub Earlier-less : (h : ℕ → Timer) (l r : ℕ) → Earlier h l r → less h l r ≡ true
unfolding less compare_timers before
Earlier-less h l r e = ground arith

pub less_total :
    (h : ℕ → Timer) (l r : ℕ)
    → ((less h l r ≡ true) × (less h r l ≡ false))
      ⊎ ((less h l r ≡ false) × (less h r l ≡ true))
      ⊎ ((l ≡ r) × (less h l r ≡ false) × (less h r l ≡ false))
unfolding less compare_timers before
less_total h l r = ground arith

pub Less-trans :
    (h : ℕ → Timer) (a b c : ℕ) → less h a b ≡ true → less h b c ≡ true → less h a c ≡ true
unfolding less compare_timers before
Less-trans h a b c p q = ground arith

-- Ascending by the comparator, so that no address stands twice.
abbrev pub IsSorted : (ℕ → Timer) → List ℕ → Type 0
IsSorted h [] = Unit {0}
IsSorted h (x ∷ xs) = All (λ y. less h x y ≡ true) xs × IsSorted h xs

-- An address stands in the list.
abbrev pub In : ℕ → List ℕ → Type 0
In a [] = ⊥
In a (x ∷ xs) = (a ≡ x) ⊎ In a xs

pub All-In : (P : ℕ → Type 0) (xs : List ℕ) (a : ℕ) → All P xs → In a xs → P a
All-In P [] a h i = absurd i
All-In P (x ∷ xs) a h (inl e) = subst P (sym e) h.0
All-In P (x ∷ xs) a h (inr i) = All-In P xs a h.1 i

pub All-of_In : (P : ℕ → Type 0) (xs : List ℕ) → ((a : ℕ) → In a xs → P a) → All P xs
All-of_In P [] h = tt
All-of_In P (x ∷ xs) h = (h x (inl refl), All-of_In P xs (λ a i. h a (inr i)))

or_map : {A B C : Type 0} → A ⊎ B → (B → C) → A ⊎ C
or_map (inl a) f = inl a
or_map (inr b) f = inr (f b)

or_other : {A B : Type 0} → A ⊎ B → ¬ A → B
or_other (inl a) n = absurd (n a)
or_other (inr b) n = b

module _ (h : ℕ → Timer) where
  pub All-insert : (P : ℕ → Type 0) (a : ℕ) (xs : List ℕ) → P a → All P xs → All P (insert h a xs)
  unfolding insert
  All-insert P a [] p q = (p, tt)
  All-insert P a (x ∷ xs) p q = ground (arith, All-insert P a xs p q.1)

  pub All-erase : (P : ℕ → Type 0) (a : ℕ) (xs : List ℕ) → All P xs → All P (erase h a xs)
  unfolding erase
  All-erase P a [] q = tt
  All-erase P a (x ∷ xs) q = ground (arith, All-erase P a xs q.1)

  pub later_than_head :
      (a x : ℕ) (xs : List ℕ)
      → less h a x ≡ true
      → All (λ y. less h x y ≡ true) xs
      → All (λ y. less h a y ≡ true) xs
  later_than_head a x [] e q = tt
  later_than_head a x (y ∷ ys) e q = (Less-trans h a x y e q.0, later_than_head a x ys e q.1)

  pub insert-IsSorted : (a : ℕ) (xs : List ℕ) → IsSorted h xs → IsSorted h (insert h a xs)
  unfolding insert
  insert-IsSorted a [] s = (tt, tt)
  insert-IsSorted a (x ∷ xs) s = elim (less_total h x a) [
    | inl (e, f) ↦ rw e (All-insert (λ y. less h x y ≡ true) a xs e s.0, insert-IsSorted a xs s.1)
    | inr (inl (f, e)) ↦ rw (f, e) ((e, later_than_head a x xs e s.0), s)
    | inr (inr (_, f, e)) ↦ rw (f, e) s
  ]

  pub erase-IsSorted : (a : ℕ) (xs : List ℕ) → IsSorted h xs → IsSorted h (erase h a xs)
  unfolding erase
  erase-IsSorted a [] s = tt
  erase-IsSorted a (x ∷ xs) s = elim (less_total h x a) [
    | inl (e, f) ↦ rw e (All-erase (λ y. less h x y ≡ true) a xs s.0, erase-IsSorted a xs s.1)
    | inr (inl (f, e)) ↦ rw (f, e) s
    | inr (inr (_, f, e)) ↦ rw (f, e) s.1
  ]

  pub less_irrefl : (a : ℕ) → less h a a ≡ false
  unfolding less compare_timers before
  less_irrefl a = ground arith

  -- What stands behind a later element is not there.
  pub not-In_later : (a : ℕ) (xs : List ℕ) → All (λ y. less h a y ≡ true) xs → ¬ In a xs
  not-In_later a [] q i = i
  not-In_later a (y ∷ ys) q (inl e) =
      let z : less h a a ≡ true = ap (less h a) e ∙ q.0 in cc (z, less_irrefl a)
  not-In_later a (y ∷ ys) q (inr i) = not-In_later a ys q.1 i

  -- The search of the set finds exactly its elements.
  pub find-In : (a : ℕ) (xs : List ℕ) → find h a xs ≡ true → In a xs
  unfolding find
  find-In a [] e = absurd (cc)
  find-In a (x ∷ xs) e = elim (less_total h x a) [
    | inl (p, q) ↦ inr (find-In a xs (rw p at e))
    | inr (inl (q, p)) ↦ absurd (cc (rw (q, p) at e))
    | inr (inr (same, _, _)) ↦ inl (sym same)
  ]

  pub In-find : (a : ℕ) (xs : List ℕ) → IsSorted h xs → In a xs → find h a xs ≡ true
  unfolding find
  In-find a (x ∷ xs) s (inl e) = rw (e, less_irrefl x) refl
  In-find a (x ∷ xs) s (inr i) =
      rw (All-In (λ y. less h x y ≡ true) xs a s.0 i) (In-find a xs s.1 i)
  In-find a [] s i = absurd i

  -- An insertion adds one element.
  pub In-insert : (a b : ℕ) (xs : List ℕ) → In b (insert h a xs) → (b ≡ a) ⊎ In b xs
  unfolding insert
  In-insert a b [] i = ground arith
  In-insert a b (x ∷ xs) i = elim (less_total h x a) [
    | inl (e, f) ↦ ground (arith, e, In-insert a b xs)
    | inr (inl (f, e)) ↦ rw (f, e) at i
    | inr (inr (_, f, e)) ↦ inr (rw (f, e) at i)
  ]

  pub insert-In_old : (a b : ℕ) (xs : List ℕ) → In b xs → In b (insert h a xs)
  unfolding insert
  insert-In_old a b [] i = absurd i
  insert-In_old a b (x ∷ xs) i = elim (less_total h x a) [
    | inl (e, f) ↦ rw e (or_map i (insert-In_old a b xs))
    | inr (inl (f, e)) ↦ rw (f, e) (inr i)
    | inr (inr (_, f, e)) ↦ rw (f, e) i
  ]

  pub insert-In_new : (a : ℕ) (xs : List ℕ) → In a (insert h a xs)
  unfolding insert
  insert-In_new a [] = inl refl
  insert-In_new a (x ∷ xs) = elim (less_total h x a) [
    | inl (e, f) ↦ rw e (inr (insert-In_new a xs))
    | inr (inl (f, e)) ↦ rw (f, e) (inl refl)
    | inr (inr (same, f, e)) ↦ rw (f, e) (inl (sym same))
  ]

  -- A removal takes one element away.
  pub In-erase : (a b : ℕ) (xs : List ℕ) → In b (erase h a xs) → In b xs
  unfolding erase
  In-erase a b [] i = i
  In-erase a b (x ∷ xs) i = elim (less_total h x a) [
    | inl (e, f) ↦ or_map (rw e at i) (In-erase a b xs)
    | inr (inl (f, e)) ↦ rw (f, e) at i
    | inr (inr (_, f, e)) ↦ inr (rw (f, e) at i)
  ]

  pub erase-not_In : (a : ℕ) (xs : List ℕ) → IsSorted h xs → ¬ In a (erase h a xs)
  unfolding erase
  erase-not_In a [] s i = i
  erase-not_In a (x ∷ xs) s i = elim (less_total h x a) [
    | inl (e, f) ↦ elim (rw e at i) [
      | inl same ↦ cc (less_irrefl x, ap (less h x) (sym same) ∙ e)
      | inr j ↦ erase-not_In a xs s.1 j
    ]
    | inr (inl (f, e)) ↦ not-In_later a (x ∷ xs) (e, later_than_head a x xs e s.0) (rw (f, e) at i)
    | inr (inr (same, f, e)) ↦
        not-In_later x xs s.0 (subst (λ c. In c xs) (sym same) (rw (f, e) at i))
  ]

  pub erase-In : (a b : ℕ) (xs : List ℕ) → In b xs → b ≢ a → In b (erase h a xs)
  unfolding erase
  erase-In a b [] i ne = i
  erase-In a b (x ∷ xs) i ne = elim (less_total h x a) [
    | inl (e, f) ↦ rw e (or_map i (λ j. erase-In a b xs j ne))
    | inr (inl (f, e)) ↦ rw (f, e) i
    | inr (inr (same, f, e)) ↦ rw (f, e) (or_other i (λ p. ne (p ∙ same)))
  ]
