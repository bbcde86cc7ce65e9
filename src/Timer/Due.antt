-- ===== src/Timer/Due.antt =====
-- src/timer.cpp: which timers listExpiredCbs takes out of the set.
use tigerkin.Prelude.{
  ℕ, ◌≤◌, ◌<◌, ◌≡◌, inl, inr, refl, ap, true, List, [], ◌∷◌, ◌++◌, arith, ◌==◌, ==_iff, Bool-cases,
  All,
}
use tigerkin.Timer.{Timer, before, less, lower_bound, due_now, split_due, compare_timers}
use tigerkin.Timer.Order.{IsSorted, In, All-In, All-of_In, not-In_later}

pub less-next-le : (h : ℕ → Timer) (x y : ℕ) → less h x y ≡ true → (h x).next ≤ (h y).next
unfolding less compare_timers before
less-next-le h x y e = ground arith

-- Behind the head of the set nothing is due earlier.
pub head-next-le :
    (h : ℕ → Timer) (x : ℕ) (xs : List ℕ)
    → IsSorted h (x ∷ xs)
    → All (λ y. (h x).next ≤ (h y).next) (x ∷ xs)
head-next-le h x xs s = (
  omega arith,
  All-of_In (λ y. (h x).next ≤ (h y).next) xs
      (λ y i. less-next-le h x y (All-In (λ y. less h x y ≡ true) xs y s.0 i)),
)

abbrev pub Split : (ℕ → Timer) → ℕ → List ℕ → List ℕ × List ℕ → Type 0
Split h now xs (due, later) =
    (due ++ later ≡ xs) × All (λ x. (h x).next ≤ now) due × All (λ x. now < (h x).next) later

due_now-Split :
    (h : ℕ → Timer) (now : ℕ) (xs : List ℕ)
    → IsSorted h xs
    → All (λ x. now ≤ (h x).next) xs
    → Split h now xs (due_now h now xs)
unfolding due_now
due_now-Split h now [] s q = (refl, tt, tt)
due_now-Split h now (x ∷ xs) s q = elim (Bool-cases ((h x).next == now)) [
  | inl e ↦
      let (whole, due, later) = due_now-Split h now xs s.1 q.1 in
      rw e (ap (◌∷◌ x) whole, (omega (arith, (==_iff _ _).0 e), due), later)
  | inr e ↦ rw e (
    refl,
    tt,
    All-of_In (λ y. now < (h y).next) (x ∷ xs)
        (λ y i.
          let le = All-In (λ y. (h x).next ≤ (h y).next) (x ∷ xs) y (head-next-le h x xs s) i in
          ground (arith, e, q.0, le)),
  )
]

pub split_due-Split :
    (h : ℕ → Timer) (now probe : ℕ) (xs : List ℕ)
    → IsSorted h xs
    → Split h now xs (split_due h now probe xs)
unfolding split_due lower_bound
split_due-Split h now probe [] s = due_now-Split h now [] tt tt
split_due-Split h now probe (x ∷ xs) s = elim (Bool-cases (before (h x).next x now probe)) [
  | inl e ↦
      let (whole, due, later) = split_due-Split h now probe xs s.1 in
      rw e (ap (◌∷◌ x) whole, (unfold before in ground (arith, e), due), later)
  | inr e ↦ rw e (
      due_now-Split h now (x ∷ xs) s (
        All-of_In (λ y. now ≤ (h y).next) (x ∷ xs)
          (λ y i.
            let le = All-In (λ y. (h x).next ≤ (h y).next) (x ∷ xs) y (head-next-le h x xs s) i in
            unfold before in ground (arith, e, le))))
]

pub All-parts : (P : ℕ → Type 0) (xs ys : List ℕ) → All P (xs ++ ys) → All P xs × All P ys
All-parts P [] ys q = (tt, q)
All-parts P (x ∷ xs) ys q = let (p, r) = All-parts P xs ys q.1 in ((q.0, p), r)

-- No address twice.
abbrev pub Distinct : List ℕ → Type 0
Distinct [] = Unit {0}
Distinct (x ∷ xs) = (¬ In x xs) × Distinct xs

pub In-append_left : (a : ℕ) (xs ys : List ℕ) → In a xs → In a (xs ++ ys)
In-append_left a [] ys i = absurd i
In-append_left a (x ∷ xs) ys (inl e) = inl e
In-append_left a (x ∷ xs) ys (inr i) = inr (In-append_left a xs ys i)

pub In-append_right : (a : ℕ) (xs ys : List ℕ) → In a ys → In a (xs ++ ys)
In-append_right a [] ys i = i
In-append_right a (x ∷ xs) ys i = inr (In-append_right a xs ys i)

pub IsSorted-parts :
    (h : ℕ → Timer) (xs ys : List ℕ)
    → IsSorted h (xs ++ ys)
    → Distinct xs × IsSorted h ys × All (λ x. ¬ In x ys) xs
IsSorted-parts h [] ys s = (tt, s, tt)
IsSorted-parts h (x ∷ xs) ys s =
    let (d, t, apart) = IsSorted-parts h xs ys s.1 in
    let out = not-In_later h x (xs ++ ys) s.0 in
    (((λ i. out (In-append_left x xs ys i)), d), t, ((λ i. out (In-append_right x xs ys i)), apart))
