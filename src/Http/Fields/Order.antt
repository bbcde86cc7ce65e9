-- ===== src/Http/Fields/Order.antt =====
-- src/http/http.cpp: CaseInsensitiveLess is a strict order, total up to the case of the letters.
use tigerkin.Prelude.{
  ℕ, ◌≡◌, inl, inr, refl, ap, ap₂, true, false, List, [], ◌∷◌, arith, Bool-cases,
}
use tigerkin.Http.Fields.{folded, lex_less, case_insensitive_less}

lex_less_trans :
    (xs ys zs : List ℕ) → lex_less xs ys ≡ true → lex_less ys zs ≡ true → lex_less xs zs ≡ true
lex_less_trans [] [] zs p q = absurd (cc)
lex_less_trans [] (y ∷ ys) [] p q = absurd (cc)
lex_less_trans [] (y ∷ ys) (z ∷ zs) p q = refl
lex_less_trans (x ∷ xs) [] zs p q = absurd (cc)
lex_less_trans (x ∷ xs) (y ∷ ys) [] p q = absurd (cc)
lex_less_trans (x ∷ xs) (y ∷ ys) (z ∷ zs) p q = let ih = lex_less_trans xs ys zs in grind arith

lex_less_irrefl : (xs : List ℕ) → lex_less xs xs ≡ false
lex_less_irrefl [] = refl
lex_less_irrefl (x ∷ xs) = let ih = lex_less_irrefl xs in ground arith

lex_less-total : (xs ys : List ℕ) → lex_less xs ys ≡ false → lex_less ys xs ≡ false → xs ≡ ys
lex_less-total [] [] p q = refl
lex_less-total [] (y ∷ ys) p q = absurd (cc)
lex_less-total (x ∷ xs) [] p q = absurd (cc)
lex_less-total (x ∷ xs) (y ∷ ys) p q =
    let ih = lex_less-total xs ys in
    let same : x ≡ y = ground arith in ap₂ ◌∷◌ same (ih (ground arith) (ground arith))

abbrev pub Less : List ℕ → List ℕ → Type 0
Less a b = case_insensitive_less a b ≡ true

-- Two keys stand in one of three ways.
pub data Ordered (a b : List ℕ) : Type 0 where
  before : case_insensitive_less a b ≡ true → case_insensitive_less b a ≡ false → Ordered a b
  after : case_insensitive_less b a ≡ true → case_insensitive_less a b ≡ false → Ordered a b
  same :
      folded a ≡ folded b
      → case_insensitive_less a b ≡ false
      → case_insensitive_less b a ≡ false
      → Ordered a b

pub Less-trans : (a b c : List ℕ) → Less a b → Less b c → Less a c
unfolding case_insensitive_less
Less-trans a b c = lex_less_trans (folded a) (folded b) (folded c)

pub less_irrefl : (a : List ℕ) → case_insensitive_less a a ≡ false
unfolding case_insensitive_less
less_irrefl a = lex_less_irrefl (folded a)

pub Less-asym : (a b : List ℕ) → Less a b → case_insensitive_less b a ≡ false
Less-asym a b p = elim (Bool-cases (case_insensitive_less b a)) [
  | inr e ↦ e
  | inl e ↦ absurd (let t = Less-trans a b a p e in let f = less_irrefl a in cc)
]

pub ordered : (a b : List ℕ) → Ordered a b
unfolding case_insensitive_less
ordered a b = elim (Bool-cases (case_insensitive_less a b)) [
  | inl p ↦ before p (Less-asym a b p)
  | inr p ↦ elim (Bool-cases (case_insensitive_less b a)) [
    | inl q ↦ after q p
    | inr q ↦ same (lex_less-total (folded a) (folded b) p q) p q
  ]
]

-- Keys that are the same up to case stand alike to every other.
pub less_same_left :
    (a b c : List ℕ) → folded a ≡ folded b → case_insensitive_less a c ≡ case_insensitive_less b c
unfolding case_insensitive_less
less_same_left a b c e = ap (λ k. lex_less k (folded c)) e

pub less_same_right :
    (a b c : List ℕ) → folded a ≡ folded b → case_insensitive_less c a ≡ case_insensitive_less c b
unfolding case_insensitive_less
less_same_right a b c e = ap (lex_less (folded c)) e
