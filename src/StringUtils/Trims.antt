-- ===== src/StringUtils/Trims.antt =====
-- src/util.cpp, Trim, TrimLeft and TrimRight against trimming from one end by recursion.
use tigerkin.Prelude.{
  ℕ, zero, suc, ◌+◌, ◌-◌, ◌≡◌, refl, sym, ap, ◌∙◌, true, false, Option, none, some, List, [], ◌∷◌,
  arith, if◌then◌else◌, inl, inr, Bool-cases, take, drop, length, subst,
}
use tigerkin.StringUtils.{
  contains, find_first_not_of, find_last_not_of, trim, trim_left, trim_right,
}

pub drop_start : List ℕ → List ℕ → List ℕ
drop_start delimit [] = []
drop_start delimit (x ∷ xs) =
    let rest = drop_start delimit xs in if contains delimit x then rest else x ∷ xs

pub drop_end : List ℕ → List ℕ → List ℕ
drop_end delimit [] = []
drop_end delimit (x ∷ xs) = elim (drop_end delimit xs) [
  | [] ↦ if contains delimit x then [] else x ∷ []
  | y ∷ ys ↦ x ∷ y ∷ ys
]

abbrev FirstIs : List ℕ → List ℕ → Option ℕ → Type 0
FirstIs delimit xs none = drop_start delimit xs ≡ []
FirstIs delimit xs (some i) = drop i xs ≡ drop_start delimit xs

find_first_not_of-FirstIs :
    (delimit xs : List ℕ) → FirstIs delimit xs (find_first_not_of delimit xs)
unfolding find_first_not_of drop_start
find_first_not_of-FirstIs delimit [] = refl
find_first_not_of-FirstIs delimit (x ∷ xs) = ground (arith, find_first_not_of-FirstIs delimit xs)

-- The last byte to keep stands at `i`.
abbrev LastIs : List ℕ → List ℕ → Option ℕ → Type 0
LastIs delimit xs none = drop_end delimit xs ≡ []
LastIs delimit xs (some i) =
    (take (suc i) xs ≡ drop_end delimit xs) × (length (drop_end delimit xs) ≡ suc i)

find_last_not_of-LastIs : (delimit xs : List ℕ) → LastIs delimit xs (find_last_not_of delimit xs)
unfolding find_last_not_of drop_end
find_last_not_of-LastIs delimit [] = refl
find_last_not_of-LastIs delimit (x ∷ xs) = ground (arith, find_last_not_of-LastIs delimit xs)

-- TrimLeft takes the delimiters off the start.
trim_left-drop_start : (str delimit : List ℕ) → trim_left str delimit ≡ drop_start delimit str
unfolding trim_left
trim_left-drop_start str delimit = ground (arith, find_first_not_of-FirstIs delimit str)

take-take-suc : (i : ℕ) (xs : List ℕ) → take i (take (suc i) xs) ≡ take i xs
take-take-suc zero xs = refl
take-take-suc (suc i) [] = refl
take-take-suc (suc i) (x ∷ xs) = ap (◌∷◌ x) (take-take-suc i xs)

-- TrimRight takes the delimiters off the end, and then one byte more.
trim_right-drop_end :
    (str delimit : List ℕ)
    → trim_right str delimit ≡ take (length (drop_end delimit str) - 1) (drop_end delimit str)
unfolding trim_right
trim_right-drop_end str delimit =
    go (find_last_not_of delimit str) refl (find_last_not_of-LastIs delimit str)
  where
    go :
        (o : Option ℕ)
        → find_last_not_of delimit str ≡ o
        → LastIs delimit str o
        → trim_right str delimit ≡ take (length (drop_end delimit str) - 1) (drop_end delimit str)
    go none e h = rw (e, trim_right) (rw h)
    go (some i) e (h, len) =
        let n : length (drop_end delimit str) - 1 ≡ i = omega (arith, len) in
        rw (e, trim_right) (rw n (sym (ap (take i) (sym h) ∙ take-take-suc i str)))

-- The last byte to keep does not stand before the first.
abbrev LastFrom : List ℕ → List ℕ → ℕ → Type 0
LastFrom delimit xs begin =
    (n : ℕ) × (find_last_not_of delimit xs ≡ some (begin + n))
    × (find_last_not_of delimit (drop begin xs) ≡ some n)

last_of_first :
    (delimit xs : List ℕ) (begin : ℕ)
    → find_first_not_of delimit xs ≡ some begin
    → LastFrom delimit xs begin
unfolding find_first_not_of find_last_not_of
last_of_first delimit [] begin e = absurd (cc)
last_of_first delimit (x ∷ xs) begin e = elim (Bool-cases (contains delimit x)) [
  | inl here ↦ later (λ b. last_of_first delimit xs b) (find_first_not_of delimit xs) refl here
  | inr here ↦ now (find_last_not_of delimit xs) refl here
]
  where
    later :
        ((b : ℕ) → find_first_not_of delimit xs ≡ some b → LastFrom delimit xs b)
        → (o : Option ℕ) → find_first_not_of delimit xs ≡ o
        → contains delimit x ≡ true
        → LastFrom delimit (x ∷ xs) begin
    later tail none none_left here =
        absurd (let f : find_first_not_of delimit (x ∷ xs) ≡ none = rw (here, none_left) refl in cc)
    later tail (some b) found here =
        let first : find_first_not_of delimit (x ∷ xs) ≡ some (suc b) = rw (here, found) refl in
        let at : begin ≡ suc b = cc in
        let (n, last, rest) = tail b found in rw at (n, rw last (ap some (omega arith)), rest)

    now :
        (o : Option ℕ)
        → find_last_not_of delimit xs ≡ o
        → contains delimit x ≡ false
        → LastFrom delimit (x ∷ xs) begin
    now none none_left here =
        let first : find_first_not_of delimit (x ∷ xs) ≡ some 0 = rw here refl in
        let at : begin ≡ 0 = cc in rw at (0, rw (none_left, here) refl, rw (none_left, here) refl)
    now (some i) found here =
        let first : find_first_not_of delimit (x ∷ xs) ≡ some 0 = rw here refl in
        let at : begin ≡ 0 = cc in rw at (suc i, rw found (ap some (omega arith)), rw found refl)

-- Trim takes the delimiters off both ends.
trim-drop_start :
    (str delimit : List ℕ) → trim str delimit ≡ drop_end delimit (drop_start delimit str)
unfolding trim
trim-drop_start str delimit =
    go (find_first_not_of delimit str) refl (find_first_not_of-FirstIs delimit str)
  where
    go :
        (o : Option ℕ)
        → find_first_not_of delimit str ≡ o
        → FirstIs delimit str o
        → trim str delimit ≡ drop_end delimit (drop_start delimit str)
    go none e h = rw (e, trim) (rw h (unfold drop_end in refl))
    go (some begin) e h =
        let (n, last, rest) = last_of_first delimit str begin e in
        let (kept, _) : LastIs delimit (drop begin str) (some n) =
          subst (LastIs delimit (drop begin str)) rest
            (find_last_not_of-LastIs delimit (drop begin str)) in
        let size : begin + n - begin + 1 ≡ suc n = omega arith in
        rw (e, trim) (rw last (rw size (kept ∙ ap (drop_end delimit) h)))

-- Trim takes the delimiters off both ends, TrimLeft off the start, and TrimRight off the end,
-- and then one byte more.
pub trims-drop :
    (str delimit : List ℕ)
    → (trim str delimit ≡ drop_end delimit (drop_start delimit str))
      × (trim_left str delimit ≡ drop_start delimit str)
      × (trim_right str delimit ≡ take (length (drop_end delimit str) - 1) (drop_end delimit str))
trims-drop str delimit =
    (trim-drop_start str delimit, trim_left-drop_start str delimit, trim_right-drop_end str delimit)
