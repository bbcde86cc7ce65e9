-- ===== src/Servlets/Paths.antt =====
-- The equality of paths.
use tigerkin.Prelude.{
  ◌≡◌, ◌≢◌, inl, inr, refl, ap₂, true, false, [], ◌∷◌, ◌==◌, ==_iff, ==_refl, Bool-cases,
}
use tigerkin.Servlets.{PathName, same_path}

pub same_path_refl : (p : PathName) → same_path p p ≡ true
unfolding same_path
same_path_refl [] = refl
same_path_refl (x ∷ xs) = rw (==_refl x) (same_path_refl xs)

pub same_path-eq : (p q : PathName) → same_path p q ≡ true → p ≡ q
unfolding same_path
same_path-eq [] [] e = refl
same_path-eq [] (y ∷ q) e = absurd (cc)
same_path-eq (x ∷ p) [] e = absurd (cc)
same_path-eq (x ∷ p) (y ∷ q) e = elim (Bool-cases (x == y)) [
  | inl h ↦ ap₂ ◌∷◌ ((==_iff x y).0 h) (same_path-eq p q (rw h at e))
  | inr h ↦ absurd (let f : false ≡ true = rw h at e in cc)
]

pub same_path-ne : (p q : PathName) → p ≢ q → same_path p q ≡ false
same_path-ne p q ne = elim (Bool-cases (same_path p q)) [
  | inl e ↦ absurd (ne (same_path-eq p q e))
  | inr e ↦ e
]
