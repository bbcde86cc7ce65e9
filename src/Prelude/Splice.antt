-- ===== src/Prelude/Splice.antt =====
-- Overwriting a stretch of a list, reading a stretch, and a list of equal chunks read as one list.
use Prim.Native.Nat.{ℕ, zero, suc, ◌+◌, ◌*◌, ◌≤◌}
use mathlib.Core.Path.{◌≡◌, refl, ap, ap₂, ◌∙◌, sym}
use mathlib.Core.List.{List, [], ◌∷◌, ◌++◌, append_assoc}
use mathlib.Core.Option.{some}
use native.Mathlib.Omega.{arith}
use tigerkin.Prelude.Lists.{length, take, drop, set, get_elem?, All, length-append, length-drop}

module _ {ℓ} {A : Type ℓ} where
  -- `ys` written over `xs` from position `n` on.
  abbrev pub splice : List A → ℕ → List A → List A
  splice xs zero ys = ys ++ drop (length ys) xs
  splice [] (suc n) ys = []
  splice (x ∷ xs) (suc n) ys = x ∷ splice xs n ys

  -- The `m` entries from position `n` on.
  abbrev pub slice : ℕ → ℕ → List A → List A
  slice n m xs = take m (drop n xs)

  abbrev pub concat : List (List A) → List A
  concat [] = []
  concat (c ∷ cs) = c ++ concat cs

module _ {ℓ} {A : Type ℓ} where
  pub drop-append_le :
      (m : ℕ) (xs zs : List A) → m ≤ length xs → drop m (xs ++ zs) ≡ drop m xs ++ zs
  drop-append_le zero xs zs h = refl
  drop-append_le (suc m) [] zs h = absurd (omega arith)
  drop-append_le (suc m) (x ∷ xs) zs h = drop-append_le m xs zs (omega arith)

  pub drop-append_add :
      (xs zs : List A) (m p : ℕ) → p ≡ length xs + m → drop p (xs ++ zs) ≡ drop m zs
  drop-append_add [] zs m p e = ap (λ q. drop q zs) (omega arith)
  drop-append_add (x ∷ xs) zs m zero e = absurd (omega arith)
  drop-append_add (x ∷ xs) zs m (suc p) e = drop-append_add xs zs m p (omega arith)

  pub drop-drop : (m n p : ℕ) (xs : List A) → p ≡ m + n → drop n (drop m xs) ≡ drop p xs
  drop-drop zero n p xs e = ap (λ q. drop q xs) (omega arith)
  drop-drop (suc m) n zero xs e = absurd (omega arith)
  drop-drop (suc m) zero (suc p) [] e = refl
  drop-drop (suc m) (suc n) (suc p) [] e = refl
  drop-drop (suc m) n (suc p) (x ∷ xs) e = drop-drop m n p xs (omega arith)

  pub take-append_le : (m : ℕ) (xs zs : List A) → m ≤ length xs → take m (xs ++ zs) ≡ take m xs
  take-append_le zero xs zs h = refl
  take-append_le (suc m) [] zs h = absurd (omega arith)
  take-append_le (suc m) (x ∷ xs) zs h = ap (◌∷◌ x) (take-append_le m xs zs (omega arith))

  pub take-add : (m n p : ℕ) (xs : List A) → p ≡ m + n → take m xs ++ take n (drop m xs) ≡ take p xs
  take-add zero n p xs e = ap (λ q. take q xs) (omega arith)
  take-add (suc m) n zero xs e = absurd (omega arith)
  take-add (suc m) zero (suc p) [] e = refl
  take-add (suc m) (suc n) (suc p) [] e = refl
  take-add (suc m) n (suc p) (x ∷ xs) e = ap (◌∷◌ x) (take-add m n p xs (omega arith))

  -- A stretch read in two parts.
  pub slice-add :
      (n m k : ℕ) (xs : List A) → slice n m xs ++ slice (n + m) k xs ≡ slice n (m + k) xs
  slice-add n m k xs =
      ap (λ ys. slice n m xs ++ take k ys) (sym (drop-drop n m (n + m) xs refl))
      ∙ take-add m k (m + k) (drop n xs) refl

  pub length-splice :
      (xs : List A) (n : ℕ) (ys : List A)
      → n + length ys ≤ length xs
      → length (splice xs n ys) ≡ length xs
  length-splice xs zero ys h =
      omega (arith, length-append ys (drop (length ys) xs), length-drop (length ys) xs)
  length-splice [] (suc n) ys h = absurd (omega arith)
  length-splice (x ∷ xs) (suc n) ys h = ap suc (length-splice xs n ys (omega arith))

  pub splice-append_left :
      (xs zs : List A) (n : ℕ) (ys : List A)
      → n + length ys ≤ length xs
      → splice (xs ++ zs) n ys ≡ splice xs n ys ++ zs
  splice-append_left xs zs zero ys h =
      ap (◌++◌ ys) (drop-append_le (length ys) xs zs (omega arith))
      ∙ sym (append_assoc ys (drop (length ys) xs) zs)
  splice-append_left [] zs (suc n) ys h = absurd (omega arith)
  splice-append_left (x ∷ xs) zs (suc n) ys h =
      ap (◌∷◌ x) (splice-append_left xs zs n ys (omega arith))

  pub splice-append_right :
      (xs zs : List A) (n p : ℕ) (ys : List A)
      → p ≡ length xs + n
      → splice (xs ++ zs) p ys ≡ xs ++ splice zs n ys
  splice-append_right [] zs n p ys e = ap (λ q. splice zs q ys) (omega arith)
  splice-append_right (x ∷ xs) zs n zero ys e = absurd (omega arith)
  splice-append_right (x ∷ xs) zs n (suc p) ys e =
      ap (◌∷◌ x) (splice-append_right xs zs n p ys (omega arith))

  -- Two writes side by side are one write.
  pub splice-splice :
      (xs : List A) (n p : ℕ) (ys zs : List A)
      → p ≡ n + length ys
      → n ≤ length xs
      → splice (splice xs n ys) p zs ≡ splice xs n (ys ++ zs)
  splice-splice xs zero p ys zs e h =
      splice-append_right ys (drop (length ys) xs) 0 p zs (omega arith)
      ∙ ap (λ ws. ys ++ (zs ++ ws))
          (drop-drop (length ys) (length zs) (length (ys ++ zs)) xs (length-append ys zs))
      ∙ sym (append_assoc ys zs (drop (length (ys ++ zs)) xs))
  splice-splice [] (suc n) p ys zs e h = absurd (omega arith)
  splice-splice (x ∷ xs) (suc n) zero ys zs e h = absurd (omega arith)
  splice-splice (x ∷ xs) (suc n) (suc p) ys zs e h =
      ap (◌∷◌ x) (splice-splice xs n p ys zs (omega arith) (omega arith))

  pub take-length-append : (xs ys : List A) → take (length xs) (xs ++ ys) ≡ xs
  take-length-append [] ys = refl
  take-length-append (x ∷ xs) ys = ap (◌∷◌ x) (take-length-append xs ys)

  -- What was written is read back.
  pub slice-splice :
      (xs : List A) (n : ℕ) (ys : List A)
      → n ≤ length xs
      → slice n (length ys) (splice xs n ys) ≡ ys
  slice-splice xs zero ys h = take-length-append ys (drop (length ys) xs)
  slice-splice [] (suc n) ys h = absurd (omega arith)
  slice-splice (x ∷ xs) (suc n) ys h = slice-splice xs n ys (omega arith)

  -- A write of nothing.
  pub splice-nil : (xs : List A) (n : ℕ) → splice xs n [] ≡ xs
  splice-nil xs zero = refl
  splice-nil [] (suc n) = refl
  splice-nil (x ∷ xs) (suc n) = ap (◌∷◌ x) (splice-nil xs n)

  -- A write leaves what stands before it.
  pub take-splice :
      (xs : List A) (n : ℕ) (ys : List A) → n ≤ length xs → take n (splice xs n ys) ≡ take n xs
  take-splice xs zero ys h = refl
  take-splice [] (suc n) ys h = absurd (omega arith)
  take-splice (x ∷ xs) (suc n) ys h = ap (◌∷◌ x) (take-splice xs n ys (omega arith))

module _ {ℓ} {A : Type ℓ} where
  -- A list that begins with `xs ++ ys` begins with `xs`, and goes on with `ys`.
  pub take-front :
      (xs ys zs : List A) → take (length (xs ++ ys)) zs ≡ xs ++ ys → take (length xs) zs ≡ xs
  take-front [] ys zs e = refl
  take-front (x ∷ xs) ys [] e = absurd (cc)
  take-front (x ∷ xs) ys (z ∷ zs) e =
      let t : take (length (xs ++ ys)) zs ≡ xs ++ ys = cc in
      let h : z ≡ x = cc in ap₂ ◌∷◌ h (take-front xs ys zs t)

  pub take-back :
      (xs ys zs : List A)
      → take (length (xs ++ ys)) zs ≡ xs ++ ys
      → take (length ys) (drop (length xs) zs) ≡ ys
  take-back [] ys zs e = e
  take-back (x ∷ xs) ys [] e = absurd (cc)
  take-back (x ∷ xs) ys (z ∷ zs) e =
      let t : take (length (xs ++ ys)) zs ≡ xs ++ ys = cc in take-back xs ys zs t

  pub slice-back :
      (n : ℕ) (xs ys zs : List A)
      → slice n (length (xs ++ ys)) zs ≡ xs ++ ys
      → slice (n + length xs) (length ys) zs ≡ ys
  slice-back n xs ys zs e =
      ap (take (length ys)) (sym (drop-drop n (length xs) (n + length xs) zs refl))
      ∙ take-back xs ys (drop n zs) e

module _ {ℓ} {A : Type ℓ} (base : ℕ) where
  -- Every chunk has `base` entries.
  abbrev pub IsChunked : List (List A) → Type 0
  IsChunked = All (λ c. length c ≡ base)

  pub length-concat : (cs : List (List A)) → IsChunked cs → length (concat cs) ≡ length cs * base
  length-concat [] h = omega arith
  length-concat (c ∷ cs) h = omega (arith, length-append c (concat cs), length-concat cs h.1)

  pub concat-append : (cs ds : List (List A)) → concat (cs ++ ds) ≡ concat cs ++ concat ds
  concat-append [] ds = refl
  concat-append (c ∷ cs) ds =
      ap (◌++◌ c) (concat-append cs ds) ∙ sym (append_assoc c (concat cs) (concat ds))

  -- A write into chunk `k` is a write into the whole.
  pub concat-set-splice :
      (cs : List (List A)) (k n : ℕ) (c ys : List A)
      → IsChunked cs
      → get_elem? cs k ≡ some c
      → n + length ys ≤ base
      → concat (set cs k (splice c n ys)) ≡ splice (concat cs) (k * base + n) ys
  concat-set-splice [] k n c ys h e le = absurd (cc)
  concat-set-splice (d ∷ cs) zero n c ys h e le =
      let same : c ≡ d = cc in
      rw same (
        sym (splice-append_left d (concat cs) n ys (omega (arith, h.0)))
        ∙ ap (λ p. splice (d ++ concat cs) p ys) (omega arith))
  concat-set-splice (d ∷ cs) (suc k) n c ys h e le =
      ap (◌++◌ d) (concat-set-splice cs k n c ys h.1 e le)
      ∙ sym (splice-append_right d (concat cs) (k * base + n) _ ys (omega (arith, h.0)))

  -- A stretch inside chunk `k` is a stretch of the whole.
  pub slice-concat :
      (cs : List (List A)) (k n m : ℕ) (c : List A)
      → IsChunked cs
      → get_elem? cs k ≡ some c
      → n + m ≤ base
      → slice (k * base + n) m (concat cs) ≡ slice n m c
  slice-concat [] k n m c h e le = absurd (cc)
  slice-concat (d ∷ cs) zero n m c h e le =
      let same : c ≡ d = cc in
      rw same (
        ap (λ p. slice p m (d ++ concat cs)) (omega arith)
        ∙ ap (take m) (drop-append_le n d (concat cs) (omega (arith, h.0)))
        ∙ take-append_le m (drop n d) (concat cs) (omega (arith, h.0, length-drop n d)))
  slice-concat (d ∷ cs) (suc k) n m c h e le =
      ap (take m) (drop-append_add d (concat cs) (k * base + n) _ (omega (arith, h.0)))
      ∙ slice-concat cs k n m c h.1 e le
