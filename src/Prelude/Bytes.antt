-- ===== src/Prelude/Bytes.antt =====
-- Fixed-width numbers as bytes, lowest first, and signed numbers as words in two's complement.
use mathlib.Core.List.{reverse-cons}
use native.Mathlib.Nat.{mod-lt, mod-eq_of_lt, pow-suc}
use Prim.Native.Nat.{ℕ, zero, suc, ◌+◌, ◌-◌, ◌*◌, ◌/◌, ◌%◌, ◌^◌, ◌<◌}
use mathlib.Core.Path.{◌≡◌, refl, ap, ap₂, ◌∙◌}
use mathlib.Core.List.{List, [], ◌∷◌, reverse}
use native.Mathlib.Omega.{arith}
use tigerkin.Prelude.Lists.{length, All, length-append}
use tigerkin.Prelude.Tests.{ltb, if◌then◌else◌, lt→ltb, le→ltb}

abbrev pub to_bytes : ℕ → ℕ → List ℕ
to_bytes zero v = []
to_bytes (suc k) v = v % 256 ∷ to_bytes k (v / 256)

abbrev pub of_bytes : List ℕ → ℕ
of_bytes [] = 0
of_bytes (x ∷ xs) = x + 256 * of_bytes xs

pub length-to_bytes : (k v : ℕ) → length (to_bytes k v) ≡ k
length-to_bytes zero v = refl
length-to_bytes (suc k) v = ap suc (length-to_bytes k (v / 256))

pow-step : (k v : ℕ) → v < 256 ^ suc k → v / 256 < 256 ^ k
pow-step k v h = omega arith

pub of_bytes-to_bytes : (k v : ℕ) → v < 256 ^ k → of_bytes (to_bytes k v) ≡ v
of_bytes-to_bytes zero v h = omega arith
of_bytes-to_bytes (suc k) v h = omega (arith, of_bytes-to_bytes k (v / 256) (pow-step k v h))

pub to_bytes-of_bytes :
    (xs : List ℕ) → All (λ x. x < 256) xs → to_bytes (length xs) (of_bytes xs) ≡ xs
to_bytes-of_bytes [] h = refl
to_bytes-of_bytes (x ∷ xs) h =
    ap₂ ◌∷◌ (omega (arith, h.0))
      (ap (to_bytes (length xs)) (omega (arith, h.0)) ∙ to_bytes-of_bytes xs h.1)

pub length-reverse {ℓ} : {A : Type ℓ} (xs : List A) → length (reverse xs) ≡ length xs
length-reverse [] = refl
length-reverse (x ∷ xs) =
    ap length (reverse-cons x xs)
    ∙ length-append (reverse xs) (x ∷ [])
    ∙ omega (arith, length-reverse xs)

-- `negsuc n` is -(n + 1).
pub data ℤ : Type 0 where
  pos : ℕ → ℤ
  negsuc : ℕ → ℤ

-- The word of `w` bits, and the number that such a word stands for.
abbrev pub to_word : ℕ → ℤ → ℕ
to_word w (pos n) = n % 2 ^ w
to_word w (negsuc n) = 2 ^ w - 1 - n % 2 ^ w

abbrev pub of_word : ℕ → ℕ → ℤ
of_word w v = if ltb v (2 ^ (w - 1)) then pos v else negsuc (2 ^ w - 1 - v)

-- -2 ^ (w - 1) ≤ z < 2 ^ (w - 1)
abbrev pub IsInt : ℕ → ℤ → Type 0
IsInt w (pos n) = n < 2 ^ (w - 1)
IsInt w (negsuc n) = n < 2 ^ (w - 1)

pow-pos : (w : ℕ) → 0 < 2 ^ w
pow-pos zero = omega arith
pow-pos (suc w) = omega (arith, pow-suc 2 w, pow-pos w)

two_pow : (w : ℕ) → 0 < w → 2 ^ w ≡ 2 * 2 ^ (w - 1)
two_pow zero h = absurd (omega arith)
two_pow (suc m) h = let e : suc m - 1 ≡ m = omega arith in rw e (omega (arith, pow-suc 2 m))

pub of_word-to_word : (w : ℕ) (z : ℤ) → 0 < w → IsInt w z → of_word w (to_word w z) ≡ z
of_word-to_word w (pos n) p h =
    let m : n % 2 ^ w ≡ n = mod-eq_of_lt (omega (arith, two_pow w p)) in
    rw m (rw (lt→ltb n (2 ^ (w - 1)) h))
of_word-to_word w (negsuc n) p h =
    let m : n % 2 ^ w ≡ n = mod-eq_of_lt (omega (arith, two_pow w p)) in
    rw m (
      rw (le→ltb (2 ^ w - 1 - n) (2 ^ (w - 1)) (omega (arith, two_pow w p)))
        (ap negsuc (omega (arith, two_pow w p))))

pub to_word-lt : (w : ℕ) (z : ℤ) → to_word w z < 2 ^ w
to_word-lt w (pos n) = mod-lt n (pow-pos w)
to_word-lt w (negsuc n) = omega (arith, pow-pos w)
