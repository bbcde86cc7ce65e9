-- ===== src/ByteArray/Wire.antt =====
-- src/bytearray.cpp: the bytes that a number becomes in the array, whatever machine writes it.
use mathlib.Core.List.{reverse-reverse, reverse-cons}
use native.Mathlib.Nat.{pow-suc}
use tigerkin.Prelude.{
  ℕ, zero, suc, ◌/◌, ◌^◌, ◌<◌, ◌≡◌, sym, ap, ◌∙◌, ◌⊎◌, List, [], ◌∷◌, reverse, refl, inl, inr, ◌==◌,
  if◌then◌else◌, arith, length, All, All-append,
}
use tigerkin.Prelude.Bytes.{
  to_bytes, of_bytes, length-to_bytes, of_bytes-to_bytes, to_bytes-of_bytes, length-reverse,
}
use tigerkin.ByteArray.{ByteArray, little_endian, big_endian}
use tigerkin.ByteArray.Ints.{byteswap, image, value, ordered}

to_bytes-AreBytes : (k v : ℕ) → All (λ x. x < 256) (to_bytes k v)
to_bytes-AreBytes zero v = tt
to_bytes-AreBytes (suc k) v = (omega arith, to_bytes-AreBytes k (v / 256))

reverse-AreBytes : (xs : List ℕ) → All (λ x. x < 256) xs → All (λ x. x < 256) (reverse xs)
reverse-AreBytes [] h = tt
reverse-AreBytes (x ∷ xs) h =
    rw (reverse-cons x xs)
      (All-append (λ x. x < 256) (reverse xs) (x ∷ []) (reverse-AreBytes xs h.1) (h.0, tt))

of_bytes-lt : (xs : List ℕ) → All (λ x. x < 256) xs → of_bytes xs < 256 ^ length xs
of_bytes-lt [] h = omega arith
of_bytes-lt (x ∷ xs) h = omega (arith, h.0, of_bytes-lt xs h.1, pow-suc 256 (length xs))

-- A swap gives back the reversed bytes, and a second one the number.
to_bytes-byteswap : (k v : ℕ) → to_bytes k (byteswap k v) ≡ reverse (to_bytes k v)
unfolding byteswap
to_bytes-byteswap k v =
    let bs = reverse (to_bytes k v) in
    let len : length bs ≡ k = length-reverse (to_bytes k v) ∙ length-to_bytes k v in
    ap (λ n. to_bytes n (of_bytes bs)) (sym len)
    ∙ to_bytes-of_bytes bs (reverse-AreBytes (to_bytes k v) (to_bytes-AreBytes k v))

pub byteswap-byteswap : (k v : ℕ) → v < 256 ^ k → byteswap k (byteswap k v) ≡ v
unfolding byteswap
byteswap-byteswap k v h =
    ap (λ bs. of_bytes (reverse bs)) (to_bytes-byteswap k v)
    ∙ ap of_bytes (reverse-reverse (to_bytes k v))
    ∙ of_bytes-to_bytes k v h

pub byteswap-lt : (k v : ℕ) → byteswap k v < 256 ^ k
unfolding byteswap
byteswap-lt k v =
    let len : length (reverse (to_bytes k v)) ≡ k =
      length-reverse (to_bytes k v) ∙ length-to_bytes k v in
    rw len at (
      of_bytes-lt (reverse (to_bytes k v))
        (reverse-AreBytes (to_bytes k v) (to_bytes-AreBytes k v)))

module _ (host : ℕ) where
  pub length-image : (k v : ℕ) → length (image host k v) ≡ k
  unfolding image
  length-image k v = ground (arith, length-to_bytes k v, length-reverse (to_bytes k v))

  pub value-image : (k v : ℕ) → v < 256 ^ k → value host (image host k v) ≡ v
  unfolding image value
  value-image k v h = ground (arith, reverse-reverse (to_bytes k v), of_bytes-to_bytes k v)

  pub ordered-ordered :
      (k v : ℕ) (b c : ByteArray)
      → c.endian ≡ b.endian
      → v < 256 ^ k
      → ordered host k (ordered host k v b) c ≡ v
  unfolding ordered
  ordered-ordered k v b c e h = rw e (ground (arith, byteswap-byteswap k v))

  pub ordered-lt : (k v : ℕ) (b : ByteArray) → v < 256 ^ k → ordered host k v b < 256 ^ k
  unfolding ordered
  ordered-lt k v b h = ground (arith, byteswap-lt k v)

  -- A little-endian array stores a number lowest byte first, on little-endian and on big-endian
  -- machines.
  image-little :
      (k v : ℕ) (b : ByteArray)
      → (host ≡ little_endian) ⊎ (host ≡ big_endian)
      → b.endian ≡ little_endian
      → image host k (ordered host k v b) ≡ to_bytes k v
  unfolding image ordered
  image-little k v b hs e = ground (arith, to_bytes-byteswap k v, reverse-reverse (to_bytes k v))

  -- A big-endian array stores a number highest byte first, on little-endian and on big-endian
  -- machines.
  image-big :
      (k v : ℕ) (b : ByteArray)
      → (host ≡ little_endian) ⊎ (host ≡ big_endian)
      → b.endian ≡ big_endian
      → image host k (ordered host k v b) ≡ reverse (to_bytes k v)
  unfolding image ordered
  image-big k v b hs e = ground (arith, to_bytes-byteswap k v)

  -- An array that is little-endian stores a number lowest byte first, and one that is big-endian
  -- highest byte first, on little-endian and on big-endian machines.
  pub image-ordered :
      (k v : ℕ) (b : ByteArray)
      → (host ≡ little_endian) ⊎ (host ≡ big_endian)
      → (b.endian ≡ little_endian) ⊎ (b.endian ≡ big_endian)
      → image host k (ordered host k v b)
        ≡ (if b.endian == little_endian then to_bytes k v else reverse (to_bytes k v))
  image-ordered k v b hs (inl e) = image-little k v b hs e ∙ rw e refl
  image-ordered k v b hs (inr e) = image-big k v b hs e ∙ rw e refl
