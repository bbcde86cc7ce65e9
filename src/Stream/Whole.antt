-- ===== src/Stream/Whole.antt =====
-- src/stream.cpp: what readFixLength and writeFixLength transfer, and when they do not end.
use tigerkin.Prelude.{
  ℕ, zero, suc, ◌+◌, ◌-◌, ◌^◌, ◌≤◌, ◌<◌, ◌≡◌, refl, sym, ap, ◌∙◌, List, [], ◌∷◌, ◌++◌, arith,
  length, take, drop, length-append, append_assoc, append-nil, length-drop, take-append-drop,
}
use tigerkin.ByteArray.{sub_size}
use tigerkin.Stream.{
  Input, got, read_failed, Output, took, write_failed, Transfer, whole, minus_one, out_of_fuel,
  put_before, read_fix_length, write_fix_length,
}

-- What a read may give: at least one byte and no more than asked for, which the history of the stream
-- then has at its end, or a failure.
abbrev pub Reads : {S : Type 0} → (S → List ℕ) → S → ℕ → Input S → Type 0
Reads history s n (got bs s') = (0 < length bs) × (length bs ≤ n) × (history s' ≡ history s ++ bs)
Reads history s n (read_failed s') = Unit {0}

-- The whole of `n` bytes, which the history then has at its end, or a failure.
abbrev pub Fills : {S : Type 0} → (S → List ℕ) → S → ℕ → Transfer (List ℕ) S → Type 0
Fills history s n (whole bs s') = (length bs ≡ n) × (history s' ≡ history s ++ bs)
Fills history s n (minus_one s') = Unit {0}
Fills history s n out_of_fuel = ⊥

module _ {S : Type 0} (history : S → List ℕ) where
  put_before-Fills :
      (bs : List ℕ) (s s' : S) (m n : ℕ) (t : Transfer (List ℕ) S)
      → history s' ≡ history s ++ bs
      → length bs + m ≡ n
      → Fills history s' m t
      → Fills history s n (put_before bs t)
  put_before-Fills bs s s' m n (whole cs t) e sum (len, h) = (
    length-append bs cs ∙ (ap (λ k. length bs + k) len ∙ sum),
    h ∙ (ap (λ hs. hs ++ cs) e ∙ append_assoc (history s) bs cs),
  )
  put_before-Fills bs s s' m n (minus_one t) e sum f = tt
  put_before-Fills bs s s' m n out_of_fuel e sum f = f

  module _ (read : S → ℕ → Input S)
      (reads : (s : S) (n : ℕ) → 0 < n → Reads history s n (read s n)) where
    -- If every read of at least one byte gives at least one byte and no more than asked for,
    -- which the history of the stream then has at its end, or fails, then readFixLength of fewer
    -- than 2^64 bytes ends, with as much fuel as bytes: it gives exactly as many bytes as asked
    -- for, which the history has at its end, or -1.
    pub read_fix_length-Fills :
        (fuel n : ℕ) (s : S)
        → n ≤ fuel
        → n < 2 ^ 64
        → Fills history s n (read_fix_length read fuel n s)
    unfolding read_fix_length
    read_fix_length-Fills fuel zero s le lt = (refl, sym (append-nil (history s)))
    read_fix_length-Fills zero (suc n) s le lt = absurd (omega arith)
    read_fix_length-Fills (suc fuel) (suc n) s le lt =
        go (read s (suc n)) refl (reads s (suc n) (omega arith))
          (λ m s'. read_fix_length-Fills fuel m s')
      where
        go :
            (i : Input S)
            → read s (suc n) ≡ i
            → Reads history s (suc n) i
            → ((m : ℕ) (s' : S)
                → m ≤ fuel
                → m < 2 ^ 64
                → Fills history s' m (read_fix_length read fuel m s'))
            → Fills history s (suc n) (read_fix_length read (suc fuel) (suc n) s)
        go (read_failed s') e r rest = rw (e, read_fix_length) tt
        go (got bs s') e (pos, most, h) rest =
            let m : sub_size (suc n) (length bs) ≡ suc n - length bs = omega arith in
            rw (e, read_fix_length)
              (rw m (
                put_before-Fills bs s s' (suc n - length bs) (suc n) _ h (omega arith)
                  (rest (suc n - length bs) s' (omega arith) (omega arith))))

-- At the end of a stream, where each read gives no bytes and changes nothing, readFixLength of
-- some bytes, fewer than 2^64, does not end, whatever the fuel.
pub read_fix_length_ends :
    {S : Type 0} (read : S → ℕ → Input S) (s : S)
    → ((n : ℕ) → read s n ≡ got [] s)
    → (fuel n : ℕ) → 0 < n
    → n < 2 ^ 64
    → read_fix_length read fuel n s ≡ out_of_fuel
unfolding read_fix_length
read_fix_length_ends read s stays fuel zero pos lt = absurd (omega arith)
read_fix_length_ends read s stays zero (suc n) pos lt = refl
read_fix_length_ends read s stays (suc fuel) (suc n) pos lt =
    let m : sub_size (suc n) 0 ≡ suc n = omega arith in
    rw (stays (suc n), read_fix_length)
      (rw m (ap (put_before []) (read_fix_length_ends read s stays fuel (suc n) pos lt)))

-- What a write may give: at least one byte and no more than there are is taken, and the history has
-- them at its end, or it fails.
abbrev pub Takes : {S : Type 0} → (S → List ℕ) → S → List ℕ → Output S → Type 0
Takes history s buf (took n s') =
    (0 < n) × (n ≤ length buf) × (history s' ≡ history s ++ take n buf)
Takes history s buf (write_failed s') = Unit {0}

-- The history has the whole buffer at its end, or a write has failed.
abbrev pub Sends : {S : Type 0} → (S → List ℕ) → S → List ℕ → Transfer (Unit {0}) S → Type 0
Sends history s buf (whole _ s') = history s' ≡ history s ++ buf
Sends history s buf (minus_one s') = Unit {0}
Sends history s buf out_of_fuel = ⊥

module _ {S : Type 0} (history : S → List ℕ) (write : S → List ℕ → Output S)
    (takes : (s : S) (buf : List ℕ) → 0 < length buf → Takes history s buf (write s buf)) where
  Sends-more :
      (buf : List ℕ) (n : ℕ) (s s' : S) (t : Transfer (Unit {0}) S)
      → history s' ≡ history s ++ take n buf
      → Sends history s' (drop n buf) t
      → Sends history s buf t
  Sends-more buf n s s' (whole _ t) e h =
      h
      ∙ (ap (λ hs. hs ++ drop n buf) e
          ∙ (append_assoc (history s) (take n buf) (drop n buf)
              ∙ ap (λ bs. history s ++ bs) (take-append-drop n buf)))
  Sends-more buf n s s' (minus_one t) e h = tt
  Sends-more buf n s s' out_of_fuel e h = h

  -- If every write of at least one byte takes at least one byte and no more than there are,
  -- which the history of the stream then has at its end, or fails, then writeFixLength ends,
  -- with as much fuel as bytes: the history has the whole buffer at its end, or the result is
  -- -1.
  pub write_fix_length-Sends :
      (fuel : ℕ) (buf : List ℕ) (s : S)
      → length buf ≤ fuel
      → Sends history s buf (write_fix_length write fuel buf s)
  unfolding write_fix_length
  write_fix_length-Sends fuel [] s le = sym (append-nil (history s))
  write_fix_length-Sends zero (x ∷ xs) s le = absurd (omega arith)
  write_fix_length-Sends (suc fuel) (x ∷ xs) s le =
      go (write s (x ∷ xs)) refl (takes s (x ∷ xs) (omega arith))
        (λ buf s'. write_fix_length-Sends fuel buf s')
    where
      go :
          (o : Output S)
          → write s (x ∷ xs) ≡ o
          → Takes history s (x ∷ xs) o
          → ((buf : List ℕ) (s' : S)
              → length buf ≤ fuel
              → Sends history s' buf (write_fix_length write fuel buf s'))
          → Sends history s (x ∷ xs) (write_fix_length write (suc fuel) (x ∷ xs) s)
      go (write_failed s') e t rest = rw (e, write_fix_length) tt
      go (took n s') e (pos, most, h) rest =
          rw (e, write_fix_length)
            (Sends-more (x ∷ xs) n s s' _ h
              (rest (drop n (x ∷ xs)) s' (omega (arith, length-drop n (x ∷ xs)))))
