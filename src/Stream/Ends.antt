-- ===== src/Stream/Ends.antt =====
-- src/stream.cpp: how readFixLength ends where a read may give nothing.
use tigerkin.Prelude.{
  ℕ, zero, suc, ◌+◌, ◌-◌, ◌^◌, ◌≤◌, ◌<◌, ◌≡◌, ◌⊎◌, inl, inr, refl, sym, ap, ◌∙◌, List, [], ◌∷◌,
  ◌++◌, arith, length, length-append, append_assoc, append-nil,
}
use tigerkin.ByteArray.{sub_size}
use tigerkin.Stream.{
  Input, got, read_failed, Transfer, whole, minus_one, out_of_fuel, put_before, read_fix_length,
}

-- What a read may give: no more bytes than asked for, perhaps none, which the history of the stream then
-- has at its end and which are no longer to come; or a failure.
abbrev pub Gives : {S : Type 0} → (S → List ℕ) → (S → ℕ) → S → ℕ → Input S → Type 0
Gives history remaining s n (got bs s') =
    (length bs ≤ n) × (history s' ≡ history s ++ bs) × (remaining s' + length bs ≡ remaining s)
Gives history remaining s n (read_failed s') = Unit {0}

module _ {S : Type 0} (history : S → List ℕ) (read : S → ℕ → Input S) where
  -- Some time after `h`, a read for at least one byte gives none.
  abbrev pub ReadsNone : List ℕ → Type 0
  ReadsNone h =
      (s : S) × (s' : S) × (n : ℕ) × (bs : List ℕ) × (history s ≡ h ++ bs)
      × (0 < n)
      × (read s n ≡ got [] s')

  -- Some time after `h`, a read fails.
  abbrev pub ReadFails : List ℕ → S → Type 0
  ReadFails h s' =
      (s : S) × (n : ℕ) × (bs : List ℕ) × (history s ≡ h ++ bs) × (read s n ≡ read_failed s')

  -- All `n` bytes, which the history then has at its end, or a read has failed or given none.
  abbrev pub Ends : List ℕ → S → ℕ → Transfer (List ℕ) S → Type 0
  Ends h s n (whole bs s') = (length bs ≡ n) × (history s' ≡ history s ++ bs)
  Ends h s n (minus_one s') = ReadFails h s'
  Ends h s n out_of_fuel = ReadsNone h

  put_before-Ends :
      (h bs : List ℕ) (s s' : S) (m n : ℕ) (t : Transfer (List ℕ) S)
      → history s' ≡ history s ++ bs
      → length bs + m ≡ n
      → Ends h s' m t
      → Ends h s n (put_before bs t)
  put_before-Ends h bs s s' m n (whole cs t) e sum (len, more) = (
    length-append bs cs ∙ (ap (λ k. length bs + k) len ∙ sum),
    more ∙ (ap (λ hs. hs ++ cs) e ∙ append_assoc (history s) bs cs),
  )
  put_before-Ends h bs s s' m n (minus_one t) e sum f = f
  put_before-Ends h bs s s' m n out_of_fuel e sum f = f

  module _ (remaining : S → ℕ)
      (gives : (s : S) (n : ℕ) → 0 < n → Gives history remaining s n (read s n)) where
    -- With as much fuel as bytes, or after a read that gave none.
    pub read_fix_length-Ends :
        (fuel n : ℕ) (s : S) (h past : List ℕ)
        → history s ≡ h ++ past
        → (n ≤ fuel) ⊎ ReadsNone h
        → n < 2 ^ 64
        → Ends h s n (read_fix_length read fuel n s)
    unfolding read_fix_length
    read_fix_length-Ends fuel zero s h past e enough lt = (refl, sym (append-nil (history s)))
    read_fix_length-Ends zero (suc n) s h past e (inl le) lt = absurd (omega arith)
    read_fix_length-Ends zero (suc n) s h past e (inr none) lt = none
    read_fix_length-Ends (suc fuel) (suc n) s h past e enough lt =
        go (read s (suc n)) refl (gives s (suc n) (omega arith))
          (λ m s' past'. read_fix_length-Ends fuel m s' h past')
      where
        still :
            (bs : List ℕ) (s' : S)
            → read s (suc n) ≡ got bs s'
            → (suc n ≤ suc fuel) ⊎ ReadsNone h
            → (suc n - length bs ≤ fuel) ⊎ ReadsNone h
        still bs s' q (inr none) = inr none
        still [] s' q (inl le) = inr (s, s', suc n, past, e, omega arith, q)
        still (b ∷ bs) s' q (inl le) = inl (omega arith)

        go :
            (i : Input S)
            → read s (suc n) ≡ i
            → Gives history remaining s (suc n) i
            → ((m : ℕ) (s' : S) (past' : List ℕ)
                → history s' ≡ h ++ past'
                → (m ≤ fuel) ⊎ ReadsNone h
                → m < 2 ^ 64
                → Ends h s' m (read_fix_length read fuel m s'))
            → Ends h s (suc n) (read_fix_length read (suc fuel) (suc n) s)
        go (read_failed s') q g rest = rw (q, read_fix_length) (s, suc n, past, e, q)
        go (got bs s') q (most, grows, fewer) rest =
            let m : sub_size (suc n) (length bs) ≡ suc n - length bs = omega arith in
            rw (q, read_fix_length)
              (rw m (
                put_before-Ends h bs s s' (suc n - length bs) (suc n) _ grows (omega arith) (
                  rest (suc n - length bs) s' (past ++ bs)
                    (grows ∙ (ap (λ x. x ++ bs) e ∙ append_assoc h past bs)) (still bs s' q enough)
                    (omega arith))))
