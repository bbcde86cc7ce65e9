-- ===== src/Http/Session/Rounds.antt =====
-- src/http/http_session.cpp: the rounds of the loop of recvRequest, and how it ends.
use tigerkin.Prelude.{
  ℕ, zero, suc, ◌+◌, ◌-◌, ◌≤◌, ◌<◌, ◌≡◌, ◌⊎◌, inl, inr, refl, sym, ap, ◌∙◌, true, false, List, [],
  ◌∷◌, ◌++◌, arith, ◌==◌, ==_iff, if_cases, length, length-append, length-drop, take, drop,
  take-append-drop, append_assoc,
}
use tigerkin.Stream.{Input, got, read_failed}
use tigerkin.Stream.Ends.{Gives, ReadsNone, ReadFails}
use tigerkin.Http.Session.{Parser, Received, received, gives_null, never_ends, head_loop}

module _ {P S : Type 0} (parser : Parser P) (read : S → ℕ → Input S) (history : S → List ℕ) where
  module _ (size : ℕ) (p0 : P) (s0 : S) where
    -- The parser, the bytes in the buffer and the stream at the begin of a round. There is another
    -- round where the parser has no error and is not finished, and the buffer is not full.
    pub data Reached : P → List ℕ → S → Type 0 where
      first_round : Reached p0 [] s0
      next_round :
          {p p' : P} {kept left bs : List ℕ} {s s' : S}
          → Reached p kept s
          → read s (size - length kept) ≡ got bs s'
          → (parser.execute p (kept ++ bs)).0 ≡ p'
          → drop (parser.execute p (kept ++ bs)).1 (kept ++ bs) ≡ left
          → parser.has_error p' ≡ false
          → length left < size
          → parser.is_finished p' ≡ false
          → Reached p' left s'

    -- The same after a round's call of execute.
    pub record Parsed (p' : P) (left : List ℕ) (s' : S) : Type 0 where
      pub p : P
      pub kept : List ℕ
      pub s : S
      pub bs : List ℕ
      pub round : Reached p kept s
      pub reads : read s (size - length kept) ≡ got bs s'
      pub parser_eq : (parser.execute p (kept ++ bs)).0 ≡ p'
      pub left_eq : drop (parser.execute p (kept ++ bs)).1 (kept ++ bs) ≡ left
      pub head : List ℕ
      pub taken : history s' ≡ (history s0 ++ head) ++ left

    -- Why the loop gives null: a read has failed, the parser has an error, or it has left the
    -- buffer full.
    abbrev pub HeadFails : S → Type 0
    HeadFails s' =
        ReadFails history read (history s0) s'
        ⊎ ((p' : P) × (left : List ℕ) × Parsed p' left s'
            × ((parser.has_error p' ≡ true) ⊎ (length left ≡ size)))

    -- How the loop ends: it is finished without an error, gives null, or has read nothing.
    abbrev pub HeadEnds : Received (P × List ℕ) S → Type 0
    HeadEnds (received r s') =
        Parsed r.0 r.1 s' × (parser.has_error r.0 ≡ false) × (parser.is_finished r.0 ≡ true)
    HeadEnds (gives_null s') = HeadFails s'
    HeadEnds never_ends = ReadsNone history read (history s0)

  module _ (remaining : S → ℕ)
      (gives : (s : S) (n : ℕ) → 0 < n → Gives history remaining s n (read s n)) where
    taken_more :
        (h head kept bs : List ℕ) (k : ℕ) (s s' : S)
        → history s' ≡ history s ++ bs
        → history s ≡ (h ++ head) ++ kept
        → history s' ≡ (h ++ (head ++ take k (kept ++ bs))) ++ drop k (kept ++ bs)
    taken_more h head kept bs k s s' grows e =
        let full = kept ++ bs in
        grows
        ∙ (ap (λ x. x ++ bs) e
            ∙ (append_assoc (h ++ head) kept bs
                ∙ (ap (λ x. (h ++ head) ++ x) (sym (take-append-drop k full))
                    ∙ (sym (append_assoc (h ++ head) (take k full) (drop k full))
                        ∙ ap (λ x. x ++ drop k full) (append_assoc h head (take k full))))))

    -- With more rounds than bytes to come, or after a read that gave none.
    pub head_loop-HeadEnds :
        (fuel size : ℕ) (p0 : P) (s0 : S) (p : P) (kept : List ℕ) (s : S) (head : List ℕ)
        → Reached size p0 s0 p kept s
        → history s ≡ (history s0 ++ head) ++ kept
        → length kept < size
        → (remaining s < fuel) ⊎ ReadsNone history read (history s0)
        → HeadEnds size p0 s0 (head_loop parser read fuel size p kept s)
    unfolding head_loop
    head_loop-HeadEnds zero size p0 s0 p kept s head r e lt (inl f) = absurd (omega arith)
    head_loop-HeadEnds zero size p0 s0 p kept s head r e lt (inr none) = none
    head_loop-HeadEnds (suc fuel) size p0 s0 p kept s head r e lt enough =
        go (read s (size - length kept)) refl (gives s (size - length kept) (omega arith))
          (λ p' left s' head'. head_loop-HeadEnds fuel size p0 s0 p' left s' head')
      where
        still :
            (bs : List ℕ) (s' : S)
            → read s (size - length kept) ≡ got bs s'
            → remaining s' + length bs ≡ remaining s
            → (remaining s < suc fuel) ⊎ ReadsNone history read (history s0)
            → (remaining s' < fuel) ⊎ ReadsNone history read (history s0)
        still bs s' q fewer (inr none) = inr none
        still [] s' q fewer (inl f) = inr (
          s,
          s',
          size - length kept,
          head ++ kept,
          e ∙ append_assoc (history s0) head kept,
          omega arith,
          q,
        )
        still (b ∷ bs) s' q fewer (inl f) = inl (omega (arith, fewer))

        go :
            (i : Input S)
            → read s (size - length kept) ≡ i
            → Gives history remaining s (size - length kept) i
            → ((p' : P) (left : List ℕ) (s' : S) (head' : List ℕ)
                → Reached size p0 s0 p' left s'
                → history s' ≡ (history s0 ++ head') ++ left
                → length left < size
                → (remaining s' < fuel) ⊎ ReadsNone history read (history s0)
                → HeadEnds size p0 s0 (head_loop parser read fuel size p' left s'))
            → HeadEnds size p0 s0 (head_loop parser read (suc fuel) size p kept s)
        go (read_failed s') q g next =
            rw (q, head_loop)
              (inl
                (s, size - length kept, head ++ kept, e ∙ append_assoc (history s0) head kept, q))
        go (got bs s') q (few, grows, fewer) next =
            let full = kept ++ bs in
            let (p', n) = parser.execute p full in
            let left = drop n full in
            let more = taken_more (history s0) head kept bs n s s' grows e in
            let room : length left ≤ size =
              omega (arith, length-drop n full, length-append kept bs) in
            let parsed : Parsed size p0 s0 p' left s' = record {
              p = p;
              kept = kept;
              s = s;
              bs = bs;
              round = r;
              reads = q;
              parser_eq = refl;
              left_eq = refl;
              head = head ++ take n full;
              taken = more;
            } in
            rw (q, head_loop)
              (if_cases (HeadEnds size p0 s0) (parser.has_error p') _ _
                (λ err. inr (p', left, parsed, inl err))
                λ ok.
                  if_cases (HeadEnds size p0 s0) (length left == size) _ _
                    (λ is_full. inr (p', left, parsed, inr ((==_iff (length left) size).0 is_full)))
                    λ other.
                      if_cases (HeadEnds size p0 s0) (parser.is_finished p') _ _
                        (λ ends. (parsed, ok, ends))
                        λ goes_on.
                          let less : length left < size = ground (arith, room, other) in
                          next p' left s' (head ++ take n full)
                            (next_round r q refl refl ok less goes_on) more less
                            (still bs s' q fewer enough))
