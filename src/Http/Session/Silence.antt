-- ===== src/Http/Session/Silence.antt =====
-- src/http/http_session.cpp: the stream ends in the middle of a head.
use tigerkin.Prelude.{
  ℕ, zero, suc, ◌-◌, ◌<◌, ◌≡◌, refl, ap, ap₂, ◌∙◌, false, Option, List, [], ◌++◌, append-nil, arith,
  ◌==◌, length, drop,
}
use tigerkin.Stream.{Input, got}
use tigerkin.Http.Session.{Parser, never_ends, head_loop, recv_request}
use tigerkin.Http.Session.Rounds.{Reached, first_round, next_round}

module _ {P S : Type 0} (parser : Parser P) (read : S → ℕ → Input S) (history : S → List ℕ) where
  -- One round that goes on.
  head_loop_round :
      (fuel size : ℕ) (kept bs : List ℕ) {p p' : P} {left : List ℕ} {s s' : S}
      → read s (size - length kept) ≡ got bs s'
      → (parser.execute p (kept ++ bs)).0 ≡ p'
      → drop (parser.execute p (kept ++ bs)).1 (kept ++ bs) ≡ left
      → parser.has_error p' ≡ false
      → length left < size
      → parser.is_finished p' ≡ false
      → head_loop parser read (suc fuel) size p kept s ≡ head_loop parser read fuel size p' left s'
  unfolding head_loop
  head_loop_round fuel size kept bs {left} {s'} q a b ok less goes_on =
      let room : (length left == size) ≡ false = ground arith in
      rw (q, head_loop)
        (rw (ap parser.has_error a ∙ ok) (
          rw (ap (λ l. length l == size) b ∙ room) (
            rw (ap parser.is_finished a ∙ goes_on)
              (ap₂ (λ x l. head_loop parser read fuel size x l s') a b))))

  -- The stream has come to its end, and the parser takes nothing from the buffer, which has room, has
  -- no error and is not finished.
  pub record IsSilent (size : ℕ) (p : P) (kept : List ℕ) (s : S) : Type 0 where
    pub at_end : (n : ℕ) → read s n ≡ got [] s
    pub same : parser.execute p kept ≡ (p, 0)
    pub ok : parser.has_error p ≡ false
    pub goes_on : parser.is_finished p ≡ false
    pub less : length kept < size

  head_loop-IsSilent :
      (fuel size : ℕ) (p : P) (kept : List ℕ) (s : S)
      → IsSilent size p kept s
      → head_loop parser read fuel size p kept s ≡ never_ends
  unfolding head_loop
  head_loop-IsSilent zero size p kept s i = refl
  head_loop-IsSilent (suc fuel) size p kept s i =
      let e = ap (parser.execute p) (append-nil kept) ∙ i.same in
      head_loop_round fuel size kept [] (i.at_end (size - length kept)) (ap (λ r. r.0) e)
        (ap₂ drop (ap (λ r. r.1) e) (append-nil kept)) i.ok i.less i.goes_on
      ∙ head_loop-IsSilent fuel size p kept s i

  head_loop-Reached :
      (size : ℕ) (p0 : P) (s0 : S) {p : P} {kept : List ℕ} {s : S}
      → Reached parser read history size p0 s0 p kept s
      → ((fuel : ℕ) → head_loop parser read fuel size p kept s ≡ never_ends)
      → (fuel : ℕ) → head_loop parser read fuel size p0 [] s0 ≡ never_ends
  unfolding head_loop
  head_loop-Reached size p0 s0 first_round silent fuel = silent fuel
  head_loop-Reached size p0 s0 (next_round {p} {kept} {bs} {s} r q a b ok less goes_on) silent
        fuel =
      head_loop-Reached size p0 s0 r before fuel
    where
      before : (fuel : ℕ) → head_loop parser read fuel size p kept s ≡ never_ends
      before zero = refl
      before (suc fuel) = head_loop_round fuel size kept bs q a b ok less goes_on ∙ silent fuel

  -- Where the rounds lead to the end of the stream, with a parser that takes nothing from the
  -- buffer, which has room, has no error and is not finished, recvRequest never ends.
  pub recv_request-IsSilent :
      (cast : List ℕ → Option ℕ) (size : ℕ) (p0 : P) (s0 : S) (p : P) (kept : List ℕ) (s : S)
      → Reached parser read history size p0 s0 p kept s
      → IsSilent size p kept s
      → (fuel : ℕ) → recv_request parser read cast fuel size p0 s0 ≡ never_ends
  unfolding recv_request
  recv_request-IsSilent cast size p0 s0 p kept s r i fuel =
      let e = head_loop-Reached size p0 s0 r (λ f. head_loop-IsSilent f size p kept s i) fuel in
      rw (e, recv_request) refl
