-- ===== src/Tests/Sessions.antt =====
-- src/http/http_session.cpp at a small input: a stream that gives a byte at a time, and a parser whose head
-- ends with an exclamation mark.
use tigerkin.Prelude.{
  ℕ, ◌≡◌, refl, Bool, true, false, Option, some, List, [], ◌∷◌, ◌++◌, arith, ◌==◌, if◌then◌else◌,
  codes,
}
use tigerkin.Stream.{Input, got}
use tigerkin.Http.Request.{new_request}
use tigerkin.Http.Session.{Parser, never_ends, recv_request}
use tigerkin.Http.Session.Rounds.{first_round}
use tigerkin.Http.Session.Silence.{recv_request-IsSilent}

-- What was read, and what is to come.
pub record Flow : Type 0 where
  pub past : List ℕ
  pub future : List ℕ

abbrev next_byte : Flow → ℕ → Input Flow
next_byte s n = elim s.future [
  | [] ↦ got [] s
  | x ∷ xs ↦ got (x ∷ []) (record { past = s.past ++ (x ∷ []); future = xs })
]

abbrev mark_parser : Parser Bool
mark_parser = record {
  execute = λ p bs. elim bs as (λ _. Bool × ℕ) [
    | [] ↦ (p, 0)
    | x ∷ _ ↦ (if x == b'!' then true else false, 1)
  ];
  has_error = λ p. false;
  is_finished = λ p. p;
  request_of =
      λ p. record (new_request 17 true) { headers = (codes "Content-Length", codes "2") ∷ [] };
}

abbrev two : List ℕ → Option ℕ
two text = some 2

abbrev incoming : Flow
incoming = record { past = []; future = codes "a!bcd" }

-- The peer closes before the head is complete.
cut_off :
    (fuel : ℕ)
    → recv_request mark_parser next_byte two fuel 100 false
        (record { past = codes "a"; future = [] })
      ≡ never_ends
cut_off =
    recv_request-IsSilent mark_parser next_byte (λ f. f.past) two 100 false
      (record { past = codes "a"; future = [] }) false [] (record { past = codes "a"; future = [] })
      first_round
      (record { at_end = λ n. refl; same = refl; ok = refl; goes_on = refl; less = omega arith })
