-- ===== src/Http/Status/Messages.antt =====
-- src/http/http.cpp: the message of a status fits on a line.
use tigerkin.Prelude.{
  ℕ, ◌≡◌, refl, Bool, true, false, inl, inr, List, [], ◌∷◌, ◌==◌, if_cases, if◌then◌else◌,
  Bool-cases,
}
use tigerkin.Http.Printing.Lines.{NoCr, no_cr, no_cr-NoCr}
use tigerkin.Http.Status.{HttpStatus, http_status_map, message_of, http_status_to_string}

abbrev all_no_cr : List (HttpStatus × List ℕ) → Bool
all_no_cr [] = true
all_no_cr ((_, msg) ∷ rest) = let others = all_no_cr rest in if no_cr msg then others else false

message_of-NoCr :
    (s : HttpStatus) (table : List (HttpStatus × List ℕ))
    → all_no_cr table ≡ true
    → NoCr (message_of s table)
unfolding message_of
message_of-NoCr s [] h = no_cr-NoCr (message_of s []) refl
message_of-NoCr s ((code, msg) ∷ rest) h = elim (Bool-cases (no_cr msg)) [
  | inl e ↦
      if_cases NoCr (s == code) msg (message_of s rest) (λ _. no_cr-NoCr msg e)
        λ _. message_of-NoCr s rest (rw e at h)
  | inr e ↦ absurd (let f = rw e at h in cc)
]

pub http_status_to_string-NoCr : (s : HttpStatus) → NoCr (http_status_to_string s)
unfolding http_status_to_string
http_status_to_string-NoCr s = message_of-NoCr s http_status_map refl
