-- ===== src/Http/Printing/Lines.antt =====
-- src/http/http.cpp: where a reader of what is printed finds the end of the head, at the first empty
-- line.
use mathlib.Core.List.{append_assoc}
use tigerkin.Prelude.{
  ℕ, zero, suc, ◌+◌, ◌/◌, ◌%◌, ◌<◌, ◌≡◌, inl, inr, refl, sym, ap, subst, ◌∙◌, Bool, true, false,
  ◌&&◌, not, Option, none, some, List, [], ◌∷◌, ◌++◌, arith, ◌==◌, ltb, if◌then◌else◌, if_cases,
  length, length-append, drop, All, All-append, Bool-cases, codes, begins_with,
}
use tigerkin.Http.Fields.{Fields, same_letters}
use tigerkin.Http.Printing.{
  decimal_loop, decimal, version_text, field_lines, connection_line, body_part,
}

-- The head and the body, parted by the first CR LF CR LF.
abbrev pub with_head : ℕ → Option (List ℕ × List ℕ) → Option (List ℕ × List ℕ)
with_head x none = none
with_head x (some (head, body)) = some (x ∷ head, body)

abbrev pub part_head : List ℕ → Option (List ℕ × List ℕ)
part_head [] = none
part_head (x ∷ xs) =
    let later = with_head x (part_head xs) in
    if begins_with (codes "\r\n\r\n") (x ∷ xs) then some ([], drop 3 xs) else later

abbrev pub NoCr : List ℕ → Type 0
NoCr xs = All (λ x. (b'\r' == x) ≡ false) xs

-- The same as a test, for texts that are written out.
abbrev pub no_cr : List ℕ → Bool
no_cr [] = true
no_cr (x ∷ xs) = let rest = no_cr xs in if b'\r' == x then false else rest

pub no_cr-NoCr : (xs : List ℕ) → no_cr xs ≡ true → NoCr xs
no_cr-NoCr [] h = tt
no_cr-NoCr (x ∷ xs) h = elim (Bool-cases (b'\r' == x)) [
  | inl e ↦ absurd (let f = rw e at h in cc)
  | inr e ↦ (e, no_cr-NoCr xs (rw e at h))
]

pub NoCr-append : (xs ys : List ℕ) → NoCr xs → NoCr ys → NoCr (xs ++ ys)
NoCr-append = All-append (λ x. (b'\r' == x) ≡ false)

abbrev pub Parts : List ℕ → List ℕ → Type 0
Parts body text = (head : List ℕ) × (part_head text ≡ some (head, body))

-- Behind the end of a line.
abbrev pub PartsNext : List ℕ → List ℕ → Type 0
PartsNext body text = Parts body (b'\r' ∷ b'\n' ∷ text)

pub Parts-append :
    (body line rest : List ℕ) → NoCr line → Parts body rest → Parts body (line ++ rest)
Parts-append body [] rest n p = p
Parts-append body (x ∷ line) rest (n, ns) p =
    let (head, e) = Parts-append body line rest ns p in (x ∷ head, rw n (rw e refl))

pub PartsNext-line :
    (body line rest : List ℕ)
    → NoCr line
    → 0 < length line
    → PartsNext body rest
    → PartsNext body (line ++ (b'\r' ∷ b'\n' ∷ rest))
PartsNext-line body [] rest n pos p = absurd (omega arith)
PartsNext-line body (x ∷ line) rest n pos p =
    let (head, e) = Parts-append body (x ∷ line) (b'\r' ∷ b'\n' ∷ rest) n p in
    (b'\r' ∷ b'\n' ∷ head, rw (n.0) (ap (λ o. with_head b'\r' (with_head b'\n' o)) (rw (n.0) at e)))

pub PartsNext-end : (body : List ℕ) → PartsNext body (b'\r' ∷ b'\n' ∷ body)
PartsNext-end body = ([], refl)

decimal_loop-NoCr : (fuel n : ℕ) (digits : List ℕ) → NoCr digits → NoCr (decimal_loop fuel n digits)
unfolding decimal_loop
decimal_loop-NoCr zero n digits h = h
decimal_loop-NoCr (suc fuel) n digits h =
    let out : NoCr ((b'0' + n % 10) ∷ digits) = (ground arith, h) in
    if_cases NoCr (ltb n 10) _ _ (λ _. out) (λ _. decimal_loop-NoCr fuel (n / 10) _ out)

pub decimal-NoCr : (n : ℕ) → NoCr (decimal n)
unfolding decimal
decimal-NoCr n = decimal_loop-NoCr (n + 1) n [] tt

pub version_text-NoCr : (n : ℕ) → NoCr (version_text n)
unfolding version_text
version_text-NoCr n =
    NoCr-append (decimal (n / 16)) (b'.' ∷ decimal (n % 16)) (decimal-NoCr (n / 16))
      (refl, decimal-NoCr (n % 16))

abbrev pub CleanField : List ℕ × List ℕ → Type 0
CleanField f = NoCr f.0 × NoCr f.1

pub field_lines-PartsNext :
    (body : List ℕ) (websocket : Bool) (fs : Fields) (rest : List ℕ)
    → All CleanField fs
    → PartsNext body rest
    → PartsNext body (field_lines websocket fs ++ rest)
unfolding field_lines
field_lines-PartsNext body ws [] rest c p = p
field_lines-PartsNext body ws ((key, val) ∷ fs) rest ((k, v), c) p =
    let others = field_lines ws fs in
    let later = field_lines-PartsNext body ws fs rest c p in
    let line = key ++ (b':' ∷ b' ' ∷ val) in
    let whole : (key ++ (b':' ∷ b' ' ∷ (val ++ (b'\r' ∷ b'\n' ∷ others)))) ++ rest
        ≡ line ++ (b'\r' ∷ b'\n' ∷ (others ++ rest)) =
      ap (λ t. t ++ rest) (sym (append_assoc key (b':' ∷ b' ' ∷ val) (b'\r' ∷ b'\n' ∷ others)))
      ∙ append_assoc line (b'\r' ∷ b'\n' ∷ others) rest in
    if_cases (λ t. PartsNext body (t ++ rest)) (not ws && same_letters key (codes "connection"))
      others (key ++ (b':' ∷ b' ' ∷ (val ++ (b'\r' ∷ b'\n' ∷ others)))) (λ _. later)
      λ _. subst (PartsNext body) (sym whole) (
        PartsNext-line body line (others ++ rest)
          (NoCr-append key (b':' ∷ b' ' ∷ val) k (refl, (refl, v)))
          (omega (arith, length-append key (b':' ∷ b' ' ∷ val))) later)

pub connection_line-PartsNext :
    (body : List ℕ) (websocket close : Bool) (rest : List ℕ)
    → PartsNext body rest
    → PartsNext body (connection_line websocket close ++ rest)
unfolding connection_line
connection_line-PartsNext body true close rest p = p
connection_line-PartsNext body false true rest p =
    let close = codes "connection: close" in
    PartsNext-line body close rest (no_cr-NoCr close refl) (omega arith) p
connection_line-PartsNext body false false rest p =
    let alive = codes "connection: keep-alive" in
    PartsNext-line body alive rest (no_cr-NoCr alive refl) (omega arith) p

pub body_part-PartsNext : (body : List ℕ) → PartsNext body (body_part body)
unfolding body_part
body_part-PartsNext [] = PartsNext-end []
body_part-PartsNext (x ∷ body) =
    let size = decimal (length (x ∷ body)) in
    PartsNext-line (x ∷ body) (codes "content-length: " ++ size) (b'\r' ∷ b'\n' ∷ x ∷ body)
      (NoCr-append (codes "content-length: ") size (no_cr-NoCr (codes "content-length: ") refl)
        (decimal-NoCr (length (x ∷ body))))
      (omega arith) (PartsNext-end (x ∷ body))
