-- ===== src/Http/Request/Params.antt =====
-- src/http/http.cpp, PARSE_PARAM and the functions that use it: what a query, a body and a cookie give.
use tigerkin.Prelude.{
  ℕ, zero, suc, ◌+◌, ◌≤◌, ◌≡◌, inl, inr, refl, ap, ◌∙◌, true, false, Option, none, some, List, [],
  ◌∷◌, ◌++◌, arith, ◌==◌, ==_refl, if_cases, length, length-append, All, Option-cases, subst,
}
use tigerkin.StringUtils.{url_encode}
use tigerkin.Http.Fields.{Fields, insert}
use tigerkin.Http.Request.{
  HttpRequest, with_front, split_at, parse_loop, parse_param, init_query_param, init_body_param,
  init_cookies, init_param,
}

abbrev pub Lacks : ℕ → List ℕ → Type 0
Lacks c xs = All (λ x. (x == c) ≡ false) xs

-- The text of pairs: the names and values with equals signs, and the flag between two pairs.
abbrev pub joined : ℕ → List (List ℕ × List ℕ) → List ℕ
joined flag [] = []
joined flag ((key, val) ∷ []) = key ++ (b'=' ∷ val)
joined flag ((key, val) ∷ p ∷ ps) = key ++ (b'=' ∷ (val ++ (flag ∷ joined flag (p ∷ ps))))

-- The values are escaped, and the first of two pairs with the same name stays.
abbrev pub insert_all : (List ℕ → List ℕ) → List (List ℕ × List ℕ) → Fields → Fields
insert_all trimmed [] m = m
insert_all trimmed ((key, val) ∷ ps) m =
    insert_all trimmed ps (insert (trimmed key) (url_encode val true) m)

abbrev pub Clean : ℕ → List ℕ × List ℕ → Type 0
Clean flag p = Lacks b'=' p.0 × Lacks flag p.1

split_at-append :
    (c : ℕ) (xs ys : List ℕ) → Lacks c xs → split_at c (xs ++ (c ∷ ys)) ≡ some (xs, ys)
split_at-append c [] ys h = rw (==_refl c) refl
split_at-append c (x ∷ xs) ys (h, hs) = rw h (rw (split_at-append c xs ys hs) refl)

split_at-none : (c : ℕ) (xs : List ℕ) → Lacks c xs → split_at c xs ≡ none
split_at-none c [] h = refl
split_at-none c (x ∷ xs) (h, hs) = rw h (rw (split_at-none c xs hs) refl)

parse_loop-joined :
    (fuel flag : ℕ) (trimmed : List ℕ → List ℕ) (ps : List (List ℕ × List ℕ)) (m : Fields)
    → length (joined flag ps) ≤ fuel
    → All (Clean flag) ps
    → parse_loop fuel flag trimmed (joined flag ps) m ≡ insert_all trimmed ps m
unfolding parse_loop
parse_loop-joined zero flag t [] m f h = refl
parse_loop-joined (suc fuel) flag t [] m f h = refl
parse_loop-joined zero flag t ((key, val) ∷ []) m f h =
    absurd (omega (arith, length-append key (b'=' ∷ val)))
parse_loop-joined (suc fuel) flag t ((key, val) ∷ []) m f ((k, v), h) =
    rw (split_at-append b'=' key val k, parse_loop) (rw (split_at-none flag val v) refl)
parse_loop-joined zero flag t ((key, val) ∷ p ∷ ps) m f h =
    absurd (omega (arith, length-append key (b'=' ∷ (val ++ (flag ∷ joined flag (p ∷ ps))))))
parse_loop-joined (suc fuel) flag t ((key, val) ∷ p ∷ ps) m f ((k, v), h) =
    let rest = joined flag (p ∷ ps) in
    let outer = length-append key (b'=' ∷ (val ++ (flag ∷ rest))) in
    let inner = length-append val (flag ∷ rest) in
    rw (split_at-append b'=' key (val ++ (flag ∷ rest)) k, parse_loop)
      (rw (split_at-append flag val rest v) (
        parse_loop-joined fuel flag t (p ∷ ps) (insert (t key) (url_encode val true) m)
          (omega (arith, outer, inner)) h))

-- From pairs whose names have no equals sign and whose values have no flag, written with an
-- equals sign in each and a flag between two, PARSE_PARAM inserts all pairs in their order, with
-- the names as the argument trims them and the values escaped.
pub parse_param-insert_all :
    (flag : ℕ) (trimmed : List ℕ → List ℕ) (ps : List (List ℕ × List ℕ)) (m : Fields)
    → All (Clean flag) ps
    → parse_param (joined flag ps) m flag trimmed ≡ insert_all trimmed ps m
unfolding parse_param
parse_param-insert_all flag t ps m h =
    parse_loop-joined (length (joined flag ps)) flag t ps m (omega arith) h

abbrev Shorter : List ℕ → Option (List ℕ × List ℕ) → Type 0
Shorter xs none = Unit
Shorter xs (some (before, behind)) = length before + 1 + length behind ≡ length xs

with_front-Shorter :
    (x : ℕ) (xs : List ℕ) (o : Option (List ℕ × List ℕ))
    → Shorter xs o
    → Shorter (x ∷ xs) (with_front x o)
with_front-Shorter x xs none h = tt
with_front-Shorter x xs (some (before, behind)) h = omega arith

split_at-Shorter : (c : ℕ) (xs : List ℕ) → Shorter xs (split_at c xs)
split_at-Shorter c [] = tt
split_at-Shorter c (x ∷ xs) =
    if_cases (Shorter (x ∷ xs)) (x == c) _ _ (λ _. omega arith)
      λ _. with_front-Shorter x xs (split_at c xs) (split_at-Shorter c xs)

-- More fuel than the bytes of the string makes no difference.
parse_loop-fuel :
    (f g flag : ℕ) (trimmed : List ℕ → List ℕ) (str : List ℕ) (m : Fields)
    → length str ≤ f
    → length str ≤ g
    → parse_loop f flag trimmed str m ≡ parse_loop g flag trimmed str m
unfolding parse_loop
parse_loop-fuel zero zero flag t str m p q = refl
parse_loop-fuel zero (suc g) flag t [] m p q = refl
parse_loop-fuel (suc f) zero flag t [] m p q = refl
parse_loop-fuel zero (suc g) flag t (x ∷ xs) m p q = absurd (omega arith)
parse_loop-fuel (suc f) zero flag t (x ∷ xs) m p q = absurd (omega arith)
parse_loop-fuel (suc f) (suc g) flag t str m p q = elim (Option-cases (split_at b'=' str)) [
  | inl e ↦ rw (e, parse_loop) refl
  | inr ((key, behind), e) ↦
      let shorter = subst (Shorter str) e (split_at-Shorter b'=' str) in
      elim (Option-cases (split_at flag behind)) [
        | inl k ↦ rw (e, parse_loop) (rw k refl)
        | inr ((val, rest), k) ↦
            let less = subst (Shorter behind) k (split_at-Shorter flag behind) in
            rw (e, parse_loop)
              (rw k (
                parse_loop-fuel f g flag t rest (insert (t key) (url_encode val true) m)
                  (omega (arith, shorter, less)) (omega (arith, shorter, less))))
      ]
]

query_stays : (r : HttpRequest) → r.parser_param_flag.query_done ≡ true → init_query_param r ≡ r
unfolding init_query_param
query_stays r h = rw h refl

body_stays : (r : HttpRequest) → r.parser_param_flag.body_done ≡ true → init_body_param r ≡ r
unfolding init_body_param
body_stays r h = rw h refl

cookies_stay : (r : HttpRequest) → r.parser_param_flag.cookies_done ≡ true → init_cookies r ≡ r
unfolding init_cookies
cookies_stay r h = rw h refl

abbrev AllDone : HttpRequest → Type 0
AllDone r =
    (r.parser_param_flag.query_done ≡ true)
    × (r.parser_param_flag.body_done ≡ true)
    × (r.parser_param_flag.cookies_done ≡ true)

init_param-AllDone : (r : HttpRequest) → AllDone (init_param r)
unfolding init_param init_query_param init_body_param init_cookies
init_param-AllDone r = ground arith

-- A second initParam changes nothing.
init_param_idem : (r : HttpRequest) → init_param (init_param r) ≡ init_param r
unfolding init_param
init_param_idem r =
    let s = init_param r in
    let (q, b, c) = init_param-AllDone r in
    ap (λ x. init_cookies (init_body_param x)) (query_stays s q)
    ∙ ap init_cookies (body_stays s b)
    ∙ cookies_stay s c
