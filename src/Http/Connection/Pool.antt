-- ===== src/Http/Connection/Pool.antt =====
-- src/http/http_connection.cpp, HttpConnectionPool: the connections that it has and has lent.
use tigerkin.Prelude.{
  ℕ, ◌+◌, ◌-◌, ◌%◌, ◌^◌, ◌<◌, ◌≡◌, inl, inr, refl, Bool, true, false, not, ◌||◌, Option, none, some,
  List, [], ◌∷◌, arith, leb, if_cases, length, length-append, All, All-append, Bool-cases,
  Option-cases,
}
use tigerkin.Http.Connection.{
  HttpConnection, HttpConnectionPool, Exchange, Picked, dropping, pick, get_connection, release_ptr,
  request, new_pool,
}

abbrev count : Option HttpConnection → ℕ
count none = 0
count (some c) = 1

-- A connection that may be used again.
abbrev pub Fresh : ℕ → HttpConnection → Type 0
Fresh max_request c = c.requests < max_request

-- The pool counts the connections it has and the `lent` ones, and those it has may be used again.
abbrev pub IsCounted : ℕ → HttpConnectionPool → Type 0
IsCounted lent p = (p.total ≡ length p.conns + lent) × All (Fresh p.max_request) p.conns

abbrev Keeps : ℕ → List HttpConnection → Picked → Type 0
Keeps limit conns p =
    (count p.found + length p.invalid + length p.left ≡ length conns) × All (Fresh limit) p.left

pick-Keeps :
    (limit : ℕ) (is_connected : HttpConnection → Bool) (alive now : ℕ) (conns : List HttpConnection)
    → All (Fresh limit) conns
    → Keeps limit conns (pick is_connected alive now conns)
unfolding pick
pick-Keeps limit up alive now [] h = (refl, tt)
pick-Keeps limit up alive now (c ∷ rest) (f, h) =
    let later = pick up alive now rest in
    let (sum, fresh) = pick-Keeps limit up alive now rest h in
    let dropped : Keeps limit (c ∷ rest) (dropping c later) = (omega (arith, sum), fresh) in
    if_cases (Keeps limit (c ∷ rest)) (not (up c)) _ _ (λ _. dropped)
      λ _. if_cases (Keeps limit (c ∷ rest)) _ _ _ (λ _. dropped) (λ _. (omega arith, h))

abbrev Got : ℕ → Option HttpConnection × HttpConnectionPool → Type 0
Got lent r = IsCounted (lent + count r.0) r.1

lends_new :
    (lent : ℕ) (fresh : Option HttpConnection) (p : HttpConnectionPool)
    → p.total ≡ length p.conns + lent
    → All (Fresh p.max_request) p.conns
    → Got lent
        (elim fresh [ none ↦ (none, p) | some c ↦ (some c, record p { total = p.total + 1 }) ])
lends_new lent none p sum h = (omega (arith, sum), h)
lends_new lent (some c) p sum h = (omega (arith, sum), h)

second_false : (a b : Bool) → (a || b) ≡ false → b ≡ false
second_false true b h = absurd (cc)
second_false false b h = h

leb→gt : (a b : ℕ) → leb a b ≡ false → b < a
leb→gt a b h = ground arith

-- A call of getConnection lends a connection, or gives none.
get_connection-IsCounted :
    (up : HttpConnection → Bool) (now lent : ℕ) (fresh : Option HttpConnection)
    (p : HttpConnectionPool)
    → IsCounted lent p
    → Got lent (get_connection up now fresh p)
unfolding get_connection
get_connection-IsCounted up now lent fresh p (sum, h) =
    let k = pick up p.max_alive_time now p.conns in
    let (size, clean) = pick-Keeps p.max_request up p.max_alive_time now p.conns h in
    elim (Option-cases k.found) [
      | inr (c, e) ↦
          let one : count k.found ≡ 1 = rw e refl in
          rw (e, get_connection) (omega (arith, size, sum, one), clean)
      | inl e ↦
          let zero_found : count k.found ≡ 0 = rw e refl in
          rw (e, get_connection)
            (lends_new lent fresh (record p { conns = k.left; total = p.total - length k.invalid })
              (omega (arith, size, sum, zero_found)) clean)
    ]

release_ptr-IsCounted :
    (up : HttpConnection → Bool) (now lent : ℕ) (c : HttpConnection) (p : HttpConnectionPool)
    → IsCounted (lent + 1) p
    → IsCounted lent (release_ptr up now c p)
unfolding release_ptr
release_ptr-IsCounted up now lent c p (sum, h) =
    let used = record c { requests = (c.requests + 1) % 2 ^ 64 } in
    let old = not (up c) || leb ((c.create_time + p.max_alive_time) % 2 ^ 64) now in
    let worn = leb p.max_request used.requests in
    elim (Bool-cases (old || worn)) [
      | inl e ↦ rw (e, release_ptr) (omega (arith, sum), h)
      | inr e ↦
          let fresh : used.requests < p.max_request = leb→gt _ _ (second_false old worn e) in
          rw (e, release_ptr)
            (
              omega (arith, sum, length-append p.conns (used ∷ [])),
              All-append (Fresh p.max_request) p.conns (used ∷ []) h (fresh, tt),
            )
    ]

-- A request lends a connection and takes it back, however it ends.
request-IsCounted :
    (up_before : HttpConnection → Bool) (now : ℕ) (fresh : Option HttpConnection) (has_sock : Bool)
    (exchange : Exchange) (up_after : HttpConnection → Bool) (later lent : ℕ)
    (p : HttpConnectionPool)
    → IsCounted lent p
    → IsCounted lent (request up_before now fresh has_sock exchange up_after later p).1
unfolding request
request-IsCounted up now fresh sock x after later lent p h =
    go (get_connection up now fresh p).0 refl (get_connection-IsCounted up now lent fresh p h)
  where
    r : Option HttpConnection × HttpConnectionPool
    r = get_connection up now fresh p

    go :
        (o : Option HttpConnection)
        → r.0 ≡ o
        → IsCounted (lent + count r.0) r.1
        → IsCounted lent (request up now fresh sock x after later p).1
    go none e c = let (sum, clean) = rw e at c in rw (e, request) (omega (arith, sum), clean)
    go (some k) e c = rw (e, request) (release_ptr-IsCounted after later lent k r.1 (rw e at c))

-- A step of some borrower: a connection is lent, or one that was lent comes back.
pub data Step : ℕ → HttpConnectionPool → HttpConnectionPool → ℕ → Type 0 where
  gets :
      (up : HttpConnection → Bool) (now : ℕ) (fresh : Option HttpConnection) (lent : ℕ)
      (p : HttpConnectionPool)
      → Step lent p
          (get_connection up now fresh p).1
          (lent + count (get_connection up now fresh p).0)
  releases :
      (up : HttpConnection → Bool) (now : ℕ) (c : HttpConnection) (lent : ℕ)
      (p : HttpConnectionPool)
      → Step (lent + 1) p (release_ptr up now c p) lent

pub data Reach (start : HttpConnectionPool) : ℕ → HttpConnectionPool → Type 0 where
  begins : Reach start 0 start
  goes :
      {lent lent' : ℕ} {p p' : HttpConnectionPool}
      → Reach start lent p
      → Step lent p p' lent'
      → Reach start lent' p'

Step-IsCounted :
    {lent : ℕ} {p : HttpConnectionPool} {p' : HttpConnectionPool} {lent' : ℕ}
    → Step lent p p' lent'
    → IsCounted lent p
    → IsCounted lent' p'
Step-IsCounted (gets up now fresh lent p) h = get_connection-IsCounted up now lent fresh p h
Step-IsCounted (releases up now c lent p) h = release_ptr-IsCounted up now lent c p h

-- After any sequence of connections lent and given back, from a new pool on, the total of the
-- pool is the number of the connections that it has and of those that are lent, and each
-- connection that it has was used less often than its limit.
pub Reach-IsCounted :
    (host vhost : List ℕ) (max_size max_alive_time max_request lent : ℕ) (p : HttpConnectionPool)
    → Reach (new_pool host vhost max_size max_alive_time max_request) lent p
    → IsCounted lent p
unfolding new_pool
Reach-IsCounted host vhost size alive limit lent p begins = (refl, tt)
Reach-IsCounted host vhost size alive limit lent p (goes before step) =
    Step-IsCounted step (Reach-IsCounted host vhost size alive limit _ _ before)
