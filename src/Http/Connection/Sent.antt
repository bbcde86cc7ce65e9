-- ===== src/Http/Connection/Sent.antt =====
-- src/http/http_connection.cpp: the request that HttpConnection and HttpConnectionPool send.
use tigerkin.Prelude.{
  ℕ, ◌≡◌, inl, inr, refl, ◌∙◌, Bool, true, false, not, none, some, List, [], ◌∷◌, if◌then◌else◌,
  if_cases, Bool-cases, All, codes, is_empty,
}
use tigerkin.Http.Method.{HttpMethod}
use tigerkin.Http.Fields.{folded, case_insensitive_less, same_letters, find}
use tigerkin.Http.Fields.Lookup.{find-assign}
use tigerkin.Http.Request.{HttpRequest, new_request, set_header}
use tigerkin.Http.Connection.{
  HttpConnectionPool, fill_one, fill_headers, with_host, make_request, make_pool_request,
}

abbrev connection : List ℕ
connection = codes "connection"

-- No field of the request is for the connection.
abbrev pub IsSilent : HttpRequest → Type 0
IsSilent r = find connection r.headers ≡ none

set_header-IsSilent :
    (key val : List ℕ) (r : HttpRequest)
    → same_letters key connection ≡ false
    → IsSilent r
    → IsSilent (set_header key val r)
unfolding set_header
set_header-IsSilent key val r e h = find-assign key connection val r.headers ∙ rw e h

fill_one-IsSilent :
    (key val : List ℕ) (state : Bool × HttpRequest)
    → IsSilent state.1
    → IsSilent (fill_one key val state).1
unfolding fill_one
fill_one-IsSilent key val (flag, r) h = elim (Bool-cases (same_letters key connection)) [
  | inl e ↦ rw (e, fill_one) (if_cases IsSilent _ _ _ (λ _. h) (λ _. h))
  | inr e ↦ rw (e, fill_one) (set_header-IsSilent key val r e h)
]

fill_headers-IsSilent :
    (headers : List (List ℕ × List ℕ)) (state : Bool × HttpRequest)
    → IsSilent state.1
    → IsSilent (fill_headers headers state).1
unfolding fill_headers
fill_headers-IsSilent [] state h = h
fill_headers-IsSilent ((key, val) ∷ rest) state h =
    fill_headers-IsSilent rest (fill_one key val state) (fill_one-IsSilent key val state h)

with_host-IsSilent :
    (host : List ℕ) (state : Bool × HttpRequest)
    → IsSilent state.1
    → IsSilent (with_host host state)
unfolding same_letters case_insensitive_less folded
with_host-IsSilent host (true, r) h = h
with_host-IsSilent host (false, r) h = set_header-IsSilent (codes "Host") host r refl h

-- The header that names the host is left to the function.
abbrev pub NamesNoHost : List (List ℕ × List ℕ) → Type 0
NamesNoHost headers =
    All {A = List ℕ × List ℕ} (λ h. same_letters h.0 (codes "host") ≡ false) headers

fill_one-flag :
    (key val : List ℕ) (state : Bool × HttpRequest)
    → same_letters key (codes "host") ≡ false
    → state.0 ≡ false
    → (fill_one key val state).0 ≡ false
unfolding fill_one
fill_one-flag key val (true, r) e h = absurd (cc)
fill_one-flag key val (false, r) e h =
    if_cases (λ (s : Bool × HttpRequest). s.0 ≡ false) (same_letters key (codes "connection"))
      (false, if same_letters val (codes "keep-alive") then record r { is_close = false } else r)
      (if same_letters key (codes "host") then not (is_empty val) else false, set_header key val r)
      (λ _. refl) (λ _. rw e refl)

fill_headers-flag :
    (headers : List (List ℕ × List ℕ)) (state : Bool × HttpRequest)
    → NamesNoHost headers
    → state.0 ≡ false
    → (fill_headers headers state).0 ≡ false
unfolding fill_headers
fill_headers-flag [] state n h = h
fill_headers-flag ((key, val) ∷ rest) state (e, n) h =
    fill_headers-flag rest (fill_one key val state) n (fill_one-flag key val state e h)

with_host-find :
    (host : List ℕ) (state : Bool × HttpRequest)
    → state.0 ≡ false
    → find (codes "host") (with_host host state).headers ≡ some host
unfolding same_letters case_insensitive_less folded set_header
with_host-find host (true, r) e = absurd (cc)
with_host-find host (false, r) e = find-assign (codes "Host") (codes "host") host r.headers

-- A request of a connection.
make_request-IsSilent :
    (method : HttpMethod) (path query fragment host : List ℕ) (headers : List (List ℕ × List ℕ))
    (body : List ℕ)
    → NamesNoHost headers
    → IsSilent (make_request method path query fragment host headers body)
      × (find (codes "host") (make_request method path query fragment host headers body).headers
          ≡ some host)
unfolding make_request new_request find
make_request-IsSilent method path query fragment host headers body n =
    let req = record (new_request 17 true) {
      method = method;
      path = path;
      query = query;
      fragment = fragment;
    } in
    let state = fill_headers headers (false, req) in
    (
      with_host-IsSilent host state (fill_headers-IsSilent headers (false, req) refl),
      with_host-find host state (fill_headers-flag headers (false, req) n refl),
    )

-- A request of a pool.
make_pool_request-IsSilent :
    (pool : HttpConnectionPool) (method : HttpMethod) (path : List ℕ)
    (headers : List (List ℕ × List ℕ)) (body : List ℕ)
    → NamesNoHost headers
    → IsSilent (make_pool_request pool method path headers body)
      × (find (codes "host") (make_pool_request pool method path headers body).headers
          ≡ some (if is_empty pool.vhost then pool.host else pool.vhost))
unfolding make_pool_request new_request find
make_pool_request-IsSilent pool method path headers body n =
    let req = record (new_request 17 true) { path = path; method = method; is_close = false } in
    let host = if is_empty pool.vhost then pool.host else pool.vhost in
    let state = fill_headers headers (false, req) in
    (
      with_host-IsSilent host state (fill_headers-IsSilent headers (false, req) refl),
      with_host-find host state (fill_headers-flag headers (false, req) n refl),
    )

-- Where no header of the call names the host, the requests that HttpConnection and
-- HttpConnectionPool make up have no field for the connection, whatever its case, and the field
-- for the host is that of the Uri, or of the pool, whose virtual host comes first.
pub sent-IsSilent :
    (pool : HttpConnectionPool) (method : HttpMethod) (path query fragment host : List ℕ)
    (headers : List (List ℕ × List ℕ)) (body : List ℕ)
    → NamesNoHost headers
    → let r = make_request method path query fragment host headers body in
      let s = make_pool_request pool method path headers body in
      IsSilent r
      × IsSilent s
      × (find (codes "host") r.headers ≡ some host)
      × (find (codes "host") s.headers
          ≡ some (if is_empty pool.vhost then pool.host else pool.vhost))
sent-IsSilent pool method path query fragment host headers body n =
    let (r, r_host) = make_request-IsSilent method path query fragment host headers body n in
    let (s, s_host) = make_pool_request-IsSilent pool method path headers body n in
    (r, s, r_host, s_host)
