-- ===== src/Http/Connection.antt =====
-- src/http/http_connection.h and src/http/http_connection.cpp: the request that is made up from a map of
-- headers, what a request ends with, and the pool of connections. Sockets, addresses and the clock are
-- arguments: whether a connection is still open, the time, the connection that connecting gives, and
-- what sending and receiving give. A method of the pool is one step, and m_total is a natural number,
-- which the theorem on the pool shows to be exact. A Uri is its path, query and fragment.
pub mod Sent
pub mod Pool
use tigerkin.Prelude.{
  ℕ, zero, suc, ◌+◌, ◌-◌, ◌%◌, ◌^◌, Bool, true, false, not, ◌&&◌, ◌||◌, Option, none, some, List,
  [], ◌∷◌, ◌++◌, ◌<<◌, ltb, leb, if◌then◌else◌, length, codes, is_empty,
}
use tigerkin.Http.Method.{HttpMethod}
use tigerkin.Http.Fields.{same_letters}
use tigerkin.Http.Request.{HttpRequest, new_request, set_header}
use tigerkin.Http.Response.{HttpResponse}

pub data ErrorCode : Type 0 where
  ok : ErrorCode
  invalid_url : ErrorCode
  invalid_host : ErrorCode
  connect_fail : ErrorCode
  send_close_by_peer : ErrorCode
  send_socket_error : ErrorCode
  timeout : ErrorCode
  create_socket_error : ErrorCode
  pool_get_connection_fail : ErrorCode
  pool_invalid_connection : ErrorCode

-- A result without the text that describes it.
pub record HttpResult : Type 0 where
  pub rsp : Option HttpResponse
  pub err_code : ErrorCode

abbrev failed : ErrorCode → HttpResult
failed code = record { rsp = none; err_code = code }

-- A round of the loop over the headers of a call, with hasHost: the header for the connection is left
-- out.
pub fill_one : List ℕ → List ℕ → Bool × HttpRequest → Bool × HttpRequest
fill_one key val (has_host, req) =
    let seen =
      if not has_host && same_letters key (codes "host") then not (is_empty val) else has_host in
    let closing =
      if same_letters val (codes "keep-alive") then record req { is_close = false } else req in
    if same_letters key (codes "connection")
    then (has_host, closing)
    else (seen, set_header key val req)

pub fill_headers : List (List ℕ × List ℕ) → Bool × HttpRequest → Bool × HttpRequest
unfolding fill_one
fill_headers [] state = state
fill_headers ((key, val) ∷ rest) state = fill_headers rest (fill_one key val state)

abbrev pub with_host : List ℕ → Bool × HttpRequest → HttpRequest
with_host host (has_host, req) = if has_host then req else set_header (codes "Host") host req

-- HttpConnection::Request, up to the call of the other: the request that is sent.
pub make_request :
    HttpMethod → List ℕ → List ℕ → List ℕ → List ℕ → List (List ℕ × List ℕ) → List ℕ → HttpRequest
unfolding fill_headers
make_request method path query fragment host headers body =
    let req = record (new_request 17 true) {
      method = method;
      path = path;
      query = query;
      fragment = fragment;
    } in
    record (with_host host (fill_headers headers (false, req))) { body = body }

-- What a call of write, and the reading behind it, gives.
pub data Exchange : Type 0 where
  closed_by_peer : Exchange
  send_error : Exchange
  answered : Option HttpResponse → Exchange

pub exchange_result : Exchange → HttpResult
exchange_result closed_by_peer = failed ErrorCode.send_close_by_peer
exchange_result send_error = failed ErrorCode.send_socket_error
exchange_result (answered none) = failed ErrorCode.timeout
exchange_result (answered (some rsp)) = record { rsp = some rsp; err_code = ErrorCode.ok }

-- HttpConnection::Request: whether there is an address, a socket and a connection.
pub request_once : Bool → Bool → Bool → Exchange → HttpResult
unfolding exchange_result
request_once has_addr has_sock connects exchange =
    if not has_addr
    then failed ErrorCode.invalid_host
    else if not has_sock
    then failed ErrorCode.create_socket_error
    else if not connects
    then failed ErrorCode.connect_fail
    else exchange_result exchange

-- A connection, with the number that tells it from others.
pub record HttpConnection : Type 0 where
  pub id : ℕ
  pub create_time : ℕ
  pub requests : ℕ

pub record HttpConnectionPool : Type 0 where
  pub host : List ℕ
  pub vhost : List ℕ
  pub max_size : ℕ
  pub max_alive_time : ℕ
  pub max_request : ℕ
  pub conns : List HttpConnection
  pub total : ℕ

unfoldable pub new_pool : List ℕ → List ℕ → ℕ → ℕ → ℕ → HttpConnectionPool
new_pool host vhost max_size max_alive_time max_request = record {
  host = host;
  vhost = vhost;
  max_size = max_size;
  max_alive_time = max_alive_time;
  max_request = max_request;
  conns = [];
  total = 0;
}

-- What the loop of getConnection finds: the connection, those to delete, and those left.
pub record Picked : Type 0 where
  pub found : Option HttpConnection
  pub invalid : List HttpConnection
  pub left : List HttpConnection

abbrev pub dropping : HttpConnection → Picked → Picked
dropping c p = record p { invalid = c ∷ p.invalid }

pub pick : (HttpConnection → Bool) → ℕ → ℕ → List HttpConnection → Picked
pick is_connected max_alive_time now [] = record { found = none; invalid = []; left = [] }
pick is_connected max_alive_time now (c ∷ rest) =
    let later = pick is_connected max_alive_time now rest in
    if not (is_connected c)
    then dropping c later
    else if ltb ((c.create_time + max_alive_time) % 2 ^ 64) now
    then dropping c later
    else record { found = some c; invalid = []; left = rest }

-- HttpConnectionPool::getConnection, with what connecting would give.
unfoldable pub get_connection :
    (HttpConnection → Bool)
    → ℕ
    → Option HttpConnection
    → HttpConnectionPool
    → Option HttpConnection × HttpConnectionPool
unfolding pick
get_connection is_connected now fresh pool =
    let p = pick is_connected pool.max_alive_time now pool.conns in
    let cleaned = record pool { conns = p.left; total = pool.total - length p.invalid } in
    elim p.found [
      | some c ↦ (some c, cleaned)
      | none ↦ elim fresh [
        | none ↦ (none, cleaned)
        | some c ↦ (some c, record cleaned { total = cleaned.total + 1 })
      ]
    ]

-- HttpConnectionPool::ReleasePtr.
pub release_ptr :
    (HttpConnection → Bool) → ℕ → HttpConnection → HttpConnectionPool → HttpConnectionPool
release_ptr is_connected now ptr pool =
    let used = record ptr { requests = (ptr.requests + 1) % 2 ^ 64 } in
    if not (is_connected ptr)
      || leb ((ptr.create_time + pool.max_alive_time) % 2 ^ 64) now
      || leb pool.max_request used.requests
    then record pool { total = pool.total - 1 }
    else record pool { conns = pool.conns ++ (used ∷ []) }

-- The request of a method of the pool with a path and headers.
pub make_pool_request :
    HttpConnectionPool → HttpMethod → List ℕ → List (List ℕ × List ℕ) → List ℕ → HttpRequest
unfolding fill_headers
make_pool_request pool method path headers body =
    let req = record (new_request 17 true) { path = path; method = method; is_close = false } in
    let host = if is_empty pool.vhost then pool.host else pool.vhost in
    record (with_host host (fill_headers headers (false, req))) { body = body }

-- The path of a Uri with its query and fragment.
abbrev pub marked : List ℕ → List ℕ → List ℕ
marked mark part = if is_empty part then part else mark << part

pub target : List ℕ → List ℕ → List ℕ → List ℕ
target path query fragment = path << marked (codes "?") query << marked (codes "#") fragment

-- HttpConnectionPool::request: the connection goes back to the pool when the call ends.
pub request :
    (HttpConnection → Bool)
    → ℕ
    → Option HttpConnection
    → Bool
    → Exchange
    → (HttpConnection → Bool)
    → ℕ
    → HttpConnectionPool
    → HttpResult × HttpConnectionPool
unfolding get_connection release_ptr exchange_result
request open_before now fresh has_sock exchange open_after later pool =
    let (o, left) = get_connection open_before now fresh pool in
    elim o [
      | none ↦ (failed ErrorCode.pool_get_connection_fail, left)
      | some c ↦ (
        if has_sock then exchange_result exchange else failed ErrorCode.pool_invalid_connection,
        release_ptr open_after later c left,
      )
    ]
