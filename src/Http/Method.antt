-- ===== src/Http/Method.antt =====
-- src/http/http.h and src/http/http.cpp: the methods of a request and their names. The macro writes
-- a name with the blanks between its tokens.
pub mod Names
use tigerkin.Prelude.{
  ℕ, zero, suc, Bool, true, false, ◌&&◌, Option, none, some, List, [], ◌∷◌, ◌==◌, ltb,
  if◌then◌else◌, length, get_elem?, c_str, same_bytes, begins_with, codes,
}

pub data HttpMethod : Type 0 where
  delete : HttpMethod
  get : HttpMethod
  head : HttpMethod
  post : HttpMethod
  put : HttpMethod
  connect : HttpMethod
  options : HttpMethod
  trace : HttpMethod
  copy : HttpMethod
  lock : HttpMethod
  mkcol : HttpMethod
  move : HttpMethod
  propfind : HttpMethod
  proppatch : HttpMethod
  search : HttpMethod
  unlock : HttpMethod
  bind : HttpMethod
  rebind : HttpMethod
  unbind : HttpMethod
  acl : HttpMethod
  report : HttpMethod
  mkactivity : HttpMethod
  checkout : HttpMethod
  merge : HttpMethod
  msearch : HttpMethod
  notify : HttpMethod
  subscribe : HttpMethod
  unsubscribe : HttpMethod
  patch : HttpMethod
  purge : HttpMethod
  mkcalendar : HttpMethod
  link : HttpMethod
  unlink : HttpMethod
  source : HttpMethod
  invalid_method : HttpMethod

-- HTTP_METHOD_MAP, in its order.
abbrev pub http_method_map : List (List ℕ × HttpMethod)
http_method_map =
    (codes "DELETE", delete)
    ∷ (codes "GET", get)
    ∷ (codes "HEAD", head)
    ∷ (codes "POST", post)
    ∷ (codes "PUT", put)
    ∷ (codes "CONNECT", connect)
    ∷ (codes "OPTIONS", options)
    ∷ (codes "TRACE", trace)
    ∷ (codes "COPY", copy)
    ∷ (codes "LOCK", lock)
    ∷ (codes "MKCOL", mkcol)
    ∷ (codes "MOVE", move)
    ∷ (codes "PROPFIND", propfind)
    ∷ (codes "PROPPATCH", proppatch)
    ∷ (codes "SEARCH", search)
    ∷ (codes "UNLOCK", unlock)
    ∷ (codes "BIND", bind)
    ∷ (codes "REBIND", rebind)
    ∷ (codes "UNBIND", unbind)
    ∷ (codes "ACL", acl)
    ∷ (codes "REPORT", report)
    ∷ (codes "MKACTIVITY", mkactivity)
    ∷ (codes "CHECKOUT", checkout)
    ∷ (codes "MERGE", merge)
    ∷ (codes "M - SEARCH", msearch)
    ∷ (codes "NOTIFY", notify)
    ∷ (codes "SUBSCRIBE", subscribe)
    ∷ (codes "UNSUBSCRIBE", unsubscribe)
    ∷ (codes "PATCH", patch)
    ∷ (codes "PURGE", purge)
    ∷ (codes "MKCALENDAR", mkcalendar)
    ∷ (codes "LINK", link)
    ∷ (codes "UNLINK", unlink)
    ∷ (codes "SOURCE", source)
    ∷ []

-- The number of a method.
pub number : HttpMethod → ℕ
number delete = 0
number get = 1
number head = 2
number post = 3
number put = 4
number connect = 5
number options = 6
number trace = 7
number copy = 8
number lock = 9
number mkcol = 10
number move = 11
number propfind = 12
number proppatch = 13
number search = 14
number unlock = 15
number bind = 16
number rebind = 17
number unbind = 18
number acl = 19
number report = 20
number mkactivity = 21
number checkout = 22
number merge = 23
number msearch = 24
number notify = 25
number subscribe = 26
number unsubscribe = 27
number patch = 28
number purge = 29
number mkcalendar = 30
number link = 31
number unlink = 32
number source = 33
number invalid_method = 34

first_match : (List ℕ → Bool) → List (List ℕ × HttpMethod) → HttpMethod
first_match matches [] = invalid_method
first_match matches ((name, method) ∷ rest) =
    if matches name then method else first_match matches rest

-- StringToHttpMethod, by strcmp.
pub string_to_http_method : List ℕ → HttpMethod
unfolding first_match
string_to_http_method m = first_match (λ name. same_bytes name (c_str m)) http_method_map

-- CharsToHttpMethod, by strncmp over the length of each name.
pub chars_to_http_method : List ℕ → HttpMethod
unfolding first_match
chars_to_http_method m = first_match (λ name. begins_with name (c_str m)) http_method_map

abbrev name_at : ℕ → List (List ℕ × HttpMethod) → Option (List ℕ)
name_at i table = elim (get_elem? table i) [ none ↦ none | some (name, _) ↦ some name ]

-- HttpMethodToString, where none is a read past the end of the table.
pub http_method_to_string : HttpMethod → Option (List ℕ)
unfolding number
http_method_to_string m =
    let idx = number m in
    if ltb (length http_method_map) idx then some (codes "UNKNOWN") else name_at idx http_method_map
