-- ===== src/Http/Request.antt =====
-- src/http/http.h and src/http/http.cpp, HttpRequest: its state, its fields, the parameters and cookies
-- that it is searched for, and what it prints. A string is the list of its bytes. The bits of
-- m_parserParamFlag are three marks.
pub mod Params
use tigerkin.Prelude.{
  ℕ, zero, suc, ◌+◌, ◌-◌, ◌*◌, ◌/◌, ◌%◌, ◌^◌, Bool, true, false, not, ◌&&◌, Option, none, some,
  List, [], ◌∷◌, ◌++◌, ◌<<◌, ltb, ◌==◌, if◌then◌else◌, length, codes, is_empty,
}
use tigerkin.StringUtils.{url_encode, trim}
use tigerkin.Http.Method.{HttpMethod, http_method_to_string}
use tigerkin.Http.Printing.{decimal, field_lines, connection_line, body_part, version_text}
use tigerkin.Http.Fields.{
  Fields, same_letters, contains_letters, assign, insert, erase, find_or, has_key,
}

-- m_parserParamFlag & 0x1, & 0x2 and & 0x4.
pub record ParserParamFlag : Type 0 where
  pub query_done : Bool
  pub body_done : Bool
  pub cookies_done : Bool

pub record HttpRequest : Type 0 where
  pub method : HttpMethod
  pub version : ℕ
  pub is_close : Bool
  pub is_websocket : Bool
  pub parser_param_flag : ParserParamFlag
  pub path : List ℕ
  pub query : List ℕ
  pub fragment : List ℕ
  pub body : List ℕ
  pub headers : Fields
  pub params : Fields
  pub cookies : Fields

unfoldable pub new_request : ℕ → Bool → HttpRequest
new_request version close = record {
  method = HttpMethod.get;
  version = version;
  is_close = close;
  is_websocket = false;
  parser_param_flag = record { query_done = false; body_done = false; cookies_done = false };
  path = codes "/";
  query = [];
  fragment = [];
  body = [];
  headers = [];
  params = [];
  cookies = [];
}

-- HttpRequest::getHeader, hasHeader, delHeader and setHeader.
pub get_header : List ℕ → List ℕ → HttpRequest → List ℕ
get_header key def r = find_or key def r.headers

pub has_header : List ℕ → HttpRequest → Bool
has_header key r = has_key key r.headers

pub del_header : List ℕ → HttpRequest → HttpRequest
del_header key r = record r { headers = erase key r.headers }

unfoldable pub set_header : List ℕ → List ℕ → HttpRequest → HttpRequest
set_header key val r = record r { headers = assign key val r.headers }

-- HttpRequest::init.
pub init : HttpRequest → HttpRequest
unfolding get_header
init r =
    let conn = get_header (codes "connection") [] r in
    if is_empty conn
    then r
    else record r { is_close = not (same_letters conn (codes "keep-alive")) }

-- What stands before the first byte `c`, and behind it.
abbrev pub with_front : ℕ → Option (List ℕ × List ℕ) → Option (List ℕ × List ℕ)
with_front x none = none
with_front x (some (before, behind)) = some (x ∷ before, behind)

abbrev pub split_at : ℕ → List ℕ → Option (List ℕ × List ℕ)
split_at c [] = none
split_at c (x ∷ xs) =
    let later = with_front x (split_at c xs) in if x == c then some ([], xs) else later

-- PARSE_PARAM over what is left of the string. The flag is searched for from the equals sign on,
-- which is no flag. A round takes a byte at least, so the length of the string is enough fuel.
pub parse_loop : ℕ → ℕ → (List ℕ → List ℕ) → List ℕ → Fields → Fields
parse_loop zero flag trimmed str m = m
parse_loop (suc fuel) flag trimmed str m = elim (split_at b'=' str) [
  | none ↦ m
  | some (key, behind) ↦ elim (split_at flag behind) [
    | none ↦ insert (trimmed key) (url_encode behind true) m
    | some (val, rest) ↦
        parse_loop fuel flag trimmed rest (insert (trimmed key) (url_encode val true) m)
  ]
]

pub parse_param : List ℕ → Fields → ℕ → (List ℕ → List ℕ) → Fields
unfolding parse_loop
parse_param str m flag trimmed = parse_loop (length str) flag trimmed str m

abbrev pub untrimmed : List ℕ → List ℕ
untrimmed key = key

abbrev pub trimmed : List ℕ → List ℕ
trimmed key = trim key (b' ' ∷ b'\t' ∷ b'\r' ∷ b'\n' ∷ [])

pub init_query_param : HttpRequest → HttpRequest
unfolding parse_param
init_query_param r = if r.parser_param_flag.query_done then r else record r {
  params = parse_param r.query r.params b'&' untrimmed;
  parser_param_flag = record (r.parser_param_flag) { query_done = true };
}

pub init_body_param : HttpRequest → HttpRequest
unfolding parse_param get_header
init_body_param r =
    let content_type = get_header (codes "content-type") [] r in
    let done = record (r.parser_param_flag) { body_done = true } in
    if r.parser_param_flag.body_done
    then r
    else if contains_letters content_type (codes "application/x-www-form-urlencoded")
    then record r { params = parse_param r.body r.params b'&' untrimmed; parser_param_flag = done }
    else record r { parser_param_flag = done }

pub init_cookies : HttpRequest → HttpRequest
unfolding parse_param get_header
init_cookies r =
    let cookie = get_header (codes "cookie") [] r in
    let done = record (r.parser_param_flag) { cookies_done = true } in
    if r.parser_param_flag.cookies_done
    then r
    else if is_empty cookie
    then record r { parser_param_flag = done }
    else record r { cookies = parse_param cookie r.cookies b';' trimmed; parser_param_flag = done }

pub init_param : HttpRequest → HttpRequest
unfolding init_query_param init_body_param init_cookies
init_param r = init_cookies (init_body_param (init_query_param r))

-- The searches give the request too, which they may have changed.
pub get_param : List ℕ → List ℕ → HttpRequest → List ℕ × HttpRequest
unfolding init_query_param init_body_param
get_param key def r = let s = init_body_param (init_query_param r) in (find_or key def s.params, s)

pub has_param : List ℕ → HttpRequest → Bool × HttpRequest
unfolding init_query_param init_body_param
has_param key r = let s = init_body_param (init_query_param r) in (has_key key s.params, s)

pub del_param : List ℕ → HttpRequest → HttpRequest
del_param key r = record r { params = erase key r.params }

pub set_param : List ℕ → List ℕ → HttpRequest → HttpRequest
set_param key val r = record r { params = assign key val r.params }

pub get_cookie : List ℕ → List ℕ → HttpRequest → List ℕ × HttpRequest
unfolding init_cookies
get_cookie key def r = let s = init_cookies r in (find_or key def s.cookies, s)

pub has_cookie : List ℕ → HttpRequest → Bool × HttpRequest
unfolding init_cookies
has_cookie key r = let s = init_cookies r in (has_key key s.cookies, s)

pub del_cookie : List ℕ → HttpRequest → HttpRequest
del_cookie key r = record r { cookies = erase key r.cookies }

pub set_cookie : List ℕ → List ℕ → HttpRequest → HttpRequest
set_cookie key val r = record r { cookies = assign key val r.cookies }

cookie_lines : Fields → List ℕ
cookie_lines [] = []
cookie_lines ((key, val) ∷ rest) =
    codes "\t" << key << codes ":" << val << codes "\n" << cookie_lines rest

cookie_part : Fields → List ℕ
unfolding cookie_lines
cookie_part [] = []
cookie_part (c ∷ cs) = codes "Set-Cookie: \n" << cookie_lines (c ∷ cs)

abbrev marked : List ℕ → List ℕ → List ℕ
marked mark part = if is_empty part then part else mark << part

-- HttpRequest::dump, where none is a name read past the end of the table.
pub dump : HttpRequest → Option (List ℕ)
unfolding cookie_part
dump r = elim (http_method_to_string r.method) [
  | none ↦ none
  | some name ↦ some (
      name
      << codes " "
      << r.path
      << marked (codes "?") r.query
      << marked (codes "#") r.fragment
      << codes " HTTP/"
      << version_text r.version
      << codes "\r\n"
      << connection_line r.is_websocket r.is_close
      << field_lines r.is_websocket r.headers
      << cookie_part r.cookies
      << body_part r.body)
]
