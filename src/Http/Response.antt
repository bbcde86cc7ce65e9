-- ===== src/Http/Response.antt =====
-- src/http/http.h and src/http/http.cpp, HttpResponse: its state, its fields, and what it prints. Time2Str
-- is an argument, since it is the C library's.
pub mod Framing
use tigerkin.Prelude.{
  ℕ, zero, suc, Bool, true, false, not, List, [], ◌∷◌, ◌++◌, ◌<<◌, ltb, if◌then◌else◌, codes,
  is_empty,
}
use tigerkin.Http.Status.{HttpStatus, ok, found, http_status_to_string}
use tigerkin.Http.Fields.{Fields, assign, erase, find_or}
use tigerkin.Http.Printing.{decimal, field_lines, connection_line, body_part, version_text}

pub record HttpResponse : Type 0 where
  pub status : HttpStatus
  pub version : ℕ
  pub is_close : Bool
  pub is_websocket : Bool
  pub body : List ℕ
  pub reason : List ℕ
  pub headers : Fields
  pub cookies : List (List ℕ)

pub new_response : ℕ → Bool → HttpResponse
new_response version close = record {
  status = ok;
  version = version;
  is_close = close;
  is_websocket = false;
  body = [];
  reason = [];
  headers = [];
  cookies = [];
}

pub del_header : List ℕ → HttpResponse → HttpResponse
del_header key r = record r { headers = erase key r.headers }

pub set_header : List ℕ → List ℕ → HttpResponse → HttpResponse
set_header key val r = record r { headers = assign key val r.headers }

pub set_redirect : List ℕ → HttpResponse → HttpResponse
unfolding set_header
set_redirect uri r = set_header (codes "Location") uri (record r { status = found })

pub get_header : List ℕ → List ℕ → HttpResponse → List ℕ
get_header key def r = find_or key def r.headers

-- HttpResponse::setCookies, with the text of the time of expiry.
pub set_cookies :
    (ℕ → List ℕ) → List ℕ → List ℕ → ℕ → List ℕ → List ℕ → Bool → HttpResponse → HttpResponse
set_cookies time_to_str key val expired path domain secure r =
    let cookie =
      key
      << codes "="
      << val
      << (if ltb 0 expired then codes ";expires=" << time_to_str expired << codes " GMT" else [])
      << (if is_empty domain then [] else codes ";dlomain=" << domain)
      << (if is_empty path then [] else codes ";path=" << path)
      << (if secure then codes ";secure" else []) in
    record r { cookies = r.cookies ++ (cookie ∷ []) }

pub cookie_lines : List (List ℕ) → List ℕ
cookie_lines [] = []
cookie_lines (c ∷ cs) = codes "Set-Cookie: " << c << codes "\r\n" << cookie_lines cs

-- HttpResponse::dump.
pub dump : HttpResponse → List ℕ
unfolding cookie_lines
dump r =
    codes "HTTP/"
    << version_text r.version
    << codes " "
    << decimal r.status
    << codes " "
    << (if is_empty r.reason then http_status_to_string r.status else r.reason)
    << codes "\r\n"
    << field_lines r.is_websocket r.headers
    << cookie_lines r.cookies
    << connection_line r.is_websocket r.is_close
    << body_part r.body
