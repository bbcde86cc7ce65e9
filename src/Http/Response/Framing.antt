-- ===== src/Http/Response/Framing.antt =====
-- src/http/http.cpp, HttpResponse::dump: a reader of what is printed finds the body.
use mathlib.Core.List.{append_assoc}
use tigerkin.Prelude.{
  ℕ, some, ◌≡◌, refl, sym, ap, subst, ◌∙◌, if_cases, List, [], ◌∷◌, ◌++◌, ◌<<◌, arith, All, codes,
  is_empty, if◌then◌else◌,
}
use tigerkin.Http.Status.{http_status_to_string}
use tigerkin.Http.Status.Messages.{http_status_to_string-NoCr}
use tigerkin.Http.Printing.{decimal, version_text, field_lines, connection_line, body_part}
use tigerkin.Http.Printing.Lines.{
  NoCr, no_cr-NoCr, NoCr-append, CleanField, Parts, PartsNext, Parts-append, PartsNext-line,
  decimal-NoCr, version_text-NoCr, field_lines-PartsNext, connection_line-PartsNext,
  body_part-PartsNext, part_head,
}
use tigerkin.Http.Response.{HttpResponse, cookie_lines, dump}

cookie_lines-PartsNext :
    (body : List ℕ) (cs : List (List ℕ)) (rest : List ℕ)
    → All NoCr cs
    → PartsNext body rest
    → PartsNext body (cookie_lines cs ++ rest)
unfolding cookie_lines
cookie_lines-PartsNext body [] rest h p = p
cookie_lines-PartsNext body (c ∷ cs) rest (n, h) p =
    let line = codes "Set-Cookie: " << c in
    subst (PartsNext body) (sym (append_assoc line (b'\r' ∷ b'\n' ∷ cookie_lines cs) rest)) (
      PartsNext-line body line (cookie_lines cs ++ rest)
        (NoCr-append (codes "Set-Cookie: ") c (no_cr-NoCr (codes "Set-Cookie: ") refl) n)
        (omega arith) (cookie_lines-PartsNext body cs rest h p))

abbrev start_line : HttpResponse → List ℕ
start_line r =
    codes "HTTP/"
    << version_text r.version
    << codes " "
    << decimal r.status
    << codes " "
    << (if is_empty r.reason then http_status_to_string r.status else r.reason)

start_line-NoCr : (r : HttpResponse) → NoCr r.reason → NoCr (start_line r)
start_line-NoCr r h =
    let message = if is_empty r.reason then http_status_to_string r.status else r.reason in
    let m : NoCr message =
      if_cases NoCr (is_empty r.reason) (http_status_to_string r.status) r.reason
        (λ _. http_status_to_string-NoCr r.status) (λ _. h) in
    let back = NoCr-append (decimal r.status) (b' ' ∷ message) (decimal-NoCr r.status) (refl, m) in
    NoCr-append (codes "HTTP/") _ (no_cr-NoCr (codes "HTTP/") refl) (
      NoCr-append (version_text r.version) (b' ' ∷ (decimal r.status ++ (b' ' ∷ message)))
        (version_text-NoCr r.version) (refl, back))

-- Where the reason, the names and values of the fields and the cookies of a response have no
-- carriage return, what dump prints has a CR LF CR LF, and the bytes behind the first one are
-- the body.
pub part_head-dump :
    (r : HttpResponse)
    → NoCr r.reason
    → All CleanField r.headers
    → All NoCr r.cookies
    → (head : List ℕ) × (part_head (dump r) ≡ some (head, r.body))
unfolding dump
part_head-dump r reason headers cookies =
    let rest =
      field_lines r.is_websocket r.headers
      << cookie_lines r.cookies
      << connection_line r.is_websocket r.is_close
      << body_part r.body in
    let next = field_lines-PartsNext r.body r.is_websocket r.headers _ headers (
      cookie_lines-PartsNext r.body r.cookies _ cookies (
        connection_line-PartsNext r.body r.is_websocket r.is_close _
          (body_part-PartsNext r.body))) in
    let message = if is_empty r.reason then http_status_to_string r.status else r.reason in
    let end = b'\r' ∷ b'\n' ∷ rest in
    let whole : start_line r ++ end ≡ dump r =
      ap (λ t. codes "HTTP/" ++ t)
        (append_assoc (version_text r.version) (b' ' ∷ (decimal r.status ++ (b' ' ∷ message))) end
          ∙ ap (λ t. version_text r.version ++ (b' ' ∷ t))
              (append_assoc (decimal r.status) (b' ' ∷ message) end)) in
    subst (Parts r.body) whole
      (Parts-append r.body (start_line r) end (start_line-NoCr r reason) next)
