-- ===== src/Http/Method/Names.antt =====
-- src/http/http.cpp: a method's name leads back to the method.
use tigerkin.Prelude.{ℕ, ◌≡◌, ◌≢◌, refl, some, List, ◌++◌, codes}
use tigerkin.Http.Method.{
  HttpMethod, string_to_http_method, chars_to_http_method, http_method_to_string,
}

-- The name that is printed for a method is read as that method, alone and with any bytes behind it.
abbrev pub Named : HttpMethod → Type 0
Named m =
    (name : List ℕ) × (http_method_to_string m ≡ some name)
    × (string_to_http_method name ≡ m)
    × ((rest : List ℕ) → chars_to_http_method (name ++ rest) ≡ m)

-- For every method but INVALID_METHOD, HttpMethodToString gives a name, StringToHttpMethod reads
-- the name as that method, and CharsToHttpMethod does so with any bytes behind it.
pub http_method_to_string-Named : (m : HttpMethod) → m ≢ HttpMethod.invalid_method → Named m
unfolding http_method_to_string string_to_http_method chars_to_http_method
http_method_to_string-Named HttpMethod.delete valid = (codes "DELETE", refl, refl, λ rest. refl)
http_method_to_string-Named HttpMethod.get valid = (codes "GET", refl, refl, λ rest. refl)
http_method_to_string-Named HttpMethod.head valid = (codes "HEAD", refl, refl, λ rest. refl)
http_method_to_string-Named HttpMethod.post valid = (codes "POST", refl, refl, λ rest. refl)
http_method_to_string-Named HttpMethod.put valid = (codes "PUT", refl, refl, λ rest. refl)
http_method_to_string-Named HttpMethod.connect valid = (codes "CONNECT", refl, refl, λ rest. refl)
http_method_to_string-Named HttpMethod.options valid = (codes "OPTIONS", refl, refl, λ rest. refl)
http_method_to_string-Named HttpMethod.trace valid = (codes "TRACE", refl, refl, λ rest. refl)
http_method_to_string-Named HttpMethod.copy valid = (codes "COPY", refl, refl, λ rest. refl)
http_method_to_string-Named HttpMethod.lock valid = (codes "LOCK", refl, refl, λ rest. refl)
http_method_to_string-Named HttpMethod.mkcol valid = (codes "MKCOL", refl, refl, λ rest. refl)
http_method_to_string-Named HttpMethod.move valid = (codes "MOVE", refl, refl, λ rest. refl)
http_method_to_string-Named HttpMethod.propfind valid = (codes "PROPFIND", refl, refl, λ rest. refl)
http_method_to_string-Named HttpMethod.proppatch valid =
    (codes "PROPPATCH", refl, refl, λ rest. refl)
http_method_to_string-Named HttpMethod.search valid = (codes "SEARCH", refl, refl, λ rest. refl)
http_method_to_string-Named HttpMethod.unlock valid = (codes "UNLOCK", refl, refl, λ rest. refl)
http_method_to_string-Named HttpMethod.bind valid = (codes "BIND", refl, refl, λ rest. refl)
http_method_to_string-Named HttpMethod.rebind valid = (codes "REBIND", refl, refl, λ rest. refl)
http_method_to_string-Named HttpMethod.unbind valid = (codes "UNBIND", refl, refl, λ rest. refl)
http_method_to_string-Named HttpMethod.acl valid = (codes "ACL", refl, refl, λ rest. refl)
http_method_to_string-Named HttpMethod.report valid = (codes "REPORT", refl, refl, λ rest. refl)
http_method_to_string-Named HttpMethod.mkactivity valid =
    (codes "MKACTIVITY", refl, refl, λ rest. refl)
http_method_to_string-Named HttpMethod.checkout valid = (codes "CHECKOUT", refl, refl, λ rest. refl)
http_method_to_string-Named HttpMethod.merge valid = (codes "MERGE", refl, refl, λ rest. refl)
http_method_to_string-Named HttpMethod.msearch valid =
    (codes "M - SEARCH", refl, refl, λ rest. refl)
http_method_to_string-Named HttpMethod.notify valid = (codes "NOTIFY", refl, refl, λ rest. refl)
http_method_to_string-Named HttpMethod.subscribe valid =
    (codes "SUBSCRIBE", refl, refl, λ rest. refl)
http_method_to_string-Named HttpMethod.unsubscribe valid =
    (codes "UNSUBSCRIBE", refl, refl, λ rest. refl)
http_method_to_string-Named HttpMethod.patch valid = (codes "PATCH", refl, refl, λ rest. refl)
http_method_to_string-Named HttpMethod.purge valid = (codes "PURGE", refl, refl, λ rest. refl)
http_method_to_string-Named HttpMethod.mkcalendar valid =
    (codes "MKCALENDAR", refl, refl, λ rest. refl)
http_method_to_string-Named HttpMethod.link valid = (codes "LINK", refl, refl, λ rest. refl)
http_method_to_string-Named HttpMethod.unlink valid = (codes "UNLINK", refl, refl, λ rest. refl)
http_method_to_string-Named HttpMethod.source valid = (codes "SOURCE", refl, refl, λ rest. refl)
http_method_to_string-Named HttpMethod.invalid_method valid = absurd (valid refl)
