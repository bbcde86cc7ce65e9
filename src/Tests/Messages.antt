-- ===== src/Tests/Messages.antt =====
-- src/http at small inputs.
use tigerkin.Prelude.{ℕ, ◌≡◌, refl, Bool, true, false, none, some, List, [], ◌∷◌, map, codes}
use tigerkin.Http.Method.{HttpMethod}
use tigerkin.Http.Method.Names.{Named, http_method_to_string-Named}
use tigerkin.Http.Fields.{
  Fields, case_insensitive_less, folded, same_letters, find, assign, insert, erase, find_or,
}
use tigerkin.Http.Fields.Lookup.{IsSorted, find-IsSorted}
use tigerkin.Servlets.{Dispatch, returns, same_path, find_exact}
use tigerkin.Servlets.Globs.{Stalls}
use tigerkin.Http.Server.{handle_client}
use tigerkin.Http.Server.Answers.{answer, handle_client-answer}
use tigerkin.Http.Request.{HttpRequest, new_request, parse_param, untrimmed}
use tigerkin.Http.Request.Params.{insert_all, parse_param-insert_all}
use tigerkin.Http.Response.{HttpResponse, dump}
use tigerkin.Http.Response.Framing.{part_head-dump}
use tigerkin.Http.Printing.Lines.{part_head, no_cr-NoCr}
use tigerkin.Http.Connection.{
  HttpConnection, HttpConnectionPool, new_pool, make_request, make_pool_request, get_connection,
}
use tigerkin.Http.Connection.Pool.{IsCounted, begins, goes, gets, Reach-IsCounted}
use tigerkin.Http.Connection.Sent.{IsSilent, sent-IsSilent}

http_method_to_string-Named_example : Named HttpMethod.msearch
http_method_to_string-Named_example =
    http_method_to_string-Named HttpMethod.msearch (λ e. absurd (cc))

abbrev two_fields : Fields
two_fields = (codes "Accept", codes "a") ∷ (codes "Cookie", codes "c") ∷ []

find-IsSorted_example :
    (IsSorted (assign (codes "cookie") (codes "d") two_fields)
      × (find (codes "COOKIE") (assign (codes "cookie") (codes "d") two_fields) ≡ some (codes "d")))
    × (IsSorted (insert (codes "cookie") (codes "d") two_fields)
        × (find (codes "COOKIE") (insert (codes "cookie") (codes "d") two_fields)
            ≡ some (find_or (codes "cookie") (codes "d") two_fields)))
    × IsSorted (erase (codes "cookie") two_fields)
    × (find (codes "COOKIE") (erase (codes "cookie") two_fields) ≡ none)
unfolding same_letters case_insensitive_less folded
find-IsSorted_example =
    find-IsSorted (codes "cookie") (codes "COOKIE") (codes "d") two_fields ((refl, tt), (tt, tt))

abbrev pairs : List (List ℕ × List ℕ)
pairs = (codes "a", codes "1=2") ∷ (codes "b&", codes "") ∷ []

parse_param-insert_all_example :
    parse_param (codes "a=1=2&b&=") [] b'&' untrimmed ≡ insert_all untrimmed pairs []
parse_param-insert_all_example =
    parse_param-insert_all b'&' untrimmed pairs []
      (((refl, tt), (refl, (refl, (refl, tt)))), (((refl, (refl, tt)), tt), tt))

abbrev missing_page : HttpResponse
missing_page = record {
  status = 404;
  version = 17;
  is_close = true;
  is_websocket = false;
  body = codes "\r\n\r\n";
  reason = [];
  headers = two_fields;
  cookies = codes "k=v" ∷ [];
}

part_head-dump_example :
    (head : List ℕ) × (part_head (dump missing_page) ≡ some (head, codes "\r\n\r\n"))
part_head-dump_example =
    part_head-dump missing_page tt
      (
        (no_cr-NoCr (codes "Accept") refl, no_cr-NoCr (codes "a") refl),
        ((no_cr-NoCr (codes "Cookie") refl, no_cr-NoCr (codes "c") refl), tt),
      )
      (no_cr-NoCr (codes "k=v") refl, tt)

abbrev never : HttpConnection → Bool
never c = false

abbrev pool : HttpConnectionPool
pool = new_pool (codes "host") [] 10 20 30

abbrev first_conn : HttpConnection
first_conn = record { id = 1; create_time = 5; requests = 0 }

Reach-IsCounted_example : IsCounted 1 (get_connection never 5 (some first_conn) pool).1
unfolding get_connection new_pool
Reach-IsCounted_example =
    Reach-IsCounted (codes "host") [] 10 20 30 1 (get_connection never 5 (some first_conn) pool).1
      (goes begins (gets never 5 (some first_conn) 0 pool))

abbrev asked : List (List ℕ × List ℕ)
asked = (codes "Connection", codes "close") ∷ (codes "Accept", codes "a") ∷ []

sent-IsSilent_example :
    let r = make_request HttpMethod.get (codes "/") [] [] (codes "host") asked [] in
    let s = make_pool_request pool HttpMethod.get (codes "/") asked [] in
    IsSilent r
    × IsSilent s
    × (find (codes "host") r.headers ≡ some (codes "host"))
    × (find (codes "host") s.headers ≡ some (codes "host"))
unfolding same_letters case_insensitive_less folded new_pool
sent-IsSilent_example =
    sent-IsSilent pool HttpMethod.get (codes "/") [] [] (codes "host") asked [] (refl, (refl, tt))

-- A request for the path a, which leaves the connection open, and one that closes it.
abbrev asks : Bool → HttpRequest
asks close = record (new_request 17 close) { path = codes "/a" }

abbrev one_servlet : Dispatch
one_servlet = record { exact = (codes "/a", some 1) ∷ []; globs = []; default_servlet = none }

abbrev echo : ℕ → HttpRequest → HttpResponse → HttpResponse × ℕ
echo s q rsp = (record rsp { body = q.path }, 0)

handle_client-answer_example :
    handle_client same_path 1 echo true one_servlet (asks false ∷ asks true ∷ asks false ∷ [])
    ≡ record {
      sent = map (answer same_path echo one_servlet) (asks false ∷ asks true ∷ []);
      ended = returns tt;
    }
unfolding new_request same_path find_exact
handle_client-answer_example =
    handle_client-answer same_path echo one_servlet 0 (asks false ∷ []) (asks true)
      (asks false ∷ []) (refl, tt) refl (found, (found, tt))
  where
    found : ¬ Stalls same_path (codes "/a") one_servlet
    found (e, _) = absurd (cc)
