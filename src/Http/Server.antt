-- ===== src/Http/Server.antt =====
-- src/http/http_server.cpp, HttpServer::handleClient, and the NotFoundServlet of src/http/http_servlet.cpp: a
-- session from the requests that recvRequest gives, until it gives none, to the responses that are sent.
-- A servlet is a number, and `serve` is what its handler does with a request and a response.
pub mod Answers
use tigerkin.Prelude.{ℕ, Bool, true, false, not, ◌||◌, List, [], ◌∷◌, ◌<<◌, if◌then◌else◌, codes}
use tigerkin.Servlets.{PathName, Dispatch, Run, returns, invalid_iterator, out_of_fuel, handle}
use tigerkin.Http.Request.{HttpRequest}
use tigerkin.Http.Response.{HttpResponse, new_response, set_header}

-- The page of NotFoundServlet, a literal of several lines in the source.
abbrev pub not_found_body : List ℕ
not_found_body =
    codes "<html>            <head>                <title>                    404 Not Fou"
    << codes "nd                </title>            </head>            <body>               "
    << codes " <center>                    <h1>404 Not Found</h1>                </center>  "
    << codes "          </body>        </html>"

-- NotFoundServlet::handle.
pub not_found_handle : HttpResponse → HttpResponse × ℕ
not_found_handle response =
    let with_type =
      set_header (codes "Content-Type") (codes "text/html") (record response { status = 404 }) in
    let with_server = set_header (codes "Server") (codes "tigerkin/1.0.0") with_type in
    (record with_server { body = not_found_body }, 0)

-- What a session sends, and how it ends: the call of the dispatch may not return.
pub record Session : Type 0 where
  pub sent : List HttpResponse
  pub ended : Run (Unit {0})

abbrev pub sends : HttpResponse → Session → Session
sends rsp s = record s { sent = rsp ∷ s.sent }

-- HttpServer::handleClient.
pub handle_client :
    (PathName → PathName → Bool)
    → ℕ
    → (ℕ → HttpRequest → HttpResponse → HttpResponse × ℕ)
    → Bool
    → Dispatch
    → List HttpRequest
    → Session
unfolding handle
handle_client fnmatch fuel serve keepalive d [] = record { sent = []; ended = returns tt }
handle_client fnmatch fuel serve keepalive d (req ∷ rest) =
    let rsp = new_response req.version (req.is_close || not keepalive) in
    let later = handle_client fnmatch fuel serve keepalive d rest in
    elim (handle fnmatch fuel (λ s. serve s req) req.path d rsp) [
      | returns r ↦
          if not keepalive || req.is_close
          then record { sent = r.0 ∷ []; ended = returns tt }
          else sends r.0 later
      | invalid_iterator ↦ record { sent = []; ended = invalid_iterator }
      | out_of_fuel ↦ record { sent = []; ended = out_of_fuel }
    ]
