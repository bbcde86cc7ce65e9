-- ===== src/Http/Server/Answers.antt =====
-- src/http/http_server.cpp: which requests of a session are answered.
use tigerkin.Prelude.{
  ℕ, suc, ◌≡◌, inl, inr, refl, Bool, true, false, ◌||◌, none, some, List, [], ◌∷◌, ◌++◌, map, All,
}
use tigerkin.Servlets.{PathName, Servlet, Dispatch, Run, returns, handle}
use tigerkin.Servlets.Globs.{get_matched_servlet-choice, choice, Stalls}
use tigerkin.Http.Request.{HttpRequest}
use tigerkin.Http.Response.{HttpResponse, new_response}
use tigerkin.Http.Server.{handle_client}

module _ (fnmatch : PathName → PathName → Bool)
    (serve : ℕ → HttpRequest → HttpResponse → HttpResponse × ℕ) (d : Dispatch) where
  -- The response that a servlet, or none, makes of a new one for a request.
  abbrev pub served_by : Servlet → HttpRequest → HttpResponse → HttpResponse
  served_by none q rsp = rsp
  served_by (some s) q rsp = (serve s q rsp).0

  abbrev pub answer : HttpRequest → HttpResponse
  answer q = served_by (choice fnmatch q.path d) q (new_response q.version q.is_close)

  handle-choice :
      (fuel : ℕ) (q : HttpRequest) (rsp : HttpResponse)
      → ¬ Stalls fnmatch q.path d
      → handle fnmatch (suc fuel) (λ s. serve s q) q.path d rsp
        ≡ returns (served_by (choice fnmatch q.path d) q rsp, 0)
  unfolding handle
  handle-choice fuel q rsp free = elim (get_matched_servlet-choice fnmatch q.path d) [
    | inl (stalls, _) ↦ absurd (free stalls)
    | inr (_, finds) ↦ rw (finds fuel, handle) (go (choice fnmatch q.path d))
  ]
    where
      go :
          (o : Servlet)
          → (elim o as (λ _. Run (HttpResponse × ℕ)) [
            | none ↦ returns (rsp, 0)
            | some s ↦ returns ((serve s q rsp).0, 0)
          ])
            ≡ returns (served_by o q rsp, 0)
      go none = refl
      go (some s) = refl

  -- Where the server keeps connections alive and the dispatch returns for the requests up to the
  -- first that closes the connection, handleClient sends one response for each of these, in
  -- their order, made by the servlet that the dispatch chooses for its path, sends nothing for
  -- the requests behind them, and ends.
  pub handle_client-answer :
      (fuel : ℕ) (front : List HttpRequest) (last : HttpRequest) (rest : List HttpRequest)
      → All (λ q. q.is_close ≡ false) front
      → last.is_close ≡ true
      → All (λ q. ¬ Stalls fnmatch q.path d) (front ++ (last ∷ []))
      → handle_client fnmatch (suc fuel) serve true d (front ++ (last ∷ rest))
        ≡ record { sent = map answer (front ++ (last ∷ [])); ended = returns tt }
  unfolding handle_client
  handle_client-answer fuel [] last rest open_ closes (free, _) =
      let rsp = new_response last.version (last.is_close || false) in
      rw (handle-choice fuel last rsp free, handle_client) (rw closes refl)
  handle_client-answer fuel (q ∷ front) last rest (stays, more) closes (free, others) =
      let rsp = new_response q.version (q.is_close || false) in
      let later = handle_client-answer fuel front last rest more closes others in
      rw (handle-choice fuel q rsp free, handle_client) (rw (later, handle_client) (rw stays refl))
