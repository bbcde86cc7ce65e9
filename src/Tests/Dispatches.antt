-- ===== src/Tests/Dispatches.antt =====
-- src/http/http_servlet.cpp at small inputs, with the equality of paths for fnmatch.
use tigerkin.Prelude.{ℕ, suc, ◌≡◌, ◌≢◌, ◌⊎◌, some, none, [], ◌∷◌}
use tigerkin.Servlets.{
  PathName, Dispatch, same_path, returns, out_of_fuel, invalid_iterator, get_servlet, add_servlet,
  del_servlet, add_glob_servlet, get_matched_servlet,
}
use tigerkin.Servlets.Exact.{get_servlet_lem}
use tigerkin.Servlets.Globs.{add_glob_servlet_lem, get_matched_servlet-choice, choice, Stalls}

abbrev path_a : PathName
path_a = b'/' ∷ b'a' ∷ []

abbrev path_b : PathName
path_b = b'/' ∷ b'b' ∷ []

-- One servlet for the path a, one for the pattern b, and the default.
abbrev three_servlets : Dispatch
three_servlets = record {
  exact = (path_a, some 1) ∷ [];
  globs = (path_b, some 2) ∷ [];
  default_servlet = some 3;
}

get_servlet_lem_example :
    (get_servlet path_a (add_servlet path_a (some 4) three_servlets) ≡ some 4)
    × (get_servlet path_a (del_servlet path_a three_servlets) ≡ none)
unfolding same_path
get_servlet_lem_example = get_servlet_lem path_a path_a (some 4) three_servlets

add_glob_servlet_lem_example :
    ((three_servlets.globs ≡ [])
      × ((fuel : ℕ)
          → add_glob_servlet fuel path_a (some 4) three_servlets
            ≡ returns (record three_servlets { globs = (path_a, some 4) ∷ [] })))
    ⊎ ((three_servlets.globs ≢ [])
        × ((fuel : ℕ)
            → (add_glob_servlet fuel path_a (some 4) three_servlets ≡ invalid_iterator)
              ⊎ (add_glob_servlet fuel path_a (some 4) three_servlets ≡ out_of_fuel)))
add_glob_servlet_lem_example = add_glob_servlet_lem path_a (some 4) three_servlets

get_matched_servlet-choice_example :
    (Stalls same_path path_b three_servlets
      × ((fuel : ℕ) → get_matched_servlet same_path fuel path_b three_servlets ≡ out_of_fuel))
    ⊎ ((¬ Stalls same_path path_b three_servlets)
        × ((fuel : ℕ)
            → get_matched_servlet same_path (suc fuel) path_b three_servlets
              ≡ returns (choice same_path path_b three_servlets)))
get_matched_servlet-choice_example = get_matched_servlet-choice same_path path_b three_servlets
