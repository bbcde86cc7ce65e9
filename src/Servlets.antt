-- ===== src/Servlets.antt =====
-- src/http/http_servlet.h and src/http/http_servlet.cpp, ServletDispatch: which servlet a path is
-- given to. A servlet is a number, and a null pointer is `none`; a path is the list of its bytes; the
-- map is an association list with one entry for a path. fnmatch is a parameter, as the test whether
-- a pattern matches a path. The loops over the globs get fuel. A call is one step.
pub mod Paths
pub mod Exact
pub mod Globs
use tigerkin.Prelude.{
  ℕ, zero, suc, Bool, true, false, ◌&&◌, Option, none, some, List, [], ◌∷◌, ◌++◌, ◌==◌,
  if◌then◌else◌,
}

abbrev pub PathName : Type 0
PathName = List ℕ

abbrev pub Servlet : Type 0
Servlet = Option ℕ

pub record Dispatch : Type 0 where
  pub exact : List (PathName × Servlet)
  pub globs : List (PathName × Servlet)
  pub default_servlet : Servlet

-- How a call ends: it returns, it goes on with an iterator that an erasure has invalidated, or its
-- loop runs out of fuel.
pub data Run (A : Type 0) : Type 0 where
  returns : A → Run A
  invalid_iterator : Run A
  out_of_fuel : Run A

-- std::string's operator ==.
unfoldable pub same_path : PathName → PathName → Bool
same_path [] [] = true
same_path [] (_ ∷ _) = false
same_path (_ ∷ _) [] = false
same_path (x ∷ xs) (y ∷ ys) = (x == y) && same_path xs ys

-- m_datas.find(path).
unfoldable pub find_exact : PathName → List (PathName × Servlet) → Option Servlet
unfolding same_path
find_exact path [] = none
find_exact path ((key, slt) ∷ rest) =
    let later = find_exact path rest in if same_path key path then some slt else later

-- m_datas.erase(path).
pub erase_exact : PathName → List (PathName × Servlet) → List (PathName × Servlet)
unfolding same_path
erase_exact path [] = []
erase_exact path ((key, slt) ∷ rest) =
    let later = erase_exact path rest in if same_path key path then later else (key, slt) ∷ later

-- ServletDispatch::ServletDispatch; `not_found` is the new NotFoundServlet.
pub new_dispatch : ℕ → Dispatch
new_dispatch not_found = record { exact = []; globs = []; default_servlet = some not_found }

-- ServletDispatch::addServlet.
pub add_servlet : PathName → Servlet → Dispatch → Dispatch
unfolding erase_exact
add_servlet path slt d = record d { exact = (path, slt) ∷ erase_exact path d.exact }

-- ServletDispatch::delServlet.
pub del_servlet : PathName → Dispatch → Dispatch
unfolding erase_exact
del_servlet path d = record d { exact = erase_exact path d.exact }

-- ServletDispatch::getServlet.
pub get_servlet : PathName → Dispatch → Servlet
unfolding find_exact
get_servlet path d = elim (find_exact path d.exact) [ none ↦ none | some slt ↦ slt ]

pub set_default_servlet : Servlet → Dispatch → Dispatch
set_default_servlet slt d = record d { default_servlet = slt }

-- The loop of getGlobServlet and of getMatchedServlet, which never moves its iterator: `test` is the
-- condition on the pattern, and `otherwise` what the call gives where there are no globs.
pub glob_loop : ℕ → (PathName → Bool) → List (PathName × Servlet) → Servlet → Run Servlet
glob_loop fuel test [] otherwise = returns otherwise
glob_loop zero test (_ ∷ _) otherwise = out_of_fuel
glob_loop (suc fuel) test ((key, slt) ∷ rest) otherwise =
    let again = glob_loop fuel test ((key, slt) ∷ rest) otherwise in
    if test key then returns slt else again

-- ServletDispatch::getGlobServlet.
pub get_glob_servlet : ℕ → PathName → Dispatch → Run Servlet
unfolding glob_loop same_path
get_glob_servlet fuel path d = glob_loop fuel (λ key. same_path key path) d.globs none

-- The loop of addGlobServlet and delGlobServlet to the first erasure, which invalidates the iterator:
-- the globs, and whether one was erased.
pub erase_loop : ℕ → PathName → List (PathName × Servlet) → Run (List (PathName × Servlet) × Bool)
unfolding same_path
erase_loop fuel path [] = returns ([], false)
erase_loop zero path (_ ∷ _) = out_of_fuel
erase_loop (suc fuel) path ((key, slt) ∷ rest) =
    let again = erase_loop fuel path ((key, slt) ∷ rest) in
    if same_path key path then returns (rest, true) else again

-- ServletDispatch::addGlobServlet. After an erasure the loop compares the old iterator.
pub add_glob_servlet : ℕ → PathName → Servlet → Dispatch → Run Dispatch
unfolding erase_loop
add_glob_servlet fuel path slt d = elim (erase_loop fuel path d.globs) [
  | returns r ↦ elim r.1 [
    | true ↦ invalid_iterator
    | false ↦ returns (record d { globs = r.0 ++ ((path, slt) ∷ []) })
  ]
  | invalid_iterator ↦ invalid_iterator
  | out_of_fuel ↦ out_of_fuel
]

-- ServletDispatch::delGlobServlet, which leaves the loop after an erasure.
pub del_glob_servlet : ℕ → PathName → Dispatch → Run Dispatch
unfolding erase_loop
del_glob_servlet fuel path d = elim (erase_loop fuel path d.globs) [
  | returns r ↦ returns (record d { globs = r.0 })
  | invalid_iterator ↦ invalid_iterator
  | out_of_fuel ↦ out_of_fuel
]

module _ (fnmatch : PathName → PathName → Bool) where
  -- ServletDispatch::getMatchedServlet.
  pub get_matched_servlet : ℕ → PathName → Dispatch → Run Servlet
  unfolding find_exact glob_loop
  get_matched_servlet fuel path d = elim (find_exact path d.exact) [
    | some slt ↦ returns slt
    | none ↦ glob_loop fuel (λ pattern. fnmatch pattern path) d.globs d.default_servlet
  ]

  -- ServletDispatch::handle: `serve` is the call of a servlet on the request and the response, with
  -- the state that it changes. The number that it returns is dropped.
  unfoldable pub handle : {W : Type 0} → ℕ → (ℕ → W → W × ℕ) → PathName → Dispatch → W → Run (W × ℕ)
  unfolding get_matched_servlet
  handle fuel serve path d w = elim (get_matched_servlet fuel path d) [
    | returns slt ↦ elim slt [ none ↦ returns (w, 0) | some s ↦ returns ((serve s w).0, 0) ]
    | invalid_iterator ↦ invalid_iterator
    | out_of_fuel ↦ out_of_fuel
  ]
