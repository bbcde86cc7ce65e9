-- ===== src/Servlets/Globs.antt =====
-- src/http/http_servlet.cpp: the servlets for patterns, and the choice for a path.
use tigerkin.Prelude.{
  ℕ, zero, suc, ◌≡◌, ◌≢◌, ◌⊎◌, inl, inr, refl, Bool, false, Option, none, some, List, [], ◌∷◌,
  Bool-cases, if◌then◌else◌,
}
use tigerkin.Servlets.{
  PathName, Servlet, Dispatch, returns, invalid_iterator, out_of_fuel, same_path, find_exact,
  glob_loop, erase_loop, add_glob_servlet, get_matched_servlet,
}

-- The first servlet whose pattern passes the test.
pub first_match : (PathName → Bool) → List (PathName × Servlet) → Servlet → Servlet
first_match test [] otherwise = otherwise
first_match test ((key, slt) ∷ rest) otherwise =
    let later = first_match test rest otherwise in if test key then slt else later

-- There are patterns, and the first one fails the test.
abbrev pub Blocked : (PathName → Bool) → List (PathName × Servlet) → Type 0
Blocked test [] = ⊥
Blocked test ((key, _) ∷ _) = test key ≡ false

Blocked-cases :
    (test : PathName → Bool) (globs : List (PathName × Servlet))
    → Blocked test globs ⊎ (¬ Blocked test globs)
Blocked-cases test [] = inr (λ b. b)
Blocked-cases test ((key, _) ∷ _) = elim (Bool-cases (test key)) [
  | inl e ↦ inr (λ f. absurd (cc))
  | inr e ↦ inl e
]

glob_loop-Blocked :
    (test : PathName → Bool) (globs : List (PathName × Servlet)) (otherwise : Servlet)
    → Blocked test globs
    → (fuel : ℕ) → glob_loop fuel test globs otherwise ≡ out_of_fuel
unfolding glob_loop
glob_loop-Blocked test [] otherwise b fuel = absurd b
glob_loop-Blocked test ((key, slt) ∷ rest) otherwise b zero = refl
glob_loop-Blocked test ((key, slt) ∷ rest) otherwise b (suc fuel) =
    rw b (glob_loop-Blocked test ((key, slt) ∷ rest) otherwise b fuel)

glob_loop-first_match :
    (test : PathName → Bool) (globs : List (PathName × Servlet)) (otherwise : Servlet) (fuel : ℕ)
    → ¬ Blocked test globs
    → glob_loop (suc fuel) test globs otherwise ≡ returns (first_match test globs otherwise)
unfolding glob_loop first_match
glob_loop-first_match test [] otherwise fuel free = refl
glob_loop-first_match test ((key, slt) ∷ rest) otherwise fuel free = elim (Bool-cases (test key)) [
  | inl e ↦ rw e refl
  | inr e ↦ absurd (free e)
]

erase_loop-Blocked :
    (path : PathName) (key : PathName) (slt : Servlet) (rest : List (PathName × Servlet)) (fuel : ℕ)
    → same_path key path ≡ false
    → erase_loop fuel path ((key, slt) ∷ rest) ≡ out_of_fuel
unfolding erase_loop
erase_loop-Blocked path key slt rest zero b = refl
erase_loop-Blocked path key slt rest (suc fuel) b =
    rw b (erase_loop-Blocked path key slt rest fuel b)

-- With no patterns yet, addGlobServlet adds its pattern. With any patterns it never returns:
-- whatever the fuel, it goes on with an invalidated iterator or does not end.
pub add_glob_servlet_lem :
    (path : PathName) (slt : Servlet) (d : Dispatch)
    → ((d.globs ≡ [])
        × ((fuel : ℕ)
            → add_glob_servlet fuel path slt d ≡ returns (record d { globs = (path, slt) ∷ [] })))
      ⊎ ((d.globs ≢ [])
          × ((fuel : ℕ)
              → (add_glob_servlet fuel path slt d ≡ invalid_iterator)
                ⊎ (add_glob_servlet fuel path slt d ≡ out_of_fuel)))
unfolding add_glob_servlet erase_loop
add_glob_servlet_lem path slt d = go d.globs refl
  where
    Added : Type 0
    Added =
        ((d.globs ≡ [])
          × ((fuel : ℕ)
              → add_glob_servlet fuel path slt d ≡ returns (record d { globs = (path, slt) ∷ [] })))
        ⊎ ((d.globs ≢ [])
            × ((fuel : ℕ)
                → (add_glob_servlet fuel path slt d ≡ invalid_iterator)
                  ⊎ (add_glob_servlet fuel path slt d ≡ out_of_fuel)))

    go : (globs : List (PathName × Servlet)) → d.globs ≡ globs → Added
    go [] e = inl (e, λ fuel. rw (e, add_glob_servlet) refl)
    go ((key, s) ∷ rest) e = inr ((λ n. absurd (cc)), λ fuel. fails fuel)
      where
        fails :
            (fuel : ℕ)
            → (add_glob_servlet fuel path slt d ≡ invalid_iterator)
              ⊎ (add_glob_servlet fuel path slt d ≡ out_of_fuel)
        fails zero = inr (rw (e, add_glob_servlet) refl)
        fails (suc fuel) = elim (Bool-cases (same_path key path)) [
          | inl t ↦ inl (rw (e, add_glob_servlet) (rw t refl))
          | inr t ↦
              inr (
                rw (e, add_glob_servlet)
                  (rw (erase_loop-Blocked path key s rest (suc fuel) t) refl))
        ]

module _ (fnmatch : PathName → PathName → Bool) where
  -- The choice that is meant: the path's own servlet, the first pattern that matches, the default.
  pub choice : PathName → Dispatch → Servlet
  choice path d = elim (find_exact path d.exact) [
    | some slt ↦ slt
    | none ↦ first_match (λ pattern. fnmatch pattern path) d.globs d.default_servlet
  ]

  -- The path has no servlet of its own, and the first pattern does not match it.
  abbrev pub Stalls : PathName → Dispatch → Type 0
  Stalls path d =
      (find_exact path d.exact ≡ none) × Blocked (λ pattern. fnmatch pattern path) d.globs

  -- If a path has no servlet of its own and the first of the patterns does not match it,
  -- getMatchedServlet does not return, whatever the fuel. Otherwise it returns, with one unit of
  -- fuel or more, the path's own servlet, else that of the first pattern that matches, else the
  -- default.
  pub get_matched_servlet-choice :
      (path : PathName) (d : Dispatch)
      → (Stalls path d × ((fuel : ℕ) → get_matched_servlet fnmatch fuel path d ≡ out_of_fuel))
        ⊎ ((¬ Stalls path d)
            × ((fuel : ℕ)
                → get_matched_servlet fnmatch (suc fuel) path d ≡ returns (choice path d)))
  unfolding get_matched_servlet choice
  get_matched_servlet-choice path d = go (find_exact path d.exact) refl
    where
      Chosen : Type 0
      Chosen =
          (Stalls path d × ((fuel : ℕ) → get_matched_servlet fnmatch fuel path d ≡ out_of_fuel))
          ⊎ ((¬ Stalls path d)
              × ((fuel : ℕ)
                  → get_matched_servlet fnmatch (suc fuel) path d ≡ returns (choice path d)))

      test : PathName → Bool
      test pattern = fnmatch pattern path

      go : (o : Option Servlet) → find_exact path d.exact ≡ o → Chosen
      go (some slt) e = inr (
        (λ s. absurd (let f = s.0 in cc)),
        λ fuel. rw (e, get_matched_servlet) (rw (e, choice) refl),
      )
      go none e = elim (Blocked-cases test d.globs) [
        | inl b ↦ inl (
          (e, b),
          λ fuel.
              rw (e, get_matched_servlet) (glob_loop-Blocked test d.globs d.default_servlet b fuel),
        )
        | inr free ↦ inr (
          (λ s. free s.1),
          λ fuel.
              rw (e, get_matched_servlet)
                (rw (e, choice) (glob_loop-first_match test d.globs d.default_servlet fuel free)),
        )
      ]
