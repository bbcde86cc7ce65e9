-- ===== src/Servlets/Exact.antt =====
-- src/http/http_servlet.cpp: the servlets for one path, addServlet, delServlet and getServlet.
use tigerkin.Prelude.{
  ◌≡◌, ◌≢◌, inl, inr, refl, sym, ap, subst, ◌∙◌, false, Option, none, some, List, [], ◌∷◌,
  Bool-cases, if◌then◌else◌,
}
use tigerkin.Servlets.{
  PathName, Servlet, Dispatch, same_path, find_exact, erase_exact, add_servlet, del_servlet,
  get_servlet,
}
use tigerkin.Servlets.Paths.{same_path_refl, same_path-eq, same_path-ne}

abbrev slot : Option Servlet → Servlet
slot none = none
slot (some s) = s

find_exact-erase_exact :
    (p : PathName) (xs : List (PathName × Servlet)) → find_exact p (erase_exact p xs) ≡ none
unfolding find_exact erase_exact
find_exact-erase_exact p [] = refl
find_exact-erase_exact p ((key, slt) ∷ rest) = elim (Bool-cases (same_path key p)) [
  | inl e ↦ rw e (find_exact-erase_exact p rest)
  | inr e ↦ rw e (rw e (find_exact-erase_exact p rest))
]

find_exact-erase_other :
    (p q : PathName) (xs : List (PathName × Servlet))
    → q ≢ p
    → find_exact q (erase_exact p xs) ≡ find_exact q xs
unfolding find_exact erase_exact
find_exact-erase_other p q [] ne = refl
find_exact-erase_other p q ((key, slt) ∷ rest) ne = elim (Bool-cases (same_path key p)) [
  | inl e ↦
      let off : same_path key q ≡ false =
        same_path-ne key q (λ k. ne (sym k ∙ same_path-eq key p e)) in
      rw (e, off) (find_exact-erase_other p q rest ne)
  | inr e ↦
      rw e (ap (λ r. if same_path key q then some slt else r) (find_exact-erase_other p q rest ne))
]

-- After addServlet for a path, getServlet gives the servlet for that path, and what it gave
-- before for every other.
get_servlet-add_servlet :
    (p q : PathName) (slt : Servlet) (d : Dispatch)
    → get_servlet q (add_servlet p slt d) ≡ (if same_path p q then slt else get_servlet q d)
unfolding get_servlet add_servlet find_exact
get_servlet-add_servlet p q slt d = elim (Bool-cases (same_path p q)) [
  | inl e ↦ rw (e, get_servlet) refl
  | inr e ↦
      let ne : q ≢ p = λ r.
        absurd (let f = subst (λ x. same_path p x ≡ false) r e in let t = same_path_refl p in cc) in
      rw (e, get_servlet) (rw (find_exact-erase_other p q d.exact ne, get_servlet) refl)
]

-- After delServlet for a path, getServlet gives null for that path, and what it gave before for
-- every other.
get_servlet-del_servlet :
    (p q : PathName) (d : Dispatch)
    → get_servlet q (del_servlet p d) ≡ (if same_path p q then none else get_servlet q d)
unfolding get_servlet del_servlet
get_servlet-del_servlet p q d = elim (Bool-cases (same_path p q)) [
  | inl e ↦
      let same : p ≡ q = same_path-eq p q e in
      rw e (
        rw
          (
            ap (λ x. find_exact x (erase_exact p d.exact)) (sym same)
                ∙ find_exact-erase_exact p d.exact,
            get_servlet,
          )
          refl)
  | inr e ↦
      let ne : q ≢ p = λ r.
        absurd (let f = subst (λ x. same_path p x ≡ false) r e in let t = same_path_refl p in cc) in
      rw e (rw (find_exact-erase_other p q d.exact ne, get_servlet) refl)
]

-- After addServlet for a path, getServlet gives the new servlet for that path, and after
-- delServlet null; for every other path it gives what it gave before.
pub get_servlet_lem :
    (p q : PathName) (slt : Servlet) (d : Dispatch)
    → (get_servlet q (add_servlet p slt d) ≡ (if same_path p q then slt else get_servlet q d))
      × (get_servlet q (del_servlet p d) ≡ (if same_path p q then none else get_servlet q d))
get_servlet_lem p q slt d = (get_servlet-add_servlet p q slt d, get_servlet-del_servlet p q d)
