-- ===== src/Http/Fields.antt =====
-- src/http/http.cpp, CaseInsensitiveLess and the std::map over it: a map is the list of its entries in
-- the order of the keys. strcasecmp is that of the POSIX locale, on the bytes before the first zero.
pub mod Order
pub mod Lookup
use tigerkin.Prelude.{
  ℕ, ◌+◌, Bool, true, false, ◌&&◌, Option, none, some, List, [], ◌∷◌, ltb, leb, ◌==◌, if◌then◌else◌,
  map, c_str, begins_with,
}

abbrev lower : ℕ → ℕ
lower c = if leb b'A' c && leb c b'Z' then c + 32 else c

-- What strcasecmp compares.
unfoldable pub folded : List ℕ → List ℕ
folded str = map lower (c_str str)

abbrev pub lex_less : List ℕ → List ℕ → Bool
lex_less [] [] = false
lex_less [] (_ ∷ _) = true
lex_less (_ ∷ _) [] = false
lex_less (x ∷ xs) (y ∷ ys) =
    let rest = lex_less xs ys in if ltb x y then true else if x == y then rest else false

-- CaseInsensitiveLess::operator().
unfoldable pub case_insensitive_less : List ℕ → List ℕ → Bool
unfolding folded
case_insensitive_less lhs rhs = lex_less (folded lhs) (folded rhs)

-- strcasecmp(lhs, rhs) == 0.
unfoldable pub same_letters : List ℕ → List ℕ → Bool
unfolding case_insensitive_less
same_letters lhs rhs =
    if case_insensitive_less lhs rhs
    then false
    else if case_insensitive_less rhs lhs
    then false
    else true

-- strcasestr(haystack, needle) != nullptr.
has_infix : List ℕ → List ℕ → Bool
has_infix needle [] = begins_with needle []
has_infix needle (x ∷ xs) =
    let rest = has_infix needle xs in if begins_with needle (x ∷ xs) then true else rest

pub contains_letters : List ℕ → List ℕ → Bool
unfolding folded has_infix
contains_letters haystack needle = has_infix (folded needle) (folded haystack)

abbrev pub Fields : Type 0
Fields = List (List ℕ × List ℕ)

-- m.find(key).
unfoldable pub find : List ℕ → Fields → Option (List ℕ)
unfolding case_insensitive_less
find key [] = none
find key ((k, v) ∷ rest) =
    let later = find key rest in
    if case_insensitive_less k key
    then later
    else if case_insensitive_less key k
    then none
    else some v

-- m[key] = val: the key of an entry that is there stays as it is written.
pub assign : List ℕ → List ℕ → Fields → Fields
unfolding case_insensitive_less
assign key val [] = (key, val) ∷ []
assign key val ((k, v) ∷ rest) =
    let later = assign key val rest in
    if case_insensitive_less k key
    then (k, v) ∷ later
    else if case_insensitive_less key k
    then (key, val) ∷ (k, v) ∷ rest
    else (k, val) ∷ rest

-- m.insert(std::make_pair(key, val)): an entry that is there stays.
pub insert : List ℕ → List ℕ → Fields → Fields
unfolding case_insensitive_less
insert key val [] = (key, val) ∷ []
insert key val ((k, v) ∷ rest) =
    let later = insert key val rest in
    if case_insensitive_less k key
    then (k, v) ∷ later
    else if case_insensitive_less key k
    then (key, val) ∷ (k, v) ∷ rest
    else (k, v) ∷ rest

-- m.erase(key).
pub erase : List ℕ → Fields → Fields
unfolding case_insensitive_less
erase key [] = []
erase key ((k, v) ∷ rest) =
    let later = erase key rest in
    if case_insensitive_less k key
    then (k, v) ∷ later
    else if case_insensitive_less key k
    then (k, v) ∷ rest
    else rest

-- it == m.end() ? def : it->second.
pub find_or : List ℕ → List ℕ → Fields → List ℕ
unfolding find
find_or key def m = elim (find key m) [ none ↦ def | some v ↦ v ]

pub has_key : List ℕ → Fields → Bool
unfolding find
has_key key m = elim (find key m) [ none ↦ false | some _ ↦ true ]

-- checkGetAs, with boost::lexical_cast as `cast`: the value, and what the function returns.
pub check_get_as : {T : Type 0} → (List ℕ → Option T) → Fields → List ℕ → T → T × Bool
unfolding find
check_get_as cast m key def = elim (find key m) [
  | none ↦ (def, false)
  | some s ↦ elim (cast s) [ none ↦ (def, false) | some v ↦ (v, false) ]
]

-- getAs.
pub get_as : {T : Type 0} → (List ℕ → Option T) → Fields → List ℕ → T → T
unfolding find
get_as cast m key def = elim (find key m) [
  | none ↦ def
  | some s ↦ elim (cast s) [ none ↦ def | some v ↦ v ]
]
