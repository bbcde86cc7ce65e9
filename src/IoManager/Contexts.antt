-- ===== src/IoManager/Contexts.antt =====
-- src/iomanager.cpp: the table of contexts as a list, the number of bits set in it, and its growth.
use tigerkin.Prelude.{
  ℕ, zero, suc, ◌+◌, ◌-◌, ◌*◌, ◌/◌, ◌≤◌, ◌<◌, ◌≡◌, ◌⊎◌, inl, inr, refl, sym, ap, ◌∙◌, Bool, true,
  false, Option, none, some, List, [], ◌∷◌, ◌++◌, arith, ltb, ◌==◌, ==_iff, if◌then◌else◌, length,
  get_elem?, set, take, tabulate, Bool-cases, get_elem?-set_self, get_elem?-set_ne, length-tabulate,
  length-append, ltb→lt,
}
use tigerkin.IoManager.{FdContext, new_context, fd_contexts_resize, room_for}

-- The bits set in a context and in the table.
abbrev pub bit : Bool → ℕ
bit true = 1
bit false = 0

abbrev pub count : List FdContext → ℕ
count [] = 0
count (c ∷ cs) = bit c.reads + bit c.writes + count cs

pub count-set :
    (cs : List FdContext) (i : ℕ) (c d : FdContext)
    → get_elem? cs i ≡ some c
    → count (set cs i d) + (bit c.reads + bit c.writes) ≡ count cs + (bit d.reads + bit d.writes)
count-set [] i c d e = absurd (cc)
count-set (x ∷ cs) zero c d e = let same : x ≡ c = cc in rw (sym same) (omega arith)
count-set (x ∷ cs) (suc i) c d e = omega (arith, count-set cs i c d e)

-- The bits of a descriptor, none where the table has no context for it.
abbrev pub bits_of : Option FdContext → Bool × Bool
bits_of none = (false, false)
bits_of (some c) = (c.reads, c.writes)

abbrev pub bits : List FdContext → ℕ → Bool × Bool
bits cs j = bits_of (get_elem? cs j)

pub get_elem?-lt :
    {A : Type 0} (xs : List A) (i : ℕ) (x : A) → get_elem? xs i ≡ some x → i < length xs
get_elem?-lt [] i x e = absurd (cc)
get_elem?-lt (y ∷ ys) zero x e = omega arith
get_elem?-lt (y ∷ ys) (suc i) x e = omega (arith, get_elem?-lt ys i x e)

pub bits-set :
    (cs : List FdContext) (i : ℕ) (c d : FdContext)
    → get_elem? cs i ≡ some c
    → (j : ℕ) → bits (set cs i d) j ≡ (if j == i then (d.reads, d.writes) else bits cs j)
bits-set cs i c d e j = elim (Bool-cases (j == i)) [
  | inl t ↦
      let same : j ≡ i = (==_iff j i).0 t in
      rw t (
        ap (λ k. bits (set cs i d) k) same
        ∙ ap bits_of (get_elem?-set_self cs i d (get_elem?-lt cs i c e)))
  | inr t ↦
      rw t (
        ap bits_of (get_elem?-set_ne cs i j d (λ p. absurd (let f = (==_iff j i).1 (sym p) in cc))))
]

-- New contexts have no bits, and stand at their descriptors.
count-new : (k n : ℕ) → count (tabulate new_context k n) ≡ 0
count-new k zero = refl
count-new k (suc n) = omega (arith, count-new (suc k) n)

bits-new : (k n j : ℕ) → bits (tabulate new_context k n) j ≡ (false, false)
bits-new k zero j = refl
bits-new k (suc n) zero = refl
bits-new k (suc n) (suc j) = bits-new (suc k) n j

get_elem?-new :
    (k n j : ℕ) (c : FdContext)
    → get_elem? (tabulate new_context k n) j ≡ some c
    → c ≡ new_context (k + j)
get_elem?-new k zero j c e = absurd (cc)
get_elem?-new k (suc n) zero c e =
    let same : new_context k ≡ c = cc in sym same ∙ ap new_context {x = k} {y = k + 0} (omega arith)
get_elem?-new k (suc n) (suc j) c e =
    get_elem?-new (suc k) n j c e ∙ ap new_context {x = suc k + j} {y = k + suc j} (omega arith)

bits-append :
    (cs : List FdContext) (k n j : ℕ) → bits (cs ++ tabulate new_context k n) j ≡ bits cs j
bits-append [] k n j = bits-new k n j
bits-append (c ∷ cs) k n zero = refl
bits-append (c ∷ cs) k n (suc j) = bits-append cs k n j

count-append : (cs ds : List FdContext) → count (cs ++ ds) ≡ count cs + count ds
count-append [] ds = omega arith
count-append (c ∷ cs) ds = omega (arith, count-append cs ds)

get_elem?-grown :
    (cs : List FdContext) (k m n j : ℕ) (c : FdContext)
    → m ≡ k + length cs
    → get_elem? (cs ++ tabulate new_context m n) j ≡ some c
    → (get_elem? cs j ≡ some c) ⊎ (c ≡ new_context (k + j))
get_elem?-grown [] k m n j c e h =
    inr (get_elem?-new m n j c h ∙ ap new_context {x = m + j} {y = k + j} (omega (arith, e)))
get_elem?-grown (x ∷ cs) k m n zero c e h = inl h
get_elem?-grown (x ∷ cs) k m n (suc j) c e h =
    elim (get_elem?-grown cs (suc k) m n j c (omega (arith, e)) h) [
      | inl i ↦ inl i
      | inr i ↦ inr (i ∙ ap new_context {x = suc k + j} {y = k + suc j} (omega arith))
    ]

take_all : {A : Type 0} (n : ℕ) (xs : List A) → length xs ≤ n → take n xs ≡ xs
take_all zero [] le = refl
take_all (suc n) [] le = refl
take_all zero (x ∷ xs) le = absurd (omega arith)
take_all (suc n) (x ∷ xs) le = ap (◌∷◌ x) (take_all n xs (omega arith))

-- The table in which addEvent looks: it has a context for the descriptor, and new contexts without
-- bits are all that it adds.
pub record Roomy (fd : ℕ) (cs ds : List FdContext) : Type 0 where
  pub room : fd < length ds
  pub longer : length cs ≤ length ds
  pub same_count : count ds ≡ count cs
  pub same_bits : (j : ℕ) → bits ds j ≡ bits cs j
  pub old_or_new :
      (j : ℕ) (c : FdContext)
      → get_elem? ds j ≡ some c
      → (get_elem? cs j ≡ some c) ⊎ (c ≡ new_context j)

pub Roomy-grown :
    (fd n : ℕ) (cs : List FdContext)
    → length cs ≤ n
    → fd < n
    → Roomy fd cs (cs ++ tabulate new_context (length cs) (n - length cs))
Roomy-grown fd n cs le lt =
    let len : length (cs ++ tabulate new_context (length cs) (n - length cs)) ≡ n = omega (
      arith,
      length-append cs (tabulate new_context (length cs) (n - length cs)),
      length-tabulate new_context (length cs) (n - length cs),
    ) in
    record {
      room = rw len lt;
      longer = rw len le;
      same_count = omega (
        arith,
        count-append cs (tabulate new_context (length cs) (n - length cs)),
        count-new (length cs) (n - length cs),
      );
      same_bits = bits-append cs (length cs) (n - length cs);
      old_or_new = λ j c h.
          elim (get_elem?-grown cs 0 (length cs) (n - length cs) j c (omega arith) h) [
            | inl i ↦ inl i
            | inr i ↦ inr (i ∙ ap new_context {x = 0 + j} {y = j} (omega arith))
          ];
    }

pub Roomy-room_for : (fd : ℕ) (cs : List FdContext) → 2 ≤ length cs → Roomy fd cs (room_for fd cs)
unfolding room_for fd_contexts_resize
Roomy-room_for fd cs wide = elim (Bool-cases (ltb fd (length cs))) [
  | inl t ↦ rw t (record {
    room = ltb→lt _ _ t;
    longer = omega arith;
    same_count = refl;
    same_bits = λ j. refl;
    old_or_new = λ j c h. inl h;
  })
  | inr t ↦
      let past : length cs ≤ fd = ground arith in
      rw t (
        rw (take_all (3 * fd / 2) cs (omega arith))
          (Roomy-grown fd (3 * fd / 2) cs (omega arith) (omega arith)))
]
