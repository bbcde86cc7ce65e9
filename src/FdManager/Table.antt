-- ===== src/FdManager/Table.antt =====
-- src/fdmanager.cpp: what the table holds after get, add and del, and which descriptors it takes.
use tigerkin.Prelude.{
  ℕ, zero, suc, ◌-◌, ◌*◌, ◌/◌, ◌<◌, ◌≤◌, ◌≡◌, ◌⊎◌, inl, inr, refl, sym, ap, ◌∙◌, Bool, true, false,
  Option, none, some, List, [], ◌∷◌, ◌++◌, arith, leb, if◌then◌else◌, length, get_elem?, set,
  tabulate, length-append, length-tabulate, get_elem?-set_self, get_elem?-set_ne, get_elem?-past,
  ◌==◌, ==_iff, ==_refl, Bool-cases, lt→ltb, le→ltb, leb→le, if_cases,
}
use tigerkin.Prelude.Bytes.{ℤ, pos}
use tigerkin.FdManager.{
  FdEntity, FdManager, returns, out_of_bounds, new_size, grow, del, new_entity, room_for, add,
  added, get,
}

-- What the table knows of a descriptor: nothing, where it has no entry.
abbrev pub entry : Option (Option FdEntity) → Option FdEntity
entry none = none
entry (some e) = e

abbrev pub known : FdManager → ℕ → Option FdEntity
known m fd = entry (get_elem? m.entities fd)

-- The table takes the descriptors that are in it, and those that it grows past.
abbrev pub Fits : ℕ → FdManager → Type 0
Fits fd m = (fd < length m.entities) ⊎ (fd < 3 * length m.entities / 2)

length-grow : (n : ℕ) (xs : List (Option FdEntity)) → length xs ≤ n → length (grow n xs) ≡ n
unfolding grow
length-grow n xs le = omega (
  arith,
  length-append xs (tabulate (λ _. none) 0 (n - length xs)),
  length-tabulate {A = Option FdEntity} (λ _. none) 0 (n - length xs),
)

get_elem?-nulls :
    (i k n : ℕ)
    → (get_elem? (tabulate {A = Option FdEntity} (λ _. none) k n) i ≡ none)
      ⊎ (get_elem? (tabulate {A = Option FdEntity} (λ _. none) k n) i ≡ some none)
get_elem?-nulls i k zero = inl refl
get_elem?-nulls zero k (suc n) = inr refl
get_elem?-nulls (suc i) k (suc n) = get_elem?-nulls i (suc k) n

entry-append :
    (xs : List (Option FdEntity)) (k n i : ℕ)
    → entry (get_elem? (xs ++ tabulate (λ _. none) k n) i) ≡ entry (get_elem? xs i)
entry-append [] k n i = elim (get_elem?-nulls i k n) [ inl e ↦ ap entry e | inr e ↦ ap entry e ]
entry-append (x ∷ xs) k n zero = refl
entry-append (x ∷ xs) k n (suc i) = entry-append xs k n i

entry-set :
    (xs : List (Option FdEntity)) (fd : ℕ) (v : Option FdEntity)
    → fd < length xs
    → (i : ℕ) → entry (get_elem? (set xs fd v) i) ≡ (if i == fd then v else entry (get_elem? xs i))
entry-set xs fd v lt i = elim (Bool-cases (i == fd)) [
  | inl e ↦
      let same : i ≡ fd = (==_iff i fd).0 e in
      rw e (
        ap (λ j. entry (get_elem? (set xs fd v) j)) same ∙ ap entry (get_elem?-set_self xs fd v lt))
  | inr e ↦
      rw e (
        ap entry (get_elem?-set_ne xs fd i v (λ p. absurd (let t = (==_iff i fd).1 (sym p) in cc))))
]

known_self :
    (m : FdManager) (fd : ℕ) {o : Option FdEntity}
    → known m fd ≡ o
    → (i : ℕ) → known m i ≡ (if i == fd then o else known m i)
known_self m fd h i = elim (Bool-cases (i == fd)) [
  | inl e ↦ let same : i ≡ fd = (==_iff i fd).0 e in rw e (ap (known m) same ∙ h)
  | inr e ↦ rw e refl
]

new_size-le : (n fd : ℕ) → n ≤ fd → n ≤ new_size n fd
unfolding new_size
new_size-le n fd le = ground arith

size_takes :
    (fd n : ℕ)
    → let size = (if leb n fd then new_size n fd else n) in
      ((fd < size) × ((fd < n) ⊎ (fd < 3 * n / 2)))
      ⊎ ((size ≤ fd) × ¬ ((fd < n) ⊎ (fd < 3 * n / 2)))
unfolding new_size
size_takes fd n = ground arith

module _ (fstat : ℤ → Option Bool) (nonblocking : ℤ → Bool) where
  length-room_for :
      (fd : ℕ) (m : FdManager)
      → length (room_for fstat nonblocking fd m) ≡ (
          if leb (length m.entities) fd then new_size (length m.entities) fd else length m.entities)
  unfolding room_for
  length-room_for fd m = elim (Bool-cases (leb (length m.entities) fd)) [
    | inl past ↦
        rw past (length-grow _ m.entities (new_size-le (length m.entities) fd (leb→le _ _ past)))
    | inr here ↦ rw here refl
  ]

  room_for_takes :
      (fd : ℕ) (m : FdManager)
      → ((fd < length (room_for fstat nonblocking fd m)) × Fits fd m)
        ⊎ ((length (room_for fstat nonblocking fd m) ≤ fd) × ¬ Fits fd m)
  unfolding new_size
  room_for_takes fd m = rw (length-room_for fd m) (size_takes fd (length m.entities))

  entry-room_for :
      (fd : ℕ) (m : FdManager) (i : ℕ)
      → entry (get_elem? (room_for fstat nonblocking fd m) i) ≡ known m i
  unfolding room_for grow
  entry-room_for fd m i =
      if_cases (λ xs. entry (get_elem? xs i) ≡ known m i) (leb (length m.entities) fd)
        (grow (new_size (length m.entities) fd) m.entities) m.entities
        (λ _. entry-append m.entities 0 (new_size (length m.entities) fd - length m.entities) i)
        (λ _. refl)

  -- For a descriptor that is not negative, below the size n of the table or below 3n/2 (cut to a
  -- whole number), add returns the new entity, and the table then has it for that descriptor and
  -- what it had for all others. For any other descriptor that is not negative, add writes out of
  -- bounds.
  pub add_lem :
      (fd : ℕ) (m : FdManager)
      → (Fits fd m
          × (n : FdManager) × (add fstat nonblocking (pos fd) m
              ≡ returns (new_entity fstat nonblocking (pos fd)) n)
          × ((i : ℕ)
              → known n i
                ≡ (if i == fd then some (new_entity fstat nonblocking (pos fd)) else known m i)))
        ⊎ ((¬ Fits fd m) × (add fstat nonblocking (pos fd) m ≡ out_of_bounds))
  unfolding add
  add_lem fd m =
      let xs = room_for fstat nonblocking fd m in
      let e = new_entity fstat nonblocking (pos fd) in
      elim (room_for_takes fd m) [
        | inl (lt, fits) ↦ inl (
          fits,
          record { entities = set xs fd (some e) },
          rw (lt→ltb _ _ lt) refl,
          λ i.
              entry-set xs fd (some e) lt i
              ∙ ap (λ o. if i == fd then some e else o) (entry-room_for fd m i),
        )
        | inr (le, out) ↦ inr (out, rw (le→ltb _ _ le) refl)
      ]

  get-known :
      (fd : ℕ) (b : Bool) (e : FdEntity) (m : FdManager)
      → known m fd ≡ some e
      → get fstat nonblocking (pos fd) b m ≡ returns (some e) m
  unfolding get
  get-known fd b e m h = go (get_elem? m.entities fd) refl h
    where
      go :
          (o : Option (Option FdEntity))
          → get_elem? m.entities fd ≡ o
          → entry o ≡ some e
          → get fstat nonblocking (pos fd) b m ≡ returns (some e) m
      go none q h = absurd (cc)
      go (some none) q h = absurd (cc)
      go (some (some d)) q h = rw (q, get) (ap (λ o. returns o m) h)

  get_unknown :
      (fd : ℕ) (b : Bool) (m : FdManager)
      → known m fd ≡ none
      → get fstat nonblocking (pos fd) b m
        ≡ (if b then added fstat nonblocking (add fstat nonblocking (pos fd) m) else returns none m)
  unfolding get
  get_unknown fd b m h = go (get_elem? m.entities fd) refl h
    where
      go :
          (o : Option (Option FdEntity))
          → get_elem? m.entities fd ≡ o
          → entry o ≡ none
          → get fstat nonblocking (pos fd) b m ≡ (
              if b
              then added fstat nonblocking (add fstat nonblocking (pos fd) m)
              else returns none m)
      go none q h = rw (q, get) refl
      go (some none) q h = rw (q, get) refl
      go (some (some d)) q h = absurd (cc)

  -- For a descriptor that is not negative and fits as for add, get on demand gives an entity;
  -- every later get gives the same one, on demand or not, and the table has what it had for all
  -- other descriptors.
  get-get :
      (fd : ℕ) (m : FdManager)
      → Fits fd m
      → (e : FdEntity) × (n : FdManager) × (get fstat nonblocking (pos fd) true m
          ≡ returns (some e) n)
        × ((b : Bool) → get fstat nonblocking (pos fd) b n ≡ returns (some e) n)
        × ((i : ℕ) → known n i ≡ (if i == fd then some e else known m i))
  unfolding added
  get-get fd m fits = go (known m fd) refl
    where
      Got : Type 0
      Got =
          (e : FdEntity) × (n : FdManager) × (get fstat nonblocking (pos fd) true m
            ≡ returns (some e) n)
          × ((b : Bool) → get fstat nonblocking (pos fd) b n ≡ returns (some e) n)
          × ((i : ℕ) → known n i ≡ (if i == fd then some e else known m i))

      go : (o : Option FdEntity) → known m fd ≡ o → Got
      go (some e) h =
          (e, m, get-known fd true e m h, (λ b. get-known fd b e m h), known_self m fd h)
      go none h = elim (add_lem fd m) [
        | inl (_, n, made, all) ↦ (
          new_entity fstat nonblocking (pos fd),
          n,
          get_unknown fd true m h ∙ ap (added fstat nonblocking) made,
          (λ b.
              get-known fd b (new_entity fstat nonblocking (pos fd)) n
                (all fd ∙ rw (==_refl fd) refl)),
          all,
        )
        | inr (out, _) ↦ absurd (out fits)
      ]

  -- For a descriptor that is not negative, del returns; a get that makes nothing then gives null
  -- for it, and the table has what it had for all other descriptors.
  del_lem :
      (fd : ℕ) (m : FdManager)
      → (n : FdManager) × (del (pos fd) m ≡ returns tt n)
        × (get fstat nonblocking (pos fd) false n ≡ returns none n)
        × ((i : ℕ) → known n i ≡ (if i == fd then none else known m i))
  unfolding del
  del_lem fd m = elim (Bool-cases (leb (length m.entities) fd)) [
    | inl past ↦ (
      m,
      rw past refl,
      get_unknown fd false m (ap entry (get_elem?-past m.entities fd (leb→le _ _ past))),
      known_self m fd (ap entry (get_elem?-past m.entities fd (leb→le _ _ past))),
    )
    | inr here ↦
        let lt : fd < length m.entities = ground arith in
        let n : FdManager = record { entities = set m.entities fd none } in
        (
          n,
          rw here refl,
          get_unknown fd false n (ap entry (get_elem?-set_self m.entities fd none lt)),
          entry-set m.entities fd none lt,
        )
  ]

  -- For a descriptor for which the table has room or can grow, getting it on demand gives an
  -- entity, every later get gives the same one, on demand or not, and the table has what it had
  -- for all other descriptors. del returns; a get that makes nothing then gives null for the
  -- descriptor, and the table has what it had for all others.
  pub get_del_lem :
      (fd : ℕ) (m : FdManager)
      → Fits fd m
      → ((e : FdEntity) × (n : FdManager) × (get fstat nonblocking (pos fd) true m
            ≡ returns (some e) n)
          × ((b : Bool) → get fstat nonblocking (pos fd) b n ≡ returns (some e) n)
          × ((i : ℕ) → known n i ≡ (if i == fd then some e else known m i)))
        × ((n : FdManager) × (del (pos fd) m ≡ returns tt n)
            × (get fstat nonblocking (pos fd) false n ≡ returns none n)
            × ((i : ℕ) → known n i ≡ (if i == fd then none else known m i)))
  get_del_lem fd m fits = (get-get fd m fits, del_lem fd m)
