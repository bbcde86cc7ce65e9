-- ===== src/Http/Fields/Lookup.antt =====
-- src/http/http.cpp: what the map of the fields gives after a change, and that it stays in order.
use tigerkin.Prelude.{ℕ, ◌≡◌, refl, sym, ◌∙◌, none, some, List, [], ◌∷◌, arith, if◌then◌else◌, All}
use tigerkin.Http.Fields.{Fields, same_letters, find, assign, insert, erase, find_or}
use tigerkin.Http.Fields.Order.{
  Less, before, after, same, ordered, Less-trans, Less-asym, less_same_left, less_same_right,
}

-- A key stands before every key of a map.
abbrev pub Above : List ℕ → Fields → Type 0
Above k m = All {A = List ℕ × List ℕ} (λ e. Less k e.0) m

-- Each key stands before those behind it.
abbrev pub IsSorted : Fields → Type 0
IsSorted [] = Unit
IsSorted ((k, _) ∷ rest) = Above k rest × IsSorted rest

pub find-assign :
    (p q v : List ℕ) (m : Fields)
    → find q (assign p v m) ≡ (if same_letters p q then some v else find q m)
unfolding find assign same_letters
find-assign p q v [] = elim (ordered p q) [
  | before a b ↦ ground (arith, a, b)
  | after a b ↦ ground (arith, a, b)
  | same e a b ↦ ground (arith, a, b)
]
find-assign p q v ((k, w) ∷ rest) =
    let ih = find-assign p q v rest in
    elim (ordered k p) [
      | before a b ↦ elim (ordered p q) [
        | before c d ↦ let t = Less-trans k p q a c in ground (arith, a, c, d, t, ih)
        | after c d ↦ ground (arith, a, b, c, d, ih)
        | same e c d ↦ let r = less_same_right p q k e in ground (arith, a, b, c, d, r, ih)
      ]
      | after a b ↦ elim (ordered p q) [
        | before c d ↦ ground (arith, a, b, c, d)
        | after c d ↦
            let t = Less-trans q p k c a in
            let u = Less-asym q k t in ground (arith, a, b, c, d, t, u)
        | same e c d ↦ ground (arith, a, b, c, d)
      ]
      | same e a b ↦
          let l = less_same_left k p q e in
          let r = less_same_right k p q e in ground (arith, a, b, l, r)
    ]

find-insert :
    (p q v : List ℕ) (m : Fields)
    → find q (insert p v m) ≡ (if same_letters p q then some (find_or p v m) else find q m)
unfolding find insert same_letters find_or
find-insert p q v [] = elim (ordered p q) [
  | before a b ↦ ground (arith, a, b)
  | after a b ↦ ground (arith, a, b)
  | same e a b ↦ ground (arith, a, b)
]
find-insert p q v ((k, w) ∷ rest) =
    let ih = find-insert p q v rest in
    elim (ordered k p) [
      | before a b ↦ elim (ordered p q) [
        | before c d ↦ let t = Less-trans k p q a c in ground (arith, a, c, d, t, ih)
        | after c d ↦ ground (arith, a, b, c, d, ih)
        | same e c d ↦ let r = less_same_right p q k e in ground (arith, a, b, c, d, r, ih)
      ]
      | after a b ↦ elim (ordered p q) [
        | before c d ↦ ground (arith, a, b, c, d)
        | after c d ↦
            let t = Less-trans q p k c a in
            let u = Less-asym q k t in ground (arith, a, b, c, d, t, u)
        | same e c d ↦ ground (arith, a, b, c, d)
      ]
      | same e a b ↦
          let l = less_same_left k p q e in
          let r = less_same_right k p q e in ground (arith, a, b, l, r)
    ]

find-past : (q : List ℕ) (m : Fields) → Above q m → find q m ≡ none
unfolding find
find-past q [] h = refl
find-past q ((k, w) ∷ rest) h = let a = h.0 in let b = Less-asym q k a in rw (b, a) refl

below : (q k : List ℕ) (m : Fields) → ((x : List ℕ) → Less k x → Less q x) → Above k m → Above q m
below q k [] f low = tt
below q k ((x, _) ∷ rest) f (a, low) = (f x a, below q k rest f low)

find-erase :
    (p q : List ℕ) (m : Fields)
    → IsSorted m
    → find q (erase p m) ≡ (if same_letters p q then none else find q m)
unfolding find erase same_letters
find-erase p q [] s = ground arith
find-erase p q ((k, w) ∷ rest) (low, s) =
    let ih = find-erase p q rest s in
    elim (ordered k p) [
      | before a b ↦ elim (ordered p q) [
        | before c d ↦ let t = Less-trans k p q a c in ground (arith, a, c, d, t, ih)
        | after c d ↦ ground (arith, a, b, c, d, ih)
        | same e c d ↦ let r = less_same_right p q k e in ground (arith, a, b, c, d, r, ih)
      ]
      | after a b ↦ elim (ordered p q) [
        | before c d ↦ ground (arith, a, b, c, d)
        | after c d ↦
            let t = Less-trans q p k c a in
            let u = Less-asym q k t in ground (arith, a, b, c, d, t, u)
        | same e c d ↦
            let l = less_same_left p q k e in
            let r = less_same_right p q k e in ground (arith, a, b, c, d, l, r)
      ]
      | same e a b ↦
          let l = less_same_left k p q e in
          let r = less_same_right k p q e in
          elim (ordered p q) [
            | before c d ↦ ground (arith, a, b, c, d, l, r)
            | after c d ↦
                let n = find-past q rest (below q k rest (λ x. Less-trans q k x (r ∙ c)) low) in
                ground (arith, a, b, c, d, l, r, n)
            | same f c d ↦
                let n =
                  find-past q rest
                    (below q k rest (λ x h. sym (less_same_left k q x (e ∙ f)) ∙ h) low) in
                ground (arith, a, b, c, d, l, r, n)
          ]
    ]

Above-assign : (k p v : List ℕ) (m : Fields) → Less k p → Above k m → Above k (assign p v m)
unfolding assign
Above-assign k p v [] h low = (h, tt)
Above-assign k p v ((j, w) ∷ rest) h (a, low) = elim (ordered j p) [
  | before b c ↦ rw b (a, Above-assign k p v rest h low)
  | after b c ↦ rw (c, b) (h, (a, low))
  | same e b c ↦ rw (b, c) (a, low)
]

assign-IsSorted : (p v : List ℕ) (m : Fields) → IsSorted m → IsSorted (assign p v m)
unfolding assign
assign-IsSorted p v [] s = (tt, tt)
assign-IsSorted p v ((k, w) ∷ rest) (low, s) = elim (ordered k p) [
  | before b c ↦ rw b (Above-assign k p v rest b low, assign-IsSorted p v rest s)
  | after b c ↦ rw (c, b) ((b, below p k rest (λ x. Less-trans p k x b) low), (low, s))
  | same e b c ↦ rw (b, c) (low, s)
]

Above-insert : (k p v : List ℕ) (m : Fields) → Less k p → Above k m → Above k (insert p v m)
unfolding insert
Above-insert k p v [] h low = (h, tt)
Above-insert k p v ((j, w) ∷ rest) h (a, low) = elim (ordered j p) [
  | before b c ↦ rw b (a, Above-insert k p v rest h low)
  | after b c ↦ rw (c, b) (h, (a, low))
  | same e b c ↦ rw (b, c) (a, low)
]

insert-IsSorted : (p v : List ℕ) (m : Fields) → IsSorted m → IsSorted (insert p v m)
unfolding insert
insert-IsSorted p v [] s = (tt, tt)
insert-IsSorted p v ((k, w) ∷ rest) (low, s) = elim (ordered k p) [
  | before b c ↦ rw b (Above-insert k p v rest b low, insert-IsSorted p v rest s)
  | after b c ↦ rw (c, b) ((b, below p k rest (λ x. Less-trans p k x b) low), (low, s))
  | same e b c ↦ rw (b, c) (low, s)
]

Above-erase : (k p : List ℕ) (m : Fields) → Above k m → Above k (erase p m)
unfolding erase
Above-erase k p [] low = tt
Above-erase k p ((j, w) ∷ rest) (a, low) = elim (ordered j p) [
  | before b c ↦ rw b (a, Above-erase k p rest low)
  | after b c ↦ rw (c, b) (a, low)
  | same e b c ↦ rw (b, c) low
]

erase-IsSorted : (p : List ℕ) (m : Fields) → IsSorted m → IsSorted (erase p m)
unfolding erase
erase-IsSorted p [] s = tt
erase-IsSorted p ((k, w) ∷ rest) (low, s) = elim (ordered k p) [
  | before b c ↦ rw b (Above-erase k p rest low, erase-IsSorted p rest s)
  | after b c ↦ rw (c, b) (low, s)
  | same e b c ↦ rw (b, c) s
]

-- In a map whose keys are in order, an assignment, an insertion and an erasure keep the order. A
-- key finds the new value after an assignment if it is the same up to the case of letters, the
-- old or else the new value after an insertion, and nothing after an erasure; every other key
-- finds what it found before.
pub find-IsSorted :
    (p q v : List ℕ) (m : Fields)
    → IsSorted m
    → (IsSorted (assign p v m)
        × (find q (assign p v m) ≡ (if same_letters p q then some v else find q m)))
      × (IsSorted (insert p v m)
          × (find q (insert p v m) ≡ (if same_letters p q then some (find_or p v m) else find q m)))
      × IsSorted (erase p m)
      × (find q (erase p m) ≡ (if same_letters p q then none else find q m))
find-IsSorted p q v m s = (
  (assign-IsSorted p v m s, find-assign p q v m),
  (insert-IsSorted p v m s, find-insert p q v m),
  erase-IsSorted p m s,
  find-erase p q m s,
)
