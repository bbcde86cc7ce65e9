-- ===== src/ByteArray/Invariant.antt =====
-- src/bytearray.cpp: what holds of an array between calls, its memory read as one list of bytes,
-- and the growth of the node chain (addCapacityTo).
use native.Mathlib.Nat.{zero-mul}
use tigerkin.Prelude.{
  ℕ, zero, suc, ◌+◌, ◌-◌, ◌*◌, ◌^◌, ◌≤◌, ◌<◌, ◌≡◌, refl, sym, ap, ◌∙◌, ◌⊎◌, inl, inr, List, [], ◌∷◌,
  ◌++◌, arith, ltb, leb, length, length-append, length-tabulate, All-append, IsChunked, concat,
  slice, concat-append, append_assoc, append-nil, Bool-cases, ltb→lt, leb→le,
}
use tigerkin.ByteArray.{
  ByteArray, Outcome, returns, create, set_endian, new_node, root_if_null, with_root, grow_node,
  grow_loop, add_capacity_to,
}

-- The cursor's node ends at the offset or holds it inside, but for the very start.
pub record IsValid (b : ByteArray) : Type 0 where
  pub base_pos : 0 < b.base_size
  pub chunked : IsChunked b.base_size b.nodes
  pub filled : b.capacity ≡ length b.nodes * b.base_size
  pub within : b.offset ≤ b.size
  pub room : b.size ≤ b.capacity
  pub fits : b.size < 2 ^ 64
  pub behind : ((b.offset ≡ 0) × (b.cur ≡ 0)) ⊎ (b.cur * b.base_size < b.offset)
  pub ahead : b.offset ≤ (b.cur + 1) * b.base_size

-- The blocks of all nodes, one after the other.
abbrev pub memory : ByteArray → List ℕ
memory b = concat b.nodes

-- The bytes between the offset and the size.
abbrev pub unread : ByteArray → List ℕ
unread b = slice b.offset (b.size - b.offset) (memory b)

pub create-IsValid : (base : ℕ) (fresh : ℕ → ℕ → ℕ) → 0 < base → IsValid (create base fresh)
unfolding create
create-IsValid base fresh h = record {
  base_pos = h;
  chunked = tt;
  filled = omega arith;
  within = omega arith;
  room = omega arith;
  fits = omega arith;
  behind = inl (refl, refl);
  ahead = omega arith;
}

pub set_endian-IsValid : (e : ℕ) {b : ByteArray} → IsValid b → IsValid (set_endian e b)
unfolding set_endian
set_endian-IsValid e v = record {
  base_pos = v.base_pos;
  chunked = v.chunked;
  filled = v.filled;
  within = v.within;
  room = v.room;
  fits = v.fits;
  behind = v.behind;
  ahead = v.ahead;
}

-- `c` is `b` with more nodes at the end of the chain.
pub record Grown (b c : ByteArray) : Type 0 where
  pub more : List (List ℕ)
  pub nodes_eq : c.nodes ≡ b.nodes ++ more
  pub size_eq : c.size ≡ b.size
  pub offset_eq : c.offset ≡ b.offset
  pub cur_eq : c.cur ≡ b.cur
  pub base_eq : c.base_size ≡ b.base_size
  pub endian_eq : c.endian ≡ b.endian

Grown-refl : (b : ByteArray) → Grown b b
Grown-refl b = record {
  more = [];
  nodes_eq = sym (append-nil b.nodes);
  size_eq = refl;
  offset_eq = refl;
  cur_eq = refl;
  base_eq = refl;
  endian_eq = refl;
}

Grown-trans : {a b c : ByteArray} → Grown a b → Grown b c → Grown a c
Grown-trans {a} {b} {c} g h = record {
  more = g.more ++ h.more;
  nodes_eq = h.nodes_eq ∙ ap (λ ns. ns ++ h.more) g.nodes_eq ∙ append_assoc a.nodes g.more h.more;
  size_eq = h.size_eq ∙ g.size_eq;
  offset_eq = h.offset_eq ∙ g.offset_eq;
  cur_eq = h.cur_eq ∙ g.cur_eq;
  base_eq = h.base_eq ∙ g.base_eq;
  endian_eq = h.endian_eq ∙ g.endian_eq;
}

length-new_node : (b : ByteArray) (k : ℕ) → length (new_node b k) ≡ b.base_size
unfolding new_node
length-new_node b k = length-tabulate (b.fresh k) 0 b.base_size

grow_node-Grown : (b : ByteArray) → Grown b (grow_node b)
unfolding grow_node
grow_node-Grown b = record {
  more = new_node b (length b.nodes) ∷ [];
  nodes_eq = refl;
  size_eq = refl;
  offset_eq = refl;
  cur_eq = refl;
  base_eq = refl;
  endian_eq = refl;
}

grow_node-IsValid : {b : ByteArray} → IsValid b → IsValid (grow_node b)
unfolding grow_node
grow_node-IsValid {b} v = record {
  base_pos = v.base_pos;
  chunked =
      All-append (λ c. length c ≡ b.base_size) b.nodes (new_node b (length b.nodes) ∷ []) v.chunked
        (length-new_node b (length b.nodes), tt);
  filled = rw (length-append b.nodes (new_node b (length b.nodes) ∷ [])) (omega (arith, v.filled));
  within = v.within;
  room = omega (arith, v.room);
  fits = v.fits;
  behind = v.behind;
  ahead = v.ahead;
}

-- A growth ends with enough room.
abbrev pub Grows : ByteArray → ℕ → Outcome (Unit {0}) → Type 0
Grows b capacity r =
    (c : ByteArray) × (r ≡ returns tt c) × Grown b c × IsValid c × (capacity ≤ c.capacity)

grow_loop-Grows :
    (fuel capacity : ℕ) (b : ByteArray)
    → IsValid b
    → capacity < b.capacity + fuel
    → 0 < fuel
    → Grows b capacity (grow_loop fuel capacity b)
unfolding grow_loop
grow_loop-Grows zero capacity b v h p = absurd (omega arith)
grow_loop-Grows (suc fuel) capacity b v h p = elim (Bool-cases (ltb b.capacity capacity)) [
  | inl more ↦
      let (c, e, g, x, le) =
        grow_loop-Grows fuel capacity (grow_node b) (grow_node-IsValid v)
          (unfold grow_node in omega (arith, v.base_pos))
          (omega (arith, ltb→lt b.capacity capacity more)) in
      (c, rw more e, Grown-trans (grow_node-Grown b) g, x, le)
  | inr enough ↦ (b, rw enough, Grown-refl b, v, ground arith)
]

root_if_null-IsValid :
    (ns : List (List ℕ)) {b : ByteArray} → b.nodes ≡ ns → IsValid b → IsValid (root_if_null ns b)
unfolding root_if_null
root_if_null-IsValid [] {b} e v = record {
  base_pos = v.base_pos;
  chunked = (length-new_node b 0, tt);
  filled = omega arith;
  within = omega arith;
  room = omega arith;
  fits = omega arith;
  behind = inl (refl, refl);
  ahead = omega arith;
}
root_if_null-IsValid (_ ∷ _) e v = v

root_if_null-Grown :
    (ns : List (List ℕ)) {b : ByteArray} → b.nodes ≡ ns → IsValid b → Grown b (root_if_null ns b)
unfolding root_if_null
root_if_null-Grown [] {b} e v =
    let empty : b.capacity ≡ 0 =
      v.filled ∙ ap (λ ns. length ns * b.base_size) e ∙ zero-mul b.base_size in
    record {
      more = new_node b 0 ∷ [];
      nodes_eq = rw e;
      size_eq = omega (arith, v.room, empty);
      offset_eq = omega (arith, v.room, v.within, empty);
      cur_eq = ground (arith, v.behind, v.room, v.within, empty);
      base_eq = refl;
      endian_eq = refl;
    }
root_if_null-Grown (_ ∷ _) {b} e v = Grown-refl b

pub add_capacity_to-Grows :
    (capacity : ℕ) {b : ByteArray} → IsValid b → Grows b capacity (add_capacity_to capacity b)
unfolding add_capacity_to with_root
add_capacity_to-Grows capacity {b} v =
    let root = root_if_null b.nodes b in
    let w = root_if_null-IsValid b.nodes refl v in
    let g = root_if_null-Grown b.nodes refl v in
    elim (Bool-cases (leb capacity root.capacity)) [
      | inl enough ↦ (root, rw enough, g, w, leb→le _ _ enough)
      | inr more ↦
          let (c, e, h, x, le) =
            grow_loop-Grows (suc capacity) capacity root w (omega arith) (omega arith) in
          (c, rw more e, Grown-trans g h, x, le)
    ]

-- More nodes do not move the bytes that are there.
pub memory-Grown : {b c : ByteArray} (g : Grown b c) → memory c ≡ memory b ++ concat g.more
memory-Grown {b} {c} g = ap concat g.nodes_eq ∙ concat-append b.base_size b.nodes g.more
