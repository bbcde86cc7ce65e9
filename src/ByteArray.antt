-- ===== src/ByteArray.antt =====
-- src/bytearray.h and src/bytearray.cpp: the chain of nodes, its cursor, and the raw reads and
-- writes. `nodes` is the chain from m_rootNode on, `cur` the position of m_curNode in it, which is
-- null where the chain has no such node; m_endNode is always the last one. A node's `size` is the
-- length of its block. `fresh` is what memory from `new char[]` holds, node by node.
-- Sums of sizes count bytes that the process holds, so they do not wrap; a difference may, and does.
pub mod Clear
pub mod Buffers
pub mod Ints
pub mod Strings
pub mod Wire
pub mod Invariant
pub mod Writing
pub mod Reading
pub mod Offset
pub mod Sequence
pub mod RoundTrip
pub mod Faults
use tigerkin.Prelude.{
  ℕ, zero, suc, ◌+◌, ◌-◌, ◌*◌, ◌/◌, ◌%◌, ◌^◌, Bool, true, false, ◌&&◌, Option, none, some, List, [],
  ◌∷◌, ◌++◌, ltb, leb, ◌==◌, if◌then◌else◌, length, get_elem?, set, take, drop, tabulate, splice,
}

pub record ByteArray : Type 0 where
  pub endian : ℕ
  pub base_size : ℕ
  pub size : ℕ
  pub capacity : ℕ
  pub offset : ℕ
  pub nodes : List (List ℕ)
  pub cur : ℕ
  pub fresh : ℕ → ℕ → ℕ

-- How a call ends: it returns, it throws std::out_of_range, it reads through a null or freed
-- pointer or divides by zero, or the fuel of a loop ran out, where the code does not return.
pub data Outcome (A : Type 0) : Type 0 where
  returns : A → ByteArray → Outcome A
  throws : ByteArray → Outcome A
  faults : Outcome A
  stuck : Outcome A

abbrev pub Action : Type 0 → Type 0
Action A = ByteArray → Outcome A

infixl 5 ◌>>=◌ ◌>>◌
abbrev pub ◌>>=◌ : {A B : Type 0} → Action A → (A → Action B) → Action B
◌>>=◌ m f b = elim (m b) [
  | returns a b' ↦ f a b'
  | throws b' ↦ throws b'
  | faults ↦ faults
  | stuck ↦ stuck
]

abbrev pub ◌>>◌ : {B : Type 0} → Action (Unit {0}) → Action B → Action B
m >> k = m >>= λ _. k

-- What a copying loop leaves, or how it fails.
pub data Loop (A : Type 0) : Type 0 where
  done : A → Loop A
  null_deref : Loop A
  out_of_fuel : Loop A

abbrev pub after : {A B : Type 0} → Loop A → (A → Outcome B) → Outcome B
after (done a) f = f a
after null_deref f = faults
after out_of_fuel f = stuck

abbrev pub little_endian : ℕ
little_endian = 1

abbrev pub big_endian : ℕ
big_endian = 2

-- ByteArray::ByteArray.
pub create : ℕ → (ℕ → ℕ → ℕ) → ByteArray
create base fresh = record {
  endian = little_endian;
  base_size = base;
  size = 0;
  capacity = 0;
  offset = 0;
  nodes = [];
  cur = 0;
  fresh = fresh;
}

pub is_little_endian : ByteArray → Bool
is_little_endian b = b.endian == little_endian

pub set_endian : ℕ → ByteArray → ByteArray
set_endian e b = record b { endian = e }

-- Node::Node(size_t): the block of the `k`-th node.
pub new_node : ByteArray → ℕ → List ℕ
new_node b k = tabulate (b.fresh k) 0 b.base_size

-- size_t subtraction.
abbrev pub sub_size : ℕ → ℕ → ℕ
sub_size a b = (a + 2 ^ 64 - b) % 2 ^ 64

pub get_enable_read_size : ByteArray → ℕ
get_enable_read_size b = sub_size b.size b.offset

-- The rounds of `for (i = 1; i < nodeCnt; ++i) cur = cur->nxt`, from the root.
abbrev pub walk : ℕ → ℕ
walk node_count = node_count - 1

-- `ceil` is taken of an integer quotient, which it leaves as it is.
pub set_offset : ℕ → Action (Unit {0})
set_offset offset b =
    if ltb b.capacity offset
    then throws b
    else if b.base_size == 0
    then faults
    else if ltb (length b.nodes) (walk (offset / b.base_size))
    then faults
    else returns tt (record b {
      size = if ltb b.size offset then offset else b.size;
      cur = walk (offset / b.base_size);
      offset = offset;
    })

-- The allocation of a root node, where the chain is empty.
root_if_null : List (List ℕ) → ByteArray → ByteArray
unfolding new_node
root_if_null [] b = record b {
  nodes = new_node b 0 ∷ [];
  cur = 0;
  size = 0;
  offset = 0;
  capacity = b.base_size;
}
root_if_null (_ ∷ _) b = b

pub with_root : ByteArray → ByteArray
unfolding root_if_null
with_root b = root_if_null b.nodes b

grow_node : ByteArray → ByteArray
unfolding new_node
grow_node b = record b {
  nodes = b.nodes ++ (new_node b (length b.nodes) ∷ []);
  capacity = b.capacity + b.base_size;
}

-- `while (m_capacity < capacity)`. An empty block size adds nothing, and the loop goes on for ever.
grow_loop : ℕ → ℕ → Action (Unit {0})
unfolding grow_node
grow_loop zero capacity b = stuck
grow_loop (suc fuel) capacity b =
    let rest = grow_loop fuel capacity (grow_node b) in
    if ltb b.capacity capacity then rest else returns tt b

pub add_capacity_to : ℕ → Action (Unit {0})
unfolding with_root grow_loop
add_capacity_to capacity b =
    let b' = with_root b in
    if leb capacity b'.capacity then returns tt b' else grow_loop (suc capacity) capacity b'

pub add_capacity : ℕ → Action (Unit {0})
unfolding add_capacity_to
add_capacity capacity b = add_capacity_to (capacity + b.capacity) b

-- Where a copy at `offset` begins: a cursor that stands at the end of its node goes to the next.
pub enter : List (List ℕ) → ℕ → ℕ → ℕ → ℕ
enter nodes cur node_offset offset =
    if (node_offset == 0) && ltb 0 offset && ltb (cur + 1) (length nodes) then cur + 1 else cur

-- The loop of ByteArray::write over the node chain: what is left of the buffer is copied node by
-- node. It gives the new chain and cursor; m_size and m_offset grow by the bytes copied.
pub write_loop : ℕ → List (List ℕ) → ℕ → ℕ → ℕ → List ℕ → Loop (List (List ℕ) × ℕ)
write_loop fuel nodes cur node_offset node_remain [] = done (nodes, cur)
write_loop zero nodes cur node_offset node_remain (x ∷ xs) = out_of_fuel
write_loop (suc fuel) nodes cur node_offset node_remain (x ∷ xs) = elim (get_elem? nodes cur) [
  | none ↦ null_deref
  | some block ↦ elim (ltb node_remain (length (x ∷ xs))) [
    | true ↦
        let nodes' = set nodes cur (splice block node_offset (take node_remain (x ∷ xs))) in
        elim (get_elem? nodes' (cur + 1)) [
          | none ↦ null_deref
          | some next ↦ write_loop fuel nodes' (cur + 1) 0 (length next) (drop node_remain (x ∷ xs))
        ]
    | false ↦ done (set nodes cur (splice block node_offset (x ∷ xs)), cur)
  ]
]

-- ByteArray::write from the copying loop on.
pub write_at : List ℕ → Action (Unit {0})
unfolding write_loop enter
write_at buf b =
    let node_offset = b.offset % b.base_size in
    let start = enter b.nodes b.cur node_offset b.offset in
    let offset' = b.offset + length buf in
    let size' = b.size + length buf in
    if b.base_size == 0 then faults else elim (get_elem? b.nodes start) [
      | none ↦ faults
      | some block ↦
          after (write_loop (length buf) b.nodes start node_offset (length block - node_offset) buf)
            λ r. returns tt (record b {
              nodes = r.0;
              cur = r.1;
              offset = offset';
              size = if ltb size' offset' then offset' else size';
            })
    ]

pub write : List ℕ → Action (Unit {0})
unfolding write_at add_capacity_to
write [] b = returns tt b
write (x ∷ xs) b = (add_capacity_to (b.size + length (x ∷ xs)) >> write_at (x ∷ xs)) b

-- The copying loop of both `read` functions: the bytes read and the cursor.
pub read_loop : ℕ → List (List ℕ) → ℕ → ℕ → ℕ → ℕ → Loop (List ℕ × ℕ)
read_loop fuel nodes cur node_offset node_remain zero = done ([], cur)
read_loop zero nodes cur node_offset node_remain (suc n) = out_of_fuel
read_loop (suc fuel) nodes cur node_offset node_remain (suc n) = elim (get_elem? nodes cur) [
  | none ↦ null_deref
  | some block ↦ elim (ltb node_remain (suc n)) [
    | true ↦ elim (get_elem? nodes (cur + 1)) [
      | none ↦ null_deref
      | some next ↦ elim (read_loop fuel nodes (cur + 1) 0 (length next) (suc n - node_remain)) [
        | done r ↦ done (take node_remain (drop node_offset block) ++ r.0, r.1)
        | null_deref ↦ null_deref
        | out_of_fuel ↦ out_of_fuel
      ]
    ]
    | false ↦ done (take (suc n) (drop node_offset block), cur)
  ]
]

-- The two `read` functions after their check, at a given offset: the bytes and the last node.
pub read_at : ℕ → ℕ → ByteArray → Loop (List ℕ × ℕ)
unfolding read_loop enter
read_at size offset b =
    let node_offset = offset % b.base_size in
    let start = enter b.nodes b.cur node_offset offset in
    elim (get_elem? b.nodes start) [
      | none ↦ null_deref
      | some block ↦ read_loop size b.nodes start node_offset (length block - node_offset) size
    ]

pub read : ℕ → Action (List ℕ)
unfolding read_at
read size b =
    if ltb (get_enable_read_size b) size
    then throws b
    else if b.base_size == 0
    then faults
    else after (read_at size b.offset b)
        λ r. returns r.0 (record b { cur = r.1; offset = b.offset + size })

-- `read` at an offset of the caller's, which leaves the array as it is.
pub read_const : ℕ → ℕ → Action (List ℕ)
unfolding read_at
read_const size offset b =
    if ltb (get_enable_read_size b) size
    then throws b
    else if b.base_size == 0
    then faults
    else after (read_at size offset b) λ r. returns r.0 b

pub to_string : Action (List ℕ)
unfolding read_const
to_string b =
    if get_enable_read_size b == 0
    then returns [] b
    else read_const (get_enable_read_size b) b.offset b
