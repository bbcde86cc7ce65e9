-- ===== src/ByteArray/Clear.antt =====
-- src/bytearray.cpp, ByteArray::clear: the loop that deletes the nodes, over a heap of them, since it goes
-- from a node to the next and deletes on the way.
pub mod Deletes
use tigerkin.Prelude.{ℕ, zero, suc, ◌+◌, Option, none, some, [], ltb, ◌==◌, if◌then◌else◌, length}
use tigerkin.ByteArray.{ByteArray, returns, Action, Loop, done, null_deref, out_of_fuel, after}

-- What clear sees of the nodes: at each address a node with its `nxt`, or none where there is no node
-- or it has been deleted. A null pointer is none, and the address of a node its place in the chain.
abbrev pub NodeHeap : Type 0
NodeHeap = ℕ → Option (Option ℕ)

abbrev pub chain_at : ℕ → ℕ → Option ℕ
chain_at count k = if ltb k count then some k else none

pub node_heap : ℕ → NodeHeap
node_heap count k = if ltb k count then some (chain_at count (k + 1)) else none

-- `delete`: nothing for a null pointer, and a fault for a node that is there no more.
pub delete_node : Option ℕ → NodeHeap → Loop NodeHeap
delete_node none h = done h
delete_node (some p) h = elim (h p) [
  | none ↦ null_deref
  | some _ ↦ done (λ k. if k == p then none else h k)
]

-- The loop of ByteArray::clear from m_rootNode on: it goes to `nxt` and deletes the node it is at then.
pub clear_loop : ℕ → Option ℕ → NodeHeap → Loop NodeHeap
unfolding delete_node
clear_loop fuel none h = done h
clear_loop zero (some root) h = out_of_fuel
clear_loop (suc fuel) (some root) h = elim (h root) [
  | none ↦ null_deref
  | some nxt ↦ elim (delete_node nxt h) [
    | done h' ↦ clear_loop fuel nxt h'
    | null_deref ↦ null_deref
    | out_of_fuel ↦ out_of_fuel
  ]
]

-- The loop for the chain of an array, and the nodes that it leaves.
pub clear_nodes : ByteArray → Loop NodeHeap
unfolding node_heap clear_loop
clear_nodes b = let count = length b.nodes in clear_loop count (chain_at count 0) (node_heap count)

pub clear : Action (Unit {0})
unfolding clear_nodes
clear b =
    after (clear_nodes b)
      λ _. returns tt (record b { nodes = []; cur = 0; capacity = 0; offset = 0; size = 0 })
