-- ===== src/ByteArray/Clear/Deletes.antt =====
-- src/bytearray.cpp: which nodes clear deletes, and when it uses one after that.
use tigerkin.Prelude.{
  ℕ, zero, suc, ◌≤◌, ◌<◌, ◌≡◌, refl, sym, ap, ◌∙◌, ◌⊎◌, inl, inr, Option, none, some, arith, ◌==◌,
  ==_refl, if◌then◌else◌, length,
}
use tigerkin.ByteArray.{ByteArray, returns, faults, done, null_deref, create, set_endian}
use tigerkin.ByteArray.Clear.{
  NodeHeap, chain_at, node_heap, delete_node, clear_loop, clear_nodes, clear,
}
use tigerkin.ByteArray.Invariant.{IsValid}

clear_loop_gone :
    (fuel q : ℕ) (h : NodeHeap) → h q ≡ none → clear_loop (suc fuel) (some q) h ≡ null_deref
unfolding clear_loop
clear_loop_gone fuel q h gone = rw (gone, clear_loop) refl

-- A node with a next one: the loop deletes that one in its first round and reads it in the second.
clear_loop_more :
    (fuel p q : ℕ) (after_q : Option ℕ) (h : NodeHeap)
    → h p ≡ some (some q)
    → h q ≡ some after_q
    → clear_loop (suc (suc fuel)) (some p) h ≡ null_deref
unfolding clear_loop delete_node
clear_loop_more fuel p q after_q h here there =
    let left : NodeHeap = λ k. if k == q then none else h k in
    let gone : left q ≡ none = rw (==_refl q) refl in
    rw (here, clear_loop) (rw (there, delete_node) (clear_loop_gone fuel q left gone))

clear_nodes_none : (b : ByteArray) → length b.nodes ≡ 0 → clear_nodes b ≡ done (node_heap 0)
unfolding clear_nodes clear_loop
clear_nodes_none b e = rw e refl

-- The only node is left: its loop deletes a null pointer.
clear_nodes_one : (b : ByteArray) → length b.nodes ≡ 1 → clear_nodes b ≡ done (node_heap 1)
unfolding clear_nodes clear_loop node_heap delete_node
clear_nodes_one b e = rw e refl

clear_nodes_more :
    (more : ℕ) (b : ByteArray) → length b.nodes ≡ suc (suc more) → clear_nodes b ≡ null_deref
unfolding clear_nodes node_heap
clear_nodes_more more b e =
    let count = suc (suc more) in
    let root : chain_at count 0 ≡ some 0 = ground arith in
    let first : node_heap count 0 ≡ some (some 1) = ground arith in
    let second : node_heap count 1 ≡ some (chain_at count 2) = ground arith in
    ap (λ n. clear_loop n (chain_at n 0) (node_heap n)) e
    ∙ (ap (λ r. clear_loop count r (node_heap count)) root
        ∙ clear_loop_more more 0 1 (chain_at count 2) (node_heap count) first second)

-- In a valid array of at most one block clear gives a new array of the same block size and byte
-- order, and its loop has deleted no node. With more blocks it uses a node after its deletion.
pub clear_lem :
    (b : ByteArray)
    → IsValid b
    → ((b.capacity ≤ b.base_size)
        × (clear b ≡ returns tt (set_endian b.endian (create b.base_size b.fresh)))
        × (clear_nodes b ≡ done (node_heap (length b.nodes))))
      ⊎ ((b.base_size < b.capacity) × (clear b ≡ faults))
unfolding clear create set_endian
clear_lem b v = go (length b.nodes) refl
  where
    go :
        (count : ℕ)
        → length b.nodes ≡ count
        → ((b.capacity ≤ b.base_size)
            × (clear b ≡ returns tt (set_endian b.endian (create b.base_size b.fresh)))
            × (clear_nodes b ≡ done (node_heap (length b.nodes))))
          ⊎ ((b.base_size < b.capacity) × (clear b ≡ faults))
    go zero e =
        let left = clear_nodes_none b e in
        inl (grind (arith, v.filled, e), rw left refl, left ∙ ap (λ n. done (node_heap n)) (sym e))
    go (suc zero) e =
        let left = clear_nodes_one b e in
        inl (grind (arith, v.filled, e), rw left refl, left ∙ ap (λ n. done (node_heap n)) (sym e))
    go (suc (suc more)) e =
        inr (grind (arith, v.filled, v.base_pos, e), rw (clear_nodes_more more b e) refl)
