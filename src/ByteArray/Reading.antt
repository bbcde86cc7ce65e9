-- ===== src/ByteArray/Reading.antt =====
-- src/bytearray.cpp, the two read functions: the loop over the nodes reads one stretch of the memory.
use native.Mathlib.Nat.{mod-lt, le_refl}
use tigerkin.Prelude.{
  ℕ, zero, suc, ◌+◌, ◌-◌, ◌*◌, ◌%◌, ◌≤◌, ◌<◌, ◌≡◌, refl, sym, ap, subst, ◌∙◌, inl, inr, true, false,
  List, ◌++◌, arith, ltb, length, IsChunked, concat, slice, slice-add, slice-concat, get_elem?,
  get_elem?-some, All-get_elem?, Bool-cases, ltb→lt, le→ltb, lt→ltb, ◌==◌, ==_iff, some,
}
use tigerkin.ByteArray.{
  ByteArray, returns, throws, Loop, done, enter, read_loop, read_at, read, read_const, to_string,
  get_enable_read_size,
}
use tigerkin.ByteArray.Invariant.{IsValid, memory, unread}
use tigerkin.ByteArray.Writing.{index-lt, enter_lem}

-- The loop ends at node `k` with the `n` bytes at position `pos` of the memory.
abbrev pub Reads : ℕ → List (List ℕ) → ℕ → ℕ → Loop (List ℕ × ℕ) → Type 0
Reads base nodes pos n r =
    (k : ℕ) × (r ≡ done (slice pos n (concat nodes), k))
    × (k * base < pos + n)
    × (pos + n ≤ (k + 1) * base)

module _ (base : ℕ) where
  -- The rest of a node and what follows in the chain.
  pub join :
      (nodes : List (List ℕ)) (cur node_offset rem n : ℕ) (block : List ℕ)
      → IsChunked base nodes
      → get_elem? nodes cur ≡ some block
      → node_offset + rem ≡ base
      → rem ≤ n
      → slice node_offset rem block ++ slice ((cur + 1) * base + 0) (n - rem) (concat nodes)
        ≡ slice (cur * base + node_offset) n (concat nodes)
  join nodes cur node_offset rem n block h e split le =
      let pos = cur * base + node_offset in
      ap (λ bs. bs ++ slice ((cur + 1) * base + 0) (n - rem) (concat nodes))
        (sym (slice-concat base nodes cur node_offset rem block h e (omega arith)))
      ∙ ap (λ p. slice pos rem (concat nodes) ++ slice p (n - rem) (concat nodes))
          {x = (cur + 1) * base + 0} {y = pos + rem} (omega arith)
      ∙ slice-add pos rem (n - rem) (concat nodes)
      ∙ ap (λ m. slice pos m (concat nodes)) {x = rem + (n - rem)} {y = n} (omega arith)

  -- With a round for each byte and enough bytes in the chain, the loop reads them.
  pub read_loop-Reads :
      (fuel : ℕ) (nodes : List (List ℕ)) (cur node_offset rem n : ℕ)
      → IsChunked base nodes
      → node_offset + rem ≡ base
      → 0 < rem
      → cur * base + node_offset + n ≤ length nodes * base
      → n ≤ fuel
      → 0 < n
      → Reads base nodes (cur * base + node_offset) n (read_loop fuel nodes cur node_offset rem n)
  unfolding read_loop
  read_loop-Reads fuel nodes cur node_offset rem zero h split lt room f pos = absurd (omega arith)
  read_loop-Reads zero nodes cur node_offset rem (suc n) h split lt room f pos =
      absurd (omega arith)
  read_loop-Reads (suc fuel) nodes cur node_offset rem (suc n) h split lt room f pos =
      let (block, here) =
        get_elem?-some nodes cur (index-lt base cur node_offset (length nodes) (omega arith)) in
      elim (Bool-cases (ltb rem (suc n))) [
        | inr fits ↦
            rw (here, read_loop)
              (rw fits (
                cur,
                ap (λ bs. done (bs, cur))
                    (sym (
                      slice-concat base nodes cur node_offset (suc n) block h here (ground arith))),
                omega arith,
                ground arith,
              ))
        | inl more ↦
            let over = ltb→lt _ _ more in
            let (next, there) =
              get_elem?-some nodes (cur + 1)
                (index-lt base (cur + 1) 0 (length nodes) (omega arith)) in
            let full = All-get_elem? (λ c. length c ≡ base) nodes (cur + 1) next h there in
            let (k, e, below, above) =
              read_loop-Reads fuel nodes (cur + 1) 0 (length next) (suc n - rem) h
                (omega (arith, full)) (omega (arith, full)) (omega arith) (omega arith)
                (omega arith) in
            rw (here, read_loop)
              (rw more (
                rw there (
                  rw e (
                    k,
                    ap (λ bs. done (bs, k))
                        (join nodes cur node_offset rem (suc n) block h here split (omega arith)),
                    omega arith,
                    omega arith,
                  ))))
      ]

-- A read in a valid array of bytes that it has: where it ends and what it gives.
read_at-Reads :
    (n : ℕ) (b : ByteArray)
    → IsValid b
    → 0 < n
    → n ≤ b.size - b.offset
    → Reads b.base_size b.nodes b.offset n (read_at n b.offset b)
unfolding read_at
read_at-Reads n b v pos le =
    let r = b.offset % b.base_size in
    let start = enter b.nodes b.cur r b.offset in
    let e = enter_lem b v (omega (arith, v.filled, v.room)) in
    let lt : r < b.base_size = mod-lt b.offset v.base_pos in
    let (block, here) =
      get_elem?-some b.nodes start
        (index-lt b.base_size start r (length b.nodes) (omega (arith, e, v.filled, v.room))) in
    let full = All-get_elem? (λ c. length c ≡ b.base_size) b.nodes start block v.chunked here in
    rw (here, read_at)
      (subst (λ p. Reads b.base_size b.nodes p n (read_loop n b.nodes start r (length block - r) n))
        e
        (read_loop-Reads b.base_size n b.nodes start r (length block - r) n v.chunked
          (omega (arith, full)) (omega (arith, full)) (omega (arith, e, v.filled, v.room))
          (le_refl n) pos))

-- What a read of `n` bytes leaves: the offset has moved by `n`, and nothing else that is seen.
pub record Advances (b c : ByteArray) (n : ℕ) : Type 0 where
  pub valid : IsValid c
  pub nodes_eq : c.nodes ≡ b.nodes
  pub offset_eq : c.offset ≡ b.offset + n
  pub size_eq : c.size ≡ b.size
  pub base_eq : c.base_size ≡ b.base_size
  pub endian_eq : c.endian ≡ b.endian

pub get_enable_read_size_lem :
    (b : ByteArray) → IsValid b → get_enable_read_size b ≡ b.size - b.offset
unfolding get_enable_read_size
get_enable_read_size_lem b v = omega (arith, v.within, v.fits)

-- In a valid array a read of at least one byte and at most those that are left gives the bytes
-- of the memory from the offset on; the array stays valid, its offset has moved by as many
-- bytes, and its memory and size are as before.
pub read-Advances :
    (n : ℕ) (b : ByteArray)
    → IsValid b
    → 0 < n
    → n ≤ b.size - b.offset
    → (c : ByteArray) × (read n b ≡ returns (slice b.offset n (memory b)) c) × Advances b c n
unfolding read
read-Advances n b v pos le =
    let (k, e, below, above) = read_at-Reads n b v pos le in
    let enough : ltb (get_enable_read_size b) n ≡ false =
      le→ltb _ _ (omega (arith, get_enable_read_size_lem b v)) in
    let nonzero : (b.base_size == 0) ≡ false = ground (arith, v.base_pos) in
    (
      record b { cur = k; offset = b.offset + n },
      rw (enough, nonzero, e),
      record {
        valid = record {
          base_pos = v.base_pos;
          chunked = v.chunked;
          filled = v.filled;
          within = omega (arith, v.within);
          room = v.room;
          fits = v.fits;
          behind = inr below;
          ahead = above;
        };
        nodes_eq = refl;
        offset_eq = refl;
        size_eq = refl;
        base_eq = refl;
        endian_eq = refl;
      },
    )

-- In a valid array a read of more bytes than are left throws, and leaves the array as it was.
read_short : (n : ℕ) (b : ByteArray) → IsValid b → b.size - b.offset < n → read n b ≡ throws b
unfolding read
read_short n b v lt =
    let short : ltb (get_enable_read_size b) n ≡ true =
      lt→ltb _ _ (omega (arith, get_enable_read_size_lem b v)) in
    rw short

-- In a valid array toString gives the bytes from the offset to the size, and leaves the array as
-- it was.
pub to_string-unread : (b : ByteArray) → IsValid b → to_string b ≡ returns (unread b) b
unfolding to_string read_const
to_string-unread b v =
    let n = get_enable_read_size b in
    let e = get_enable_read_size_lem b v in
    elim (Bool-cases (n == 0)) [
      | inl nothing ↦
          let z : b.size - b.offset ≡ 0 = sym e ∙ (==_iff n 0).0 nothing in rw nothing (rw z)
      | inr some_left ↦
          let (k, r, _, _) = read_at-Reads n b v (ground arith) (omega (arith, e)) in
          let enough : ltb n n ≡ false = le→ltb n n (le_refl n) in
          let nonzero : (b.base_size == 0) ≡ false = ground (arith, v.base_pos) in
          rw (some_left, enough, nonzero, r) (rw e)
    ]
