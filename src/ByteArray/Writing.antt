-- ===== src/ByteArray/Writing.antt =====
-- src/bytearray.cpp, ByteArray::write: the loop over the nodes is one write into the memory.
use native.Mathlib.Decide.{dec_lt}
use native.Mathlib.Nat.{mul-add-mod_self_right, mod-eq_of_lt, mod-lt}
use tigerkin.Prelude.{
  ℕ, zero, suc, ◌+◌, ◌-◌, ◌*◌, ◌%◌, ◌^◌, ◌≤◌, ◌<◌, ◌≡◌, refl, sym, ap, ◌∙◌, ◌⊎◌, inl, inr, false,
  List, [], ◌∷◌, ◌++◌, arith, ltb, length, length-take, length-drop, length-set, length-splice,
  take-append-drop, IsChunked, concat, splice, set, take, drop, get_elem?, get_elem?-some,
  length-concat, concat-set-splice, splice-splice, All-set, All-get_elem?, Bool-cases, ltb→lt,
  le→ltb, ◌==◌, append-nil, append_assoc, splice-nil, some,
}
use tigerkin.ByteArray.{
  ByteArray, Outcome, returns, Loop, done, enter, write_loop, write_at, write, ◌>>=◌,
}
use tigerkin.ByteArray.Invariant.{IsValid, memory, add_capacity_to-Grows, memory-Grown}

-- The loop ends, in chain `r.0` and at node `r.1`, with `buf` written at position `at` of the memory.
abbrev Wrote : ℕ → List (List ℕ) → ℕ → List ℕ → Loop (List (List ℕ) × ℕ) → Type 0
Wrote base nodes pos buf r =
    (out : List (List ℕ)) × (k : ℕ) × (r ≡ done (out, k))
    × (concat out ≡ splice (concat nodes) pos buf)
    × IsChunked base out
    × (length out ≡ length nodes)
    × (k * base < pos + length buf)
    × (pos + length buf ≤ (k + 1) * base)

-- The position of a byte lies in a node of the chain.
pub index-lt : (base cur n m : ℕ) → cur * base + n < m * base → cur < m
index-lt base cur n m h = grind arith

module _ (base : ℕ) where
  -- The last round, which ends in its node.
  write_last :
      (nodes : List (List ℕ)) (cur node_offset : ℕ) (block buf : List ℕ)
      → IsChunked base nodes
      → get_elem? nodes cur ≡ some block
      → node_offset + length buf ≤ base
      → 0 < length buf
      → Wrote base nodes
          (cur * base + node_offset)
          buf
          (done (set nodes cur (splice block node_offset buf), cur))
  write_last nodes cur node_offset block buf h e le pos = (
    set nodes cur (splice block node_offset buf),
    cur,
    refl,
    concat-set-splice base nodes cur node_offset block buf h e le,
    All-set (λ c. length c ≡ base) nodes cur _ h
        (length-splice block node_offset buf
            (omega (arith, All-get_elem? (λ c. length c ≡ base) nodes cur block h e))
          ∙ All-get_elem? (λ c. length c ≡ base) nodes cur block h e),
    length-set nodes cur (splice block node_offset buf),
    omega arith,
    omega arith,
  )

  module _ (nodes : List (List ℕ)) (cur node_offset rem : ℕ) (block buf : List ℕ)
      (h : IsChunked base nodes) (e : get_elem? nodes cur ≡ some block)
      (split : node_offset + rem ≡ base) (over : rem < length buf) where
    abbrev next_nodes : List (List ℕ)
    next_nodes = set nodes cur (splice block node_offset (take rem buf))

    next_nodes-IsChunked : IsChunked base next_nodes
    next_nodes-IsChunked =
        let full = All-get_elem? (λ c. length c ≡ base) nodes cur block h e in
        All-set (λ c. length c ≡ base) nodes cur _ h
          (length-splice block node_offset (take rem buf)
              (omega (arith, full, length-take rem buf (omega arith)))
            ∙ full)

    -- A round that fills its node, before the rest of the loop.
    write_more :
        (r : Loop (List (List ℕ) × ℕ))
        → cur * base + node_offset ≤ length (concat nodes)
        → Wrote base next_nodes ((cur + 1) * base + 0) (drop rem buf) r
        → Wrote base nodes (cur * base + node_offset) buf r
    write_more r room (out, k, re, written, chunked, len, below, above) =
        let front = take rem buf in
        let back = drop rem buf in
        let lf = length-take rem buf (omega arith) in
        let lb = length-drop rem buf in
        (
          out,
          k,
          re,
          written
              ∙ ap (λ m. splice m ((cur + 1) * base + 0) back)
                  (concat-set-splice base nodes cur node_offset block front h e (omega arith))
              ∙ splice-splice (concat nodes) (cur * base + node_offset) ((cur + 1) * base + 0) front
                  back (omega (arith, lf)) room
              ∙ ap (splice (concat nodes) (cur * base + node_offset)) (take-append-drop rem buf),
          chunked,
          len ∙ length-set nodes cur (splice block node_offset front),
          omega (arith, lb),
          omega (arith, lb),
        )

  -- With a round for each byte and room in the chain, the loop writes the buffer.
  pub write_loop-Wrote :
      (fuel : ℕ) (nodes : List (List ℕ)) (cur node_offset rem : ℕ) (buf : List ℕ)
      → IsChunked base nodes
      → node_offset + rem ≡ base
      → 0 < rem
      → cur * base + node_offset + length buf ≤ length nodes * base
      → length buf ≤ fuel
      → 0 < length buf
      → Wrote base nodes
          (cur * base + node_offset)
          buf
          (write_loop fuel nodes cur node_offset rem buf)
  unfolding write_loop
  write_loop-Wrote fuel nodes cur node_offset rem [] h split lt room f pos = absurd (omega arith)
  write_loop-Wrote zero nodes cur node_offset rem (x ∷ xs) h split lt room f pos =
      absurd (omega arith)
  write_loop-Wrote (suc fuel) nodes cur node_offset rem (x ∷ xs) h split lt room f pos =
      let (block, here) =
        get_elem?-some nodes cur (index-lt base cur node_offset (length nodes) (omega arith)) in
      elim (Bool-cases (ltb rem (length (x ∷ xs)))) [
        | inr fits ↦
            rw (here, write_loop)
              (rw fits (write_last nodes cur node_offset block (x ∷ xs) h here (ground arith) pos))
        | inl more ↦
            let over = ltb→lt _ _ more in
            let nodes' = next_nodes nodes cur node_offset rem block (x ∷ xs) h here split over in
            let w =
              next_nodes-IsChunked nodes cur node_offset rem block (x ∷ xs) h here split over in
            let len = length-set nodes cur (splice block node_offset (take rem (x ∷ xs))) in
            let lb = length-drop rem (x ∷ xs) in
            let (next, there) =
              get_elem?-some nodes' (cur + 1)
                (index-lt base (cur + 1) 0 (length nodes') (rw len (omega arith))) in
            let full = All-get_elem? (λ c. length c ≡ base) nodes' (cur + 1) next w there in
            rw (here, write_loop)
              (rw more (
                rw there (
                  write_more nodes cur node_offset rem block (x ∷ xs) h here split over _
                    (omega (arith, length-concat base nodes h))
                    (write_loop-Wrote fuel nodes' (cur + 1) 0 (length next) (drop rem (x ∷ xs)) w
                      (omega (arith, full)) (omega (arith, full)) (rw len (omega (arith, lb)))
                      (omega (arith, lb)) (omega (arith, lb))))))
      ]

pub mod_unique : (n base q r : ℕ) → n ≡ q * base + r → r < base → n % base ≡ r
mod_unique n base q r e lt = rw e (mul-add-mod_self_right q base r ∙ mod-eq_of_lt lt)

pub enter_stays :
    (nodes : List (List ℕ)) (cur p offset : ℕ)
    → (offset ≡ 0) ⊎ (0 < p)
    → enter nodes cur p offset ≡ cur
unfolding enter
enter_stays nodes cur p offset (inl e) = ground arith
enter_stays nodes cur p offset (inr e) = ground arith

pub enter_moves :
    (nodes : List (List ℕ)) (cur p offset : ℕ)
    → p ≡ 0
    → 0 < offset
    → cur + 1 < length nodes
    → enter nodes cur p offset ≡ cur + 1
unfolding enter
enter_moves nodes cur p offset e pos more = ground arith

-- Where a copy begins: the node and the position in it that hold the offset.
pub enter_lem :
    (b : ByteArray)
    → IsValid b
    → b.offset < length b.nodes * b.base_size
    → enter b.nodes b.cur (b.offset % b.base_size) b.offset * b.base_size + b.offset % b.base_size
      ≡ b.offset
enter_lem b v lt = go v.behind (dec_lt b.offset ((b.cur + 1) * b.base_size))
  where
    r : ℕ
    r = b.offset % b.base_size

    go :
        ((b.offset ≡ 0) × (b.cur ≡ 0)) ⊎ (b.cur * b.base_size < b.offset)
        → Dec (b.offset < (b.cur + 1) * b.base_size)
        → enter b.nodes b.cur r b.offset * b.base_size + r ≡ b.offset
    go (inl (o, c)) d =
        let z = mod_unique b.offset b.base_size 0 0 (omega arith) v.base_pos in
        rw (enter_stays b.nodes b.cur r b.offset (inl o)) (rw c (omega (arith, z, o)))
    go (inr inside) (yes p) =
        let z =
          mod_unique b.offset b.base_size b.cur (b.offset - b.cur * b.base_size) (omega arith)
            (omega arith) in
        rw (enter_stays b.nodes b.cur r b.offset (inr (omega (arith, z)))) (omega (arith, z))
    go (inr inside) (no q) =
        let at_end : b.offset ≡ (b.cur + 1) * b.base_size = omega (arith, v.ahead) in
        let z = mod_unique b.offset b.base_size (b.cur + 1) 0 (omega (arith, at_end)) v.base_pos in
        let more = index-lt b.base_size (b.cur + 1) 0 (length b.nodes) (omega (arith, at_end)) in
        rw (enter_moves b.nodes b.cur r b.offset z (omega arith) more) (omega (arith, z, at_end))

-- What a write of `buf` leaves: it stands at the old offset of the memory, which may have grown,
-- and both the offset and the size have moved by its length.
pub record Overwrites (b c : ByteArray) (buf : List ℕ) : Type 0 where
  pub valid : IsValid c
  pub more : List ℕ
  pub memory_eq : memory c ≡ splice (memory b ++ more) b.offset buf
  pub offset_eq : c.offset ≡ b.offset + length buf
  pub size_eq : c.size ≡ b.size + length buf
  pub base_eq : c.base_size ≡ b.base_size
  pub endian_eq : c.endian ≡ b.endian

abbrev pub Writes : ByteArray → List ℕ → Outcome (Unit {0}) → Type 0
Writes b buf r = (c : ByteArray) × (r ≡ returns tt c) × Overwrites b c buf

-- A write at the offset, in a chain with room for it.
write_at-Writes :
    (x : ℕ) (xs : List ℕ) (b : ByteArray)
    → IsValid b
    → b.size + length (x ∷ xs) ≤ b.capacity
    → b.size + length (x ∷ xs) < 2 ^ 64
    → Writes b (x ∷ xs) (write_at (x ∷ xs) b)
unfolding write_at
write_at-Writes x xs b v room fits =
    let r = b.offset % b.base_size in
    let start = enter b.nodes b.cur r b.offset in
    let e = enter_lem b v (omega (arith, v.filled, v.within)) in
    let lt : r < b.base_size = mod-lt b.offset v.base_pos in
    let (block, here) =
      get_elem?-some b.nodes start
        (index-lt b.base_size start r (length b.nodes) (omega (arith, e, v.filled, v.within))) in
    let full = All-get_elem? (λ c. length c ≡ b.base_size) b.nodes start block v.chunked here in
    let (out, k, re, written, chunked, len, below, above) =
      write_loop-Wrote b.base_size (length (x ∷ xs)) b.nodes start r (length block - r) (x ∷ xs)
        v.chunked (omega (arith, full)) (omega (arith, full)) (omega (arith, e, v.filled, v.within))
        (omega arith) (omega arith) in
    let nonzero : (b.base_size == 0) ≡ false = ground (arith, v.base_pos) in
    let larger : ltb (b.size + length (x ∷ xs)) (b.offset + length (x ∷ xs)) ≡ false =
      le→ltb _ _ (omega (arith, v.within)) in
    (
      record b {
        nodes = out;
        cur = k;
        offset = b.offset + length (x ∷ xs);
        size = b.size + length (x ∷ xs);
      },
      rw nonzero (rw here (rw re (rw larger))),
      record {
        valid = record {
          base_pos = v.base_pos;
          chunked = chunked;
          filled = rw len v.filled;
          within = omega (arith, v.within);
          room = room;
          fits = fits;
          behind = inr (omega (arith, e));
          ahead = omega (arith, e);
        };
        more = [];
        memory_eq = rw append-nil (rw e at written);
        offset_eq = refl;
        size_eq = refl;
        base_eq = refl;
        endian_eq = refl;
      },
    )

-- In a valid array whose size stays below 2^64, a write returns and leaves a valid array: the
-- buffer stands at the old offset of the memory, which may have grown at its end, and the offset
-- and the size have moved by the buffer's length.
pub write-Writes :
    (buf : List ℕ) (b : ByteArray)
    → IsValid b
    → b.size + length buf < 2 ^ 64
    → Writes b buf (write buf b)
unfolding write
write-Writes [] b v fits = (
  b,
  refl,
  record {
    valid = v;
    more = [];
    memory_eq = rw append-nil (sym (splice-nil (memory b) b.offset));
    offset_eq = omega arith;
    size_eq = omega arith;
    base_eq = refl;
    endian_eq = refl;
  },
)
write-Writes (x ∷ xs) b v fits =
    let (c, e, g, w, le) = add_capacity_to-Grows (b.size + length (x ∷ xs)) v in
    let (d, e', o) =
      write_at-Writes x xs c w (omega (arith, g.size_eq)) (omega (arith, g.size_eq)) in
    (
      d,
      rw (e, write, ◌>>=◌) e',
      record {
        valid = o.valid;
        more = concat g.more ++ o.more;
        memory_eq =
            o.memory_eq
            ∙ ap (λ n. splice (memory c ++ o.more) n (x ∷ xs)) g.offset_eq
            ∙ ap (λ m. splice (m ++ o.more) b.offset (x ∷ xs)) (memory-Grown g)
            ∙ ap (λ m. splice m b.offset (x ∷ xs)) (append_assoc (memory b) (concat g.more) o.more);
        offset_eq = o.offset_eq ∙ ap (λ n. n + length (x ∷ xs)) g.offset_eq;
        size_eq = o.size_eq ∙ ap (λ n. n + length (x ∷ xs)) g.size_eq;
        base_eq = o.base_eq ∙ g.base_eq;
        endian_eq = o.endian_eq ∙ g.endian_eq;
      },
    )
