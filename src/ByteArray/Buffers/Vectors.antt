-- ===== src/ByteArray/Buffers/Vectors.antt =====
-- src/bytearray.cpp: which bytes the iovecs of getReadBuffers and getWriteBuffers stand for.
use native.Mathlib.Nat.{mod-lt, le_refl, div-add-mod', le-div_iff_mul-le}
use native.Mathlib.Decide.{dec_lt}
use tigerkin.Prelude.{
  ℕ, zero, suc, ◌+◌, ◌-◌, ◌*◌, ◌/◌, ◌%◌, ◌^◌, ◌≤◌, ◌<◌, ◌≡◌, ◌⊎◌, inl, inr, refl, sym, ap, ap₂, ◌∙◌,
  true, false, ◌||◌, none, some, List, [], ◌∷◌, ◌++◌, append-nil, arith, ltb, ◌==◌, if◌then◌else◌,
  length, get_elem?, get_elem?-some, All-get_elem?, IsChunked, concat, slice, slice-concat, ltb→lt,
  ◌&&◌, Bool-cases, le→ltb, lt→ltb,
}
use tigerkin.ByteArray.{ByteArray, returns, ◌>>=◌, ◌>>◌, done, after, walk}
use tigerkin.ByteArray.Invariant.{IsValid, memory, Grown, add_capacity_to-Grows}
use tigerkin.ByteArray.Writing.{index-lt, mod_unique}
use tigerkin.ByteArray.Reading.{join}
use tigerkin.ByteArray.Buffers.{
  Iovec, chain, buffers_loop, int_result, buffers_from, get_read_buffers, get_write_buffers,
}

-- The bytes that an iovec, and that a list of them, stands for.
abbrev pub bytes_at : List (List ℕ) → Iovec → List ℕ
bytes_at nodes v = elim (get_elem? nodes v.node) [
  | none ↦ []
  | some block ↦ slice v.place v.len block
]

abbrev pub gather : List (List ℕ) → List Iovec → List ℕ
gather nodes [] = []
gather nodes (v ∷ vs) = bytes_at nodes v ++ gather nodes vs

abbrev pub lengths : List Iovec → ℕ
lengths [] = 0
lengths (v ∷ vs) = v.len + lengths vs

-- The iovecs stand for the `n` bytes at position `pos` of the memory.
abbrev pub Covers : List (List ℕ) → ℕ → ℕ → List Iovec → Type 0
Covers nodes pos n vs = (gather nodes vs ≡ slice pos n (concat nodes)) × (lengths vs ≡ n)

-- How many of the `n` bytes at `pos` stand before the last block that they reach.
abbrev pub before_last : ℕ → ℕ → ℕ → ℕ
before_last base pos n = (pos + n - 1) / base * base - pos

-- The same without a division, for a sum of the loop that begins in block `cur`.
abbrev Counts : ℕ → ℕ → ℕ → ℕ → ℕ → Type 0
Counts base cur pos n sum =
    ((sum ≡ 0) × (pos + n ≤ (cur + 1) * base))
    ⊎ ((q : ℕ) × (sum + pos ≡ q * base) × (q * base < pos + n) × (pos + n ≤ (q + 1) * base))

div_unique : (base q n : ℕ) → 0 < base → q * base ≤ n → n < (q + 1) * base → n / base ≡ q
div_unique base q n pos le lt =
    let at_least : q ≤ n / base = (le-div_iff_mul-le pos).1 le in
    elim (dec_lt q (n / base)) [
      | yes more ↦
          absurd
            (let over : (q + 1) * base ≤ n = (le-div_iff_mul-le pos).0 (omega arith) in omega arith)
      | no most ↦ omega arith
    ]

Counts-before_last :
    (base cur pos n sum : ℕ)
    → 0 < base
    → 0 < n
    → cur * base ≤ pos
    → Counts base cur pos n sum
    → sum ≡ before_last base pos n
Counts-before_last base cur pos n sum some_base some_bytes le (inl (z, lt)) =
    let d = div_unique base cur (pos + n - 1) some_base (omega arith) (omega arith) in
    rw d (omega arith)
Counts-before_last base cur pos n sum some_base some_bytes le (inr (q, e, lo, hi)) =
    let d = div_unique base q (pos + n - 1) some_base (omega arith) (omega arith) in
    rw d (omega arith)

-- One block more in front of what a later sum counts.
Counts-chain :
    (base cur place rem n sum : ℕ)
    → place + rem ≡ base
    → rem < n
    → Counts base (cur + 1) ((cur + 1) * base + 0) (n - rem) sum
    → Counts base cur (cur * base + place) n (rem + sum)
Counts-chain base cur place rem n sum split lt (inl (z, hi)) =
    inr (cur + 1, omega arith, omega arith, omega arith)
Counts-chain base cur place rem n sum split lt (inr (q, e, lo, hi)) =
    inr (q, omega arith, omega arith, omega arith)

bytes_at-some :
    (nodes : List (List ℕ)) (v : Iovec) (block : List ℕ)
    → get_elem? nodes v.node ≡ some block
    → bytes_at nodes v ≡ slice v.place v.len block
bytes_at-some nodes v block h = rw (h, bytes_at) refl

-- With a round for each byte and enough bytes in the chain, the loop lists them.
buffers_loop-Covers :
    (base fuel : ℕ) (nodes : List (List ℕ)) (cur place rem n : ℕ)
    → IsChunked base nodes
    → place + rem ≡ base
    → 0 < rem
    → cur * base + place + n ≤ length nodes * base
    → n ≤ fuel
    → 0 < n
    → (vs : List Iovec) × (sum : ℕ) × (buffers_loop fuel nodes cur place rem n ≡ done (vs, sum))
      × Covers nodes (cur * base + place) n vs
      × Counts base cur (cur * base + place) n sum
unfolding buffers_loop
buffers_loop-Covers base fuel nodes cur place rem zero h split lt room f pos = absurd (omega arith)
buffers_loop-Covers base zero nodes cur place rem (suc n) h split lt room f pos =
    absurd (omega arith)
buffers_loop-Covers base (suc fuel) nodes cur place rem (suc n) h split lt room f pos =
    let (block, here) =
      get_elem?-some nodes cur (index-lt base cur place (length nodes) (omega arith)) in
    elim (Bool-cases (ltb rem (suc n))) [
      | inr fits ↦
          let v : Iovec = record { node = cur; place = place; len = suc n } in
          (
            v ∷ [],
            0,
            rw (here, buffers_loop)
                (rw fits
                  (ap (λ k. done (v ∷ [], k)) {x = 0 + (suc n - suc n)} {y = 0} (omega arith))),
            (
              append-nil (bytes_at nodes v)
                  ∙ (bytes_at-some nodes v block here
                      ∙ sym
                          (slice-concat base nodes cur place (suc n) block h here (ground arith))),
              omega arith,
            ),
            inl (refl, ground arith),
          )
      | inl more ↦
          let over = ltb→lt _ _ more in
          let (next, there) =
            get_elem?-some nodes (cur + 1)
              (index-lt base (cur + 1) 0 (length nodes) (omega arith)) in
          let full = All-get_elem? (λ c. length c ≡ base) nodes (cur + 1) next h there in
          let (vs, rst, e, (bytes, sum), counts) =
            buffers_loop-Covers base fuel nodes (cur + 1) 0 (length next) (suc n - rem) h
              (omega (arith, full)) (omega (arith, full)) (omega arith) (omega arith)
              (omega arith) in
          let v : Iovec = record { node = cur; place = place; len = rem } in
          (
            v ∷ vs,
            rem + rst,
            rw (here, buffers_loop) (rw more (rw there (ap (chain v) e))),
            (
              ap₂ ◌++◌ (bytes_at-some nodes v block here) bytes
                  ∙ join base nodes cur place rem (suc n) block h here split (omega arith),
              omega (arith, sum),
            ),
            Counts-chain base cur place rem (suc n) rst split over counts,
          )
    ]

-- From a node of the chain on.
buffers_from-Covers :
    (base len node place : ℕ) (nodes : List (List ℕ))
    → IsChunked base nodes
    → place < base
    → node * base + place + len ≤ length nodes * base
    → 0 < len
    → (vs : List Iovec) × (buffers_from len node place nodes
        ≡ done (vs, before_last base (node * base + place) len))
      × Covers nodes (node * base + place) len vs
unfolding buffers_from
buffers_from-Covers base len node place nodes h lt room pos =
    let (block, here) =
      get_elem?-some nodes node (index-lt base node place (length nodes) (omega arith)) in
    let full = All-get_elem? (λ c. length c ≡ base) nodes node block h here in
    let (vs, sum, e, c, counts) =
      buffers_loop-Covers base len nodes node place (length block - place) len h
        (omega (arith, full)) (omega (arith, full)) room (le_refl len) pos in
    let counted =
      Counts-before_last base node (node * base + place) len sum (omega arith) pos (omega arith)
        counts in
    (vs, rw (here, buffers_from) (e ∙ ap (λ k. done (vs, k)) counted), c)

-- Where the iovecs begin: a block too low past the first block.
abbrev pub low : ℕ → ℕ → ℕ
low base offset = if ltb offset base then offset else offset - base

walk_base :
    (q base offset r : ℕ) → r < base → q * base + r ≡ offset → walk q * base + r ≡ low base offset
walk_base zero base offset r lt e =
    let first : ltb offset base ≡ true = lt→ltb _ _ (omega arith) in rw first (omega arith)
walk_base (suc q) base offset r lt e =
    let later : ltb offset base ≡ false = le→ltb _ _ (omega arith) in
    let back : walk (suc q) ≡ q = omega arith in rw (later, back) (omega arith)

-- getReadBuffers.
get_read_buffers-Covers :
    (len offset : ℕ) (b : ByteArray)
    → IsValid b
    → 0 < len
    → offset + len ≤ b.size
    → (vs : List Iovec) × (get_read_buffers len offset b
        ≡ returns (vs, int_result (before_last b.base_size (low b.base_size offset) len)) b)
      × (lengths vs ≡ len)
      × (gather b.nodes vs ≡ slice (low b.base_size offset) len (memory b))
unfolding get_read_buffers
get_read_buffers-Covers len offset b v pos le =
    let base = b.base_size in
    let r = offset % base in
    let node = walk (offset / base) in
    let lt : r < base = mod-lt offset v.base_pos in
    let begins : node * base + r ≡ low base offset =
      walk_base (offset / base) base offset r lt (div-add-mod' offset base) in
    let small : low base offset ≤ offset = ground arith in
    let (vs, e, (bytes, sum)) =
      buffers_from-Covers base len node r b.nodes v.chunked lt
        (omega (arith, begins, small, v.room, v.filled)) pos in
    let ok : (ltb b.size ((offset + len) % 2 ^ 64) || (len == 0)) ≡ false =
      ground (arith, le, pos, v.fits) in
    let nonzero : (base == 0) ≡ false = ground (arith, v.base_pos) in
    (
      vs,
      rw ok (
          rw nonzero (
            ap (λ l. after l (λ r. returns (r.0, int_result r.1) b)) e
            ∙ ap (λ p. returns (vs, int_result (before_last base p len)) b) begins)),
      sum,
      bytes ∙ ap (λ p. slice p len (memory b)) begins,
    )

-- Where the iovecs to write begin: at a block's end, in the block that is full.
abbrev pub behind_edge : ℕ → ℕ → ℕ
behind_edge base offset = if (offset % base == 0) && ltb 0 offset then offset - base else offset

cur_behind :
    (cur base offset : ℕ)
    → 0 < base
    → ((offset ≡ 0) × (cur ≡ 0)) ⊎ (cur * base < offset)
    → offset ≤ (cur + 1) * base
    → cur * base + offset % base ≡ behind_edge base offset
cur_behind cur base offset pos (inl (o, c)) ahead =
    let z = mod_unique offset base 0 0 (omega arith) pos in rw c (ground (arith, z, o))
cur_behind cur base offset pos (inr inside) ahead = elim (dec_lt offset ((cur + 1) * base)) [
  | yes p ↦
      let z = mod_unique offset base cur (offset - cur * base) (omega arith) (omega arith) in
      let open_block : (offset % base == 0) ≡ false = ground (arith, z) in
      rw open_block (omega (arith, z))
  | no q ↦
      let z = mod_unique offset base (cur + 1) 0 (omega arith) pos in
      let edge : (offset % base == 0) ≡ true = ground (arith, z) in
      let later : ltb 0 offset ≡ true = lt→ltb _ _ (omega arith) in
      rw edge (rw later (omega (arith, z)))
]

-- getWriteBuffers.
get_write_buffers-Covers :
    (len : ℕ) (b : ByteArray)
    → IsValid b
    → 0 < len
    → (vs : List Iovec) × (c : ByteArray) × (get_write_buffers len b
        ≡ returns
            (vs, int_result (before_last b.base_size (behind_edge b.base_size b.offset) len))
            c)
      × (lengths vs ≡ len)
      × IsValid c
      × Grown b c
      × (gather c.nodes vs ≡ slice (behind_edge b.base_size b.offset) len (memory c))
unfolding get_write_buffers
get_write_buffers-Covers len b v pos =
    let (c, grown, g, w, room) = add_capacity_to-Grows (b.offset + len) v in
    let base = c.base_size in
    let r = c.offset % base in
    let begins : c.cur * base + r ≡ behind_edge base c.offset =
      cur_behind c.cur base c.offset w.base_pos w.behind w.ahead in
    let small : behind_edge base c.offset ≤ c.offset = ground arith in
    let (vs, e, (bytes, sum)) =
      buffers_from-Covers base len c.cur r c.nodes w.chunked (mod-lt c.offset w.base_pos)
        (omega (arith, begins, small, w.filled, room, g.offset_eq)) pos in
    let some_bytes : (len == 0) ≡ false = ground (arith, pos) in
    let nonzero : (base == 0) ≡ false = ground (arith, w.base_pos) in
    (
      vs,
      c,
      rw some_bytes (
          rw (grown, ◌>>◌, ◌>>=◌)
            (rw nonzero (
              ap (λ l. after l (λ r. returns (r.0, int_result r.1) c)) e
              ∙ ap₂ (λ k p. returns (vs, int_result (before_last k p len)) c) g.base_eq
                  (begins ∙ ap₂ behind_edge g.base_eq g.offset_eq)))),
      sum,
      w,
      g,
      bytes ∙ ap (λ p. slice p len (memory c)) (begins ∙ ap₂ behind_edge g.base_eq g.offset_eq),
    )

-- In a valid array, for at least one byte and an offset at least that far from the end,
-- getReadBuffers gives iovecs for the bytes of the memory at the offset if that is in the first
-- block, and at one block below it otherwise. getWriteBuffers keeps the array valid, grows it
-- where it must, and gives iovecs for the bytes at the array's offset, but at one block below it
-- where the offset is at the end of a block. The iovecs have as many bytes as were asked for,
-- but both calls give as an int only how many of these bytes stand before the last block that
-- they reach.
pub get_buffers-Covers :
    (len offset : ℕ) (b : ByteArray)
    → IsValid b
    → 0 < len
    → offset + len ≤ b.size
    → ((vs : List Iovec) × (get_read_buffers len offset b
          ≡ returns (vs, int_result (before_last b.base_size (low b.base_size offset) len)) b)
        × (lengths vs ≡ len)
        × (gather b.nodes vs ≡ slice (low b.base_size offset) len (memory b)))
      × ((vs : List Iovec) × (c : ByteArray) × (get_write_buffers len b
            ≡ returns
                (vs, int_result (before_last b.base_size (behind_edge b.base_size b.offset) len))
                c)
          × (lengths vs ≡ len)
          × IsValid c
          × Grown b c
          × (gather c.nodes vs ≡ slice (behind_edge b.base_size b.offset) len (memory c)))
get_buffers-Covers len offset b v pos le =
    (get_read_buffers-Covers len offset b v pos le, get_write_buffers-Covers len b v pos)
