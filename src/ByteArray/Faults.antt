-- ===== src/ByteArray/Faults.antt =====
-- src/bytearray.cpp: what goes wrong in setOffset, the read of no bytes, and the overwrite.
use native.Mathlib.Nat.{mod-lt, le_refl, div-add-mod', le-div_iff_mul-le}
use tigerkin.Prelude.{
  ℕ, zero, suc, ◌+◌, ◌-◌, ◌*◌, ◌/◌, ◌%◌, ◌^◌, ◌≤◌, ◌<◌, ◌≡◌, ap, ◌∙◌, inl, inr, false, List, [],
  ◌++◌, slice-splice, arith, length, ltb, le→ltb, ◌==◌, slice, get_elem?-some, All-get_elem?,
  IsChunked,
}
use tigerkin.ByteArray.{
  ByteArray, returns, done, ◌>>=◌, ◌>>◌, set_offset, walk, write, read, read_at, read_loop, enter,
  get_enable_read_size, sub_size,
}
use tigerkin.ByteArray.Invariant.{IsValid, memory}
use tigerkin.ByteArray.Writing.{index-lt, write-Writes, enter_stays, enter_moves, mod_unique}
use tigerkin.ByteArray.Offset.{moved, set_offset_lem, moved-IsValid}
use tigerkin.ByteArray.Reading.{read_loop-Reads}

-- Where a read begins, right or wrong.
abbrev begin : ByteArray → ℕ
begin b =
    enter b.nodes b.cur (b.offset % b.base_size) b.offset * b.base_size + b.offset % b.base_size

-- A read gives the bytes from where it begins.
read_from_begin :
    (n : ℕ) (b : ByteArray)
    → 0 < b.base_size
    → IsChunked b.base_size b.nodes
    → b.offset ≤ b.size
    → b.size < 2 ^ 64
    → 0 < n
    → n ≤ b.size - b.offset
    → begin b + n ≤ length b.nodes * b.base_size
    → (c : ByteArray) × (read n b ≡ returns (slice (begin b) n (memory b)) c)
unfolding read get_enable_read_size
read_from_begin n b base chunked within fits pos le room =
    let r = b.offset % b.base_size in
    let k = enter b.nodes b.cur r b.offset in
    let lt : r < b.base_size = mod-lt b.offset base in
    let (block, here) =
      get_elem?-some b.nodes k (index-lt b.base_size k r (length b.nodes) (omega arith)) in
    let full = All-get_elem? (λ c. length c ≡ b.base_size) b.nodes k block chunked here in
    let (j, got, _, _) =
      read_loop-Reads b.base_size n b.nodes k r (length block - r) n chunked (omega (arith, full))
        (omega (arith, full)) room (le_refl n) pos in
    let whole : read_at n b.offset b ≡ done (slice (begin b) n (memory b), j) =
      unfold read_at in rw (here, read_at) got in
    let enough : ltb (sub_size b.size b.offset) n ≡ false = le→ltb _ _ (omega arith) in
    let nonzero : (b.base_size == 0) ≡ false = ground (arith, base) in
    (record b { cur = j; offset = b.offset + n }, rw enough (rw nonzero (rw whole)))

one_below :
    (q base offset r : ℕ) → 0 < q → q * base + r ≡ offset → walk q * base + r ≡ offset - base
one_below zero base offset r pos e = absurd (omega arith)
one_below (suc q) base offset r pos e =
    let back : walk (suc q) ≡ q = omega arith in rw back (omega arith)

-- In a valid array, after setOffset to a place past the first block and inside a block, a read
-- of at least one byte up to the size gives the bytes that stand one block before the offset.
pub set_offset_misplaces :
    (offset n : ℕ) (b : ByteArray)
    → IsValid b
    → b.base_size < offset
    → 0 < offset % b.base_size
    → 0 < n
    → offset + n ≤ b.size
    → (c : ByteArray) × ((set_offset offset >> read n) b
        ≡ returns (slice (offset - b.base_size) n (memory b)) c)
set_offset_misplaces offset n b v far inside pos le =
    let q = offset / b.base_size in
    let e = div-add-mod' offset b.base_size in
    let q_pos : 0 < q = (le-div_iff_mul-le v.base_pos).1 (omega arith) in
    let stays = enter_stays b.nodes (walk q) (offset % b.base_size) offset (inr inside) in
    let keeps : (moved offset b).size ≡ b.size = ground (arith, le, pos) in
    let starts : begin (moved offset b) ≡ offset - b.base_size =
      ap (λ k. k * b.base_size + offset % b.base_size) stays
      ∙ one_below q b.base_size offset _ q_pos e in
    let (c, r) =
      read_from_begin n (moved offset b) v.base_pos v.chunked (rw keeps (omega arith))
        (rw keeps v.fits) pos (rw keeps (omega arith))
        (rw starts (omega (arith, v.room, v.filled))) in
    (
      c,
      rw (set_offset_lem offset b v (omega (arith, v.room)), ◌>>=◌)
          (r ∙ ap (λ p. returns (slice p n (memory b)) c) starts),
    )

-- A read of no bytes gives none, and yet moves the cursor as any read does.
read_nothing :
    (b : ByteArray)
    → IsValid b
    → enter b.nodes b.cur (b.offset % b.base_size) b.offset < length b.nodes
    → read 0 b
      ≡ returns [] (record b { cur = enter b.nodes b.cur (b.offset % b.base_size) b.offset })
unfolding read get_enable_read_size
read_nothing b v here =
    let r = b.offset % b.base_size in
    let k = enter b.nodes b.cur r b.offset in
    let (block, there) = get_elem?-some b.nodes k here in
    let whole : read_at 0 b.offset b ≡ done ([], k) =
      unfold read_at read_loop in rw (there, read_at) in
    let nonzero : (b.base_size == 0) ≡ false = ground (arith, v.base_pos) in
    let enough : ltb (sub_size b.size b.offset) 0 ≡ false = le→ltb _ _ (omega arith) in
    rw enough (
      rw nonzero (
        rw whole (
          ap (λ n. returns [] (record b { cur = k; offset = n })) {x = b.offset + 0} {y = b.offset}
            (omega arith))))

-- In a valid array whose cursor's node ends at the offset, a read of no bytes and then of at
-- least one gives the bytes that stand one block past the offset, if the size has bytes for the
-- read at the offset and the capacity one block further.
pub read_nothing_skips :
    (n : ℕ) (b : ByteArray)
    → IsValid b
    → b.offset ≡ (b.cur + 1) * b.base_size
    → 0 < n
    → b.offset + n ≤ b.size
    → b.offset + b.base_size + n ≤ b.capacity
    → (c : ByteArray) × ((read 0 >>= λ _. read n) b
        ≡ returns (slice (b.offset + b.base_size) n (memory b)) c)
read_nothing_skips n b v edge pos le room =
    let z = mod_unique b.offset b.base_size (b.cur + 1) 0 (omega (arith, edge)) v.base_pos in
    let r = b.offset % b.base_size in
    let more : b.cur + 1 < length b.nodes =
      index-lt b.base_size (b.cur + 1) 0 (length b.nodes) (omega (arith, v.filled)) in
    let more' : b.cur + 1 + 1 < length b.nodes =
      index-lt b.base_size (b.cur + 1 + 1) 0 (length b.nodes) (omega (arith, v.filled)) in
    let steps = enter_moves b.nodes b.cur r b.offset z (omega (arith, edge, v.base_pos)) more in
    let b' = record b { cur = b.cur + 1 } in
    let first : read 0 b ≡ returns [] b' =
      (read_nothing b v (rw steps more)) ∙ ap (λ k. returns [] (record b { cur = k })) steps in
    let starts : begin b' ≡ b.offset + b.base_size =
      ap (λ k. k * b.base_size + r)
        (enter_moves b.nodes (b.cur + 1) r b.offset z (omega (arith, edge, v.base_pos)) more')
      ∙ omega (arith, z, edge) in
    let (c, got) =
      read_from_begin n b' v.base_pos v.chunked v.within v.fits pos (omega arith)
        (rw starts (omega (arith, v.filled))) in
    (c, rw (first, ◌>>=◌) (got ∙ ap (λ p. returns (slice p n (memory b)) c) starts))

-- In a valid array whose size stays below 2^64, a write at offset 0 puts the buffer there and
-- moves the offset by its length, and the size grows by that length too, also where the bytes
-- were there before.
pub write_over_grows :
    (buf : List ℕ) (b : ByteArray)
    → IsValid b
    → b.size + length buf < 2 ^ 64
    → (c : ByteArray) × ((set_offset 0 >> write buf) b ≡ returns tt c)
      × (c.offset ≡ length buf)
      × (c.size ≡ b.size + length buf)
      × (slice 0 (length buf) (memory c) ≡ buf)
write_over_grows buf b v fits =
    let w = moved-IsValid 0 b v (omega arith) (omega arith) (inl v.base_pos) in
    let (c, e, o) = write-Writes buf (moved 0 b) w (ground (arith, fits)) in
    (
      c,
      rw (set_offset_lem 0 b v (omega arith), ◌>>=◌) e,
      omega (arith, o.offset_eq),
      ground (arith, o.size_eq),
      ap (slice 0 (length buf)) o.memory_eq ∙ slice-splice (memory b ++ o.more) 0 buf (omega arith),
    )
