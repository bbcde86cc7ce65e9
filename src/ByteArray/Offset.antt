-- ===== src/ByteArray/Offset.antt =====
-- src/bytearray.cpp, setOffset: where it puts the cursor.
use native.Mathlib.Nat.{div-eq_of_lt, div-add-mod'}
use tigerkin.Prelude.{
  ℕ, zero, suc, ◌+◌, ◌-◌, ◌*◌, ◌/◌, ◌%◌, ◌^◌, ◌≤◌, ◌<◌, ◌≡◌, ◌⊎◌, inl, inr, false, arith, length,
  ltb, le→ltb, ◌==◌, if◌then◌else◌,
}
use tigerkin.ByteArray.{ByteArray, returns, throws, set_offset, walk}
use tigerkin.ByteArray.Invariant.{IsValid}

-- The array that setOffset leaves.
abbrev pub moved : ℕ → ByteArray → ByteArray
moved offset b = record b {
  size = if ltb b.size offset then offset else b.size;
  cur = walk (offset / b.base_size);
  offset = offset;
}

mul-le_cancel : (q n base : ℕ) → 0 < base → q * base ≤ n * base → q ≤ n
mul-le_cancel q n base p h = grind arith

-- Within the capacity setOffset returns; the offset is the new one, and the size covers it.
pub set_offset_lem :
    (offset : ℕ) (b : ByteArray)
    → IsValid b
    → offset ≤ b.capacity
    → set_offset offset b ≡ returns tt (moved offset b)
unfolding set_offset
set_offset_lem offset b v le =
    let q = offset / b.base_size in
    let below : q ≤ length b.nodes =
      mul-le_cancel q (length b.nodes) b.base_size v.base_pos
        (omega (arith, div-add-mod' offset b.base_size, v.filled)) in
    let inside : ltb b.capacity offset ≡ false = le→ltb _ _ le in
    let nonzero : (b.base_size == 0) ≡ false = ground (arith, v.base_pos) in
    let reached : ltb (length b.nodes) (walk q) ≡ false = le→ltb _ _ (omega (arith, below)) in
    rw inside (rw nonzero (rw reached))

-- Past the capacity it throws, and leaves the array as it was.
pub set_offset_throws :
    (offset : ℕ) (b : ByteArray) → b.capacity < offset → set_offset offset b ≡ throws b
unfolding set_offset
set_offset_throws offset b lt = ground arith

walk_bounds :
    (q base offset : ℕ)
    → 0 < base
    → q * base ≡ offset
    → (((offset ≡ 0) × (walk q ≡ 0)) ⊎ (walk q * base < offset)) × (offset ≤ (walk q + 1) * base)
walk_bounds zero base offset p e = (inl (omega arith, omega arith), omega arith)
walk_bounds (suc q) base offset p e =
    let back : suc q - 1 ≡ q = omega arith in rw back (inr (omega arith), omega arith)

-- In the first node, or at the end of a node, the cursor is right.
pub moved-IsValid :
    (offset : ℕ) (b : ByteArray)
    → IsValid b
    → offset ≤ b.capacity
    → offset < 2 ^ 64
    → (offset < b.base_size) ⊎ (offset % b.base_size ≡ 0)
    → IsValid (moved offset b)
moved-IsValid offset b v le fits (inl lt) =
    let q : offset / b.base_size ≡ 0 = div-eq_of_lt lt in
    record {
      base_pos = v.base_pos;
      chunked = v.chunked;
      filled = v.filled;
      within = ground arith;
      room = ground (arith, v.room);
      fits = ground (arith, v.fits);
      behind = ground (arith, q);
      ahead = omega (arith, q);
    }
moved-IsValid offset b v le fits (inr e) =
    let bounds =
      walk_bounds (offset / b.base_size) b.base_size offset v.base_pos
        (omega (arith, div-add-mod' offset b.base_size)) in
    record {
      base_pos = v.base_pos;
      chunked = v.chunked;
      filled = v.filled;
      within = ground arith;
      room = ground (arith, v.room);
      fits = ground (arith, v.fits);
      behind = bounds.0;
      ahead = bounds.1;
    }

-- In a valid array setOffset to a place below 2^64 within the capacity, in the first node or at
-- the end of a node, returns, and leaves a valid array with that offset, whose size covers it.
pub set_offset-IsValid :
    (offset : ℕ) (b : ByteArray)
    → IsValid b
    → offset ≤ b.capacity
    → offset < 2 ^ 64
    → (offset < b.base_size) ⊎ (offset % b.base_size ≡ 0)
    → (set_offset offset b ≡ returns tt (moved offset b)) × IsValid (moved offset b)
set_offset-IsValid offset b v le fits place =
    (set_offset_lem offset b v le, moved-IsValid offset b v le fits place)
