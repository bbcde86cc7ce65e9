-- ===== src/ByteArray/Sequence.antt =====
-- src/bytearray.cpp: writes and reads one after the other, seen as a sequence of bytes.
use mathlib.Core.List.{append_assoc}
use tigerkin.Prelude.{
  ℕ, ◌+◌, ◌^◌, ◌≤◌, ◌<◌, ◌≡◌, refl, sym, ap, ◌∙◌, inl, List, ◌++◌, arith, length, length-append,
  length-concat, take, drop, slice, splice, take-add, take-splice, slice-splice, take-front,
  slice-back, take-append_le, concat,
}
use tigerkin.ByteArray.{ByteArray, Outcome, returns, Action, ◌>>=◌, ◌>>◌, write, read, set_offset}
use tigerkin.ByteArray.Invariant.{IsValid, memory}
use tigerkin.ByteArray.Writing.{write-Writes}
use tigerkin.ByteArray.Offset.{moved, set_offset_lem, moved-IsValid}
use tigerkin.ByteArray.Reading.{read-Advances}

-- From `b` to `c` the bytes `bs` were put behind what stood before the offset.
pub record Appends (b c : ByteArray) (bs : List ℕ) : Type 0 where
  pub valid : IsValid c
  pub bytes_eq : take c.offset (memory c) ≡ take b.offset (memory b) ++ bs
  pub offset_eq : c.offset ≡ b.offset + length bs
  pub size_eq : c.size ≡ b.size + length bs
  pub endian_eq : c.endian ≡ b.endian

abbrev pub Appending : ByteArray → List ℕ → Outcome (Unit {0}) → Type 0
Appending b bs r = (c : ByteArray) × (r ≡ returns tt c) × Appends b c bs

offset-le-memory : (b : ByteArray) → IsValid b → b.offset ≤ length (memory b)
offset-le-memory b v =
    omega (arith, v.within, v.room, v.filled, length-concat b.base_size b.nodes v.chunked)

pub write-Appending :
    (buf : List ℕ) (b : ByteArray)
    → IsValid b
    → b.size + length buf < 2 ^ 64
    → Appending b buf (write buf b)
write-Appending buf b v fits =
    let (c, e, o) = write-Writes buf b v fits in
    let m = memory b ++ o.more in
    let le : b.offset ≤ length m =
      omega (arith, offset-le-memory b v, length-append (memory b) o.more) in
    (
      c,
      e,
      record {
        valid = o.valid;
        bytes_eq =
            ap (λ n. take n (memory c)) o.offset_eq
            ∙ ap (take (b.offset + length buf)) o.memory_eq
            ∙ sym (
                take-add b.offset (length buf) (b.offset + length buf) (splice m b.offset buf) refl)
            ∙ ap (λ bs. take b.offset (splice m b.offset buf) ++ bs)
                (slice-splice m b.offset buf le)
            ∙ ap (λ bs. bs ++ buf)
                (take-splice m b.offset buf le
                  ∙ take-append_le b.offset (memory b) o.more (offset-le-memory b v));
        offset_eq = o.offset_eq;
        size_eq = o.size_eq;
        endian_eq = o.endian_eq;
      },
    )

pub Appends-trans :
    {b c d : ByteArray} (xs ys : List ℕ) → Appends b c xs → Appends c d ys → Appends b d (xs ++ ys)
Appends-trans {b} {c} {d} xs ys p q = record {
  valid = q.valid;
  bytes_eq =
      q.bytes_eq ∙ ap (λ bs. bs ++ ys) p.bytes_eq ∙ append_assoc (take b.offset (memory b)) xs ys;
  offset_eq = omega (arith, p.offset_eq, q.offset_eq, length-append xs ys);
  size_eq = omega (arith, p.size_eq, q.size_eq, length-append xs ys);
  endian_eq = q.endian_eq ∙ p.endian_eq;
}

-- Two writes in a row append one after the other.
pub Appending->> :
    (m k : Action (Unit {0})) (xs ys : List ℕ) (b : ByteArray)
    → Appending b xs (m b)
    → ((c : ByteArray) → Appends b c xs → Appending c ys (k c))
    → Appending b (xs ++ ys) ((m >> k) b)
Appending->> m k xs ys b (c, e, p) next =
    let (d, e', q) = next c p in (d, rw (e, ◌>>=◌) e', Appends-trans xs ys p q)

-- The next bytes to read are `bs`.
pub record Holds (b : ByteArray) (bs : List ℕ) : Type 0 where
  pub valid : IsValid b
  pub bytes_eq : slice b.offset (length bs) (memory b) ≡ bs
  pub left : b.offset + length bs ≤ b.size

-- A read takes the first bytes of what an array holds, and leaves the others.
pub read-Holds :
    (xs ys : List ℕ) (b : ByteArray)
    → Holds b (xs ++ ys)
    → 0 < length xs
    → (c : ByteArray) × (read (length xs) b ≡ returns xs c) × Holds c ys × (c.endian ≡ b.endian)
read-Holds xs ys b h pos =
    let len = length-append xs ys in
    let (c, e, a) = read-Advances (length xs) b h.valid pos (omega (arith, h.left, len)) in
    (
      c,
      e ∙ ap (λ bs. returns bs c) (take-front xs ys (drop b.offset (memory b)) h.bytes_eq),
      record {
        valid = a.valid;
        bytes_eq =
            ap (λ n. slice n (length ys) (memory c)) a.offset_eq
            ∙ ap (λ ns. slice (b.offset + length xs) (length ys) (concat ns)) a.nodes_eq
            ∙ slice-back b.offset xs ys (memory b) h.bytes_eq;
        left = omega (arith, a.offset_eq, a.size_eq, h.left, len);
      },
      a.endian_eq,
    )

-- setOffset(0) after a run of writes into an empty array: the array holds what was written.
pub rewind-Holds :
    (b c : ByteArray) (bs : List ℕ)
    → b.size ≡ 0
    → b.offset ≡ 0
    → Appends b c bs
    → (d : ByteArray) × (set_offset 0 c ≡ returns tt d) × Holds d bs × (d.endian ≡ c.endian)
rewind-Holds b c bs s o a =
    let v = a.valid in
    (
      moved 0 c,
      set_offset_lem 0 c v (omega arith),
      record {
        valid = moved-IsValid 0 c v (omega arith) (omega arith) (inl v.base_pos);
        bytes_eq =
            ap (λ n. take n (memory c)) {x = length bs} {y = c.offset}
              (omega (arith, a.offset_eq, o))
            ∙ a.bytes_eq
            ∙ ap (λ n. take n (memory b) ++ bs) o;
        left = ground (arith, a.size_eq);
      },
      refl,
    )
