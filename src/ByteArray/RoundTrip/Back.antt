-- ===== src/ByteArray/RoundTrip/Back.antt =====
-- src/bytearray.cpp: the reading half of the round trip, and the whole of it.
use mathlib.Core.List.{append_assoc}
use tigerkin.Prelude.{
  ℕ, ◌+◌, ◌^◌, ◌<◌, ◌≡◌, refl, sym, ap, subst, ◌∙◌, List, [], ◌∷◌, ◌++◌, arith, length,
  length-append, All, append-nil,
}
use tigerkin.Prelude.Bytes.{ℤ, to_word, of_word, of_word-to_word, to_word-lt, IsInt}
use tigerkin.ByteArray.{
  ByteArray, Outcome, returns, Action, ◌>>=◌, ◌>>◌, create, set_endian, set_offset, write, read,
}
use tigerkin.ByteArray.Invariant.{IsValid, create-IsValid, set_endian-IsValid}
use tigerkin.ByteArray.Ints.{
  image, value, ordered, read_uint, read_uint8, read_uint16, read_uint32, read_uint64, read_int8,
  read_int16, read_int32, read_int64, read_float, read_double,
}
use tigerkin.ByteArray.Strings.{read_string16, read_string32, read_string64, read_string_vint}
use tigerkin.ByteArray.Wire.{length-image, value-image, ordered-lt, ordered-ordered}
use tigerkin.ByteArray.Sequence.{
  Appending, Appending->>, write-Appending, Holds, read-Holds, rewind-Holds,
}
use tigerkin.ByteArray.RoundTrip.{
  Item, uint8, uint16, uint32, uint64, int8, int16, int32, int64, float, double, string16, string32,
  string64, string_vint, InRange, write_item, read_like, write_items, read_items, word, wire, wires,
  write_item-Appending,
}

-- A read gives `a` and leaves an array of the same byte order that holds `rest`.
abbrev Taking : {A : Type 0} → ℕ → A → List ℕ → Outcome A → Type 0
Taking {A} e a rest r = (c : ByteArray) × (r ≡ returns a c) × Holds c rest × (c.endian ≡ e)

module _ (host : ℕ) where
  read_uint-Taking :
      (k v : ℕ) (rest : List ℕ) (b : ByteArray)
      → 0 < k
      → v < 256 ^ k
      → Holds b (word host b.endian k v ++ rest)
      → Taking b.endian v rest (read_uint host k b)
  unfolding read_uint
  read_uint-Taking k v rest b pos lt h =
      let bytes = image host k (ordered host k v b) in
      let len = length-image host k (ordered host k v b) in
      let (c, e, g, same) = read-Holds bytes rest b (unfold ordered in h) (omega (arith, len)) in
      let got : read k b ≡ returns bytes c = ap (λ n. read n b) (sym len) ∙ e in
      (
        c,
        rw (got, read_uint, ◌>>=◌)
            (ap (λ w. returns (ordered host k w c) c)
                (value-image host k (ordered host k v b) (ordered-lt host k v b lt))
              ∙ ap (λ w. returns w c) (ordered-ordered host k v b c same lt)),
        g,
        same,
      )

  value-byte : (v : ℕ) → value host (v ∷ []) ≡ v
  unfolding value
  value-byte v = ground arith

  read_byte-Taking :
      (v : ℕ) (rest : List ℕ) (b : ByteArray)
      → Holds b (v ∷ rest)
      → Taking b.endian v rest (read_uint8 host b)
  unfolding read_uint8
  read_byte-Taking v rest b h =
      let (c, e, g, same) = read-Holds (v ∷ []) rest b h (omega arith) in
      (c, rw (e, read_uint8, ◌>>=◌) (ap (λ w. returns w c) (value-byte v)), g, same)

  read_int8-Taking :
      (z : ℤ) (rest : List ℕ) (b : ByteArray)
      → IsInt 8 z
      → Holds b (to_word 8 z ∷ rest)
      → Taking b.endian z rest (read_int8 host b)
  unfolding read_int8
  read_int8-Taking z rest b r h =
      let (c, e, g, same) = read-Holds (to_word 8 z ∷ []) rest b h (omega arith) in
      (
        c,
        rw (e, read_int8, ◌>>=◌)
            (ap (λ w. returns (of_word 8 w) c) (value-byte (to_word 8 z))
              ∙ ap (λ n. returns n c) (of_word-to_word 8 z (omega arith) r)),
        g,
        same,
      )

  -- A signed number is read as the word of `w` bits that stands for it.
  read_int-Taking :
      (k w : ℕ) (z : ℤ) (rest : List ℕ) (b : ByteArray)
      → 0 < k
      → 0 < w
      → IsInt w z
      → to_word w z < 256 ^ k
      → Holds b (word host b.endian k (to_word w z) ++ rest)
      → Taking b.endian z rest ((read_uint host k >>= λ v. returns (of_word w v)) b)
  read_int-Taking k w z rest b pos wide r lt h =
      let (c, e, g, same) = read_uint-Taking k (to_word w z) rest b pos lt h in
      (c, rw (e, ◌>>=◌) (ap (λ n. returns n c) (of_word-to_word w z wide r)), g, same)

  read_string-Taking :
      (k : ℕ) (s rest : List ℕ) (b : ByteArray)
      → 0 < k
      → (0 < length s) × (length s < 256 ^ k)
      → Holds b ((word host b.endian k (length s) ++ s) ++ rest)
      → Taking b.endian s rest ((read_uint host k >>= λ len. read len) b)
  read_string-Taking k s rest b pos r h =
      let (c, e, g, same) =
        read_uint-Taking k (length s) (s ++ rest) b pos r.1
          (rw (append_assoc (word host b.endian k (length s)) s rest) at h) in
      let (d, e', g', same') = read-Holds s rest c g r.0 in (d, rw (e, ◌>>=◌) e', g', same' ∙ same)

  -- What is read back is wrapped as an item.
  Taking-map :
      {A : Type 0} (f : A → Item) (a : A) (m : Action A) (rest : List ℕ) (b : ByteArray)
      → Taking b.endian a rest (m b)
      → Taking b.endian (f a) rest ((m >>= λ x. returns (f x)) b)
  Taking-map f a m rest b (c, e, g, same) = (c, rw (e, ◌>>=◌), g, same)

  read_like-Taking :
      (i : Item) (rest : List ℕ) (b : ByteArray)
      → InRange i
      → Holds b (wire host b.endian i ++ rest)
      → Taking b.endian i rest (read_like host i b)
  unfolding read_like read_uint16 read_uint32 read_uint64 read_float read_double read_int16
      read_int32 read_int64 read_string16 read_string32 read_string64 read_string_vint
  read_like-Taking (uint8 v) rest b r h =
      Taking-map uint8 v (read_uint8 host) rest b (read_byte-Taking v rest b h)
  read_like-Taking (uint16 v) rest b r h =
      Taking-map uint16 v (read_uint host 2) rest b (read_uint-Taking 2 v rest b (omega arith) r h)
  read_like-Taking (uint32 v) rest b r h =
      Taking-map uint32 v (read_uint host 4) rest b (read_uint-Taking 4 v rest b (omega arith) r h)
  read_like-Taking (uint64 v) rest b r h =
      Taking-map uint64 v (read_uint host 8) rest b (read_uint-Taking 8 v rest b (omega arith) r h)
  read_like-Taking (int8 z) rest b r h =
      Taking-map int8 z (read_int8 host) rest b (read_int8-Taking z rest b r h)
  read_like-Taking (int16 z) rest b r h =
      Taking-map int16 z (read_int16 host) rest b
        (read_int-Taking 2 16 z rest b (omega arith) (omega arith) r (to_word-lt 16 z) h)
  read_like-Taking (int32 z) rest b r h =
      Taking-map int32 z (read_int32 host) rest b
        (read_int-Taking 4 32 z rest b (omega arith) (omega arith) r (to_word-lt 32 z) h)
  read_like-Taking (int64 z) rest b r h =
      Taking-map int64 z (read_int64 host) rest b
        (read_int-Taking 8 64 z rest b (omega arith) (omega arith) r (to_word-lt 64 z) h)
  read_like-Taking (float v) rest b r h =
      Taking-map float v (read_uint host 4) rest b (read_uint-Taking 4 v rest b (omega arith) r h)
  read_like-Taking (double v) rest b r h =
      Taking-map double v (read_uint host 8) rest b (read_uint-Taking 8 v rest b (omega arith) r h)
  read_like-Taking (string16 s) rest b r h =
      Taking-map string16 s (read_string16 host) rest b
        (read_string-Taking 2 s rest b (omega arith) r h)
  read_like-Taking (string32 s) rest b r h =
      Taking-map string32 s (read_string32 host) rest b
        (read_string-Taking 4 s rest b (omega arith) r h)
  read_like-Taking (string64 s) rest b r h =
      Taking-map string64 s (read_string64 host) rest b
        (read_string-Taking 8 s rest b (omega arith) r h)
  read_like-Taking (string_vint s) rest b r h =
      Taking-map string_vint s (read_string_vint host) rest b
        (read_string-Taking 8 s rest b (omega arith) r h)

  write_items-Appending :
      (is : List Item) (b : ByteArray)
      → IsValid b
      → All InRange is
      → b.size + length (wires host b.endian is) < 2 ^ 64
      → Appending b (wires host b.endian is) (write_items host is b)
  unfolding write_items write
  write_items-Appending [] b v r fits = write-Appending [] b v fits
  write_items-Appending (i ∷ is) b v r fits =
      let first = wire host b.endian i in
      let len = length-append first (wires host b.endian is) in
      Appending->> (write_item host i) (write_items host is) first (wires host b.endian is) b
        (write_item-Appending host i b v r.0 (omega (arith, len)))
        (λ c a.
          subst (λ e. Appending c (wires host e is) (write_items host is c)) a.endian_eq
            (write_items-Appending is c a.valid r.1
              (rw a.endian_eq (omega (arith, len, a.size_eq)))))

  read_items-Taking :
      (is : List Item) (rest : List ℕ) (b : ByteArray)
      → All InRange is
      → Holds b (wires host b.endian is ++ rest)
      → Taking b.endian is rest (read_items host is b)
  unfolding read_items
  read_items-Taking [] rest b r h = (b, refl, h, refl)
  read_items-Taking (i ∷ is) rest b r h =
      let more = wires host b.endian is in
      let (c, e, g, same) =
        read_like-Taking i (more ++ rest) b r.0
          (rw (append_assoc (wire host b.endian i) more rest) at h) in
      let (d, e', g', same') = read_items-Taking is rest c r.1 (rw same g) in
      (d, rw (e, ◌>>=◌) (rw (e', ◌>>=◌)), g', same' ∙ same)

  -- For every block size but 0, byte order of the machine and byte order of the array: any
  -- sequence of numbers in the range of their types and of non-empty strings shorter than their
  -- prefix can say, of fewer than 2^64 bytes in all, that is written into a new array by the
  -- functions of the array and read back from its start by the matching ones, in order, comes
  -- back as it was.
  pub read_items-write_items :
      (base : ℕ) (fresh : ℕ → ℕ → ℕ) (e : ℕ) (is : List Item)
      → 0 < base
      → All InRange is
      → length (wires host e is) < 2 ^ 64
      → (d : ByteArray) × (((write_items host is >> set_offset 0) >> read_items host is)
            (set_endian e (create base fresh))
          ≡ returns is d)
  unfolding set_endian create
  read_items-write_items base fresh e is pos r fits =
      let b = set_endian e (create base fresh) in
      let (c, w, a) =
        write_items-Appending is b (set_endian-IsValid e (create-IsValid base fresh pos)) r
          (omega arith) in
      let (d, s, h, same) = rewind-Holds b c (wires host e is) refl refl a in
      let (f, g, _, _) = read_items-Taking is [] d r (rw (append-nil, same, a.endian_eq) h) in
      (f, rw (w, ◌>>=◌) (rw (s, ◌>>=◌) g))
