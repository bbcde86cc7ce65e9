-- ===== src/ByteArray/RoundTrip.antt =====
-- src/bytearray.cpp: numbers and strings that were written are read back, in the order of writing.
pub mod Back
use native.Mathlib.Nat.{mod-eq_of_lt}
use tigerkin.Prelude.{
  ℕ, zero, suc, ◌+◌, ◌*◌, ◌%◌, ◌^◌, ◌≤◌, ◌<◌, ◌≡◌, refl, sym, ap, subst, ◌∙◌, Bool, List, [], ◌∷◌,
  ◌++◌, reverse, arith, ◌==◌, if◌then◌else◌, length, length-append, All,
}
use tigerkin.Prelude.Bytes.{ℤ, to_word, of_word, IsInt, of_word-to_word, to_word-lt, of_bytes}
use tigerkin.ByteArray.{
  ByteArray, Outcome, returns, throws, faults, stuck, Action, ◌>>=◌, ◌>>◌, create, set_endian,
  set_offset, write, read,
}
use tigerkin.ByteArray.Invariant.{IsValid, create-IsValid}
use tigerkin.ByteArray.Ints.{
  image, value, ordered, byteswap, write_uint, read_uint, write_uint8, write_uint16, write_uint32,
  write_uint64, write_int8, write_int16, write_int32, write_int64, write_float, write_double,
  read_uint8, read_uint16, read_uint32, read_uint64, read_int8, read_int16, read_int32, read_int64,
  read_float, read_double,
}
use tigerkin.ByteArray.Strings.{
  write_string16, write_string32, write_string64, write_string_vint, read_string16, read_string32,
  read_string64, read_string_vint,
}
use tigerkin.ByteArray.Wire.{length-image, value-image, ordered-lt, ordered-ordered}
use tigerkin.ByteArray.Sequence.{
  Appends, Appending, write-Appending, Appending->>, Appends-trans, Holds, read-Holds, rewind-Holds,
}

-- What can be written, by the function that writes it.
pub data Item : Type 0 where
  uint8 uint16 uint32 uint64 : ℕ → Item
  int8 int16 int32 int64 : ℤ → Item
  float double : ℕ → Item
  string16 string32 string64 string_vint : List ℕ → Item

-- The number fits its type, a float is given by its bits, and a string is shorter than its prefix
-- can say and not empty.
abbrev pub InRange : Item → Type 0
InRange (uint8 v) = v < 256
InRange (uint16 v) = v < 256 ^ 2
InRange (uint32 v) = v < 256 ^ 4
InRange (uint64 v) = v < 256 ^ 8
InRange (int8 z) = IsInt 8 z
InRange (int16 z) = IsInt 16 z
InRange (int32 z) = IsInt 32 z
InRange (int64 z) = IsInt 64 z
InRange (float v) = v < 256 ^ 4
InRange (double v) = v < 256 ^ 8
InRange (string16 s) = (0 < length s) × (length s < 256 ^ 2)
InRange (string32 s) = (0 < length s) × (length s < 256 ^ 4)
InRange (string64 s) = (0 < length s) × (length s < 256 ^ 8)
InRange (string_vint s) = (0 < length s) × (length s < 256 ^ 8)

module _ (host : ℕ) where
  pub write_item : Item → Action (Unit {0})
  write_item (uint8 v) = write_uint8 host v
  write_item (uint16 v) = write_uint16 host v
  write_item (uint32 v) = write_uint32 host v
  write_item (uint64 v) = write_uint64 host v
  write_item (int8 z) = write_int8 host z
  write_item (int16 z) = write_int16 host z
  write_item (int32 z) = write_int32 host z
  write_item (int64 z) = write_int64 host z
  write_item (float v) = write_float host v
  write_item (double v) = write_double host v
  write_item (string16 s) = write_string16 host s
  write_item (string32 s) = write_string32 host s
  write_item (string64 s) = write_string64 host s
  write_item (string_vint s) = write_string_vint host s

  -- The read function that belongs to the write function of an item.
  pub read_like : Item → Action Item
  read_like (uint8 _) = do v ← read_uint8 host; returns (uint8 v)
  read_like (uint16 _) = do v ← read_uint16 host; returns (uint16 v)
  read_like (uint32 _) = do v ← read_uint32 host; returns (uint32 v)
  read_like (uint64 _) = do v ← read_uint64 host; returns (uint64 v)
  read_like (int8 _) = do z ← read_int8 host; returns (int8 z)
  read_like (int16 _) = do z ← read_int16 host; returns (int16 z)
  read_like (int32 _) = do z ← read_int32 host; returns (int32 z)
  read_like (int64 _) = do z ← read_int64 host; returns (int64 z)
  read_like (float _) = do v ← read_float host; returns (float v)
  read_like (double _) = do v ← read_double host; returns (double v)
  read_like (string16 _) = do s ← read_string16 host; returns (string16 s)
  read_like (string32 _) = do s ← read_string32 host; returns (string32 s)
  read_like (string64 _) = do s ← read_string64 host; returns (string64 s)
  read_like (string_vint _) = do s ← read_string_vint host; returns (string_vint s)

  pub write_items : List Item → Action (Unit {0})
  unfolding write_item
  write_items [] = returns tt
  write_items (i ∷ is) = write_item i >> write_items is

  -- Reads as many items as the list has, each of the kind that stands there.
  pub read_items : List Item → Action (List Item)
  unfolding read_like
  read_items [] = returns []
  read_items (i ∷ is) = do j ← read_like i; js ← read_items is; returns (j ∷ js)

  -- The bytes of a number in an array whose byte order is `e`.
  abbrev word : ℕ → ℕ → ℕ → List ℕ
  word e k v = image host k (if e == host then v else byteswap k v)

  abbrev wire : ℕ → Item → List ℕ
  wire e (uint8 v) = v ∷ []
  wire e (uint16 v) = word e 2 v
  wire e (uint32 v) = word e 4 v
  wire e (uint64 v) = word e 8 v
  wire e (int8 z) = to_word 8 z ∷ []
  wire e (int16 z) = word e 2 (to_word 16 z)
  wire e (int32 z) = word e 4 (to_word 32 z)
  wire e (int64 z) = word e 8 (to_word 64 z)
  wire e (float v) = word e 4 v
  wire e (double v) = word e 8 v
  wire e (string16 s) = word e 2 (length s) ++ s
  wire e (string32 s) = word e 4 (length s) ++ s
  wire e (string64 s) = word e 8 (length s) ++ s
  wire e (string_vint s) = word e 8 (length s) ++ s

  -- The bytes that the items take in the array.
  abbrev pub wires : ℕ → List Item → List ℕ
  wires e [] = []
  wires e (i ∷ is) = wire e i ++ wires e is

  string-Appending :
      (k v : ℕ) (s : List ℕ) (b : ByteArray)
      → IsValid b
      → v ≡ length s
      → b.size + length (word b.endian k (length s) ++ s) < 2 ^ 64
      → Appending b (word b.endian k (length s) ++ s) ((write_uint host k v >> write s) b)
  unfolding write_uint ordered
  string-Appending k v s b w e fits =
      let len = length-append (word b.endian k (length s)) s in
      rw e (
        Appending->> (write_uint host k (length s)) (write s) (word b.endian k (length s)) s b
          (write-Appending (word b.endian k (length s)) b w (omega (arith, len)))
          (λ c a. write-Appending s c a.valid (omega (arith, len, a.size_eq))))

  pub write_item-Appending :
      (i : Item) (b : ByteArray)
      → IsValid b
      → InRange i
      → b.size + length (wire b.endian i) < 2 ^ 64
      → Appending b (wire b.endian i) (write_item i b)
  unfolding write_item write_uint8 write_uint16 write_uint32 write_uint64 write_int8 write_int16
      write_int32 write_int64 write_float write_double write_string16 write_string32 write_string64
      write_string_vint write_uint ordered
  write_item-Appending (uint8 v) b w r fits = write-Appending _ b w fits
  write_item-Appending (uint16 v) b w r fits = write-Appending _ b w fits
  write_item-Appending (uint32 v) b w r fits = write-Appending _ b w fits
  write_item-Appending (uint64 v) b w r fits = write-Appending _ b w fits
  write_item-Appending (int8 z) b w r fits = write-Appending _ b w fits
  write_item-Appending (int16 z) b w r fits = write-Appending _ b w fits
  write_item-Appending (int32 z) b w r fits = write-Appending _ b w fits
  write_item-Appending (int64 z) b w r fits = write-Appending _ b w fits
  write_item-Appending (float v) b w r fits = write-Appending _ b w fits
  write_item-Appending (double v) b w r fits = write-Appending _ b w fits
  write_item-Appending (string16 s) b w r fits =
      string-Appending 2 (length s % 2 ^ 16) s b w (mod-eq_of_lt r.1) fits
  write_item-Appending (string32 s) b w r fits =
      string-Appending 4 (length s % 2 ^ 32) s b w (mod-eq_of_lt r.1) fits
  write_item-Appending (string64 s) b w r fits =
      string-Appending 8 (length s % 2 ^ 64) s b w (mod-eq_of_lt r.1) fits
  write_item-Appending (string_vint s) b w r fits =
      string-Appending 8 (length s % 2 ^ 64) s b w (mod-eq_of_lt r.1) fits
