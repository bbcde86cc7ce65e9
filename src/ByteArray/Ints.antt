-- ===== src/ByteArray/Ints.antt =====
-- src/bytearray.cpp, the fixed-width numbers, and src/endian.h. `host` is the byte order of the
-- machine, TIGERKIN_BYTE_ORDER, which the build chooses. A number of k bytes lies in memory lowest
-- byte first on a little-endian host, and highest first otherwise. A float is given by its bits.
use tigerkin.Prelude.{ℕ, List, [], ◌∷◌, reverse, ◌==◌, if◌then◌else◌}
use tigerkin.Prelude.Bytes.{to_bytes, of_bytes, ℤ, to_word, of_word}
use tigerkin.ByteArray.{ByteArray, returns, Action, ◌>>=◌, little_endian, big_endian, write, read}

-- bswap_16, bswap_32 and bswap_64, by the number of bytes.
unfoldable pub byteswap : ℕ → ℕ → ℕ
byteswap k v = of_bytes (reverse (to_bytes k v))

unfoldable pub byteswap_on_little_endian : ℕ → ℕ → ℕ → ℕ
unfolding byteswap
byteswap_on_little_endian host k v = if host == little_endian then byteswap k v else v

unfoldable pub byteswap_on_big_endian : ℕ → ℕ → ℕ → ℕ
unfolding byteswap
byteswap_on_big_endian host k v = if host == little_endian then v else byteswap k v

module _ (host : ℕ) where
  -- The bytes of a number where it lies in memory, and the number that lies in some bytes.
  unfoldable pub image : ℕ → ℕ → List ℕ
  image k v = if host == big_endian then reverse (to_bytes k v) else to_bytes k v

  unfoldable pub value : List ℕ → ℕ
  value bs = if host == big_endian then of_bytes (reverse bs) else of_bytes bs

  -- `if (m_endian != TIGERKIN_BYTE_ORDER) value = byteswap(value)`
  unfoldable pub ordered : ℕ → ℕ → ByteArray → ℕ
  unfolding byteswap
  ordered k v b = if b.endian == host then v else byteswap k v

  unfoldable pub write_uint : ℕ → ℕ → Action (Unit {0})
  unfolding image ordered
  write_uint k v b = write (image k (ordered k v b)) b

  unfoldable pub read_uint : ℕ → Action ℕ
  unfolding value ordered
  read_uint k = do bs ← read k; λ b. returns (ordered k (value bs) b) b

  unfoldable pub write_uint8 : ℕ → Action (Unit {0})
  write_uint8 v = write (v ∷ [])

  unfoldable pub write_uint16 : ℕ → Action (Unit {0})
  unfolding write_uint
  write_uint16 v = write_uint 2 v

  unfoldable pub write_uint32 : ℕ → Action (Unit {0})
  unfolding write_uint
  write_uint32 v = write_uint 4 v

  unfoldable pub write_uint64 : ℕ → Action (Unit {0})
  unfolding write_uint
  write_uint64 v = write_uint 8 v

  unfoldable pub write_int8 : ℤ → Action (Unit {0})
  write_int8 z = write (to_word 8 z ∷ [])

  unfoldable pub write_int16 : ℤ → Action (Unit {0})
  unfolding write_uint
  write_int16 z = write_uint 2 (to_word 16 z)

  unfoldable pub write_int32 : ℤ → Action (Unit {0})
  unfolding write_uint
  write_int32 z = write_uint 4 (to_word 32 z)

  unfoldable pub write_int64 : ℤ → Action (Unit {0})
  unfolding write_uint
  write_int64 z = write_uint 8 (to_word 64 z)

  unfoldable pub write_float : ℕ → Action (Unit {0})
  unfolding write_uint32
  write_float bits = write_uint32 bits

  unfoldable pub write_double : ℕ → Action (Unit {0})
  unfolding write_uint64
  write_double bits = write_uint64 bits

  unfoldable pub read_uint8 : Action ℕ
  unfolding value
  read_uint8 = do bs ← read 1; returns (value bs)

  unfoldable pub read_uint16 : Action ℕ
  unfolding read_uint
  read_uint16 = read_uint 2

  unfoldable pub read_uint32 : Action ℕ
  unfolding read_uint
  read_uint32 = read_uint 4

  unfoldable pub read_uint64 : Action ℕ
  unfolding read_uint
  read_uint64 = read_uint 8

  unfoldable pub read_int8 : Action ℤ
  unfolding value
  read_int8 = do bs ← read 1; returns (of_word 8 (value bs))

  unfoldable pub read_int16 : Action ℤ
  unfolding read_uint
  read_int16 = do v ← read_uint 2; returns (of_word 16 v)

  unfoldable pub read_int32 : Action ℤ
  unfolding read_uint
  read_int32 = do v ← read_uint 4; returns (of_word 32 v)

  unfoldable pub read_int64 : Action ℤ
  unfolding read_uint
  read_int64 = do v ← read_uint 8; returns (of_word 64 v)

  unfoldable pub read_float : Action ℕ
  unfolding read_uint32
  read_float = read_uint32

  unfoldable pub read_double : Action ℕ
  unfolding read_uint64
  read_double = read_uint64
