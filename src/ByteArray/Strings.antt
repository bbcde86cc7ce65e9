-- ===== src/ByteArray/Strings.antt =====
-- src/bytearray.cpp, the strings with a length before them. A string is a list of bytes.
-- `writeStringVint` and `readStringVint` store the length in eight bytes, as the 64-bit forms do.
use tigerkin.Prelude.{ℕ, ◌%◌, ◌^◌, List, length}
use tigerkin.ByteArray.{Action, ◌>>=◌, ◌>>◌, write, read}
use tigerkin.ByteArray.Ints.{
  write_uint16, write_uint32, write_uint64, read_uint16, read_uint32, read_uint64,
}

unfoldable pub write_string : List ℕ → Action (Unit {0})
write_string str = write str

module _ (host : ℕ) where
  -- The length is cut to the width of the prefix.
  unfoldable pub write_string16 : List ℕ → Action (Unit {0})
  write_string16 str = write_uint16 host (length str % 2 ^ 16) >> write str

  unfoldable pub write_string32 : List ℕ → Action (Unit {0})
  write_string32 str = write_uint32 host (length str % 2 ^ 32) >> write str

  unfoldable pub write_string64 : List ℕ → Action (Unit {0})
  write_string64 str = write_uint64 host (length str % 2 ^ 64) >> write str

  unfoldable pub write_string_vint : List ℕ → Action (Unit {0})
  write_string_vint str = write_uint64 host (length str % 2 ^ 64) >> write str

  unfoldable pub read_string16 : Action (List ℕ)
  read_string16 = do len ← read_uint16 host; read len

  unfoldable pub read_string32 : Action (List ℕ)
  read_string32 = do len ← read_uint32 host; read len

  unfoldable pub read_string64 : Action (List ℕ)
  read_string64 = do len ← read_uint64 host; read len

  unfoldable pub read_string_vint : Action (List ℕ)
  read_string_vint = do len ← read_uint64 host; read len
