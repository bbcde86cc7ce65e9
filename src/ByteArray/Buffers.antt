-- ===== src/ByteArray/Buffers.antt =====
-- src/bytearray.cpp, the iovec lists, the files and the hex dump. An iovec is the node that it points
-- into, the place in its block and a length. A file is the list of its bytes, and whether it opens is
-- an argument. The copying loop of writeToFile is that of read.
pub mod Vectors
pub mod Files
use tigerkin.Prelude.{
  ℕ, zero, suc, ◌+◌, ◌-◌, ◌*◌, ◌/◌, ◌%◌, ◌^◌, Bool, true, false, ◌&&◌, ◌||◌, Option, none, some,
  List, [], ◌∷◌, ◌++◌, ltb, leb, ◌==◌, if◌then◌else◌, length, get_elem?, take, drop,
}
use tigerkin.Prelude.Bytes.{to_word, of_word}
use tigerkin.ByteArray.{
  ByteArray, Outcome, returns, throws, faults, stuck, Action, ◌>>=◌, ◌>>◌, Loop, done, null_deref,
  out_of_fuel, after, walk, enter, write, to_string, read_loop, get_enable_read_size,
  add_capacity_to,
}

pub record Iovec : Type 0 where
  pub node : ℕ
  pub place : ℕ
  pub len : ℕ

-- One more iovec before those of the later rounds, with its length in the sum `rst`.
abbrev pub chain : Iovec → Loop (List Iovec × ℕ) → Loop (List Iovec × ℕ)
chain v (done r) = done (v ∷ r.0, v.len + r.1)
chain v null_deref = null_deref
chain v out_of_fuel = out_of_fuel

-- The loop of getReadBuffers and of getWriteBuffers: the iovecs that it appends, and the sum `rst`. The
-- last round takes `len` from itself before it adds it.
pub buffers_loop : ℕ → List (List ℕ) → ℕ → ℕ → ℕ → ℕ → Loop (List Iovec × ℕ)
buffers_loop fuel nodes cur place remain zero = done ([], 0)
buffers_loop zero nodes cur place remain (suc n) = out_of_fuel
buffers_loop (suc fuel) nodes cur place remain (suc n) = elim (get_elem? nodes cur) [
  | none ↦ null_deref
  | some _ ↦ elim (ltb remain (suc n)) [
    | true ↦ elim (get_elem? nodes (cur + 1)) [
      | none ↦ null_deref
      | some next ↦
          chain (record { node = cur; place = place; len = remain })
            (buffers_loop fuel nodes (cur + 1) 0 (length next) (suc n - remain))
    ]
    | false ↦
        let len = suc n - suc n in
        done (record { node = cur; place = place; len = suc n } ∷ [], 0 + len)
  ]
]

-- The sum is an int that is returned as a uint64_t.
abbrev pub int_result : ℕ → ℕ
int_result n = to_word 64 (of_word 32 (n % 2 ^ 32))

-- The loop from a node on.
pub buffers_from : ℕ → ℕ → ℕ → List (List ℕ) → Loop (List Iovec × ℕ)
unfolding buffers_loop
buffers_from len node place nodes = elim (get_elem? nodes node) [
  | none ↦ null_deref
  | some block ↦ buffers_loop len nodes node place (length block - place) len
]

-- ByteArray::getReadBuffers with an offset; the one without takes m_offset.
pub get_read_buffers : ℕ → ℕ → Action (List Iovec × ℕ)
unfolding buffers_from
get_read_buffers len offset b =
    if ltb b.size ((offset + len) % 2 ^ 64) || (len == 0)
    then returns ([], 0) b
    else if b.base_size == 0
    then faults
    else after (buffers_from len (walk (offset / b.base_size)) (offset % b.base_size) b.nodes)
        λ r. returns (r.0, int_result r.1) b

-- ByteArray::getWriteBuffers.
pub get_write_buffers : ℕ → Action (List Iovec × ℕ)
unfolding buffers_from add_capacity_to
get_write_buffers len b =
    let fill : Action (List Iovec × ℕ) = λ c.
      if c.base_size == 0
      then faults
      else after (buffers_from len c.cur (c.offset % c.base_size) c.nodes)
          λ r. returns (r.0, int_result r.1) c in
    if len == 0 then returns ([], 0) b else (add_capacity_to (b.offset + len) >> fill) b

-- ByteArray::writeToFile: the result, and the bytes of the file.
pub write_to_file : Bool → Action (Bool × List ℕ)
unfolding get_enable_read_size enter read_loop
write_to_file opens b =
    let len = get_enable_read_size b in
    let place = b.offset % b.base_size in
    let start = enter b.nodes b.cur place b.offset in
    if opens
    then if b.base_size == 0
      then faults
      else after (read_loop len b.nodes start place (b.base_size - place) len)
          (λ r. returns (true, r.0) b)
    else returns (false, []) b

-- The loop of readFromFile over what is left of the file: the end is seen by a short read. A read of
-- no bytes never sees it, and the loop goes on for ever.
pub read_file_loop : ℕ → List ℕ → Action (Unit {0})
unfolding write
read_file_loop zero file b = stuck
read_file_loop (suc fuel) file b =
    if ltb (length file) b.base_size
    then write file b
    else (write (take b.base_size file) >> read_file_loop fuel (drop b.base_size file)) b

-- ByteArray::readFromFile. The block size does not change while it reads.
pub read_from_file : Option (List ℕ) → Action Bool
unfolding read_file_loop
read_from_file none b = returns false b
read_from_file (some file) b = (read_file_loop (length file + 1) file >> returns true) b

-- ByteArray::toHexString: two digits and a blank for each byte, and a new line before every 32nd.
pub hex_char : ℕ → ℕ
hex_char d = if ltb d 10 then b'0' + d else b'a' + d - 10

pub hex_loop : ℕ → List ℕ → List ℕ
unfolding hex_char
hex_loop i [] = []
hex_loop i (x ∷ xs) =
    (if ltb 0 i && (i % 32 == 0) then b'\n' ∷ [] else [])
    ++ (hex_char (x / 16) ∷ hex_char (x % 16) ∷ b' ' ∷ hex_loop (i + 1) xs)

pub to_hex_string : Action (List ℕ)
unfolding hex_loop to_string
to_hex_string b = (to_string >>= λ bs. returns (hex_loop 0 bs)) b
