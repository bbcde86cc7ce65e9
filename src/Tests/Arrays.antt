-- ===== src/Tests/Arrays.antt =====
-- src/bytearray.cpp at small inputs.
use tigerkin.Prelude.{
  ◌<◌, ◌≤◌, ◌≡◌, ◌⊎◌, inl, inr, refl, ℕ, true, some, List, [], ◌∷◌, arith, slice,
}
use tigerkin.Prelude.Bytes.{negsuc}
use tigerkin.ByteArray.{
  ByteArray, returns, faults, ◌>>=◌, ◌>>◌, create, set_endian, set_offset, write, read, to_string,
  done, little_endian, big_endian,
}
use tigerkin.ByteArray.Clear.{node_heap, clear_nodes, clear}
use tigerkin.ByteArray.Clear.Deletes.{clear_lem}
use tigerkin.ByteArray.Ints.{image, ordered}
use tigerkin.ByteArray.Invariant.{IsValid, memory, Grown}
use tigerkin.ByteArray.Writing.{Writes, write-Writes}
use tigerkin.ByteArray.Reading.{Advances, read-Advances}
use tigerkin.ByteArray.Offset.{moved, set_offset-IsValid}
use tigerkin.ByteArray.Wire.{image-ordered}
use tigerkin.ByteArray.Buffers.{
  Iovec, get_read_buffers, get_write_buffers, write_to_file, read_from_file,
}
use tigerkin.ByteArray.Buffers.Vectors.{gather, lengths, get_buffers-Covers}
use tigerkin.ByteArray.Buffers.Files.{read_from_file-write_to_file}
use tigerkin.ByteArray.RoundTrip.{Item, uint16, int8, string16, write_items, read_items}
use tigerkin.ByteArray.RoundTrip.Back.{read_items-write_items}
use tigerkin.ByteArray.Faults.{set_offset_misplaces, read_nothing_skips, write_over_grows}

-- Blocks of four bytes: two of them with six bytes written, five of them read.
abbrev six_bytes : ByteArray
six_bytes = record {
  endian = little_endian;
  base_size = 4;
  size = 6;
  capacity = 8;
  offset = 5;
  nodes = (1 ∷ 2 ∷ 3 ∷ 4 ∷ []) ∷ (5 ∷ 6 ∷ 0 ∷ 0 ∷ []) ∷ [];
  cur = 1;
  fresh = λ k i. 0;
}

six_bytes-IsValid : IsValid six_bytes
six_bytes-IsValid = record {
  base_pos = omega arith;
  chunked = (refl, (refl, tt));
  filled = refl;
  within = omega arith;
  room = omega arith;
  fits = omega arith;
  behind = inr (omega arith);
  ahead = omega arith;
}

-- Three blocks of two bytes, all written, the first of them read.
abbrev three_blocks : ByteArray
three_blocks = record {
  endian = big_endian;
  base_size = 2;
  size = 6;
  capacity = 6;
  offset = 2;
  nodes = (1 ∷ 2 ∷ []) ∷ (3 ∷ 4 ∷ []) ∷ (5 ∷ 6 ∷ []) ∷ [];
  cur = 0;
  fresh = λ k i. 0;
}

three_blocks-IsValid : IsValid three_blocks
three_blocks-IsValid = record {
  base_pos = omega arith;
  chunked = (refl, (refl, (refl, tt)));
  filled = refl;
  within = omega arith;
  room = omega arith;
  fits = omega arith;
  behind = inr (omega arith);
  ahead = omega arith;
}

write-Writes_example : Writes six_bytes (7 ∷ 8 ∷ 9 ∷ []) (write (7 ∷ 8 ∷ 9 ∷ []) six_bytes)
write-Writes_example = write-Writes (7 ∷ 8 ∷ 9 ∷ []) six_bytes six_bytes-IsValid (omega arith)

read-Advances_example :
    (c : ByteArray) × (read 3 three_blocks ≡ returns (3 ∷ 4 ∷ 5 ∷ []) c) × Advances three_blocks c 3
read-Advances_example =
    read-Advances 3 three_blocks three_blocks-IsValid (omega arith) (omega arith)

set_offset-IsValid_example :
    (set_offset 4 three_blocks ≡ returns tt (moved 4 three_blocks)) × IsValid (moved 4 three_blocks)
set_offset-IsValid_example =
    set_offset-IsValid 4 three_blocks three_blocks-IsValid (omega arith) (omega arith) (inr refl)

image-ordered_example :
    image little_endian 2 (ordered little_endian 2 258 three_blocks) ≡ 1 ∷ 2 ∷ []
image-ordered_example = image-ordered little_endian 2 258 three_blocks (inl refl) (inr refl)

get_buffers-Covers_example :
    ((vs : List Iovec) × (get_read_buffers 3 3 three_blocks ≡ returns (vs, 1) three_blocks)
      × (lengths vs ≡ 3)
      × (gather three_blocks.nodes vs ≡ 2 ∷ 3 ∷ 4 ∷ []))
    × ((vs : List Iovec) × (c : ByteArray) × (get_write_buffers 3 three_blocks ≡ returns (vs, 2) c)
        × (lengths vs ≡ 3)
        × IsValid c
        × Grown three_blocks c
        × (gather c.nodes vs ≡ slice 0 3 (memory c)))
get_buffers-Covers_example =
    get_buffers-Covers 3 3 three_blocks three_blocks-IsValid (omega arith) (omega arith)

read_from_file-write_to_file_example :
    (file : List ℕ) × (d : ByteArray) × (write_to_file true three_blocks
      ≡ returns (true, file) three_blocks)
    × ((read_from_file (some file) >>= λ _. set_offset 0 >> to_string) (create 3 (λ k i. 0))
        ≡ returns (3 ∷ 4 ∷ 5 ∷ 6 ∷ []) d)
read_from_file-write_to_file_example =
    read_from_file-write_to_file three_blocks 3 (λ k i. 0) three_blocks-IsValid (omega arith)

clear_lem_example :
    ((8 ≤ 4)
      × (clear six_bytes ≡ returns tt (set_endian 1 (create 4 (λ k i. 0))))
      × (clear_nodes six_bytes ≡ done (node_heap 2)))
    ⊎ ((4 < 8) × (clear six_bytes ≡ faults))
clear_lem_example = clear_lem six_bytes six_bytes-IsValid

set_offset_misplaces_example :
    (c : ByteArray) × ((set_offset 5 >> read 1) six_bytes ≡ returns (2 ∷ []) c)
set_offset_misplaces_example =
    set_offset_misplaces 5 1 six_bytes six_bytes-IsValid (omega arith) (omega arith) (omega arith)
      (omega arith)

read_nothing_skips_example :
    (c : ByteArray) × ((read 0 >>= λ _. read 1) three_blocks ≡ returns (5 ∷ []) c)
read_nothing_skips_example =
    read_nothing_skips 1 three_blocks three_blocks-IsValid refl (omega arith) (omega arith)
      (omega arith)

write_over_grows_example :
    (c : ByteArray) × ((set_offset 0 >> write (9 ∷ [])) six_bytes ≡ returns tt c)
    × (c.offset ≡ 1)
    × (c.size ≡ 7)
    × (slice 0 1 (memory c) ≡ 9 ∷ [])
write_over_grows_example = write_over_grows (9 ∷ []) six_bytes six_bytes-IsValid (omega arith)

-- A number, a negative number and a string.
abbrev items : List Item
items = uint16 258 ∷ int8 (negsuc 4) ∷ string16 (104 ∷ 105 ∷ []) ∷ []

read_items-write_items_example :
    (d : ByteArray) × (((write_items little_endian items >> set_offset 0)
          >> read_items little_endian items)
        (set_endian big_endian (create 4 (λ k i. 0)))
      ≡ returns items d)
unfolding image
read_items-write_items_example =
    read_items-write_items little_endian 4 (λ k i. 0) big_endian items (omega arith)
      (omega arith, (omega arith, ((omega arith, omega arith), tt))) (omega arith)
