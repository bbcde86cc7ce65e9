-- ===== src/ByteArray/Buffers/Files.antt =====
-- src/bytearray.cpp, writeToFile and readFromFile: what a file holds and what is read from one.
use native.Mathlib.Nat.{mod-lt, le_refl}
use tigerkin.Prelude.{
  ℕ, zero, suc, ◌+◌, ◌-◌, ◌%◌, ◌^◌, ◌≤◌, ◌<◌, ◌≡◌, refl, sym, ap, subst, ◌∙◌, inl, inr, true, false,
  some, List, ◌++◌, arith, ltb, length, length-append, length-drop, length-take, take-append-drop,
  length-concat, take, drop, slice, Bool-cases, ◌==◌, ==_iff,
}
use tigerkin.ByteArray.{
  ByteArray, returns, to_string, ◌>>=◌, ◌>>◌, after, enter, write, create, set_offset,
  get_enable_read_size,
}
use tigerkin.ByteArray.Invariant.{IsValid, memory, unread, create-IsValid}
use tigerkin.ByteArray.Writing.{enter_lem}
use tigerkin.ByteArray.Reading.{read_loop-Reads, get_enable_read_size_lem, to_string-unread}
use tigerkin.ByteArray.Sequence.{Appends, Appending, write-Appending, Appending->>}
use tigerkin.ByteArray.Offset.{moved, set_offset_lem, moved-IsValid}
use tigerkin.ByteArray.Buffers.{write_to_file, read_file_loop, read_from_file}

-- writeToFile writes the unread bytes.
write_to_file-unread :
    (b : ByteArray) → IsValid b → write_to_file true b ≡ returns (true, unread b) b
unfolding write_to_file
write_to_file-unread b v =
    let base = b.base_size in
    let n = get_enable_read_size b in
    let r = b.offset % base in
    let e = get_enable_read_size_lem b v in
    let nonzero : (base == 0) ≡ false = ground (arith, v.base_pos) in
    elim (Bool-cases (n == 0)) [
      | inl nothing ↦
          let z : b.size - b.offset ≡ 0 = sym e ∙ (==_iff n 0).0 nothing in
          rw nonzero (rw e (rw z refl))
      | inr some_left ↦
          let start = enter b.nodes b.cur r b.offset in
          let at_offset = enter_lem b v (ground (arith, e, v.filled, v.room)) in
          let lt : r < base = mod-lt b.offset v.base_pos in
          let (k, r', _, _) =
            read_loop-Reads base n b.nodes start r (base - r) n v.chunked (omega (arith, lt))
              (omega (arith, lt)) (omega (arith, at_offset, e, v.filled, v.room, v.within))
              (le_refl n) (ground arith) in
          rw nonzero (
            ap (λ l. after l (λ s. returns (true, s.0) b)) r'
            ∙ ap (λ p. returns (true, slice p n (memory b)) b) at_offset
            ∙ ap (λ m. returns (true, slice b.offset m (memory b)) b) e)
    ]

-- The loop appends what is left of the file, when the rounds are more than its bytes.
read_file_loop-Appending :
    (fuel : ℕ) (file : List ℕ) (b : ByteArray)
    → IsValid b
    → length file < fuel
    → b.size + length file < 2 ^ 64
    → Appending b file (read_file_loop fuel file b)
unfolding read_file_loop
read_file_loop-Appending zero file b v f fits = absurd (omega arith)
read_file_loop-Appending (suc fuel) file b v f fits =
    let front = take b.base_size file in
    let back = drop b.base_size file in
    let lens = length-append front back in
    let whole : front ++ back ≡ file = take-append-drop b.base_size file in
    let sum : length front + length back ≡ length file = sym lens ∙ ap length whole in
    let left = length-drop b.base_size file in
    elim (Bool-cases (ltb (length file) b.base_size)) [
      | inl last ↦ rw last (write-Appending file b v fits)
      | inr more ↦
          let le : b.base_size ≤ length file = ground arith in
          rw more (
            subst (λ bs. Appending b bs ((write front >> read_file_loop fuel back) b)) whole
              (Appending->> (write front) (read_file_loop fuel back) front back b
                (write-Appending front b v (omega (arith, sum)))
                λ c a.
                  read_file_loop-Appending fuel back c a.valid (omega (arith, left, v.base_pos, le))
                    (omega (arith, sum, a.size_eq))))
    ]

length-unread : (b : ByteArray) → IsValid b → length (unread b) ≡ b.size - b.offset
length-unread b v = length-take (b.size - b.offset) (drop b.offset (memory b)) (
    omega (
      arith,
      length-drop b.offset (memory b),
      length-concat b.base_size b.nodes v.chunked,
      v.filled,
      v.room,
    ))

-- setOffset(0) and toString after a run of writes into an empty array.
rewind-to_string :
    (b c : ByteArray) (bs : List ℕ)
    → b.size ≡ 0
    → b.offset ≡ 0
    → Appends b c bs
    → (set_offset 0 >> to_string) c ≡ returns bs (moved 0 c)
rewind-to_string b c bs s o a =
    let v = a.valid in
    let d = moved 0 c in
    let size : d.size - 0 ≡ c.offset = ground (arith, a.size_eq, a.offset_eq) in
    rw (set_offset_lem 0 c v (omega arith), ◌>>◌, ◌>>=◌)
      (to_string-unread d (moved-IsValid 0 c v (omega arith) (omega arith) (inl v.base_pos))
        ∙ ap (λ m. returns (take m (memory c)) d) size
        ∙ ap (λ xs. returns xs d) (a.bytes_eq ∙ ap (λ n. take n (memory b) ++ bs) o))

-- Where the file opens, writeToFile of a valid array writes some bytes and changes nothing;
-- after readFromFile of these into a new array of any block size but 0 and setOffset to 0,
-- toString gives the unread bytes of the first array.
pub read_from_file-write_to_file :
    (b : ByteArray) (base : ℕ) (fresh : ℕ → ℕ → ℕ)
    → IsValid b
    → 0 < base
    → (file : List ℕ) × (d : ByteArray) × (write_to_file true b ≡ returns (true, file) b)
      × ((read_from_file (some file) >>= λ _. set_offset 0 >> to_string) (create base fresh)
          ≡ returns (unread b) d)
unfolding read_from_file create
read_from_file-write_to_file b base fresh v pos =
    let xs = unread b in
    let n = length-unread b v in
    let (c, e, a) =
      read_file_loop-Appending (length xs + 1) xs (create base fresh)
        (create-IsValid base fresh pos) (omega arith) (omega (arith, n, v.fits)) in
    (
      xs,
      moved 0 c,
      write_to_file-unread b v,
      rw (e, ◌>>=◌) (rewind-to_string (create base fresh) c xs refl refl a),
    )
