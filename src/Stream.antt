-- ===== src/Stream.antt =====
-- src/stream.cpp: readFixLength and writeFixLength for a plain buffer. The virtual `read` and `write`
-- are parameters over a state of the stream; a number of bytes is a size_t. The loops get fuel.
pub mod Whole
pub mod Ends
use tigerkin.Prelude.{ℕ, zero, suc, ◌-◌, ◌+◌, ◌%◌, ◌^◌, List, [], ◌∷◌, ◌++◌, length, drop}
use tigerkin.ByteArray.{sub_size}

-- What `read` gives: bytes, or a negative number.
pub data Input (S : Type 0) : Type 0 where
  got : List ℕ → S → Input S
  read_failed : S → Input S

-- What `write` gives: how many bytes it has taken, or a negative number.
pub data Output (S : Type 0) : Type 0 where
  took : ℕ → S → Output S
  write_failed : S → Output S

-- How a loop ends: with the whole length, with -1, or not within the fuel.
pub data Transfer (A S : Type 0) : Type 0 where
  whole : A → S → Transfer A S
  minus_one : S → Transfer A S
  out_of_fuel : Transfer A S

module _ {S : Type 0} where
  abbrev pub put_before : List ℕ → Transfer (List ℕ) S → Transfer (List ℕ) S
  put_before bs (whole cs s) = whole (bs ++ cs) s
  put_before bs (minus_one s) = minus_one s
  put_before bs out_of_fuel = out_of_fuel

  -- Stream::readFixLength(void *, size_t), with the bytes that it puts into the buffer.
  pub read_fix_length : (S → ℕ → Input S) → ℕ → ℕ → S → Transfer (List ℕ) S
  read_fix_length read fuel zero s = whole [] s
  read_fix_length read zero (suc left) s = out_of_fuel
  read_fix_length read (suc fuel) (suc left) s = elim (read s (suc left)) [
    | read_failed s' ↦ minus_one s'
    | got bs s' ↦ put_before bs (read_fix_length read fuel (sub_size (suc left) (length bs)) s')
  ]

  -- Stream::writeFixLength(const void *, size_t): `left` bytes of the buffer from its offset on.
  pub write_fix_length : (S → List ℕ → Output S) → ℕ → List ℕ → S → Transfer (Unit {0}) S
  write_fix_length write fuel [] s = whole tt s
  write_fix_length write zero (_ ∷ _) s = out_of_fuel
  write_fix_length write (suc fuel) (x ∷ xs) s = elim (write s (x ∷ xs)) [
    | write_failed s' ↦ minus_one s'
    | took n s' ↦ write_fix_length write fuel (drop n (x ∷ xs)) s'
  ]
