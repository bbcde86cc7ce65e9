-- ===== src/Tests/Streams.antt =====
-- src/stream.cpp at small inputs: a stream whose state is its history.
use tigerkin.Prelude.{ℕ, ◌≡◌, refl, List, [], ◌∷◌, ◌++◌, arith, take}
use tigerkin.Stream.{Input, got, Output, took, out_of_fuel, read_fix_length, write_fix_length}
use tigerkin.Stream.Whole.{
  Fills, read_fix_length-Fills, read_fix_length_ends, Sends, write_fix_length-Sends,
}

-- One byte at a time.
abbrev seven : List ℕ → ℕ → Input (List ℕ)
seven s n = got (7 ∷ []) (s ++ (7 ∷ []))

abbrev one_byte : List ℕ → List ℕ → Output (List ℕ)
one_byte s buf = took 1 (s ++ take 1 buf)

abbrev ended : List ℕ → ℕ → Input (List ℕ)
ended s n = got [] s

read_fix_length-Fills_example : Fills (λ s. s) (1 ∷ []) 3 (read_fix_length seven 3 3 (1 ∷ []))
read_fix_length-Fills_example =
    read_fix_length-Fills (λ s. s) seven (λ s n pos. (omega arith, omega arith, refl)) 3 3 (1 ∷ [])
      (omega arith) (omega arith)

read_fix_length_ends_example : read_fix_length ended 100 4 (1 ∷ []) ≡ out_of_fuel
read_fix_length_ends_example =
    read_fix_length_ends ended (1 ∷ []) (λ n. refl) 100 4 (omega arith) (omega arith)

write_fix_length-Sends_example :
    Sends (λ s. s) (1 ∷ []) (2 ∷ 3 ∷ []) (write_fix_length one_byte 2 (2 ∷ 3 ∷ []) (1 ∷ []))
write_fix_length-Sends_example =
    write_fix_length-Sends (λ s. s) one_byte (λ s buf pos. (omega arith, omega arith, refl)) 2
      (2 ∷ 3 ∷ []) (1 ∷ []) (omega arith)
