-- ===== src/Prelude/Text.antt =====
-- Texts as lists of bytes: literals, C strings, equality and prefixes.
use Prim.Native.Nat.{ℕ}
use Prim.Native.String.{String}
use Prim.Native.Char.{code}
use mathlib.Core.Bool.{Bool, true, false, ◌&&◌}
use mathlib.Core.List.{List, [], ◌∷◌, ◌++◌}
use tigerkin.Prelude.Tests.{◌==◌, if◌then◌else◌}

-- The code points of a text: its bytes, if it is ASCII.
abbrev pub codes : String → List ℕ
codes String.[] = []
codes (String.◌∷◌ c s) = code c ∷ codes s

-- What a C function sees of a string: the bytes before the first zero.
abbrev pub c_str : List ℕ → List ℕ
c_str [] = []
c_str (x ∷ xs) = let rest = c_str xs in if x == 0 then [] else x ∷ rest

abbrev pub same_bytes : List ℕ → List ℕ → Bool
same_bytes [] [] = true
same_bytes [] (_ ∷ _) = false
same_bytes (_ ∷ _) [] = false
same_bytes (x ∷ xs) (y ∷ ys) = (x == y) && same_bytes xs ys

abbrev pub begins_with : List ℕ → List ℕ → Bool
begins_with [] ys = true
begins_with (_ ∷ _) [] = false
begins_with (x ∷ xs) (y ∷ ys) = (x == y) && begins_with xs ys

abbrev pub is_empty : List ℕ → Bool
is_empty [] = true
is_empty (_ ∷ _) = false

-- What a stream is given, one text after the other.
infixr 60 ◌<<◌
abbrev pub ◌<<◌ : List ℕ → List ℕ → List ℕ
xs << ys = xs ++ ys
