-- ===== src/StringUtils/Encode.antt =====
-- src/util.cpp, UrlEncode: the loop with its late buffer is the escape of each byte in turn.
use tigerkin.Prelude.{
  ℕ, ◌/◌, ◌%◌, ◌≡◌, refl, sym, ap, ◌∙◌, Bool, ◌&&◌, Option, none, some, List, [], ◌∷◌, ◌++◌, ◌==◌,
  if◌then◌else◌, inl, inr, Bool-cases, append_assoc, append-nil,
}
use tigerkin.StringUtils.{is_unreserved, hex_digit, written, put, keep, encode_loop, url_encode}

-- What stands for one byte.
unfoldable pub escape : Bool → ℕ → List ℕ
unfolding is_unreserved hex_digit
escape plus c =
    if is_unreserved c
    then c ∷ []
    else if (c == b' ') && plus
    then b'+' ∷ []
    else b'%' ∷ hex_digit (c / 16) ∷ hex_digit (c % 16) ∷ []

unfoldable pub escape_all : Bool → List ℕ → List ℕ
escape_all plus [] = []
escape_all plus (c ∷ cs) = escape plus c ++ escape_all plus cs

pub written-keep :
    (seen : List ℕ) (ss : Option (List ℕ)) (c : ℕ)
    → written (seen ++ (c ∷ [])) (keep ss c) ≡ written seen ss ++ (c ∷ [])
written-keep seen none c = refl
written-keep seen (some out) c = refl

written-escape :
    (plus : Bool) (seen : List ℕ) (ss : Option (List ℕ)) (c : ℕ)
    → written (seen ++ (c ∷ [])) (
        if is_unreserved c
        then keep ss c
        else if (c == b' ') && plus
        then put seen ss (b'+' ∷ [])
        else put seen ss (b'%' ∷ hex_digit (c / 16) ∷ hex_digit (c % 16) ∷ []))
      ≡ written seen ss ++ escape plus c
unfolding escape
written-escape plus seen ss c = elim (Bool-cases (is_unreserved c)) [
  | inl e ↦ rw e (written-keep seen ss c)
  | inr e ↦ elim (Bool-cases ((c == b' ') && plus)) [ inl f ↦ rw e (rw f) | inr f ↦ rw e (rw f) ]
]

encode_loop-escape_all :
    (plus : Bool) (seen : List ℕ) (ss : Option (List ℕ)) (cs : List ℕ)
    → encode_loop plus seen ss cs ≡ written seen ss ++ escape_all plus cs
unfolding encode_loop escape_all
encode_loop-escape_all plus seen ss [] = sym (append-nil (written seen ss))
encode_loop-escape_all plus seen ss (c ∷ cs) =
    encode_loop-escape_all plus (seen ++ (c ∷ [])) _ cs
    ∙ ap (λ out. out ++ escape_all plus cs) (written-escape plus seen ss c)
    ∙ append_assoc (written seen ss) (escape plus c) (escape_all plus cs)

-- UrlEncode, which makes its buffer at the first byte to escape, gives the escapes of all bytes
-- one after the other.
pub url_encode-escape_all : (str : List ℕ) (plus : Bool) → url_encode str plus ≡ escape_all plus str
unfolding url_encode
url_encode-escape_all str plus = encode_loop-escape_all plus [] none str
