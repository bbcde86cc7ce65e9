-- ===== src/StringUtils/Decode.antt =====
-- src/util.cpp, UrlDecode: the loop against a plain decoder, and what it does to encoded bytes.
use native.Mathlib.Decide.{dec_lt}
use tigerkin.Prelude.{
  ℕ, ◌+◌, ◌*◌, ◌/◌, ◌%◌, ◌≤◌, ◌<◌, ◌≡◌, ◌≢◌, ◌⊎◌, refl, sym, ap, ap₂, ◌∙◌, Bool, true, false, ◌&&◌,
  Option, none, List, [], ◌∷◌, ◌++◌, arith, ltb, lt→ltb, le→ltb, ◌==◌, if◌then◌else◌, inl, inr,
  Bool-cases, append_assoc, append-nil, All,
}
use tigerkin.StringUtils.{
  is_unreserved, hex_digit, xdigit_value, is_digit, is_xdigit, written, is_escape, decode_byte,
  decode_loop, url_decode, url_encode,
}
use tigerkin.StringUtils.Encode.{escape, escape_all, written-keep, url_encode-escape_all}

plain : Bool → ℕ → ℕ
plain plus c = if (c == b'+') && plus then b' ' else c

-- The decoder without the buffer.
pub unescape : Bool → List ℕ → List ℕ
unfolding plain is_escape xdigit_value
unescape plus [] = []
unescape plus (c ∷ []) = plain plus c ∷ []
unescape plus (c ∷ d ∷ []) = plain plus c ∷ unescape plus (d ∷ [])
unescape plus (c ∷ d ∷ e ∷ r) =
    let escaped = (xdigit_value d * 16 + xdigit_value e) % 256 ∷ unescape plus r in
    let rest = plain plus c ∷ unescape plus (d ∷ e ∷ r) in if is_escape c d e then escaped else rest

written-byte :
    (plus : Bool) (seen : List ℕ) (ss : Option (List ℕ)) (c : ℕ)
    → written (seen ++ (c ∷ [])) (decode_byte plus seen ss c)
      ≡ written seen ss ++ (plain plus c ∷ [])
unfolding plain
written-byte plus seen ss c = elim (Bool-cases ((c == b'+') && plus)) [
  | inl e ↦ rw e
  | inr e ↦ rw e (written-keep seen ss c)
]

snoc : (xs ys : List ℕ) (x : ℕ) → (xs ++ (x ∷ [])) ++ ys ≡ xs ++ (x ∷ ys)
snoc xs ys x = append_assoc xs (x ∷ []) ys

decode_loop-unescape :
    (plus : Bool) (seen : List ℕ) (ss : Option (List ℕ)) (cs : List ℕ)
    → decode_loop plus seen ss cs ≡ written seen ss ++ unescape plus cs
unfolding decode_loop unescape
decode_loop-unescape plus seen ss [] = sym (append-nil (written seen ss))
decode_loop-unescape plus seen ss (c ∷ []) = written-byte plus seen ss c
decode_loop-unescape plus seen ss (c ∷ d ∷ []) =
    decode_loop-unescape plus (seen ++ (c ∷ [])) (decode_byte plus seen ss c) (d ∷ [])
    ∙ ap (λ out. out ++ unescape plus (d ∷ [])) (written-byte plus seen ss c)
    ∙ snoc (written seen ss) (unescape plus (d ∷ [])) (plain plus c)
decode_loop-unescape plus seen ss (c ∷ d ∷ e ∷ r) = elim (Bool-cases (is_escape c d e)) [
  | inl yes_it_is ↦ rw yes_it_is (
      decode_loop-unescape plus (seen ++ (c ∷ d ∷ e ∷ [])) _ r
      ∙ snoc (written seen ss) (unescape plus r) _)
  | inr not_one ↦ rw not_one (
      decode_loop-unescape plus (seen ++ (c ∷ [])) (decode_byte plus seen ss c) (d ∷ e ∷ r)
      ∙ ap (λ out. out ++ unescape plus (d ∷ e ∷ r)) (written-byte plus seen ss c)
      ∙ snoc (written seen ss) (unescape plus (d ∷ e ∷ r)) (plain plus c))
]

-- UrlDecode, which makes its buffer at the first byte to replace, gives what the decoder without
-- a buffer gives.
url_decode-unescape : (str : List ℕ) (plus : Bool) → url_decode str plus ≡ unescape plus str
unfolding url_decode
url_decode-unescape str plus = decode_loop-unescape plus [] none str

-- A byte that begins no escape.
unescape-plain :
    (plus : Bool) (c : ℕ) (r : List ℕ)
    → c ≢ b'%'
    → unescape plus (c ∷ r) ≡ plain plus c ∷ unescape plus r
unfolding unescape
unescape-plain plus c [] ne = refl
unescape-plain plus c (d ∷ []) ne = refl
unescape-plain plus c (d ∷ e ∷ r) ne =
    let no_escape : is_escape c d e ≡ false = unfold is_escape in ground (arith, ne) in rw no_escape

xdigit_value-hex_digit : (n : ℕ) → n < 16 → xdigit_value (hex_digit n) ≡ n
unfolding xdigit_value hex_digit
xdigit_value-hex_digit n lt = ground arith

is_xdigit-hex_digit : (n : ℕ) → n < 16 → is_xdigit (hex_digit n) ≡ true
unfolding is_xdigit hex_digit
is_xdigit-hex_digit n lt = ground arith

is_digit-hex_digit : (n : ℕ) → n < 16 → is_digit (hex_digit n) ≡ ltb n 10
unfolding is_digit hex_digit
is_digit-hex_digit n lt = ground arith

-- The two digits of a byte are its escape exactly if the low one is decimal.
is_escape-hex_digit :
    (c : ℕ) → c < 256 → is_escape b'%' (hex_digit (c / 16)) (hex_digit (c % 16)) ≡ ltb (c % 16) 10
unfolding is_escape
is_escape-hex_digit c lt =
    rw (is_xdigit-hex_digit (c / 16) (omega arith)) (rw (is_digit-hex_digit (c % 16) (omega arith)))

byte-hex_digit :
    (c : ℕ)
    → c < 256
    → (xdigit_value (hex_digit (c / 16)) * 16 + xdigit_value (hex_digit (c % 16))) % 256 ≡ c
byte-hex_digit c lt = omega (
  arith,
  xdigit_value-hex_digit (c / 16) (omega arith),
  xdigit_value-hex_digit (c % 16) (omega arith),
)

not_reserved : (c : ℕ) → is_unreserved c ≡ true → (c ≢ b'%') × (c ≢ b'+')
unfolding is_unreserved
not_reserved c e = ((λ p. cc (ap is_unreserved p, e)), (λ p. cc (ap is_unreserved p, e)))

plain_other : (plus : Bool) (c : ℕ) → c ≢ b'+' → plain plus c ≡ c
unfolding plain
plain_other plus c ne = ground arith

-- The low digit of the byte's escape is decimal, or the byte has no such escape.
abbrev pub IsDecodable : Bool → ℕ → Type 0
IsDecodable plus c = (is_unreserved c ≡ true) ⊎ (((c ≡ b' ') × (plus ≡ true)) ⊎ (c % 16 < 10))

unescape-unreserved :
    (plus : Bool) (c : ℕ) (r : List ℕ)
    → is_unreserved c ≡ true
    → unescape plus (c ∷ r) ≡ c ∷ unescape plus r
unescape-unreserved plus c r e =
    let (percent, sign) = not_reserved c e in
    unescape-plain plus c r percent ∙ ap (λ x. x ∷ unescape plus r) (plain_other plus c sign)

unescape-digits :
    (plus : Bool) (c : ℕ) (r : List ℕ)
    → c < 256
    → c % 16 < 10
    → unescape plus (b'%' ∷ hex_digit (c / 16) ∷ hex_digit (c % 16) ∷ r) ≡ c ∷ unescape plus r
unfolding unescape
unescape-digits plus c r lt low =
    let e : is_escape b'%' (hex_digit (c / 16)) (hex_digit (c % 16)) ≡ true =
      is_escape-hex_digit c lt ∙ lt→ltb (c % 16) 10 low in
    rw e (ap (λ x. x ∷ unescape plus r) (byte-hex_digit c lt))

unescape-escape :
    (plus : Bool) (c : ℕ) (r : List ℕ)
    → c < 256
    → IsDecodable plus c
    → unescape plus (escape plus c ++ r) ≡ c ∷ unescape plus r
unfolding escape
unescape-escape plus c r lt d = elim (Bool-cases (is_unreserved c)) [
  | inl e ↦ rw e (unescape-unreserved plus c r e)
  | inr e ↦ elim (Bool-cases ((c == b' ') && plus)) [
    | inl f ↦
        let same : c ≡ b' ' = ground (arith, f) in
        let p : plus ≡ true = ground (arith, f) in
        rw e (
          rw f (
            unescape-plain plus b'+' r (omega arith)
            ∙ ap₂ ◌∷◌ (unfold plain in rw p (sym same)) refl))
    | inr f ↦ rw e (rw f (unescape-digits plus c r lt (ground (arith, d, e, f))))
  ]
]

unescape-escape_all :
    (plus : Bool) (cs : List ℕ)
    → All (λ c. (c < 256) × IsDecodable plus c) cs
    → unescape plus (escape_all plus cs) ≡ cs
unfolding escape_all unescape
unescape-escape_all plus [] q = refl
unescape-escape_all plus (c ∷ cs) q =
    unescape-escape plus c (escape_all plus cs) q.0.0 q.0.1
    ∙ ap (◌∷◌ c) (unescape-escape_all plus cs q.1)

-- UrlDecode undoes UrlEncode, with the same flag, on every string of bytes that need no escape,
-- are a space written as a plus, or have a low hexadecimal digit below ten.
pub url_decode-url_encode :
    (str : List ℕ) (plus : Bool)
    → All (λ c. (c < 256) × IsDecodable plus c) str
    → url_decode (url_encode str plus) plus ≡ str
url_decode-url_encode str plus h =
    rw (url_encode-escape_all str plus, url_decode-unescape (escape_all plus str) plus)
      (unescape-escape_all plus str h)

escape_bad :
    (plus : Bool) (c : ℕ)
    → ¬ IsDecodable plus c
    → escape plus c ≡ b'%' ∷ hex_digit (c / 16) ∷ hex_digit (c % 16) ∷ []
unfolding escape
escape_bad plus c bad = elim (Bool-cases (is_unreserved c)) [
  | inl e ↦ absurd (bad (inl e))
  | inr e ↦ elim (Bool-cases ((c == b' ') && plus)) [
    | inl f ↦ absurd (bad (inr (inl (ground (arith, f), ground (arith, f)))))
    | inr f ↦ rw e (rw f)
  ]
]

hex_digit-unreserved : (n : ℕ) → n < 16 → is_unreserved (hex_digit n) ≡ true
unfolding is_unreserved hex_digit
hex_digit-unreserved n lt = ground arith

unescape-nil : (plus : Bool) → unescape plus [] ≡ []
unfolding unescape
unescape-nil plus = refl

unescape-after_percent :
    (plus : Bool) (d e : ℕ)
    → is_escape b'%' d e ≡ false
    → unescape plus (b'%' ∷ d ∷ e ∷ []) ≡ b'%' ∷ unescape plus (d ∷ e ∷ [])
unfolding unescape
unescape-after_percent plus d e same =
    rw same (ap (λ x. x ∷ unescape plus (d ∷ e ∷ [])) (plain_other plus b'%' (omega arith)))

unescape_bad :
    (plus : Bool) (c : ℕ)
    → c < 256
    → 10 ≤ c % 16
    → unescape plus (b'%' ∷ hex_digit (c / 16) ∷ hex_digit (c % 16) ∷ [])
      ≡ b'%' ∷ hex_digit (c / 16) ∷ hex_digit (c % 16) ∷ []
unescape_bad plus c lt high =
    let d = hex_digit (c / 16) in
    let e = hex_digit (c % 16) in
    let same : is_escape b'%' d e ≡ false = is_escape-hex_digit c lt ∙ le→ltb (c % 16) 10 high in
    unescape-after_percent plus d e same
    ∙ ap (◌∷◌ b'%') (
        unescape-unreserved plus d (e ∷ []) (hex_digit-unreserved (c / 16) (omega arith))
        ∙ ap (◌∷◌ d) (
            unescape-unreserved plus e [] (hex_digit-unreserved (c % 16) (omega arith))
            ∙ ap (◌∷◌ e) (unescape-nil plus)))

-- A byte that needs an escape, is not a space written as a plus, and has a low hexadecimal digit
-- of ten or more, is encoded as a percent sign and two digits, and UrlDecode leaves these three
-- bytes as they are.
pub url_decode_keeps :
    (c : ℕ) (plus : Bool)
    → c < 256
    → ¬ IsDecodable plus c
    → (url_encode (c ∷ []) plus ≡ b'%' ∷ hex_digit (c / 16) ∷ hex_digit (c % 16) ∷ [])
      × (url_decode (url_encode (c ∷ []) plus) plus ≡ url_encode (c ∷ []) plus)
url_decode_keeps c plus lt bad =
    let code = b'%' ∷ hex_digit (c / 16) ∷ hex_digit (c % 16) ∷ [] in
    let encoded : url_encode (c ∷ []) plus ≡ code =
      url_encode-escape_all (c ∷ []) plus
      ∙ unfold escape_all in append-nil (escape plus c) ∙ escape_bad plus c bad in
    let high : 10 ≤ c % 16 = elim (dec_lt (c % 16) 10) [
      | yes low ↦ absurd (bad (inr (inr low)))
      | no nl ↦ omega arith
    ] in
    (encoded, rw encoded (url_decode-unescape code plus ∙ unescape_bad plus c lt high))
