-- ===== src/StringUtils.antt =====
-- src/util.h and src/util.cpp, class StringUtils: URL escapes and trimming. A string is a list of
-- bytes. The two tables of 256 entries are given by the ranges in which their entries stand.
pub mod Encode
pub mod Decode
pub mod Trims
use tigerkin.Prelude.{
  ℕ, zero, suc, ◌+◌, ◌-◌, ◌*◌, ◌/◌, ◌%◌, ◌^◌, Bool, true, false, ◌&&◌, ◌||◌, Option, none, some,
  List, [], ◌∷◌, ◌++◌, leb, ltb, ◌==◌, if◌then◌else◌, take, drop,
}

abbrev within : ℕ → ℕ → ℕ → Bool
within lo hi c = leb lo c && leb c hi

-- CHAR_IS_UNRESERVED: the letters, the digits, and - . = _ ~.
unfoldable pub is_unreserved : ℕ → Bool
is_unreserved c =
    within b'0' b'9' c
    || within b'A' b'Z' c
    || within b'a' b'z' c
    || (c == b'-')
    || (c == b'.')
    || (c == b'=')
    || (c == b'_')
    || (c == b'~')

-- xdigitChars
pub xdigit_value : ℕ → ℕ
xdigit_value c =
    if within b'0' b'9' c
    then c - 48
    else if within b'A' b'F' c
    then c - 55
    else if within b'a' b'f' c
    then c - 87
    else 0

pub is_digit : ℕ → Bool
is_digit c = within b'0' b'9' c

pub is_xdigit : ℕ → Bool
is_xdigit c = within b'0' b'9' c || within b'A' b'F' c || within b'a' b'f' c

-- hexdigits[n]
pub hex_digit : ℕ → ℕ
hex_digit n = if ltb n 10 then 48 + n else 55 + n

-- The buffer `ss` of both loops, which does not exist before the first change, when it begins with
-- the bytes seen so far.
abbrev pub written : List ℕ → Option (List ℕ) → List ℕ
written seen none = seen
written seen (some out) = out

abbrev pub put : List ℕ → Option (List ℕ) → List ℕ → Option (List ℕ)
put seen ss bs = some (written seen ss ++ bs)

abbrev pub keep : Option (List ℕ) → ℕ → Option (List ℕ)
keep none c = none
keep (some out) c = some (out ++ (c ∷ []))

-- The loop of StringUtils::UrlEncode: the bytes seen, the buffer, and the bytes to come.
encode_loop : Bool → List ℕ → Option (List ℕ) → List ℕ → List ℕ
unfolding is_unreserved hex_digit
encode_loop plus seen ss [] = written seen ss
encode_loop plus seen ss (c ∷ cs) =
    encode_loop plus (seen ++ (c ∷ []))
      (if is_unreserved c
        then keep ss c
        else if (c == b' ') && plus
        then put seen ss (b'+' ∷ [])
        else put seen ss (b'%' ∷ hex_digit (c / 16) ∷ hex_digit (c % 16) ∷ []))
      cs

pub url_encode : List ℕ → Bool → List ℕ
unfolding encode_loop
url_encode str plus = encode_loop plus [] none str

-- One byte of the loop of StringUtils::UrlDecode that begins no escape.
abbrev decode_byte : Bool → List ℕ → Option (List ℕ) → ℕ → Option (List ℕ)
decode_byte plus seen ss c = if (c == b'+') && plus then put seen ss (b' ' ∷ []) else keep ss c

-- The second digit of an escape is tested by isdigit, the first by isxdigit.
is_escape : ℕ → ℕ → ℕ → Bool
unfolding is_xdigit is_digit
is_escape c d e = (c == b'%') && is_xdigit d && is_digit e

-- The loop of StringUtils::UrlDecode.
decode_loop : Bool → List ℕ → Option (List ℕ) → List ℕ → List ℕ
unfolding is_escape xdigit_value
decode_loop plus seen ss [] = written seen ss
decode_loop plus seen ss (c ∷ []) =
    decode_loop plus (seen ++ (c ∷ [])) (decode_byte plus seen ss c) []
decode_loop plus seen ss (c ∷ d ∷ []) =
    decode_loop plus (seen ++ (c ∷ [])) (decode_byte plus seen ss c) (d ∷ [])
decode_loop plus seen ss (c ∷ d ∷ e ∷ r) =
    let byte = (xdigit_value d * 16 + xdigit_value e) % 256 in
    let escaped = decode_loop plus (seen ++ (c ∷ d ∷ e ∷ [])) (put seen ss (byte ∷ [])) r in
    let plain = decode_loop plus (seen ++ (c ∷ [])) (decode_byte plus seen ss c) (d ∷ e ∷ r) in
    if is_escape c d e then escaped else plain

pub url_decode : List ℕ → Bool → List ℕ
unfolding decode_loop
url_decode str plus = decode_loop plus [] none str

pub contains : List ℕ → ℕ → Bool
contains [] c = false
contains (x ∷ xs) c = (x == c) || contains xs c

-- std::string::find_first_not_of and find_last_not_of, where none is npos.
pub find_first_not_of : List ℕ → List ℕ → Option ℕ
unfolding contains
find_first_not_of delimit [] = none
find_first_not_of delimit (x ∷ xs) =
    let rest : Option ℕ = elim (find_first_not_of delimit xs) [
      | none ↦ none
      | some i ↦ some (suc i)
    ] in
    if contains delimit x then rest else some 0

pub find_last_not_of : List ℕ → List ℕ → Option ℕ
unfolding contains
find_last_not_of delimit [] = none
find_last_not_of delimit (x ∷ xs) = elim (find_last_not_of delimit xs) [
  | none ↦ if contains delimit x then none else some 0
  | some i ↦ some (suc i)
]

pub trim : List ℕ → List ℕ → List ℕ
unfolding find_first_not_of find_last_not_of
trim str delimit = elim (find_first_not_of delimit str) [
  | none ↦ []
  | some begin ↦ elim (find_last_not_of delimit str) [
    | none ↦ take ((2 ^ 64 - begin) % 2 ^ 64) (drop begin str)
    | some end ↦ take (end - begin + 1) (drop begin str)
  ]
]

pub trim_left : List ℕ → List ℕ → List ℕ
unfolding find_first_not_of
trim_left str delimit = elim (find_first_not_of delimit str) [
  | none ↦ []
  | some begin ↦ drop begin str
]

-- The position of the last byte to keep is taken for the number of bytes.
pub trim_right : List ℕ → List ℕ → List ℕ
unfolding find_last_not_of
trim_right str delimit = elim (find_last_not_of delimit str) [ none ↦ [] | some end ↦ take end str ]
