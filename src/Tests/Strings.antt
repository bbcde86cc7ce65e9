-- ===== src/Tests/Strings.antt =====
-- src/util.cpp at small inputs.
use tigerkin.Prelude.{
  ℕ, ◌-◌, ◌/◌, ◌%◌, ◌≡◌, inl, inr, refl, true, false, List, [], ◌∷◌, arith, take, length,
}
use tigerkin.StringUtils.{
  url_encode, url_decode, trim, trim_left, trim_right, hex_digit, is_unreserved,
}
use tigerkin.StringUtils.Decode.{IsDecodable, url_decode-url_encode, url_decode_keeps}
use tigerkin.StringUtils.Trims.{drop_start, drop_end, trims-drop}

abbrev padded : List ℕ
padded = b' ' ∷ b'a' ∷ b' ' ∷ b'b' ∷ b' ' ∷ b' ' ∷ []

abbrev spaces : List ℕ
spaces = b' ' ∷ []

-- The percent sign is 25 in hexadecimal.
url_decode-url_encode_example :
    url_decode (url_encode (b'a' ∷ b'%' ∷ b' ' ∷ []) false) false ≡ b'a' ∷ b'%' ∷ b' ' ∷ []
unfolding is_unreserved
url_decode-url_encode_example = url_decode-url_encode (b'a' ∷ b'%' ∷ b' ' ∷ []) false (
  (omega arith, inl refl),
  ((omega arith, inr (inr (omega arith))), ((omega arith, inr (inr (omega arith))), tt)),
)

-- The slash is 2f.
url_decode_keeps_example :
    (url_encode (b'/' ∷ []) true ≡ b'%' ∷ hex_digit (b'/' / 16) ∷ hex_digit (b'/' % 16) ∷ [])
    × (url_decode (url_encode (b'/' ∷ []) true) true ≡ url_encode (b'/' ∷ []) true)
unfolding is_unreserved
url_decode_keeps_example = url_decode_keeps b'/' true (omega arith) slash
  where
    slash : ¬ IsDecodable true b'/'
    slash (inl e) = absurd (cc)
    slash (inr (inl (e, _))) = absurd (omega (arith, e))
    slash (inr (inr lt)) = absurd (omega (arith, lt))

trims-drop_example :
    (trim padded spaces ≡ drop_end spaces (drop_start spaces padded))
    × (trim_left padded spaces ≡ drop_start spaces padded)
    × (trim_right padded spaces
        ≡ take (length (drop_end spaces padded) - 1) (drop_end spaces padded))
trims-drop_example = trims-drop padded spaces
