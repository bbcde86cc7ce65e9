-- ===== src/Http/Printing.antt =====
-- src/http/http.cpp: the parts that the dumps of a request and of a response share.
pub mod Lines
use tigerkin.Prelude.{
  ℕ, zero, suc, ◌+◌, ◌/◌, ◌%◌, Bool, true, false, ◌&&◌, not, List, [], ◌∷◌, ◌++◌, ◌<<◌, ltb,
  if◌then◌else◌, length, codes, is_empty,
}
use tigerkin.Http.Fields.{Fields, same_letters}

-- A number printed in decimal: as many rounds as its value are enough.
decimal_loop : ℕ → ℕ → List ℕ → List ℕ
decimal_loop zero n digits = digits
decimal_loop (suc fuel) n digits =
    let out = (b'0' + n % 10) ∷ digits in
    let more = decimal_loop fuel (n / 10) out in if ltb n 10 then out else more

unfoldable pub decimal : ℕ → List ℕ
unfolding decimal_loop
decimal n = decimal_loop (n + 1) n []

-- The version, a byte of two numbers.
unfoldable pub version_text : ℕ → List ℕ
unfolding decimal
version_text version = decimal (version / 16) << codes "." << decimal (version % 16)

unfoldable pub field_lines : Bool → Fields → List ℕ
field_lines websocket [] = []
field_lines websocket ((key, val) ∷ rest) =
    let others = field_lines websocket rest in
    if not websocket && same_letters key (codes "connection")
    then others
    else key << codes ": " << val << codes "\r\n" << others

unfoldable pub connection_line : Bool → Bool → List ℕ
connection_line websocket close =
    if websocket
    then []
    else codes "connection: "
      << (if close then codes "close" else codes "keep-alive")
      << codes "\r\n"

unfoldable pub body_part : List ℕ → List ℕ
unfolding decimal
body_part body =
    if is_empty body
    then codes "\r\n"
    else codes "content-length: " << decimal (length body) << codes "\r\n\r\n" << body
