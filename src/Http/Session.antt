-- ===== src/Http/Session.antt =====
-- src/http/http_session.cpp, HttpSession::recvRequest, with HttpRequestParser::getContentLength of
-- src/http/http_parser.cpp. The parser is an interface, since Ragel generates it: a state, how many bytes a
-- call of execute consumes, and whether it has an error or is finished. The buffer is the list of the bytes
-- in it, from which execute has moved what it consumed. `read` is that of Stream, and
-- boost::lexical_cast is a parameter. The ints `len` and `offset` are numbers: the buffer has fewer than
-- 2^31 bytes.
pub mod Rounds
pub mod Silence
pub mod Bodies
use tigerkin.Prelude.{
  ℕ, zero, suc, ◌+◌, ◌-◌, ◌^◌, Bool, true, false, ◌&&◌, Option, none, some, List, [], ◌∷◌, ◌++◌,
  ltb, leb, ◌==◌, if◌then◌else◌, length, take, drop, codes,
}
use tigerkin.Stream.{
  Input, got, read_failed, Transfer, whole, minus_one, out_of_fuel, read_fix_length,
}
use tigerkin.Http.Fields.{get_as}
use tigerkin.Http.Request.{HttpRequest, init}

pub record Parser (P : Type 0) : Type 0 where
  pub execute : P → List ℕ → P × ℕ
  pub has_error : P → Bool
  pub is_finished : P → Bool
  pub request_of : P → HttpRequest

-- How a call ends: with a value, with null after the stream is closed, or not within the fuel.
pub data Received (A S : Type 0) : Type 0 where
  received : A → S → Received A S
  gives_null : S → Received A S
  never_ends : Received A S

-- HttpRequestParser::getContentLength, as the int64_t that it is given to: none is not positive.
pub content_length : (List ℕ → Option ℕ) → HttpRequest → Option ℕ
content_length cast r =
    let n = get_as cast r.headers (codes "content-length") 0 in
    if ltb 0 n && ltb n (2 ^ 63) then some n else none

module _ {P S : Type 0} (parser : Parser P) (read : S → ℕ → Input S) where
  -- The loop of recvRequest: the parser, and the bytes left in the buffer.
  pub head_loop : ℕ → ℕ → P → List ℕ → S → Received (P × List ℕ) S
  head_loop zero size p kept s = never_ends
  head_loop (suc fuel) size p kept s = elim (read s (size - length kept)) [
    | read_failed s' ↦ gives_null s'
    | got bs s' ↦
        let r = parser.execute p (kept ++ bs) in
        let left = drop r.1 (kept ++ bs) in
        let again = head_loop fuel size r.0 left s' in
        if parser.has_error r.0
        then gives_null s'
        else if length left == size
        then gives_null s'
        else if parser.is_finished r.0
        then received (r.0, left) s'
        else again
  ]

  -- The body of a given length, from the bytes left in the buffer and the stream.
  pub read_body : ℕ → List ℕ → S → Received (List ℕ) S
  read_body n left s =
      if ltb (length left) n
      then elim (read_fix_length read n (n - length left) s) [
        | whole more s' ↦ received (left ++ more) s'
        | minus_one s' ↦ gives_null s'
        | out_of_fuel ↦ never_ends
      ]
      else received (take n left) s

  -- HttpSession::recvRequest.
  pub recv_request : (List ℕ → Option ℕ) → ℕ → ℕ → P → S → Received HttpRequest S
  unfolding head_loop read_body content_length
  recv_request cast fuel size p s = elim (head_loop fuel size p [] s) [
    | gives_null s' ↦ gives_null s'
    | never_ends ↦ never_ends
    | received (p', left) s' ↦
        let r = parser.request_of p' in
        elim (content_length cast r) [
          | none ↦ received (init r) s'
          | some n ↦ elim (read_body n left s') [
            | received body s'' ↦ received (init (record r { body = body })) s''
            | gives_null s'' ↦ gives_null s''
            | never_ends ↦ never_ends
          ]
        ]
  ]
