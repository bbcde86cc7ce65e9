-- ===== src/Http/Session/Bodies.antt =====
-- src/http/http_session.cpp: how recvRequest ends, and that its body is what stands behind the head.
use tigerkin.Prelude.{ℕ, ◌≡◌, true, false, Option, none, some, List, ◌++◌, length}
use tigerkin.Stream.{Input}
use tigerkin.Stream.Ends.{ReadsNone, ReadFails, Ends}
use tigerkin.Http.Request.{HttpRequest, init}
use tigerkin.Http.Session.Rounds.{Parsed, HeadFails}
use tigerkin.Http.Session.{Parser, Received, received, gives_null, never_ends, content_length}

module _ {P S : Type 0} (parser : Parser P) (read : S → ℕ → Input S) (history : S → List ℕ) where
  abbrev Bodies : List ℕ → List ℕ → ℕ → Received (List ℕ) S → Type 0
  Bodies h head n (received body s) =
      (length body ≡ n) × (rest : List ℕ) × (history s ≡ ((h ++ head) ++ body) ++ rest)
  Bodies h head n (gives_null s) = ReadFails history read h s
  Bodies h head n never_ends = ReadsNone history read h

  -- The request with its body, which follows the head `h` in the stream.
  abbrev pub HasBody : List ℕ → Option ℕ → HttpRequest → HttpRequest → S → Type 0
  HasBody h none q r s = (r ≡ init q) × (rest : List ℕ) × (history s ≡ h ++ rest)
  HasBody h (some n) q r s =
      (body : List ℕ) × (length body ≡ n)
      × (r ≡ init (record q { body = body }))
      × (rest : List ℕ) × (history s ≡ (h ++ body) ++ rest)

  -- How a call ends that begins with the stream `s0`: with the request of the parser that the rounds
  -- lead to, with null for a reason, or not at all after a read that gave nothing.
  abbrev pub Receives : (List ℕ → Option ℕ) → ℕ → P → S → Received HttpRequest S → Type 0
  Receives cast size p0 s0 (received r s) =
      (p : P) × (left : List ℕ) × (s1 : S) × (parsed : Parsed parser read history size p0 s0 p left
        s1)
      × (parser.has_error p ≡ false)
      × (parser.is_finished p ≡ true)
      × HasBody (history s0 ++ parsed.head) (content_length cast (parser.request_of p))
          (parser.request_of p) r s
  Receives cast size p0 s0 (gives_null s) = HeadFails parser read history size p0 s0 s
  Receives cast size p0 s0 never_ends = ReadsNone history read (history s0)
