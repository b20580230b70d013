-- ===== src/Http/Body.antt =====
-- http/parser.go: the two framings of a body, each inspected as it is read.
use multi_threaded_web_serve.Go.Reader.{
  ReadError, Reader, ShortRead, broken, eof, read_byte, read_full,
}
use multi_threaded_web_serve.Http.Action.{
  ParseError, body_too_large, invalid_chunk_terminator, io_failure, incomplete_body,
  incomplete_chunk_terminator, incomplete_chunk_data, blocked, panicked, out_of_fuel, Action, ◌>>=◌,
  ◌>>◌, pure, fail, reject_if, lift, pass, byte_or,
}
use multi_threaded_web_serve.Http.Chars.{max_body_bytes, max_header_line_bytes, parse_chunk_size}
use multi_threaded_web_serve.Http.Read.{Headers, read_line_limited, read_trailers}
use multi_threaded_web_serve.Waf.Automaton.{Automaton}
use multi_threaded_web_serve.Waf.Scanner.{
  Outcome, Scanner, clean, fault, feed, finish, found, new_scanner,
}
use multi_threaded_web_serve.Base.{
  ℕ, zero, suc, ◌+◌, ◌-◌, not, ◌&&◌, List, [], ◌∷◌, ◌++◌, Option, none, some, ltb, ◌==◌, Bytes,
  codes, Result, ok, err, length, take, drop,
}

abbrev pub body_field : Bytes
body_field = codes "body"

-- Without an automaton there is no scanner, and nothing is inspected.
unfoldable pub feed_body : Option Automaton → Scanner → Bytes → Outcome
unfolding feed
feed_body none s part = (s, clean)
feed_body (some a) s part = feed a body_field s part

unfoldable pub finish_body : Option Automaton → Scanner → Outcome
unfolding finish
finish_body none s = (s, clean)
finish_body (some a) s = finish a body_field s

abbrev pub body_fault : ReadError → ParseError
body_fault eof = incomplete_body eof
body_fault (broken code) = io_failure code

-- `if match != nil { return securityError(match) }` behind a feed.
abbrev pub checked : {B : Type 0} → Outcome → (Scanner → Result ParseError B) → Result ParseError B
checked (t, clean) k = k t
checked (t, found m) k = err (blocked m)
checked (t, fault) k = err panicked

-- The loop of `readBody`, with so many bytes missing yet. A `Read` that gives bytes together with
-- an error stands as one that gives the bytes, then one that gives the error. The source differs
-- from that only where the bytes are the last of the body and the error is not the end of the input:
-- there it returns the error.
unfoldable pub body_loop :
    Option Automaton
    → ℕ
    → Scanner
    → Bytes
    → List Bytes
    → ReadError
    → Result ParseError ((Bytes × Scanner) × List Bytes)
unfolding feed_body
body_loop a zero s got pieces e = ok ((got, s), pieces)
body_loop a (suc missing) s got [] e = err (body_fault e)
body_loop a (suc missing) s got (p ∷ pieces) e = checked (feed_body a s (take (suc missing) p)) λ t.
    elim (drop (suc missing) p) [
      | [] ↦ body_loop a (suc missing - length p) t (got ++ take (suc missing) p) pieces e
      | b ∷ q ↦ ok ((got ++ take (suc missing) p, t), (b ∷ q) ∷ pieces)
    ]

abbrev pub run_body_loop : Option Automaton → ℕ → Action (Bytes × Scanner)
run_body_loop a n r = elim (body_loop a n new_scanner [] r.pieces r.fault) [
  | err e ↦ err e
  | ok (x, pieces) ↦ ok (x, record r { pieces = pieces })
]

-- `readBody` into a buffer of `n` bytes.
unfoldable pub read_body : Option Automaton → ℕ → Action Bytes
unfolding body_loop finish_body
read_body a zero = pure []
read_body a (suc n) = do (got, s) ← run_body_loop a (suc n); pass (finish_body a s).1; pure got

unfoldable pub read_crlf : Action (Unit {0})
unfolding read_byte
read_crlf = do
  first ← byte_or incomplete_chunk_terminator
  second ← byte_or incomplete_chunk_terminator
  reject_if (not (first == b'\r' && second == b'\n')) invalid_chunk_terminator

abbrev pub of_full : Result ShortRead (Bytes × Reader) → Result ParseError (Bytes × Reader)
of_full (err e) = err (incomplete_chunk_data e)
of_full (ok (got, r)) = ok (got, r)

abbrev pub full_or : ℕ → Action Bytes
full_or n r = of_full (read_full n r)

-- The body of the loop of `readChunkedBody` behind the size; `next` is the next round.
unfoldable pub take_chunk :
    Option Automaton
    → Scanner
    → Bytes
    → (Scanner → Bytes → Action (Bytes × Headers))
    → ℕ
    → Action (Bytes × Headers)
unfolding finish_body read_trailers read_full feed_body read_crlf
take_chunk a s body next zero = do
  pass (finish_body a s).1
  trailers ← read_trailers a
  pure (body, trailers)
take_chunk a s body next (suc m) = do
  reject_if (ltb max_body_bytes (length body + suc m)) body_too_large
  part ← full_or (suc m)
  pass (feed_body a s part).1
  read_crlf
  next (feed_body a s part).0 (body ++ part)

-- The loop of `readChunkedBody`. A chunk adds a byte at least, up to the limit of the body.
unfoldable pub chunk_loop : ℕ → Option Automaton → Scanner → Bytes → Action (Bytes × Headers)
unfolding read_line_limited parse_chunk_size take_chunk
chunk_loop zero a s body = fail out_of_fuel
chunk_loop (suc fuel) a s body = do
  line ← read_line_limited max_header_line_bytes
  size ← lift (parse_chunk_size line)
  take_chunk a s body (chunk_loop fuel a) size

abbrev pub chunk_fuel : ℕ
chunk_fuel = suc max_body_bytes

unfoldable pub read_chunked_body : Option Automaton → Action (Bytes × Headers)
unfolding chunk_loop
read_chunked_body a = chunk_loop chunk_fuel a new_scanner []
