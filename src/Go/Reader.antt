-- ===== src/Go/Reader.antt =====
-- A bufio.Reader over a connection: what the connection is yet to deliver, in the pieces in which
-- `Read` hands it over, and the error behind them. Every sequence of sizes that `Read` may return
-- is that of some list of pieces.
use multi_threaded_web_serve.Base.{
  ℕ, zero, suc, true, false, ◌-◌, List, [], ◌∷◌, ◌++◌, Option, none, some, leb, Bytes, Result, ok,
  err, length, take, drop,
}

-- io.EOF, or another error such as a timeout.
pub data ReadError : Type 0 where
  eof : ReadError
  broken : ℕ → ReadError

pub record Reader : Type 0 where
  pub pieces : List Bytes
  pub fault : ReadError

-- All that is still to be read.
unfoldable pub content : List Bytes → Bytes
content [] = []
content (p ∷ ps) = p ++ content ps

unfoldable pub next_byte : List Bytes → Option (ℕ × List Bytes)
next_byte [] = none
next_byte ([] ∷ ps) = next_byte ps
next_byte ((b ∷ p) ∷ ps) = some (b, p ∷ ps)

-- ReadByte
unfoldable pub read_byte : Reader → Result ReadError (ℕ × Reader)
unfolding next_byte
read_byte r = elim (next_byte r.pieces) [
  | none ↦ err r.fault
  | some (b, ps) ↦ ok (b, record r { pieces = ps })
]

-- The error of io.ReadFull: that of the read, where end of input in the middle has one of its own.
pub data ShortRead : Type 0 where
  nothing_read : ReadError → ShortRead
  unexpected_eof : ShortRead

abbrev pub short_read : Bytes → ReadError → ShortRead
short_read [] e = nothing_read e
short_read (b ∷ s) eof = unexpected_eof
short_read (b ∷ s) (broken code) = nothing_read (broken code)

-- io.ReadFull: reads until `n` bytes are there; `got` is what the reads before have given.
unfoldable pub fill : ℕ → Bytes → List Bytes → ReadError → Result ShortRead (Bytes × List Bytes)
fill n got [] e = elim n [ zero ↦ ok (got, []) | suc m ↦ err (short_read got e) ]
fill n got (p ∷ ps) e = elim (leb n (length p)) [
  | true ↦ ok (got ++ take n p, drop n p ∷ ps)
  | false ↦ fill (n - length p) (got ++ p) ps e
]

unfoldable pub read_full : ℕ → Reader → Result ShortRead (Bytes × Reader)
unfolding fill
read_full n r = elim (fill n [] r.pieces r.fault) [
  | err e ↦ err e
  | ok (got, ps) ↦ ok (got, record r { pieces = ps })
]
