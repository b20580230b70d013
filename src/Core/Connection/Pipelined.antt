-- ===== src/Core/Connection/Pipelined.antt =====
-- core/connection.go with http/parser.go: what a connection makes of requests that come one behind another.
use multi_threaded_web_serve.Core.Connection.{
  Closed, ConnectionOptions, handle_connection, or_default, parse_failed, rounds, serve,
  with_defaults,
}
use multi_threaded_web_serve.Core.Connection.Rounds.{or_default-positive, serve-remaining}
use multi_threaded_web_serve.Core.Metrics.{
  Metrics, dec_active_connection, inc_active_connection, inc_request,
}
use multi_threaded_web_serve.Core.Response.{Net}
use multi_threaded_web_serve.Core.Router.{Router}
use multi_threaded_web_serve.Go.Reader.{ReadError, Reader, eof}
use multi_threaded_web_serve.Go.Reading.{read_byte-ReadsByte, rest}
use multi_threaded_web_serve.Http.Action.{
  Action, ParseError, byte_or, end_of_input, is_eof, of_byte, ◌>>=◌,
}
use multi_threaded_web_serve.Http.Chars.{max_request_line_bytes}
use multi_threaded_web_serve.Http.Complete.Whole.{
  IsMessage, Message, meaning, parse_request-wire, wire,
}
use multi_threaded_web_serve.Http.Parser.{Request, parse, parse_request}
use multi_threaded_web_serve.Http.Read.{line_fault, read_line, read_line_limited, read_request_line}
use multi_threaded_web_serve.Waf.Automaton.{Automaton}
use multi_threaded_web_serve.Base.{
  ℕ, zero, suc, ◌+◌, ◌≤◌, ◌<◌, Bool, true, false, not, All, List, [], ◌∷◌, ◌++◌, Option, some, map,
  if◌then◌else◌, Bytes, Result, ok, err, length, ltb, ℤ, magnitude, ◌≡◌, refl, ap, ◌∙◌, inl, inr,
  arith,
}

bind_fails :
    {A B : Type 0} (m : Action A) (f : A → Action B) (r : Reader) {e : ParseError}
    → m r ≡ err e
    → (m >>= f) r ≡ err e
bind_fails {A} {B} m f r h = ap (λ (x : Result ParseError (A × Reader)). next x) h
  where
    next : Result ParseError (A × Reader) → Result ParseError (B × Reader)
    next (err e) = err e
    next (ok (a, q)) = f a q

-- The reader is at its end.
abbrev AtEnd : Reader → Type 0
AtEnd r = (rest r ≡ []) × (r.fault ≡ eof)

byte_or-end :
    (wrap : ReadError → ParseError) (r : Reader) → AtEnd r → byte_or wrap r ≡ err (wrap eof)
byte_or-end wrap r (nothing, f) = elim (read_byte-ReadsByte r) [
  | inr (b, q, some_left, _, _) ↦ absurd (cc)
  | inl (_, e) ↦ ap (of_byte wrap) (e ∙ ap err f)
]

read_line_limited-end :
    (max : ℕ) (r : Reader) → AtEnd r → read_line_limited max r ≡ err end_of_input
unfolding read_line_limited read_line
read_line_limited-end zero r h =
    bind_fails (byte_or (line_fault [])) _ r (byte_or-end (line_fault []) r h)
read_line_limited-end (suc n) r h =
    bind_fails (byte_or (line_fault [])) _ r (byte_or-end (line_fault []) r h)

-- At the end of the input there is no request.
parse_request-end :
    (a : Option Automaton) (r : Reader) → AtEnd r → parse_request a r ≡ err end_of_input
unfolding parse_request read_request_line
parse_request-end a r h = bind_fails (read_request_line a) _ r (
    bind_fails (read_line_limited max_request_line_bytes) _ r
      (read_line_limited-end max_request_line_bytes r h))

-- The bytes of messages, one behind another.
abbrev pub wires : List Message → Bytes
wires [] = []
wires (m ∷ ms) = wire m ++ wires ms

module _ {C : Type 0} (net : Net C) (waf : Option Automaton) (o : ConnectionOptions) (since : C → ℤ)
    (router : Router C) where
  -- The life of a connection on requests that need no parsing: each is served in turn, behind its
  -- deadline, until one after which the connection does not stay or there is none left.
  pub serve_each : List Request → ℕ → C → Metrics → Closed C
  serve_each [] served conn m =
      let (conn', set) =
        net.set_read_deadline (if ltb 0 served then o.idle_timeout else o.read_timeout) conn in
      record { conn = conn'; metrics = m; served = served }
  serve_each (req ∷ more) served conn m =
      let (conn', set) =
        net.set_read_deadline (if ltb 0 served then o.idle_timeout else o.read_timeout) conn in
      let (w, keep_alive) = serve net waf o since router req served conn' (inc_request m) in
      let rest = serve_each more (suc served) w.conn w.metrics in
      if not set
      then record { conn = conn'; metrics = m; served = served }
      else if keep_alive
      then rest
      else record { conn = w.conn; metrics = w.metrics; served = suc served }

  same_ends : (b : Bool) (c : Closed C) → (if b then some c else some c) ≡ some c
  same_ends true c = refl
  same_ends false c = refl

  -- Where the branches of the rounds give those of the reference, so do the rounds.
  same_branches :
      (unset keeps : Bool) (x y z : Closed C) (next : Option (Closed C))
      → (keeps ≡ true → next ≡ some y)
      → (if unset then some x else if keeps then next else some z)
        ≡ some (if unset then x else if keeps then y else z)
  same_branches true keeps x y z next h = refl
  same_branches false true x y z next h = h refl
  same_branches false false x y z next h = refl

  rounds-serve_each :
      (ms : List Message) (fuel served : ℕ) (r : Reader) (conn : C) (m : Metrics)
      → All (IsMessage waf) ms
      → rest r ≡ wires ms
      → r.fault ≡ eof
      → 0 < length ms + served
      → magnitude o.max_requests_per_connection ≤ served + fuel
      → 0 < fuel
      → rounds net waf o since fuel (some router) served r conn m
        ≡ some (serve_each (map meaning ms) served conn m)
  unfolding rounds serve_each parse parse_failed is_eof
  rounds-serve_each ms zero served r conn m is c f some_done bound fuelled =
      absurd (omega (arith, fuelled))
  rounds-serve_each [] (suc fuel) served r conn m is c f some_done bound fuelled =
      let again : ltb 0 served ≡ true = ground (arith, some_done) in
      rw (rounds, parse_request-end waf r (c, f), again) (same_ends _ _)
  rounds-serve_each (msg ∷ ms) (suc fuel) served r conn m (i, is) c f some_done bound fuelled =
      let (q, parsed, left, same_fault) = parse_request-wire waf msg (wires ms) r i c in
      let (conn', set) =
        net.set_read_deadline (if ltb 0 served then o.idle_timeout else o.read_timeout) conn in
      let (w, keep_alive) =
        serve net waf o since router (meaning msg) served conn' (inc_request m) in
      rw (rounds, parsed)
        (same_branches (not set) keep_alive _ _ _ _ λ keeps.
          let more =
            serve-remaining net waf o since router (meaning msg) served conn' (inc_request m)
              keeps in
          rounds-serve_each ms fuel (suc served) q w.conn w.metrics is left (same_fault ∙ f)
            (omega arith) (omega (arith, bound)) (omega (arith, bound, more)))

-- A client sends well-formed requests, one at least, one behind another, in whatever pieces, and
-- then ends its side. Whatever the handlers do and however the calls of the network fare, the
-- connection does with them what the reference does that is given the requests themselves: each is
-- served once and in the order sent, behind its deadline, until one after which the connection
-- does not stay, a deadline that is not set, or the end of the input.
pub handle_connection-serve_each :
    {C : Type 0} (net : Net C) (waf : Option Automaton) (since : C → ℤ) (o : ConnectionOptions)
    (router : Router C) (msg : Message) (ms : List Message) (r : Reader) (conn : C) (m : Metrics)
    → All (IsMessage waf) (msg ∷ ms)
    → rest r ≡ wires (msg ∷ ms)
    → r.fault ≡ eof
    → handle_connection net waf since o (some router) r conn m ≡ (
        let c =
          serve_each net waf
            (with_defaults o)
            since
            router
            (map meaning (msg ∷ ms))
            0
            conn
            (inc_active_connection m) in
        some (record c { metrics = dec_active_connection c.metrics }))
unfolding handle_connection with_defaults
handle_connection-serve_each net waf since o router msg ms r conn m is c f =
    let n = magnitude (or_default o.max_requests_per_connection 100) in
    rw
      (
        handle_connection,
        rounds-serve_each net waf (with_defaults o) since router (msg ∷ ms) n 0 r conn
            (inc_active_connection m) is c f (omega arith) (omega arith)
            (or_default-positive o.max_requests_per_connection 100 (omega arith)),
      )
      refl
