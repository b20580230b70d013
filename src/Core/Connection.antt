-- ===== src/Core/Connection.antt =====
-- core/connection.go: the life of a connection. The bytes that it will deliver are the reader; logging is left out.
pub mod Rounds
pub mod Pipelined
use multi_threaded_web_serve.Core.Metrics.{
  Metrics, dec_active_connection, inc_active_connection, inc_parse_reject, inc_request,
  inc_waf_block, record_request_duration,
}
use multi_threaded_web_serve.Core.Response.{
  Net, ResponseOptions, ResponseWriter, new_response_writer, status_bad_request, status_forbidden,
  status_internal_server_error, write_error_response, write_text, StatusCode,
}
use multi_threaded_web_serve.Core.Router.{Router, serve_http}
use multi_threaded_web_serve.Go.Reader.{Reader}
use multi_threaded_web_serve.Go.Strings.{lower, split, trim_space}
use multi_threaded_web_serve.Http.Action.{ParseError, blocked, is_eof}
use multi_threaded_web_serve.Http.Parser.{Request, parse}
use multi_threaded_web_serve.Waf.Automaton.{Automaton}
use multi_threaded_web_serve.Base.{
  ℕ, zero, suc, ◌+◌, ◌-◌, ◌*◌, Bool, true, false, not, ◌&&◌, ◌||◌, List, [], ◌∷◌, Option, none,
  some, map, if◌then◌else◌, Bytes, codes, same, lookup, Result, ok, err, ltb, leb, ℤ, pos,
  not_positive, magnitude,
}

pub record ConnectionOptions : Type 0 where
  pub read_timeout : ℤ
  pub write_timeout : ℤ
  pub idle_timeout : ℤ
  pub max_requests_per_connection : ℤ
  pub disable_keep_alive : Bool

abbrev second : ℕ
second = 1000000000

abbrev pub or_default : ℤ → ℕ → ℤ
or_default n d = if not_positive n then pos d else n

unfoldable pub with_defaults : ConnectionOptions → ConnectionOptions
with_defaults o = record {
  read_timeout = or_default o.read_timeout (5 * second);
  write_timeout = or_default o.write_timeout (5 * second);
  idle_timeout = or_default o.idle_timeout (30 * second);
  max_requests_per_connection = or_default o.max_requests_per_connection 100;
  disable_keep_alive = o.disable_keep_alive;
}

unfoldable pub asks_close : List Bytes → Bool
unfolding trim_space
asks_close [] = false
asks_close (token ∷ tokens) = same (trim_space token) (codes "close") || asks_close tokens

abbrev pub header_or_empty : Option Bytes → Bytes
header_or_empty none = []
header_or_empty (some s) = s

-- `strings.ToLower` is taken on ASCII: no other rune has a lower case in "close".
unfoldable pub should_keep_alive : Request → Bool → ℕ → Bool
unfolding asks_close lookup split
should_keep_alive req disabled remaining =
    if disabled || leb remaining 0
    then false
    else not (
        asks_close
          (split b',' [] (map lower (header_or_empty (lookup (codes "Connection") req.headers)))))

-- The connection and the metrics when the loop has returned, and the requests it had served.
pub record Closed (C : Type 0) : Type 0 where
  pub conn : C
  pub metrics : Metrics
  pub served : ℕ

module _ {C : Type 0} (net : Net C) (waf : Option Automaton) (o : ConnectionOptions)
    (since : C → ℤ) where
  abbrev pub error_options : ResponseOptions
  error_options = record {
    write_timeout = o.write_timeout;
    keep_alive = false;
    keep_alive_timeout = pos 0;
    keep_alive_max_requests = pos 0;
  }

  unfoldable pub answer_error : Bytes → StatusCode → ℕ → C → Metrics → Closed C
  unfolding write_error_response
  answer_error version status served conn m =
      let (conn', m') = write_error_response net version status error_options conn m in
      record { conn = conn'; metrics = m'; served = served }

  -- The branch of a request that does not parse.
  unfoldable pub parse_failed : ParseError → ℕ → C → Metrics → Closed C
  unfolding is_eof
  parse_failed (blocked m) served conn ms =
      answer_error (codes "HTTP/1.1") status_forbidden served conn (inc_waf_block ms)
  parse_failed e served conn ms =
      if is_eof e && ltb 0 served
      then record { conn = conn; metrics = ms; served = served }
      else answer_error (codes "HTTP/1.1") status_bad_request served conn (inc_parse_reject ms)

  -- A handler that has written nothing is answered for, and the connection ends.
  unfoldable pub finish : ResponseWriter C → Bool → ResponseWriter C × Bool
  unfolding write_text
  finish w keep_alive =
      let (failed, sent) =
        write_text net status_internal_server_error status_internal_server_error.body w in
      if w.wrote then (w, keep_alive) else (failed, false)

  -- One request on a router: what the writer holds after, and whether the connection stays.
  unfoldable pub serve : Router C → Request → ℕ → C → Metrics → ResponseWriter C × Bool
  unfolding serve_http finish new_response_writer should_keep_alive record_request_duration
  serve router req served conn m =
      let remaining = magnitude o.max_requests_per_connection - served - 1 in
      let keep_alive = should_keep_alive req o.disable_keep_alive remaining in
      let writer = new_response_writer net conn req.version m (record {
        write_timeout = o.write_timeout;
        keep_alive = keep_alive;
        keep_alive_timeout = o.idle_timeout;
        keep_alive_max_requests = pos remaining;
      }) in
      let w = serve_http net router req writer in
      let timed = record w { metrics = record_request_duration (since w.conn) w.metrics } in
      finish timed keep_alive

  -- The loop, on fuel: `none` is its end.
  unfoldable pub rounds : ℕ → Option (Router C) → ℕ → Reader → C → Metrics → Option (Closed C)
  unfolding parse serve parse_failed answer_error inc_request
  rounds zero router served r conn m = none
  rounds (suc fuel) router served r conn m =
      let (conn', set) =
        net.set_read_deadline (if ltb 0 served then o.idle_timeout else o.read_timeout) conn in
      if not set
      then some (record { conn = conn'; metrics = m; served = served })
      else elim (parse waf (some r)) [
        | err e ↦ some (parse_failed e served conn' m)
        | ok (req, r') ↦ elim router [
          | none ↦
              some
                (answer_error req.version status_internal_server_error served conn' (inc_request m))
          | some table ↦
              let (w, keep_alive) = serve table req served conn' (inc_request m) in
              let rest = rounds fuel (some table) (suc served) r' w.conn w.metrics in
              if keep_alive
              then rest
              else some (record { conn = w.conn; metrics = w.metrics; served = suc served })
        ]
      ]

unfoldable pub handle_connection :
    {C : Type 0}
    → Net C
    → Option Automaton
    → (C → ℤ)
    → ConnectionOptions
    → Option (Router C)
    → Reader
    → C
    → Metrics
    → Option (Closed C)
unfolding rounds with_defaults inc_active_connection dec_active_connection
handle_connection net waf since options router r conn m =
    let o = with_defaults options in
    elim (rounds net waf o since (magnitude o.max_requests_per_connection) router 0 r conn
      (inc_active_connection m)) [
        | none ↦ none
        | some closed ↦ some (record closed { metrics = dec_active_connection closed.metrics })
      ]
