-- ===== src/Tests/ServerExamples.antt =====
-- The theorems on the server's core, at concrete inputs.
use multi_threaded_web_serve.Core.Connection.{ConnectionOptions, handle_connection}
use multi_threaded_web_serve.Core.Connection.Rounds.{Ends, handle_connection-Ends}
use multi_threaded_web_serve.Core.LogSink.{LogEntry, new_log_store, snapshot}
use multi_threaded_web_serve.Core.LogSink.History.{add_all, add_all-last, last, snapshot-last}
use multi_threaded_web_serve.Core.Metrics.{new_metrics}
use multi_threaded_web_serve.Core.Metrics.Counting.{
  Call, Counted, accepts, blocks, closes, count, is_close, is_open, opens, requests, responds, run,
  run-Counted, run_active,
}
use multi_threaded_web_serve.Core.Response.{status_not_found, status_ok, write_text}
use multi_threaded_web_serve.Core.Response.Once.{AtMostOne, rest, text, Writes-AtMostOne}
use multi_threaded_web_serve.Core.Router.{
  HandlerFunc, find_prefix, handle, handle_prefix, new_router, serve_http,
}
use multi_threaded_web_serve.Core.Router.Dispatch.{
  is_none, route_of, serve_http-handle, serve_http-handle_prefix,
}
use multi_threaded_web_serve.Go.Strings.{has_prefix}
use multi_threaded_web_serve.Pool.{Run, WorkerPool, closes, finishes, returns, sends, starts, takes}
use multi_threaded_web_serve.Pool.Drained.{Run-drained, count as count_jobs}
use multi_threaded_web_serve.Tests.{counting, fresh, request, reader, wire}
use multi_threaded_web_serve.Base.{
  ◌≡◌, refl, arith, ℕ, ◌+◌, ◌%◌, ◌^◌, ◌||◌, ◌&&◌, true, false, List, [], ◌∷◌, none, some, Bytes,
  codes, length, if◌then◌else◌, ltb, lookup, same, pos, magnitude, not_positive,
}

abbrev hello : HandlerFunc ℕ
hello req w = (write_text counting status_ok req.body w).0

abbrev options : ConnectionOptions
options = record {
  read_timeout = pos 0;
  write_timeout = pos 0;
  idle_timeout = pos 0;
  max_requests_per_connection = pos 3;
  disable_keep_alive = false;
}

handle_connection-Ends_example : Ends 3 (
    handle_connection counting none
      (λ sent. pos 7)
      options
      (some (handle (codes "/a") hello new_router))
      (reader wire)
      0
      new_metrics)
handle_connection-Ends_example =
    handle_connection-Ends counting none (λ sent. pos 7) options
      (some (handle (codes "/a") hello new_router)) (reader wire) 0 new_metrics

Writes-AtMostOne_example :
    AtMostOne fresh (write_text counting status_not_found [] (hello request fresh)).0
Writes-AtMostOne_example =
    Writes-AtMostOne {net = counting} (text status_ok request.body (text status_not_found [] rest))
      refl

serve_http-handle_example :
    serve_http counting (handle (codes "/a") hello new_router) request fresh ≡ (
      if same (codes "/a") (route_of request)
      then hello request fresh
      else serve_http counting new_router request fresh)
serve_http-handle_example =
    serve_http-handle counting new_router (codes "/a") hello refl request fresh

serve_http-handle_prefix_example :
    serve_http counting (handle_prefix (codes "/") hello new_router) request fresh ≡ (
      if has_prefix (route_of request) (codes "/")
        && is_none (lookup (route_of request) (new_router {C = ℕ}).routes)
        && is_none (find_prefix (route_of request) (new_router {C = ℕ}).prefix_routes)
      then hello request fresh
      else serve_http counting new_router request fresh)
serve_http-handle_prefix_example =
    serve_http-handle_prefix counting new_router (codes "/") hello refl request fresh

abbrev calls : List Call
calls = accepts ∷ opens ∷ requests ∷ responds 204 ∷ requests ∷ blocks ∷ responds 403 ∷ closes ∷ []

run-Counted_example : Counted new_metrics (run calls new_metrics) calls
run-Counted_example = run-Counted calls (omega arith)

run_active_example :
    ((run calls new_metrics).active_connections + count is_close calls) % 2 ^ 64
    ≡ count is_open calls % 2 ^ 64
run_active_example = run_active calls

abbrev entry : Bytes → LogEntry
entry message = record { time = codes "12:00"; message = message }

abbrev entries : List LogEntry
entries = entry (codes "a") ∷ entry (codes "b") ∷ entry (codes "c") ∷ []

add_all-last_example :
    (add_all (new_log_store (pos 2)) entries).entries ≡ last (new_log_store (pos 2)).max entries
add_all-last_example = add_all-last (pos 2) entries

snapshot-last_example : snapshot (add_all (new_log_store (pos 2)) entries) (pos 1) ≡ (
    if not_positive (pos 1)
      || ltb (length (last (new_log_store (pos 2)).max entries)) (magnitude (pos 1))
    then last (new_log_store (pos 2)).max entries
    else last (magnitude (pos 1)) entries)
snapshot-last_example = snapshot-last (pos 2) (pos 1) entries

-- One worker, to which one job is sent before the channel is closed.
abbrev stopped : WorkerPool ℕ
stopped = record {
  jobs = [];
  closed = true;
  waiting = 0;
  handling = [];
  returned = 1;
  handled = 7 ∷ [];
}

abbrev one_job : List ℕ
one_job = 7 ∷ []

drained : Run 1 1 one_job stopped
drained =
    returns
      (finishes (takes (closes (sends starts 7 refl (omega arith)) refl) 7 [] 0 refl refl) [] 7 []
        refl)
      0 refl refl refl

Run-drained_example :
    (count_jobs (λ job. true) one_job ≡ count_jobs (λ job. true) stopped.handled)
    × (stopped.jobs ≡ [])
Run-drained_example = Run-drained 1 1 one_job stopped drained (omega arith) refl (λ job. true)
