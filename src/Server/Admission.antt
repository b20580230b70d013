-- ===== src/Server/Admission.antt =====
-- cmd/server/main.go with pool/pool.go: the admission of connections, with the queue of the jobs, the
-- limiter and the metrics as they stand after the calls before. Logging is left out.
pub mod Accounted
use multi_threaded_web_serve.Core.Connection.{ConnectionOptions}
use multi_threaded_web_serve.Core.Metrics.{
  Metrics, inc_accepted_connection, inc_queue_reject, inc_rate_limited,
}
use multi_threaded_web_serve.Core.Response.{
  Net, ResponseOptions, StatusCode, new_response_writer, status_service_unavailable,
  status_too_many_requests, write_text,
}
use multi_threaded_web_serve.Core.Router.{Router}
use multi_threaded_web_serve.Server.Limiter.{Floats, Limiter, allow}
use multi_threaded_web_serve.Server.Settings.{Config}
use multi_threaded_web_serve.Base.{
  ℕ, zero, suc, Bool, true, false, not, List, [], ◌∷◌, ◌++◌, Option, none, some, Bytes, codes, ℤ,
  pos, if◌then◌else◌,
}

pub record Job (C : Type 0) : Type 0 where
  pub conn : C
  pub router : Option (Router C)
  pub options : ConnectionOptions

-- The case that the `select` of `enqueueJob` takes. It takes the first only where the channel has room.
pub data Selected : Type 0 where
  sent timed_out cancelled : Selected

-- What becomes of a connection: it is a job in the queue, or it has been closed, with an answer of
-- the status or without one.
pub data Fate (C : Type 0) : Type 0 where
  queued : Fate C
  dropped : C → Fate C
  refused : StatusCode → C → Fate C

pub record Front (C F : Type 0) : Type 0 where
  pub jobs : List (Job C)
  pub limiter : Limiter F
  pub metrics : Metrics

-- A connection that has been accepted: its peer's address, and the moment when the limiter is asked.
pub record Arrival (C : Type 0) : Type 0 where
  pub conn : C
  pub client_ip : Bytes
  pub now : ℕ
  pub selected : Selected

-- An outcome of `Accept`: the error of a closed listener or a cancelled context ends the loop.
pub data Accepted (C : Type 0) : Type 0 where
  arrived : Arrival C → Accepted C
  failed shut : Accepted C

module _ {C F : Type 0} (net : Net C) (fl : Floats F) (close : C → C) (router : Option (Router C))
    (cfg : Config F) where
  abbrev pub connection_options : ConnectionOptions
  connection_options = record {
    read_timeout = cfg.read_timeout;
    write_timeout = cfg.write_timeout;
    idle_timeout = cfg.idle_timeout;
    max_requests_per_connection = cfg.max_keep_alive;
    disable_keep_alive = false;
  }

  abbrev pub refusal_options : ResponseOptions
  refusal_options = record {
    write_timeout = cfg.write_timeout;
    keep_alive = false;
    keep_alive_timeout = pos 0;
    keep_alive_max_requests = pos 0;
  }

  -- A text of the status is written, and the connection is closed.
  unfoldable pub refuse : StatusCode → C → Front C F → Front C F × Fate C
  unfolding new_response_writer write_text
  refuse status conn s =
      let w = new_response_writer net conn (codes "HTTP/1.1") s.metrics refusal_options in
      let (written, done) = write_text net status [] w in
      (record s { metrics = written.metrics }, refused status (close written.conn))

  -- The fate of the job's connection; `none` is the answer false.
  unfoldable pub enqueue_job : Selected → C → Front C F → Front C F × Option (Fate C)
  enqueue_job sent conn s = (
    record s {
      jobs = s.jobs ++ record { conn = conn; router = router; options = connection_options } ∷ [];
    },
    some queued,
  )
  enqueue_job timed_out conn s = (s, none)
  enqueue_job cancelled conn s = (s, some (dropped (close conn)))

  abbrev pub after_enqueue : C → Front C F × Option (Fate C) → Front C F × Fate C
  after_enqueue conn (s, some fate) = (s, fate)
  after_enqueue conn (s, none) =
      refuse status_service_unavailable conn (record s { metrics = inc_queue_reject s.metrics })

  -- The connection behind the limiter.
  unfoldable pub admit : Arrival C → Front C F → Front C F × Fate C
  unfolding enqueue_job refuse inc_queue_reject
  admit a s = after_enqueue a.conn (enqueue_job a.selected a.conn s)

  unfoldable pub handle_arrival : Arrival C → Front C F → Front C F × Fate C
  unfolding admit refuse inc_rate_limited allow
  handle_arrival a s =
      let (limiter, allowed) = allow fl a.client_ip a.now s.limiter in
      let asked = record s { limiter = limiter } in
      let limited =
        refuse status_too_many_requests a.conn
          (record asked { metrics = inc_rate_limited s.metrics }) in
      if not cfg.rate_limit_enabled then admit a s else if allowed then admit a asked else limited

  -- The loop over what `Accept` returns, with the fates of the connections.
  unfoldable pub serve_all : List (Accepted C) → Front C F → Front C F × List (Fate C)
  unfolding handle_arrival inc_accepted_connection
  serve_all [] s = (s, [])
  serve_all (shut ∷ next) s = (s, [])
  serve_all (failed ∷ next) s = serve_all next s
  serve_all (arrived a ∷ next) s =
      let (after, fate) =
        handle_arrival a (record s { metrics = inc_accepted_connection s.metrics }) in
      let (end, fates) = serve_all next after in (end, fate ∷ fates)
