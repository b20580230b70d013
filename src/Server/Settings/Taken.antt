-- ===== src/Server/Settings/Taken.antt =====
-- config/config.go with cmd/server/main.go and core/connection.go: the settings that are loaded are those
-- that a connection goes by.
use multi_threaded_web_serve.Core.Connection.{
  ConnectionOptions, handle_connection, or_default, with_defaults,
}
use multi_threaded_web_serve.Core.Connection.Rounds.{Ends, handle_connection-Ends}
use multi_threaded_web_serve.Core.Metrics.{Metrics, inc_accepted_connection}
use multi_threaded_web_serve.Core.Response.{Net}
use multi_threaded_web_serve.Core.Router.{Router}
use multi_threaded_web_serve.Go.Reader.{Reader}
use multi_threaded_web_serve.Go.Strings.{trim_space}
use multi_threaded_web_serve.Server.Admission.{
  Accepted, Arrival, Fate, Front, Job, Selected, admit, after_enqueue, arrived, cancelled,
  connection_options, enqueue_job, failed, handle_arrival, refuse, sent, serve_all, shut, timed_out,
}
use multi_threaded_web_serve.Server.Limiter.{Floats, Limiter, allow}
use multi_threaded_web_serve.Server.Settings.{
  Config, Parsing, default_idle_timeout, default_max_keep_alive, default_read_timeout,
  default_write_timeout, env_duration, env_int, load, positive_or,
}
use multi_threaded_web_serve.Waf.Automaton.{Automaton}
use multi_threaded_web_serve.Base.{
  ℕ, List, [], ◌∷◌, All, All-append, not, Bool, true, false, ◌≡◌, refl, subst, Option, none, some,
  Bool-cases, inl, inr, Bytes, is_empty, ℤ, magnitude, not_positive, if◌then◌else◌,
}

positive_or-positive :
    (fallback : ℤ) (n : Option ℤ)
    → not_positive fallback ≡ false
    → not_positive (positive_or fallback n) ≡ false
positive_or-positive fallback none h = h
positive_or-positive fallback (some n) h = elim (Bool-cases (not_positive n)) [
  | inl y ↦ rw y h
  | inr m ↦ rw m m
]

either : {A : Type 0} (P : A → Type 0) (b : Bool) (x y : A) → P x → P y → P (if b then x else y)
either P true x y h k = h
either P false x y h k = k

module _ {F : Type 0} (getenv : Bytes → Bytes) (p : Parsing F) where
  env_int-positive :
      (name : Bytes) (fallback : ℤ)
      → not_positive fallback ≡ false
      → not_positive (env_int getenv name fallback) ≡ false
  unfolding env_int
  env_int-positive name fallback h =
      either (λ n. not_positive n ≡ false) (is_empty (trim_space (getenv name))) fallback _ h
        (positive_or-positive fallback _ h)

  env_duration-positive :
      (name : Bytes) (fallback : ℤ)
      → not_positive fallback ≡ false
      → not_positive (env_duration getenv p name fallback) ≡ false
  unfolding env_duration
  env_duration-positive name fallback h =
      either (λ n. not_positive n ≡ false) (is_empty (trim_space (getenv name))) fallback _ h
        (positive_or-positive fallback _ h)

or_default-positive : (n : ℤ) (d : ℕ) → not_positive n ≡ false → or_default n d ≡ n
or_default-positive n d h = rw h refl

with_defaults-positive :
    (o : ConnectionOptions)
    → not_positive o.read_timeout ≡ false
    → not_positive o.write_timeout ≡ false
    → not_positive o.idle_timeout ≡ false
    → not_positive o.max_requests_per_connection ≡ false
    → with_defaults o ≡ o
unfolding with_defaults
with_defaults-positive o a b c d = rw (a, b, c, d) refl

module _ {C F : Type 0} (net : Net C) (fl : Floats F) (close : C → C) (router : Option (Router C))
    (cfg : Config F) where
  -- What the front does keeps what is true of the queued jobs, where it is true of every job that
  -- the front makes.
  module _ (P : Job C → Type 0)
      (made : (conn : C)
        → P (record {
          conn = conn;
          router = router;
          options = connection_options net fl close router cfg;
        })) where
    abbrev Queued : Front C F × Fate C → Type 0
    Queued (s, fate) = All P s.jobs

    after_enqueue-Queued :
        (x : Selected) (conn : C) (s : Front C F)
        → All P s.jobs
        → let r = enqueue_job net fl close router cfg x conn s in
          Queued (after_enqueue net fl close router cfg conn r)
    unfolding enqueue_job refuse
    after_enqueue-Queued sent conn s h = All-append P s.jobs _ h (made conn, tt)
    after_enqueue-Queued timed_out conn s h = h
    after_enqueue-Queued cancelled conn s h = h

    handle_arrival-Queued :
        (a : Arrival C) (s : Front C F)
        → All P s.jobs
        → Queued (handle_arrival net fl close router cfg a s)
    unfolding handle_arrival admit refuse
    handle_arrival-Queued a s h =
        let (limiter, allowed) = allow fl a.client_ip a.now s.limiter in
        let asked = record s { limiter = limiter } in
        either Queued (not cfg.rate_limit_enabled) _ _ (after_enqueue-Queued a.selected a.conn s h)
          (either Queued allowed _ _ (after_enqueue-Queued a.selected a.conn asked h) h)

    serve_all-Queued :
        (arrivals : List (Accepted C)) (s : Front C F)
        → All P s.jobs
        → All P (serve_all net fl close router cfg arrivals s).0.jobs
    unfolding serve_all
    serve_all-Queued [] s h = h
    serve_all-Queued (shut ∷ next) s h = h
    serve_all-Queued (failed ∷ next) s h = serve_all-Queued next s h
    serve_all-Queued (arrived a ∷ next) s h =
        let counted = record s { metrics = inc_accepted_connection s.metrics } in
        let after = (handle_arrival net fl close router cfg a counted).0 in
        serve_all-Queued next after (handle_arrival-Queued a counted h)

-- The defaults of a connection replace none of the job's options, and the loop of its connection ends,
-- with at most as many requests as the settings allow.
abbrev pub IsTaken :
    {C F : Type 0}
    → Net C
    → Option Automaton
    → (C → ℤ)
    → Reader
    → Metrics
    → Config F
    → Job C
    → Type 0
IsTaken net waf since r m cfg j =
    (with_defaults j.options ≡ j.options)
    × Ends (magnitude cfg.max_keep_alive)
        (handle_connection net waf since j.options j.router r j.conn m)

module _ {C F : Type 0} (net : Net C) (fl : Floats F) (close : C → C) (router : Option (Router C))
    (getenv : Bytes → Bytes) (p : Parsing F) where
  made-IsTaken :
      (waf : Option Automaton) (since : C → ℤ) (r : Reader) (m : Metrics) (conn : C)
      → let cfg = load getenv p in
        IsTaken net waf since r m cfg (record {
          conn = conn;
          router = router;
          options = connection_options net fl close router cfg;
        })
  unfolding load
  made-IsTaken waf since r m conn =
      let cfg = load getenv p in
      let o = connection_options net fl close router cfg in
      let max : not_positive cfg.max_keep_alive ≡ false =
        env_int-positive getenv p _ default_max_keep_alive refl in
      let kept : with_defaults o ≡ o =
        with_defaults-positive o (env_duration-positive getenv p _ default_read_timeout refl)
          (env_duration-positive getenv p _ default_write_timeout refl)
          (env_duration-positive getenv p _ default_idle_timeout refl) max in
      (
        kept,
        subst (λ n. Ends (magnitude n) (handle_connection net waf since o router r conn m))
            (or_default-positive cfg.max_keep_alive 100 max)
            (handle_connection-Ends net waf since o router r conn m),
      )

  -- Whatever the environment holds, and whatever arrives at a server with the loaded settings and
  -- an empty queue: the defaults of a connection replace none of the options of a job that is then
  -- in the queue, and whatever its connection delivers, however the writes fare and whatever the
  -- handlers do, the loop of the connection ends, with at most as many requests as the loaded
  -- `max_keep_alive`.
  pub load-IsTaken :
      (waf : Option Automaton) (since : C → ℤ) (r : Reader) (m : Metrics)
      → (arrivals : List (Accepted C)) (limiter : Limiter F) (before : Metrics)
      → let cfg = load getenv p in
        let s : Front C F = record { jobs = []; limiter = limiter; metrics = before } in
        All (IsTaken net waf since r m cfg) (serve_all net fl close router cfg arrivals s).0.jobs
  load-IsTaken waf since r m arrivals limiter before =
      serve_all-Queued net fl close router (load getenv p)
        (IsTaken net waf since r m (load getenv p)) (made-IsTaken waf since r m) arrivals
        (record { jobs = []; limiter = limiter; metrics = before }) tt
