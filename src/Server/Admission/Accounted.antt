-- ===== src/Server/Admission/Accounted.antt =====
-- cmd/server/main.go: every connection that is accepted is accounted for.
use multi_threaded_web_serve.Core.Metrics.{
  Metrics, inc_accepted_connection, inc_queue_reject, inc_rate_limited, record_response,
}
use multi_threaded_web_serve.Core.Response.{
  Net, ResponseWriter, StatusCode, new_response_writer, status_service_unavailable,
  status_too_many_requests, write_text,
}
use multi_threaded_web_serve.Core.Response.Once.{AtMostOne, write_text-AtMostOne}
use multi_threaded_web_serve.Core.Router.{Router}
use multi_threaded_web_serve.Server.Admission.{
  Accepted, Arrival, Fate, Front, Selected, admit, after_enqueue, arrived, cancelled, dropped,
  enqueue_job, failed, handle_arrival, queued, refusal_options, refuse, refused, sent, serve_all,
  shut, timed_out,
}
use multi_threaded_web_serve.Server.Limiter.{Floats, Limiter, allow}
use multi_threaded_web_serve.Server.Settings.{Config}
use multi_threaded_web_serve.Base.{
  ℕ, suc, ◌+◌, ◌%◌, ◌^◌, ◌<◌, Bool, true, false, not, List, [], ◌∷◌, ◌≡◌, refl, sym, subst, Option,
  codes, arith, length, length-append, inl, inr, ◌==◌, ltb, leb, ◌&&◌, if◌then◌else◌,
}

module _ {C : Type 0} where
  abbrev pub is_queued : Fate C → Bool
  is_queued queued = true
  is_queued (dropped conn) = false
  is_queued (refused status conn) = false

  -- The connection was closed with an answer of this status.
  abbrev pub is_refused : ℕ → Fate C → Bool
  is_refused code queued = false
  is_refused code (dropped conn) = false
  is_refused code (refused status conn) = status.code == code

  abbrev pub fates_with : (Fate C → Bool) → List (Fate C) → ℕ
  fates_with test [] = 0
  fates_with test (fate ∷ fates) = (if test fate then 1 else 0) + fates_with test fates

-- The counters that the front keeps hold 64 bits.
abbrev pub InRange : Metrics → Type 0
InRange m =
    (m.accepted_connections < 2 ^ 64) × (m.queue_rejects < 2 ^ 64) × (m.rate_limited < 2 ^ 64)

record Kept (m m' : Metrics) : Type 0 where
  accepted : m'.accepted_connections ≡ m.accepted_connections
  rejects : m'.queue_rejects ≡ m.queue_rejects
  limits : m'.rate_limited ≡ m.rate_limited

same-Kept : (m : Metrics) → Kept m m
same-Kept m = record { accepted = refl; rejects = refl; limits = refl }

record_response-Kept : (code : ℕ) (m : Metrics) → Kept m (record_response code m)
unfolding record_response
record_response-Kept code m =
    either (leb 200 code && ltb code 300) _ _
      (record { accepted = refl; rejects = refl; limits = refl })
      (either (leb 300 code && ltb code 400) _ _
        (record { accepted = refl; rejects = refl; limits = refl })
        (either (leb 400 code && ltb code 500) _ _
          (record { accepted = refl; rejects = refl; limits = refl })
          (either (leb 500 code) _ _ (record { accepted = refl; rejects = refl; limits = refl })
            (same-Kept m))))
  where
    either : (b : Bool) (x y : Metrics) → Kept m x → Kept m y → Kept m (if b then x else y)
    either true x y h k = h
    either false x y h k = k

AtMostOne-Kept : {C : Type 0} (w w' : ResponseWriter C) → AtMostOne w w' → Kept w.metrics w'.metrics
AtMostOne-Kept w w' (inl (_, e)) = subst (Kept w.metrics) (sym e) (same-Kept w.metrics)
AtMostOne-Kept w w' (inr (_, e)) =
    subst (Kept w.metrics) (sym e) (record_response-Kept w'.status_code w.metrics)

-- The counters and the queue after `n` connections more, with these fates among them. The queue is
-- as long as all that was ever sent to it: nothing takes jobs from it here.
pub record Tally {C : Type 0} (m m' : Metrics) (jobs jobs' n : ℕ) (fates : List (Fate C))
    : Type 0 where
  pub accepted : m'.accepted_connections ≡ (m.accepted_connections + n) % 2 ^ 64
  pub rejects : m'.queue_rejects ≡ (m.queue_rejects + fates_with (is_refused 503) fates) % 2 ^ 64
  pub limits : m'.rate_limited ≡ (m.rate_limited + fates_with (is_refused 429) fates) % 2 ^ 64
  pub sent : jobs' ≡ jobs + fates_with is_queued fates

Tally-then :
    {C : Type 0} {m m' m'' : Metrics} {j j' j'' n : ℕ} (fate : Fate C) (fates : List (Fate C))
    → Tally m m' j j' 1 (fate ∷ [])
    → Tally m' m'' j' j'' n fates
    → Tally m m'' j j'' (suc n) (fate ∷ fates)
Tally-then fate fates t u = record {
  accepted = omega (arith, t.accepted, u.accepted);
  rejects = omega (arith, t.rejects, u.rejects);
  limits = omega (arith, t.limits, u.limits);
  sent = omega (arith, t.sent, u.sent);
}

Tally-InRange :
    {C : Type 0} {m m' : Metrics} {j j' n : ℕ} {fates : List (Fate C)}
    → Tally m m' j j' n fates
    → InRange m'
Tally-InRange t = (omega (arith, t.accepted), omega (arith, t.rejects), omega (arith, t.limits))

module _ {C F : Type 0} (net : Net C) (fl : Floats F) (close : C → C) (router : Option (Router C))
    (cfg : Config F) where
  refuse-Kept :
      (status : StatusCode) (conn : C) (s : Front C F)
      → Kept s.metrics (refuse net fl close router cfg status conn s).0.metrics
  unfolding refuse new_response_writer
  refuse-Kept status conn s =
      let w =
        new_response_writer net conn (codes "HTTP/1.1") s.metrics
          (refusal_options net fl close router cfg) in
      AtMostOne-Kept w (write_text net status [] w).0 (write_text-AtMostOne net status [] w refl)

  -- What the handling of a connection does to the counters, with its fate.
  abbrev Handled : Front C F → Front C F × Fate C → Type 0
  Handled s (after, fate) =
      InRange s.metrics
      → Tally s.metrics after.metrics (length s.jobs) (length after.jobs) 0 (fate ∷ [])

  full-Handled :
      (conn : C) (s : Front C F)
      → Handled s (
          refuse net fl close router cfg status_service_unavailable conn
            (record s { metrics = inc_queue_reject s.metrics }))
  unfolding refuse inc_queue_reject
  full-Handled conn s (a, q, r) =
      let k =
        refuse-Kept status_service_unavailable conn
          (record s { metrics = inc_queue_reject s.metrics }) in
      record {
        accepted = omega (arith, k.accepted, a);
        rejects = k.rejects;
        limits = omega (arith, k.limits, r);
        sent = omega arith;
      }

  limited-Handled :
      (conn : C) (s : Front C F) (l : Limiter F)
      → Handled s (
          refuse net fl close router cfg status_too_many_requests conn
            (record s { metrics = inc_rate_limited s.metrics; limiter = l }))
  unfolding refuse inc_rate_limited
  limited-Handled conn s l (a, q, r) =
      let k =
        refuse-Kept status_too_many_requests conn
          (record s { metrics = inc_rate_limited s.metrics; limiter = l }) in
      record {
        accepted = omega (arith, k.accepted, a);
        rejects = omega (arith, k.rejects, q);
        limits = k.limits;
        sent = omega arith;
      }

  selected-Handled :
      (x : Selected) (conn : C) (s : Front C F)
      → Handled s (
          after_enqueue net fl close router cfg conn (enqueue_job net fl close router cfg x conn s))
  unfolding enqueue_job
  selected-Handled sent conn s (a, q, r) = record {
    accepted = omega (arith, a);
    rejects = omega (arith, q);
    limits = omega (arith, r);
    sent = length-append s.jobs _;
  }
  selected-Handled timed_out conn s h = full-Handled conn s h
  selected-Handled cancelled conn s (a, q, r) = record {
    accepted = omega (arith, a);
    rejects = omega (arith, q);
    limits = omega (arith, r);
    sent = omega arith;
  }

  admit-Handled : (a : Arrival C) (s : Front C F) → Handled s (admit net fl close router cfg a s)
  unfolding admit
  admit-Handled a s = selected-Handled a.selected a.conn s

  one_of :
      (s : Front C F) (x y z : Front C F × Fate C) (disabled allowed : Bool)
      → Handled s x
      → Handled s y
      → Handled s z
      → Handled s (if disabled then x else if allowed then y else z)
  one_of s x y z true allowed h k l = h
  one_of s x y z false true h k l = k
  one_of s x y z false false h k l = l

  handle_arrival-Handled :
      (a : Arrival C) (s : Front C F) → Handled s (handle_arrival net fl close router cfg a s)
  unfolding handle_arrival
  handle_arrival-Handled a s =
      let (limiter, allowed) = allow fl a.client_ip a.now s.limiter in
      one_of s _ _ _ (not cfg.rate_limit_enabled) allowed (admit-Handled a s)
        (admit-Handled a (record s { limiter = limiter })) (limited-Handled a.conn s limiter)

  accepted-Tally :
      (m : Metrics) {m' : Metrics} {j j' : ℕ} {fates : List (Fate C)}
      → InRange m
      → (InRange (inc_accepted_connection m) → Tally (inc_accepted_connection m) m' j j' 0 fates)
      → Tally m m' j j' 1 fates
  unfolding inc_accepted_connection
  accepted-Tally m (a, q, r) h =
      let t = h (omega arith, q, r) in
      record {
        accepted = omega (arith, t.accepted);
        rejects = t.rejects;
        limits = t.limits;
        sent = t.sent;
      }

  -- Whatever arrives, and whatever the limiter and the queue answer, when the loop of `serve` stops:
  -- each connection that was accepted is counted as such and has one fate; it is in the queue, or
  -- it was closed. The counter of queue rejects has grown by the number of those closed with
  -- 503, the counter of rate limits by that of those closed with 429, and the queue by the number
  -- of those that are in it; each counter modulo 2^64, and started within it.
  pub serve_all-Tally :
      (arrivals : List (Accepted C)) (s : Front C F)
      → InRange s.metrics
      → let r = serve_all net fl close router cfg arrivals s in
        Tally s.metrics r.0.metrics (length s.jobs) (length r.0.jobs) (length r.1) r.1
  unfolding serve_all
  serve_all-Tally [] s (a, q, r) = record {
    accepted = omega (arith, a);
    rejects = omega (arith, q);
    limits = omega (arith, r);
    sent = omega arith;
  }
  serve_all-Tally (shut ∷ next) s (a, q, r) = record {
    accepted = omega (arith, a);
    rejects = omega (arith, q);
    limits = omega (arith, r);
    sent = omega arith;
  }
  serve_all-Tally (failed ∷ next) s h = serve_all-Tally next s h
  serve_all-Tally (arrived a ∷ next) s h =
      let counted = record s { metrics = inc_accepted_connection s.metrics } in
      let (after, fate) = handle_arrival net fl close router cfg a counted in
      let t = accepted-Tally s.metrics h (handle_arrival-Handled a counted) in
      Tally-then fate _ t (serve_all-Tally next after (Tally-InRange t))
