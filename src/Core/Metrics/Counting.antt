-- ===== src/Core/Metrics/Counting.antt =====
-- core/metrics.go: what the counters hold after any sequence of calls.
use multi_threaded_web_serve.Core.Metrics.{
  Metrics, dec_active_connection, inc_accepted_connection, inc_active_connection, inc_parse_reject,
  inc_queue_reject, inc_rate_limited, inc_request, inc_waf_block, new_metrics,
  record_request_duration, record_response,
}
use multi_threaded_web_serve.Base.{
  ℕ, ◌+◌, ◌%◌, ◌^◌, ◌≤◌, ◌<◌, Bool, true, false, ◌&&◌, List, [], ◌∷◌, ◌≡◌, refl, arith, ltb, leb,
  if◌then◌else◌, length, suc, ℤ, pos,
}

pub data Call : Type 0 where
  accepts opens closes requests blocks rejects queue_rejects limits : Call
  takes : ℤ → Call
  responds : ℕ → Call

pub call : Call → Metrics → Metrics
call accepts = inc_accepted_connection
call opens = inc_active_connection
call closes = dec_active_connection
call requests = inc_request
call blocks = inc_waf_block
call rejects = inc_parse_reject
call queue_rejects = inc_queue_reject
call limits = inc_rate_limited
call (takes d) = record_request_duration d
call (responds status) = record_response status

pub run : List Call → Metrics → Metrics
run [] m = m
run (c ∷ cs) m = run cs (call c m)

abbrev pub count : (Call → Bool) → List Call → ℕ
count p [] = 0
count p (c ∷ cs) = (if p c then 1 else 0) + count p cs

abbrev pub is_request : Call → Bool
is_request requests = true
is_request _ = false

abbrev pub is_block : Call → Bool
is_block blocks = true
is_block _ = false

abbrev pub is_reject : Call → Bool
is_reject rejects = true
is_reject _ = false

abbrev pub is_open : Call → Bool
is_open opens = true
is_open _ = false

abbrev pub is_close : Call → Bool
is_close closes = true
is_close _ = false

-- A response with a status from `lo` on, and below `hi`.
abbrev pub responds_in : ℕ → ℕ → Call → Bool
responds_in lo hi (responds status) = leb lo status && ltb status hi
responds_in lo hi _ = false

abbrev pub responds_from : ℕ → Call → Bool
responds_from lo (responds status) = leb lo status
responds_from lo _ = false

-- The counters, below 2 ^ 64 after so many calls more.
record Room (m : Metrics) (n : ℕ) : Type 0 where
  room_2xx : m.responses_2xx + n < 2 ^ 64
  room_3xx : m.responses_3xx + n < 2 ^ 64
  room_4xx : m.responses_4xx + n < 2 ^ 64
  room_5xx : m.responses_5xx + n < 2 ^ 64
  room_requests : m.total_requests + n < 2 ^ 64
  room_blocks : m.waf_blocks + n < 2 ^ 64
  room_rejects : m.parse_rejects + n < 2 ^ 64

abbrev pub Counted : Metrics → Metrics → List Call → Type 0
Counted m m' cs =
    (m'.responses_2xx ≡ m.responses_2xx + count (responds_in 200 300) cs)
    × (m'.responses_3xx ≡ m.responses_3xx + count (responds_in 300 400) cs)
    × (m'.responses_4xx ≡ m.responses_4xx + count (responds_in 400 500) cs)
    × (m'.responses_5xx ≡ m.responses_5xx + count (responds_from 500) cs)
    × (m'.total_requests ≡ m.total_requests + count is_request cs)
    × (m'.waf_blocks ≡ m.waf_blocks + count is_block cs)
    × (m'.parse_rejects ≡ m.parse_rejects + count is_reject cs)

call-Counted : (c : Call) (m : Metrics) → Room m 1 → Counted m (call c m) (c ∷ [])
unfolding call inc_accepted_connection inc_active_connection dec_active_connection inc_request
    inc_waf_block inc_parse_reject inc_queue_reject inc_rate_limited record_request_duration
    record_response
call-Counted (takes (pos ns)) m h = omega arith
call-Counted _ m h = ground arith

count-le : (p : Call → Bool) (cs : List Call) → count p cs ≤ length cs
count-le p [] = omega arith
count-le p (c ∷ cs) = ground (arith, count-le p cs)

call-Room : (c : Call) (m : Metrics) (n : ℕ) → Room m (suc n) → Room (call c m) n
call-Room c m n h =
    let (a, b, d, e, f, g, i) = call-Counted c m (omega arith) in
    let one = λ (p : Call → Bool). count-le p (c ∷ []) in
    record {
      room_2xx = omega (arith, a, one (responds_in 200 300));
      room_3xx = omega (arith, b, one (responds_in 300 400));
      room_4xx = omega (arith, d, one (responds_in 400 500));
      room_5xx = omega (arith, e, one (responds_from 500));
      room_requests = omega (arith, f, one is_request);
      room_blocks = omega (arith, g, one is_block);
      room_rejects = omega (arith, i, one is_reject);
    }

run-Counted_from : (cs : List Call) (m : Metrics) → Room m (length cs) → Counted m (run cs m) cs
unfolding run
run-Counted_from [] m h = omega arith
run-Counted_from (c ∷ cs) m h = omega (
  arith,
  call-Counted c m (omega arith),
  run-Counted_from cs (call c m) (call-Room c m (length cs) h),
)

-- After fewer than 2 ^ 64 calls of any kinds, in any order, on fresh metrics, each response counter
-- holds the number of responses recorded with a status of its class (from 500 on for the last), and
-- the counters of requests, blocks and rejects hold the numbers of their calls.
pub run-Counted :
    (cs : List Call) → length cs < 2 ^ 64 → Counted new_metrics (run cs new_metrics) cs
run-Counted cs h = run-Counted_from cs new_metrics (omega arith)

call_active :
    (c : Call) (m : Metrics)
    → ((call c m).active_connections + count is_close (c ∷ [])) % 2 ^ 64
      ≡ (m.active_connections + count is_open (c ∷ [])) % 2 ^ 64
unfolding call inc_accepted_connection inc_active_connection dec_active_connection inc_request
    inc_waf_block inc_parse_reject inc_queue_reject inc_rate_limited record_request_duration
    record_response
call_active (takes (pos ns)) m = omega arith
call_active _ m = ground arith

run_active_from :
    (cs : List Call) (m : Metrics)
    → ((run cs m).active_connections + count is_close cs) % 2 ^ 64
      ≡ (m.active_connections + count is_open cs) % 2 ^ 64
unfolding run
run_active_from [] m = refl
run_active_from (c ∷ cs) m = omega (arith, call_active c m, run_active_from cs (call c m))

-- The gauge of active connections: after any calls it and the closed connections make up, modulo
-- 2 ^ 64, the opened ones. The decrement by adding 2 ^ 64 - 1 takes one back exactly.
pub run_active :
    (cs : List Call)
    → ((run cs new_metrics).active_connections + count is_close cs) % 2 ^ 64
      ≡ count is_open cs % 2 ^ 64
run_active cs = omega (arith, run_active_from cs new_metrics)
