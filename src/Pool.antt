-- ===== src/Pool.antt =====
-- pool/pool.go: the workers and their channel as a step relation, on jobs of any type. The channel
-- is buffered, and the jobs sent are an index of the runs.
pub mod Drained
use multi_threaded_web_serve.Base.{
  ℕ, suc, ◌+◌, ◌<◌, ◌≡◌, Bool, true, false, List, [], ◌∷◌, ◌++◌, length,
}

-- Workers wait for a job, handle one, or have returned, which is `wg.Done`.
pub record WorkerPool (Job : Type 0) : Type 0 where
  pub jobs : List Job
  pub closed : Bool
  pub waiting : ℕ
  pub handling : List Job
  pub returned : ℕ
  pub handled : List Job

-- The loop of `StartWorkerPool`: so many workers wait.
abbrev pub start_worker_pool : {Job : Type 0} → ℕ → WorkerPool Job
start_worker_pool n = record {
  jobs = [];
  closed = false;
  waiting = n;
  handling = [];
  returned = 0;
  handled = [];
}

-- `Run capacity n sent p`: the pool `p` is reached from `n` workers, and `sent` were sent to it.
pub data Run {Job : Type 0} (capacity n : ℕ) : List Job → WorkerPool Job → Type 0 where
  starts : Run capacity n [] (start_worker_pool n)
  -- A send to the channel, while it is open and has room.
  sends :
      {sent : List Job} {p : WorkerPool Job}
      → Run capacity n sent p
      → (job : Job) → p.closed ≡ false
      → length p.jobs < capacity
      → Run capacity n (sent ++ job ∷ []) (record p { jobs = p.jobs ++ job ∷ [] })
  -- `range jobs` gives a waiting worker the first job.
  takes :
      {sent : List Job} {p : WorkerPool Job}
      → Run capacity n sent p
      → (job : Job) (jobs : List Job) (w : ℕ) → p.jobs ≡ job ∷ jobs
      → p.waiting ≡ suc w
      → Run capacity n sent (record p { jobs = jobs; waiting = w; handling = job ∷ p.handling })
  -- A worker is back from `HandleConnectionWithOptions`.
  finishes :
      {sent : List Job} {p : WorkerPool Job}
      → Run capacity n sent p
      → (before : List Job) (job : Job) (others : List Job) → p.handling ≡ before ++ job ∷ others
      → Run capacity n sent (record p {
        waiting = suc p.waiting;
        handling = before ++ others;
        handled = p.handled ++ job ∷ [];
      })
  -- `close` in `Stop`.
  closes :
      {sent : List Job} {p : WorkerPool Job}
      → Run capacity n sent p
      → p.closed ≡ false
      → Run capacity n sent (record p { closed = true })
  -- The loop of a worker ends on a closed channel without jobs.
  returns :
      {sent : List Job} {p : WorkerPool Job}
      → Run capacity n sent p
      → (w : ℕ) → p.closed ≡ true
      → p.jobs ≡ []
      → p.waiting ≡ suc w
      → Run capacity n sent (record p { waiting = w; returned = suc p.returned })
