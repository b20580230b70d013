-- ===== src/Pool/Drained.antt =====
-- pool/pool.go: what `Stop` waits for.
use multi_threaded_web_serve.Pool.{Run, WorkerPool, closes, finishes, returns, sends, starts, takes}
use multi_threaded_web_serve.Base.{
  ℕ, ◌+◌, ◌≤◌, ◌<◌, ◌≡◌, refl, ap, Bool, true, List, [], ◌∷◌, ◌++◌, length, length-append,
  if◌then◌else◌, arith,
}

-- How many jobs have a property.
abbrev pub count : {Job : Type 0} → (Job → Bool) → List Job → ℕ
count q [] = 0
count q (job ∷ jobs) = (if q job then 1 else 0) + count q jobs

count-append :
    {Job : Type 0}
    → (q : Job → Bool) (xs ys : List Job) → count q (xs ++ ys) ≡ count q xs + count q ys
count-append q [] ys = omega arith
count-append q (x ∷ xs) ys = omega (arith, count-append q xs ys)

count-le : {Job : Type 0} → (q : Job → Bool) (xs : List Job) → count q xs ≤ length xs
count-le q [] = omega arith
count-le q (x ∷ xs) = ground (arith, count-le q xs)

module _ {Job : Type 0} (capacity n : ℕ) where
  -- Every worker is in one of three places.
  Run-workers :
      {sent : List Job} {p : WorkerPool Job}
      → Run capacity n sent p
      → p.waiting + length p.handling + p.returned ≡ n
  Run-workers starts = omega arith
  Run-workers (sends r job is_open room) = Run-workers r
  Run-workers (takes r job jobs w e k) = omega (arith, Run-workers r, k)
  Run-workers (finishes {p = p} r before job others e) = omega (
    arith,
    Run-workers r,
    ap length e,
    length-append before (job ∷ others),
    length-append before others,
  )
  Run-workers (closes r is_open) = Run-workers r
  Run-workers (returns r w c e k) = omega (arith, Run-workers r, k)

  -- Every job that was sent is in one of three places.
  Run-jobs :
      {sent : List Job} {p : WorkerPool Job}
      → (q : Job → Bool) → Run capacity n sent p
      → count q sent ≡ count q p.jobs + count q p.handling + count q p.handled
  Run-jobs q starts = omega arith
  Run-jobs q (sends {sent} {p} r job is_open room) =
      omega (arith, Run-jobs q r, count-append q sent (job ∷ []), count-append q p.jobs (job ∷ []))
  Run-jobs q (takes r job jobs w e k) = omega (arith, Run-jobs q r, ap (count q) e)
  Run-jobs q (finishes {p = p} r before job others e) = omega (
    arith,
    Run-jobs q r,
    ap (count q) e,
    count-append q before (job ∷ others),
    count-append q before others,
    count-append q p.handled (job ∷ []),
  )
  Run-jobs q (closes r is_open) = Run-jobs q r
  Run-jobs q (returns r w c e k) = Run-jobs q r

  -- A worker that has returned leaves no jobs behind.
  Run-returned :
      {sent : List Job} {p : WorkerPool Job}
      → Run capacity n sent p
      → 0 < p.returned
      → (p.closed ≡ true) × (p.jobs ≡ [])
  Run-returned starts h = absurd (omega arith)
  Run-returned (sends r job is_open room) h = let (c, _) = Run-returned r h in absurd (cc)
  Run-returned (takes r job jobs w e k) h = let (_, none) = Run-returned r h in absurd (cc)
  Run-returned (finishes r before job others e) h = Run-returned r h
  Run-returned (closes r is_open) h = let (_, none) = Run-returned r h in (refl, none)
  Run-returned (returns r w c e k) h = (c, e)

  -- When all workers have returned, as `Stop` waits for, and there was one at least, each job that
  -- was sent has been handled as often as it was sent; and no job waits in the channel.
  pub Run-drained :
      (sent : List Job) (p : WorkerPool Job)
      → Run capacity n sent p
      → 0 < n
      → p.returned ≡ n
      → (q : Job → Bool) → (count q sent ≡ count q p.handled) × (p.jobs ≡ [])
  Run-drained sent p r some_workers done q =
      let (closed, none) = Run-returned r (omega arith) in
      (omega (arith, Run-jobs q r, ap (count q) none, Run-workers r, count-le q p.handling), none)
