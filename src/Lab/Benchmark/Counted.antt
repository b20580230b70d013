-- ===== src/Lab/Benchmark/Counted.antt =====
-- cmd/lab/main.go: a benchmark counts each request that was issued, and summarizes its reports as often.
use multi_threaded_web_serve.Lab.Benchmark.{
  Counts, Issued, Outcome, count_of, count_status, no_counts, record_all, record_issued,
  check_flags, run_benchmark,
}
use multi_threaded_web_serve.Lab.Latency.{Ranks, summarize_latencies}
use multi_threaded_web_serve.Base.{
  ℕ, suc, ◌+◌, List, [], ◌∷◌, ◌++◌, ◌≡◌, refl, sym, ap, ◌∙◌, none, some, Option-cases, inl, inr,
  arith, ◌==◌, append_assoc, append-nil, map, length, ltb, ℤ, Result, ok, err-ne-ok, if◌then◌else◌,
}

-- The calls that came back with the code.
abbrev pub with_code : ℕ → List Issued → ℕ
with_code code [] = 0
with_code code (i ∷ is) =
    elim i.status [ none ↦ 0 | some c ↦ if c == code then 1 else 0 ] + with_code code is

abbrev pub without_code : List Issued → ℕ
without_code [] = 0
without_code (i ∷ is) = elim i.status [ none ↦ 1 | some c ↦ 0 ] + without_code is

count_of-count_status :
    (code c : ℕ) (counts : List (ℕ × ℕ))
    → count_of code (count_status c counts) ≡ count_of code counts + (if c == code then 1 else 0)
unfolding count_of count_status
count_of-count_status code c [] = ground arith
count_of-count_status code c ((d, n) ∷ counts) = ground (arith, count_of-count_status code c counts)

-- The counts after the calls, from what they were.
record Grows (c c' : Counts) (is : List Issued) (code : ℕ) : Type 0 where
  latencies : c'.latencies ≡ c.latencies ++ map (λ (i : Issued). i.latency) is
  codes : count_of code c'.status_counts ≡ count_of code c.status_counts + with_code code is
  errors : c'.err_count ≡ c.err_count + without_code is

step-Grows : (i : Issued) (c : Counts) (code : ℕ) → Grows c (record_issued c i) (i ∷ []) code
unfolding record_issued
step-Grows i c code = elim (Option-cases i.status) [
  | inl e ↦
      rw (e, record_issued) (record { latencies = refl; codes = omega arith; errors = omega arith })
  | inr (d, e) ↦
      rw (e, record_issued)
        (record {
          latencies = refl;
          codes = omega (arith, count_of-count_status code d c.status_counts);
          errors = omega arith;
        })
]

record_all-Grows : (is : List Issued) (c : Counts) (code : ℕ) → Grows c (record_all c is) is code
unfolding record_all
record_all-Grows [] c code = record {
  latencies = sym (append-nil c.latencies);
  codes = omega arith;
  errors = omega arith;
}
record_all-Grows (i ∷ is) c code =
    let one = step-Grows i c code in
    let more = record_all-Grows is (record_issued c i) code in
    record {
      latencies =
          more.latencies
          ∙ ap (λ l. l ++ map (λ (i : Issued). i.latency) is) one.latencies
          ∙ append_assoc c.latencies (i.latency ∷ []) (map (λ (i : Issued). i.latency) is);
      codes = omega (arith, one.codes, more.codes);
      errors = omega (arith, one.errors, more.errors);
    }

-- All the counts of the codes together.
abbrev pub counted : List (ℕ × ℕ) → ℕ
counted [] = 0
counted ((c, n) ∷ counts) = n + counted counts

counted-count_status :
    (c : ℕ) (counts : List (ℕ × ℕ)) → counted (count_status c counts) ≡ suc (counted counts)
unfolding count_status
counted-count_status c [] = refl
counted-count_status c ((d, n) ∷ counts) = ground (arith, counted-count_status c counts)

all_counted :
    (is : List Issued) (c : Counts)
    → (record_all c is).err_count + counted (record_all c is).status_counts
      ≡ c.err_count + counted c.status_counts + length is
unfolding record_all record_issued
all_counted [] c = omega arith
all_counted (i ∷ is) c = elim (Option-cases i.status) [
  | inl e ↦ omega (arith, all_counted is (record_issued c i), one_error e)
  | inr (d, e) ↦ omega (arith, all_counted is (record_issued c i), one_code d e)
]
  where
    one_error :
        i.status ≡ none
        → (record_issued c i).err_count + counted (record_issued c i).status_counts
          ≡ suc (c.err_count + counted c.status_counts)
    one_error e = rw (e, record_issued) (omega arith)

    one_code :
        (d : ℕ)
        → i.status ≡ some d
        → (record_issued c i).err_count + counted (record_issued c i).status_counts
          ≡ suc (c.err_count + counted c.status_counts)
    one_code d e = rw (e, record_issued) (omega (arith, counted-count_status d c.status_counts))

in_ok : {E A : Type 0} {x y : A} → ◌≡◌ {A = Result E A} (ok x) (ok y) → x ≡ y
in_ok h = cc

-- What a benchmark says of the calls that were issued.
pub record IsCounted {F : Type 0} (ranks : Ranks F) (issued : List Issued) (code : ℕ) (o : Outcome)
    : Type 0 where
  pub completed : o.completed ≡ length issued
  pub each_once : o.errors + counted o.status_codes ≡ length issued
  pub errors : o.errors ≡ without_code issued
  pub code_count : count_of code o.status_codes ≡ with_code code issued
  pub latency : o.latency ≡ summarize_latencies ranks (map (λ (i : Issued). i.latency) issued)
  pub warned : o.rate_limited ≡ ltb 0 (with_code 429 issued)

length-latencies : (is : List Issued) → length (map (λ (i : Issued). i.latency) is) ≡ length is
length-latencies [] = refl
length-latencies (i ∷ is) = omega (arith, length-latencies is)

-- A benchmark whose flags are accepted counts every call that its workers issued once: as a transport
-- error where there was one, and under its status code where not. The count of any code is the
-- number of the calls that came back with it, the latencies summarized are those of all calls, and
-- the warning is given exactly where a call came back with 429.
pub run_benchmark-IsCounted :
    {F : Type 0} (ranks : Ranks F) (duration requests concurrency : ℤ) (issued : List Issued)
    (code : ℕ) (o : Outcome)
    → run_benchmark ranks duration requests concurrency issued ≡ ok o
    → IsCounted ranks issued code o
unfolding run_benchmark
run_benchmark-IsCounted ranks duration requests concurrency issued code o h =
    elim (Option-cases (check_flags duration requests concurrency)) [
      | inr (e, k) ↦ absurd (err-ne-ok (rw (run_benchmark, k) at h))
      | inl k ↦
          let made = in_ok (rw (run_benchmark, k) at h) in
          let grows = record_all-Grows issued no_counts code in
          let limited = record_all-Grows issued no_counts 429 in
          rw (← made) (record {
            completed = ap length grows.latencies ∙ length-latencies issued;
            each_once = omega (arith, all_counted issued no_counts);
            errors = omega (arith, grows.errors);
            code_count = omega (arith, grows.codes);
            latency = ap (summarize_latencies ranks) grows.latencies;
            warned = ap (ltb 0) (limited.codes ∙ omega arith);
          })
    ]
