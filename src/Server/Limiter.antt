-- ===== src/Server/Limiter.antt =====
-- security/ratelimiter/limiter.go: a bucket of tokens for each key. The arithmetic of float64 is a
-- parameter; a moment is a number of nanoseconds.
pub mod Bounded
pub mod Burst
use multi_threaded_web_serve.Base.{
  ℕ, zero, suc, ◌+◌, ◌-◌, ◌*◌, ◌/◌, Bool, true, false, not, List, [], ◌∷◌, Option, none, some,
  Bytes, if◌then◌else◌, insert, leb, lookup, ltb, ℤ, pos, negsuc, not_positive, magnitude,
}

-- The operations of float64 that the limiter uses, and Duration.Seconds.
pub record Floats (F : Type 0) : Type 0 where
  pub one : F
  pub plus : F → F → F
  pub minus : F → F → F
  pub times : F → F → F
  pub less : F → F → Bool
  pub seconds : ℤ → F

pub record Bucket (F : Type 0) : Type 0 where
  pub tokens : F
  pub last_refill : ℕ

pub record Limiter (F : Type 0) : Type 0 where
  pub buckets : List (Bytes × Bucket F)
  pub rate : F
  pub capacity : F
  pub bucket_ttl : ℕ
  pub last_cleanup : ℕ

abbrev pub ten_minutes : ℕ
ten_minutes = 600000000000

-- now.Sub(before)
abbrev pub elapsed : ℕ → ℕ → ℤ
elapsed now before = if leb before now then pos (now - before) else negsuc (before - now - 1)

module _ {F : Type 0} where
  unfoldable pub new_with_ttl : F → F → ℤ → ℕ → Limiter F
  new_with_ttl rate capacity ttl now = record {
    buckets = [];
    rate = rate;
    capacity = capacity;
    bucket_ttl = if not_positive ttl then ten_minutes else magnitude ttl;
    last_cleanup = now;
  }

  unfoldable pub new_limiter : F → F → ℕ → Limiter F
  unfolding new_with_ttl
  new_limiter rate capacity now = new_with_ttl rate capacity (pos ten_minutes) now

  -- The loop over the buckets, which deletes those that were refilled last before a moment.
  unfoldable pub delete_before : ℕ → List (Bytes × Bucket F) → List (Bytes × Bucket F)
  delete_before limit [] = []
  delete_before limit ((key, b) ∷ buckets) =
      let rest = delete_before limit buckets in
      if ltb b.last_refill limit then rest else (key, b) ∷ rest

  -- A moment before the first is before every refill too, so the difference may stop at 0.
  unfoldable pub cleanup_expired_buckets : ℕ → Limiter F → Limiter F
  unfolding delete_before
  cleanup_expired_buckets now l =
      if ltb now (l.last_cleanup + l.bucket_ttl / 2)
      then l
      else record l { buckets = delete_before (now - l.bucket_ttl) l.buckets; last_cleanup = now }

module _ {F : Type 0} (fl : Floats F) where
  abbrev pub capped : F → F → F
  capped capacity tokens = if fl.less capacity tokens then capacity else tokens

  -- The refill, up to the capacity.
  unfoldable pub refill : Limiter F → ℕ → Bucket F → F
  refill l now b =
      capped l.capacity
        (fl.plus b.tokens (fl.times (fl.seconds (elapsed now b.last_refill)) l.rate))

  -- What becomes of the bucket, and whether a token was there.
  unfoldable pub take_token : ℕ → F → Bucket F × Bool
  take_token now tokens =
      if fl.less tokens fl.one
      then (record { tokens = tokens; last_refill = now }, false)
      else (record { tokens = fl.minus tokens fl.one; last_refill = now }, true)

  unfoldable pub next_bucket : Limiter F → ℕ → Option (Bucket F) → Bucket F × Bool
  unfolding refill take_token
  next_bucket l now none = (record { tokens = fl.minus l.capacity fl.one; last_refill = now }, true)
  next_bucket l now (some b) = take_token now (refill l now b)

  unfoldable pub allow : Bytes → ℕ → Limiter F → Limiter F × Bool
  unfolding cleanup_expired_buckets next_bucket lookup insert
  allow key now l =
      let clean = cleanup_expired_buckets now l in
      let (b, allowed) = next_bucket clean now (lookup key clean.buckets) in
      (record clean { buckets = insert key b clean.buckets }, allowed)
