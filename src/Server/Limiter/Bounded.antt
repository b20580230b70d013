-- ===== src/Server/Limiter/Bounded.antt =====
-- security/ratelimiter/limiter.go: no bucket ever holds more than the capacity.
use multi_threaded_web_serve.Server.Limiter.{
  Bucket, Floats, Limiter, allow, capped, cleanup_expired_buckets, delete_before, new_with_ttl,
  next_bucket, refill, take_token,
}
use multi_threaded_web_serve.Base.{
  All-insert, ℕ, ◌-◌, ◌+◌, ◌/◌, false, List, [], ◌∷◌, ◌≡◌, Option, none, some, All, Bool-cases, inl,
  inr, Bytes, lookup, ltb, ℤ,
}

-- What the bound needs of float64; both hold of every value, NaN included.
pub record Ordered {F : Type 0} (fl : Floats F) : Type 0 where
  pub irreflexive : (x : F) → fl.less x x ≡ false
  pub one_less : (c x : F) → fl.less c x ≡ false → fl.less c (fl.minus x fl.one) ≡ false

pub All-delete_before :
    {F : Type 0} (P : Bytes × Bucket F → Type 0) (limit : ℕ) (bs : List (Bytes × Bucket F))
    → All P bs
    → All P (delete_before limit bs)
unfolding delete_before
All-delete_before P limit [] h = h
All-delete_before P limit ((k, b) ∷ bs) (q, h) = elim (Bool-cases (ltb b.last_refill limit)) [
  | inl y ↦ rw y (All-delete_before P limit bs h)
  | inr n ↦ rw n (q, All-delete_before P limit bs h)
]

module _ {F : Type 0} (fl : Floats F) (o : Ordered fl) where
  -- No bucket holds more than the capacity.
  abbrev pub IsBounded : Limiter F → Type 0
  IsBounded l = All (λ e. fl.less l.capacity e.1.tokens ≡ false) l.buckets

  capped-le : (c x : F) → fl.less c (capped fl c x) ≡ false
  capped-le c x = elim (Bool-cases (fl.less c x)) [
    | inl y ↦ rw y (o.irreflexive c)
    | inr n ↦ rw n n
  ]

  take_token-le :
      (now : ℕ) (c x : F) → fl.less c x ≡ false → fl.less c (take_token fl now x).0.tokens ≡ false
  unfolding take_token
  take_token-le now c x h = elim (Bool-cases (fl.less x fl.one)) [
    | inl y ↦ rw y h
    | inr n ↦ rw n (o.one_less c x h)
  ]

  next_bucket-le :
      (l : Limiter F) (now : ℕ) (b : Option (Bucket F))
      → fl.less l.capacity (next_bucket fl l now b).0.tokens ≡ false
  unfolding next_bucket refill
  next_bucket-le l now none = o.one_less l.capacity l.capacity (o.irreflexive l.capacity)
  next_bucket-le l now (some b) = take_token-le now l.capacity _ (capped-le l.capacity _)

  cleanup-IsBounded :
      (now : ℕ) (l : Limiter F) → IsBounded l → IsBounded (cleanup_expired_buckets now l)
  unfolding cleanup_expired_buckets
  cleanup-IsBounded now l h = elim (Bool-cases (ltb now (l.last_cleanup + l.bucket_ttl / 2))) [
    | inl y ↦ rw y h
    | inr n ↦ rw n (All-delete_before _ (now - l.bucket_ttl) l.buckets h)
  ]

  allow-IsBounded :
      (key : Bytes) (now : ℕ) (l : Limiter F) → IsBounded l → IsBounded (allow fl key now l).0
  unfolding allow
  allow-IsBounded key now l h =
      let clean = cleanup_expired_buckets now l in
      All-insert (λ e. fl.less clean.capacity e.1.tokens ≡ false) key _ clean.buckets
        (λ j. next_bucket-le clean now (lookup key clean.buckets)) (cleanup-IsBounded now l h)

  -- The limiter after calls with these keys at these moments.
  abbrev pub allow_all : List (Bytes × ℕ) → Limiter F → Limiter F
  allow_all [] l = l
  allow_all ((key, now) ∷ calls) l = allow_all calls (allow fl key now l).0

  allow_all-IsBounded :
      (calls : List (Bytes × ℕ)) (l : Limiter F) → IsBounded l → IsBounded (allow_all calls l)
  allow_all-IsBounded [] l h = h
  allow_all-IsBounded ((key, now) ∷ calls) l h =
      allow_all-IsBounded calls (allow fl key now l).0 (allow-IsBounded key now l h)

  -- After any calls, at whatever moments, no bucket of a limiter that started empty holds more
  -- than its capacity, where no number is less than itself, and where a number that the capacity
  -- is not less than stays so when one is taken from it.
  pub new_with_ttl-IsBounded :
      (rate capacity : F) (ttl : ℤ) (start : ℕ) (calls : List (Bytes × ℕ))
      → IsBounded (allow_all calls (new_with_ttl rate capacity ttl start))
  unfolding new_with_ttl
  new_with_ttl-IsBounded rate capacity ttl start calls = allow_all-IsBounded calls _ tt
