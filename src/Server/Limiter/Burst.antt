-- ===== src/Server/Limiter/Burst.antt =====
-- security/ratelimiter/limiter.go: how many calls of a key are allowed at one moment.
use multi_threaded_web_serve.Server.Limiter.{
  Bucket, Floats, Limiter, allow, cleanup_expired_buckets, delete_before, elapsed, new_with_ttl,
  next_bucket, refill, take_token,
}
use multi_threaded_web_serve.Base.{
  All-insert, All-lookup, ℕ, zero, suc, ◌≤◌, ◌<◌, ◌-◌, ◌+◌, ◌/◌, Bool, true, false, ◌&&◌, List, [],
  ◌∷◌, ◌≡◌, ◌∙◌, refl, ap, subst, sym, Option, none, some, All, Bool-cases, Option-cases, inl, inr,
  Bytes, arith, insert, lookup, lookup-insert, ltb, same, same_iff, ℤ, pos, if◌then◌else◌,
}

-- The capacity with `k` tokens taken from it, one after another.
abbrev pub level : {F : Type 0} → Floats F → F → ℕ → F
level fl capacity zero = capacity
level fl capacity (suc k) = fl.minus (level fl capacity k) fl.one

-- The levels that a bucket goes through at one moment: on the way to the last, `burst`, a token is
-- there, and at the last there is none. None is above the capacity, and no time gives it no tokens.
-- For float64 this is so with a finite rate and a capacity below 2 ^ 53: the product of 0 seconds and
-- the rate is 0, and each subtraction lowers the level.
pub record Levels {F : Type 0} (fl : Floats F) (rate capacity : F) (burst : ℕ) : Type 0 where
  pub some_burst : 0 < burst
  pub holds_one : (k : ℕ) → 0 < k → k < burst → fl.less (level fl capacity k) fl.one ≡ false
  pub used_up : fl.less (level fl capacity burst) fl.one ≡ true
  pub not_above : (k : ℕ) → 0 < k → k ≤ burst → fl.less capacity (level fl capacity k) ≡ false
  pub no_time :
      (k : ℕ)
      → 0 < k
      → k ≤ burst
      → fl.plus (level fl capacity k) (fl.times (fl.seconds (pos 0)) rate) ≡ level fl capacity k

-- The calls for the key.
abbrev pub calls_of : Bytes → List Bytes → ℕ
calls_of key [] = 0
calls_of key (j ∷ js) = if same j key then suc (calls_of key js) else calls_of key js

abbrev pub lesser : ℕ → ℕ → ℕ
lesser m n = if ltb m n then m else n

module _ {F : Type 0} (fl : Floats F) where
  -- The calls for the key that are allowed, of calls with these keys at one moment.
  abbrev pub granted : Bytes → ℕ → List Bytes → Limiter F → ℕ
  granted key now [] l = 0
  granted key now (j ∷ js) l =
      let (after, allowed) = allow fl j now l in
      let rest = granted key now js after in if same j key && allowed then suc rest else rest

module _ {F : Type 0} (fl : Floats F) (rate capacity : F) (burst : ℕ)
    (c : Levels fl rate capacity burst) (now : ℕ) where
  -- A bucket of this moment from which `m` tokens more can be taken.
  record Left (b : Bucket F) (m : ℕ) : Type 0 where
    is_now : b.last_refill ≡ now
    taken : ℕ
    some_taken : 0 < taken
    of_burst : taken + m ≡ burst
    at_level : b.tokens ≡ level fl capacity taken

  abbrev IsCurrent : Bucket F → Type 0
  IsCurrent b = (m : ℕ) × Left b m

  record Steady (l : Limiter F) : Type 0 where
    rate_is : l.rate ≡ rate
    capacity_is : l.capacity ≡ capacity
    current : All (λ e. IsCurrent e.1) l.buckets

  -- A key without a bucket has the whole burst left.
  abbrev LeftIn : Option (Bucket F) → ℕ → Type 0
  LeftIn none m = m ≡ burst
  LeftIn (some b) m = Left b m

  abbrev LeftFor : Bytes → Limiter F → ℕ → Type 0
  LeftFor key l m = LeftIn (lookup key l.buckets) m

  keeps_current :
      (ttl : ℕ) (bs : List (Bytes × Bucket F))
      → All (λ e. IsCurrent e.1) bs
      → delete_before (now - ttl) bs ≡ bs
  unfolding delete_before
  keeps_current ttl [] h = refl
  keeps_current ttl ((k, b) ∷ bs) ((m, e), h) =
      rw (late b.last_refill e.is_now, keeps_current ttl bs h) refl
    where
      late : (t : ℕ) → t ≡ now → ltb t (now - ttl) ≡ false
      late t e = ground arith

  -- Nothing is deleted, and only the moment of the last cleanup changes.
  cleanup_buckets :
      (l : Limiter F)
      → Steady l
      → Steady (cleanup_expired_buckets now l)
        × ((cleanup_expired_buckets now l).buckets ≡ l.buckets)
  unfolding cleanup_expired_buckets
  cleanup_buckets l s = elim (Bool-cases (ltb now (l.last_cleanup + l.bucket_ttl / 2))) [
    | inl y ↦ rw y (s, refl)
    | inr n ↦ rw n (
      record {
        rate_is = s.rate_is;
        capacity_is = s.capacity_is;
        current =
            subst (λ bs. All (λ e. IsCurrent e.1) bs)
              (sym (keeps_current l.bucket_ttl l.buckets s.current)) s.current;
      },
      keeps_current l.bucket_ttl l.buckets s.current,
    )
  ]

  -- What a call does to a bucket of this moment: a token goes, where there is one.
  abbrev Takes : ℕ → Bucket F × Bool → Type 0
  Takes m (after, allowed) = (allowed ≡ ltb 0 m) × Left after (m - 1)

  take_token-Takes : (b : Bucket F) (m : ℕ) → Left b m → Takes m (take_token fl now b.tokens)
  unfolding take_token
  take_token-Takes b zero h =
      let k_is : h.taken ≡ burst = omega (arith, h.of_burst) in
      let none_left : fl.less b.tokens fl.one ≡ true =
        ap (λ x. fl.less x fl.one) h.at_level
        ∙ ap (λ k. fl.less (level fl capacity k) fl.one) k_is
        ∙ c.used_up in
      rw none_left (
        refl,
        record {
          is_now = refl;
          taken = h.taken;
          some_taken = h.some_taken;
          of_burst = omega (arith, h.of_burst);
          at_level = h.at_level;
        },
      )
  take_token-Takes b (suc m) h =
      let one_left : fl.less b.tokens fl.one ≡ false =
        ap (λ x. fl.less x fl.one) h.at_level
        ∙ c.holds_one h.taken h.some_taken (omega (arith, h.of_burst)) in
      rw one_left (
        ground arith,
        record {
          is_now = refl;
          taken = suc h.taken;
          some_taken = omega arith;
          of_burst = omega (arith, h.of_burst);
          at_level = ap (λ x. fl.minus x fl.one) h.at_level;
        },
      )

  refill-same :
      (l : Limiter F) (b : Bucket F) (m : ℕ)
      → l.rate ≡ rate
      → l.capacity ≡ capacity
      → Left b m
      → refill fl l now b ≡ b.tokens
  unfolding refill
  refill-same l b m r k h =
      let few : h.taken ≤ burst = omega (arith, h.of_burst) in
      rw
        (
          k,
          r,
          no_elapsed b.last_refill h.is_now,
          h.at_level,
          c.no_time h.taken h.some_taken few,
          c.not_above h.taken h.some_taken few,
        )
        refl
    where
      no_elapsed : (before : ℕ) → before ≡ now → elapsed now before ≡ pos 0
      no_elapsed before e = ground arith

  next_bucket-Takes :
      (l : Limiter F) (b : Option (Bucket F)) (m : ℕ)
      → l.rate ≡ rate
      → l.capacity ≡ capacity
      → LeftIn b m
      → Takes m (next_bucket fl l now b)
  unfolding next_bucket
  next_bucket-Takes l none m r k h =
      let n = c.some_burst in
      (
        ground (arith, h, n),
        record {
          is_now = refl;
          taken = 1;
          some_taken = omega arith;
          of_burst = omega (arith, h, n);
          at_level = ap (λ x. fl.minus x fl.one) k;
        },
      )
  next_bucket-Takes l (some b) m r k h = rw (refill-same l b m r k h) (take_token-Takes b m h)

  -- There is a number of calls left to each key.
  left_somewhere :
      (key : Bytes) (bs : List (Bytes × Bucket F))
      → All (λ e. IsCurrent e.1) bs
      → (m : ℕ) × LeftIn (lookup key bs) m
  left_somewhere key bs h = elim (Option-cases (lookup key bs)) [
    | inl e ↦ (burst, subst (λ b. LeftIn b burst) (sym e) refl)
    | inr (b, e) ↦
        let (m, l) = All-lookup IsCurrent key b bs h e in (m, subst (λ b. LeftIn b m) (sym e) l)
  ]

  -- What a call of the key `j` does to what is left for a key.
  record Steps (key j : Bytes) (l : Limiter F) (m : ℕ) : Type 0 where
    steady : Steady (allow fl j now l).0
    mine :
        same j key ≡ true
        → ((allow fl j now l).1 ≡ ltb 0 m) × LeftFor key (allow fl j now l).0 (m - 1)
    other : same j key ≡ false → LeftFor key (allow fl j now l).0 m

  inserted :
      (key j : Bytes) (x : Bucket F) (bs : List (Bytes × Bucket F)) (b : Bool)
      → same j key ≡ b
      → lookup key (insert j x bs) ≡ (if b then some x else lookup key bs)
  inserted key j x bs b h =
      lookup-insert j key x bs ∙ ap (λ b. if b then some x else lookup key bs) h

  allow-Steps :
      (key j : Bytes) (l : Limiter F) (m : ℕ) → Steady l → LeftFor key l m → Steps key j l m
  unfolding allow
  allow-Steps key j l m s h =
      let clean = cleanup_expired_buckets now l in
      let (sc, bs) = cleanup_buckets l s in
      let b = lookup j clean.buckets in
      let x = (next_bucket fl clean now b).0 in
      let (n, for_j) = left_somewhere j clean.buckets sc.current in
      let takes = next_bucket-Takes clean b n sc.rate_is sc.capacity_is for_j in
      let kept : LeftIn (lookup key clean.buckets) m =
        subst (λ bs. LeftIn (lookup key bs) m) (sym bs) h in
      record {
        steady = record {
          rate_is = sc.rate_is;
          capacity_is = sc.capacity_is;
          current =
              All-insert (λ e. IsCurrent e.1) j x clean.buckets (λ _. (n - 1, takes.1)) sc.current;
        };
        mine = λ y.
            let own =
              next_bucket-Takes clean b m sc.rate_is sc.capacity_is (
                subst (λ k. LeftIn (lookup k clean.buckets) m) (sym ((same_iff j key).0 y)) kept) in
            (
              own.0,
              subst (λ b. LeftIn b (m - 1)) (sym (inserted key j x clean.buckets true y)) own.1,
            );
        other = λ n. subst (λ b. LeftIn b m) (sym (inserted key j x clean.buckets false n)) kept;
      }

  granted-left :
      (key : Bytes) (js : List Bytes) (l : Limiter F) (m : ℕ)
      → Steady l
      → LeftFor key l m
      → granted fl key now js l ≡ lesser (calls_of key js) m
  granted-left key [] l m s h = ground arith
  granted-left key (j ∷ js) l m s h =
      let p = allow-Steps key j l m s h in
      elim (Bool-cases (same j key)) [
        | inr n ↦ rw n (granted-left key js (allow fl j now l).0 m p.steady (p.other n))
        | inl y ↦
            let (allowed, left) = p.mine y in
            rw y (
              counted (allow fl j now l).1 _ _ m
                (granted-left key js (allow fl j now l).0 (m - 1) p.steady left) allowed)
      ]
    where
      counted :
          (allowed : Bool) (granted calls m : ℕ)
          → granted ≡ lesser calls (m - 1)
          → allowed ≡ ltb 0 m
          → (if allowed then suc granted else granted) ≡ lesser (suc calls) m
      counted true granted calls m h a = ground arith
      counted false granted calls m h a = ground arith

  -- At one moment, a key that is new is allowed as many calls as it makes, up to the burst, whatever
  -- calls other keys make between them. The burst is the number of tokens, taken one by one from the
  -- capacity, after which less than one is left, and is 1 at least. This needs of the arithmetic, at the levels in
  -- between only, that none is above the capacity, and that no time gives no tokens.
  pub granted-burst :
      (ttl : ℤ) (start : ℕ) (key : Bytes) (js : List Bytes)
      → granted fl key now js (new_with_ttl rate capacity ttl start)
        ≡ lesser (calls_of key js) burst
  unfolding new_with_ttl lookup
  granted-burst ttl start key js =
      granted-left key js _ burst (record { rate_is = refl; capacity_is = refl; current = tt }) refl
