-- ===== src/Lab/Latency/Sorting.antt =====
-- cmd/lab/main.go: the sort of durations, its elements and their sum.
use mathlib.Core.List.{Mem, Perm, mem-cons_of_mem, mem-cons_self}
use mathlib.Core.List.Perm
use multi_threaded_web_serve.Lab.Latency.{
  Duration, before, index, insert_duration, place, plus, rank_index, shorter, sort_durations, total,
}
use multi_threaded_web_serve.Base.{
  ℕ, zero, suc, ◌+◌, ◌*◌, ◌^◌, ◌≤◌, ◌<◌, List, [], ◌∷◌, ◌≡◌, refl, subst, ◌∙◌, All, some,
  Bool-cases, inl, inr, arith, ltb→lt, ltb→le, leb, leb→lt, length, ℤ,
}

abbrev pub Ascends : List Duration → Type 0
Ascends [] = Unit
Ascends (d ∷ ds) = All (λ e. place d ≤ place e) ds × Ascends ds

abbrev pub sum_of : List ℕ → ℕ
sum_of [] = 0
sum_of (d ∷ ds) = d + sum_of ds

pub All-map :
    {P Q : Duration → Type 0} (ds : List Duration)
    → ((d : Duration) → P d → Q d)
    → All P ds
    → All Q ds
All-map [] f h = tt
All-map (d ∷ ds) f (h, hs) = (f d h, All-map ds f hs)

pub insert-All :
    (P : Duration → Type 0) (d : Duration) (ds : List Duration)
    → P d
    → All P ds
    → All P (insert_duration d ds)
unfolding insert_duration
insert-All P d [] p h = (p, tt)
insert-All P d (e ∷ ds) p (q, h) = elim (Bool-cases (shorter e d)) [
  | inl y ↦ rw y (q, insert-All P d ds p h)
  | inr n ↦ rw n (p, (q, h))
]

pub sort-All : (P : Duration → Type 0) (ds : List Duration) → All P ds → All P (sort_durations ds)
unfolding sort_durations
sort-All P [] h = tt
sort-All P (d ∷ ds) (p, h) = insert-All P d (sort_durations ds) p (sort-All P ds h)

pub insert-Ascends :
    (d : Duration) (ds : List Duration) → Ascends ds → Ascends (insert_duration d ds)
unfolding insert_duration
insert-Ascends d [] h = (tt, tt)
insert-Ascends d (e ∷ ds) (h, hs) = elim (Bool-cases (shorter e d)) [
  | inl y ↦
      let below = ltb→lt (place e) (place d) y in
      rw y
        (insert-All (λ x. place e ≤ place x) d ds (omega (arith, below)) h, insert-Ascends d ds hs)
  | inr n ↦
      let above = ltb→le (place e) (place d) n in
      rw n ((above, All-map ds (λ x k. omega (arith, above, k)) h), (h, hs))
]

pub sort-Ascends : (ds : List Duration) → Ascends (sort_durations ds)
unfolding sort_durations
sort-Ascends [] = tt
sort-Ascends (d ∷ ds) = insert-Ascends d (sort_durations ds) (sort-Ascends ds)

pub insert-Perm : (d : Duration) (ds : List Duration) → Perm (insert_duration d ds) (d ∷ ds)
unfolding insert_duration
insert-Perm d [] = Perm.rfl
insert-Perm d (e ∷ ds) = elim (Bool-cases (shorter e d)) [
  | inl y ↦ rw y (Perm.trans (Perm.cons e (insert-Perm d ds)) (Perm.swap d e ds))
  | inr n ↦ rw n Perm.rfl
]

pub sort-Perm : (ds : List Duration) → Perm (sort_durations ds) ds
unfolding sort_durations
sort-Perm [] = Perm.rfl
sort-Perm (d ∷ ds) = Perm.trans (insert-Perm d (sort_durations ds)) (Perm.cons d (sort-Perm ds))

pub insert-sum :
    (d : Duration) (ds : List Duration)
    → (sum_of (insert_duration d ds) ≡ d + sum_of ds)
      × (length (insert_duration d ds) ≡ suc (length ds))
unfolding insert_duration
insert-sum d [] = (refl, refl)
insert-sum d (e ∷ ds) = elim (Bool-cases (shorter e d)) [
  | inl y ↦ let (s, l) = insert-sum d ds in rw y (omega (arith, s), omega (arith, l))
  | inr n ↦ rw n (refl, refl)
]

pub sort-sum :
    (ds : List Duration)
    → (sum_of (sort_durations ds) ≡ sum_of ds) × (length (sort_durations ds) ≡ length ds)
unfolding sort_durations
sort-sum [] = (refl, refl)
sort-sum (d ∷ ds) =
    let (s, l) = insert-sum d (sort_durations ds) in
    let (s', l') = sort-sum ds in (omega (arith, s, s'), omega (arith, l, l'))

pub index-there :
    (ds : List Duration) (n : ℕ) → n < length ds → (x : Duration) × (index ds n ≡ some x)
unfolding index
index-there [] n h = absurd (omega (arith, h))
index-there (d ∷ ds) zero h = (d, refl)
index-there (d ∷ ds) (suc n) h = index-there ds n (omega (arith, h))

pub index-Mem : (ds : List Duration) (n : ℕ) {x : Duration} → index ds n ≡ some x → Mem x ds
unfolding index
index-Mem [] n h = absurd (cc)
index-Mem (d ∷ ds) zero {x} h =
    let same : d ≡ x = cc in subst (λ y. Mem y (d ∷ ds)) same mem-cons_self
index-Mem (d ∷ ds) (suc n) h = mem-cons_of_mem d (index-Mem ds n h)

pub index-All :
    (P : Duration → Type 0) (ds : List Duration) (n : ℕ) {x : Duration}
    → All P ds
    → index ds n ≡ some x
    → P x
unfolding index
index-All P [] n h e = absurd (cc)
index-All P (d ∷ ds) zero {x} (h, hs) e = let same : d ≡ x = cc in subst P same h
index-All P (d ∷ ds) (suc n) (h, hs) e = index-All P ds n hs e

pub index-Ascends :
    (ds : List Duration) (i j : ℕ) {x y : Duration}
    → Ascends ds
    → i ≤ j
    → index ds i ≡ some x
    → index ds j ≡ some y
    → place x ≤ place y
unfolding index
index-Ascends [] i j h l e f = absurd (cc)
index-Ascends (d ∷ ds) zero zero {x} {y} h l e f =
    let same : x ≡ y = cc in subst (λ z. place x ≤ place z) same (omega arith)
index-Ascends (d ∷ ds) zero (suc j) {x} {y} (h, hs) l e f =
    let same : d ≡ x = cc in
    subst (λ z. place z ≤ place y) same (index-All (λ z. place d ≤ place z) ds j h f)
index-Ascends (d ∷ ds) (suc i) zero h l e f = absurd (omega (arith, l))
index-Ascends (d ∷ ds) (suc i) (suc j) (h, hs) l e f =
    index-Ascends ds i j hs (omega (arith, l)) e f

pub insert-back :
    (P : Duration → Type 0) (d : Duration) (ds : List Duration)
    → All P (insert_duration d ds)
    → P d × All P ds
unfolding insert_duration
insert-back P d [] h = h
insert-back P d (e ∷ ds) h = elim (Bool-cases (shorter e d)) [
  | inl y ↦ let (q, more) = rw y at h in let (p, hs) = insert-back P d ds more in (p, (q, hs))
  | inr n ↦ rw n at h
]

pub sort-back : (P : Duration → Type 0) (ds : List Duration) → All P (sort_durations ds) → All P ds
unfolding sort_durations
sort-back P [] h = tt
sort-back P (d ∷ ds) h =
    let (p, more) = insert-back P d (sort_durations ds) h in (p, sort-back P ds more)

pub total-sum :
    (s : Duration) (ds : List Duration) → s + sum_of ds < 2 ^ 64 → total s ds ≡ s + sum_of ds
unfolding total
total-sum s [] h = omega arith
total-sum s (d ∷ ds) h =
    let next : plus s d ≡ s + d = omega (arith, h) in
    rw next (total-sum (s + d) ds (omega (arith, h)) ∙ omega arith)

pub sum-ge : (low : ℕ) (ds : List ℕ) → All (λ x. low ≤ x) ds → low * length ds ≤ sum_of ds
sum-ge low [] h = omega arith
sum-ge low (d ∷ ds) (h, hs) = omega (arith, h, sum-ge low ds hs)

pub sum-le : (high : ℕ) (ds : List ℕ) → All (λ x. x ≤ high) ds → sum_of ds ≤ high * length ds
sum-le high [] h = omega arith
sum-le high (d ∷ ds) (h, hs) = omega (arith, h, sum-le high ds hs)

pub below_sum : (ds : List ℕ) → All (λ x. x ≤ sum_of ds) ds
below_sum [] = tt
below_sum (d ∷ ds) = (omega arith, All-map ds (λ x h. omega (arith, h)) (below_sum ds))

pub rank_index-lt : (n : ℕ) (k : ℤ) → 0 < n → rank_index n k < n
unfolding rank_index
rank_index-lt n k h = elim (Bool-cases (leb n (before k))) [
  | inl y ↦ rw y (omega (arith, h))
  | inr m ↦ rw m (leb→lt n (before k) m)
]

pub rank_index-le :
    (n : ℕ) (j k : ℤ) → 0 < n → before j ≤ before k → rank_index n j ≤ rank_index n k
unfolding rank_index
rank_index-le n j k h l = ground (arith, h, l)
