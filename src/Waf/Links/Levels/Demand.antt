-- ===== src/Waf/Links/Levels/Demand.antt =====
-- security/waf/automaton.go: how many nodes the queue still leads to. A round takes one node from the
-- queue and puts its children there, whose subtrees are apart.
use mathlib.Core.Bool.{false≢true}
use multi_threaded_web_serve.Waf.Automaton.{Addr, get_next, targets}
use multi_threaded_web_serve.Waf.Trie.{Children}
use multi_threaded_web_serve.Waf.Trie.Paths.{is_some}
use multi_threaded_web_serve.Base.{
  ℕ, ◌+◌, ◌≤◌, ◌<◌, Bool, true, false, ◌||◌, ◌&&◌, List, [], ◌∷◌, ◌++◌, ◌≡◌, refl, subst, ap, sym,
  ◌∙◌, arith, inl, inr, Option, none, some, Bool-cases, length, contains, ◌==◌, same, same_iff,
  ==_iff, if◌then◌else◌,
}

abbrev bit : Bool → ℕ
bit true = 1
bit false = 0

-- `k` is `w` or below it.
below : Addr → Addr → Bool
below w [] = same w []
below w (c ∷ k) = same w (c ∷ k) || below w k

-- How many addresses of the list `k` is below.
hits : List Addr → Addr → ℕ
hits [] k = 0
hits (p ∷ ps) k = bit (below p k) + hits ps k

pub demand : List Addr → List Addr → ℕ
demand ps [] = 0
demand ps (k ∷ ks) = hits ps k + demand ps ks

same-length : (v w : Addr) → same v w ≡ true → length v ≡ length w
same-length v w h = ap length ((same_iff v w).0 h)

below-length : (w k : Addr) → below w k ≡ true → length w ≤ length k
unfolding below
below-length w [] h = omega (arith, same-length w [] h)
below-length w (c ∷ k) h = elim (Bool-cases (same w (c ∷ k))) [
  | inl y ↦ omega (arith, same-length w (c ∷ k) y)
  | inr n ↦ omega (arith, below-length w k (sym (ap (λ t. t || below w k) n) ∙ h))
]

below-short : (w k : Addr) → length k < length w → below w k ≡ false
below-short w k l = elim (Bool-cases (below w k)) [
  | inl y ↦ absurd (omega (arith, below-length w k y))
  | inr n ↦ n
]

hits-short :
    (w : Addr) (next : List (ℕ × Addr)) (k : Addr)
    → Children w next
    → length k ≤ length w
    → hits (targets next) k ≡ 0
unfolding hits
hits-short w [] k ch l = refl
hits-short w ((b, p) ∷ next) k (at, _, ch) l =
    let none_here = below-short p k (omega (arith, ap length at)) in
    omega (arith, ap bit none_here, hits-short w next k ch l)

bit-le : (a s : Bool) → bit (a && s) ≤ bit s
bit-le a true = ground arith
bit-le true false = omega arith
bit-le false false = omega arith

entry-step :
    (e s l : Bool) (q : Addr) (o : Option Addr) (h h' : ℕ)
    → h' ≤ h + bit (is_some o && s)
    → (e ≡ true → o ≡ none)
    → bit ((e && s) || l) + h' ≤ bit l + h + bit (is_some (if e then some q else o) && s)
entry-step false s l q o h h' r n = omega (arith, r)
entry-step true s l q o h h' r n =
    let none_here : is_some o ≡ false = ap is_some (n refl) in
    let r' = subst (λ t. h' ≤ h + bit (t && s)) none_here r in ground (arith, r')

-- One byte more on the key: it may be below one entry more, if that is the key.
hits-cons :
    (w : Addr) (next : List (ℕ × Addr)) (c : ℕ) (k : Addr)
    → Children w next
    → hits (targets next) (c ∷ k)
      ≤ hits (targets next) k + bit (is_some (get_next next c) && same w k)
unfolding hits below get_next
hits-cons w [] c k ch = omega arith
hits-cons w ((b, p) ∷ next) c k (at, other, ch) =
    let rest = hits-cons w next c k ch in
    subst
      (λ q.
        bit (same q (c ∷ k) || below q k) + hits (targets next) (c ∷ k)
        ≤ bit (below q k)
          + hits (targets next) k
          + bit (is_some (if b == c then some q else get_next next c) && same w k))
      (sym at)
      (entry-step (b == c) (same w k) (below (b ∷ w) k) (b ∷ w) (get_next next c) _ _ rest
        (λ e. subst (λ x. get_next next x ≡ none) ((==_iff b c).0 e) other))

-- The entries of a map are below the node, apart from each other, and none is the node itself.
hits-targets :
    (w : Addr) (next : List (ℕ × Addr)) (k : Addr)
    → Children w next
    → hits (targets next) k + bit (same w k) ≤ bit (below w k)
unfolding below
hits-targets w next [] ch = omega (arith, hits-short w next [] ch (omega arith))
hits-targets w next (c ∷ k) ch =
    let before = hits-targets w next k ch in
    let more = hits-cons w next c k ch in
    elim (Bool-cases (same w (c ∷ k))) [
      | inl y ↦
          let longer = same-length w (c ∷ k) y in
          rw y (omega (arith, hits-short w next (c ∷ k) ch (omega (arith, longer))))
      | inr n ↦ rw n (omega (arith, before, more, bit-le (is_some (get_next next c)) (same w k)))
    ]

hits-append : (ps qs : List Addr) (k : Addr) → hits (ps ++ qs) k ≡ hits ps k + hits qs k
unfolding hits
hits-append [] qs k = omega arith
hits-append (p ∷ ps) qs k = omega (arith, hits-append ps qs k)

-- How often an address is a key.
count : Addr → List Addr → ℕ
count w [] = 0
count w (k ∷ ks) = bit (same w k) + count w ks

count-positive : (w : Addr) (ks : List Addr) → contains w ks ≡ true → 0 < count w ks
unfolding count contains
count-positive w [] h = absurd (false≢true h)
count-positive w (k ∷ ks) h = elim (Bool-cases (same k w)) [
  | inl y ↦
      let turned : same w k ≡ true = (same_iff w k).1 (sym ((same_iff k w).0 y)) in
      omega (arith, ap bit turned)
  | inr n ↦ omega (arith, count-positive w ks (sym (ap (λ t. t || contains w ks) n) ∙ h))
]

-- One round: it takes a key from the queue, and puts its children at the end.
demand-round :
    (w : Addr) (rest : List Addr) (next : List (ℕ × Addr)) (ks : List Addr)
    → Children w next
    → demand (rest ++ targets next) ks + count w ks ≤ demand (w ∷ rest) ks
unfolding demand count hits
demand-round w rest next [] ch = omega arith
demand-round w rest next (k ∷ ks) ch = omega (
  arith,
  demand-round w rest next ks ch,
  hits-append rest (targets next) k,
  hits-targets w next k ch,
)

pub demand-less :
    (w : Addr) (rest : List Addr) (next : List (ℕ × Addr)) (ks : List Addr)
    → Children w next
    → contains w ks ≡ true
    → demand (rest ++ targets next) ks < demand (w ∷ rest) ks
demand-less w rest next ks ch h =
    omega (arith, demand-round w rest next ks ch, count-positive w ks h)

pub demand-root : (w : Addr) (ks : List Addr) → demand (w ∷ []) ks ≤ length ks
unfolding demand hits
demand-root w [] = omega arith
demand-root w (k ∷ ks) = ground (arith, demand-root w ks)
