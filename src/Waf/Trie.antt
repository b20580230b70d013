-- ===== src/Waf/Trie.antt =====
-- security/waf/automaton.go: the nodes that the patterns make are a trie on the store.
pub mod Paths
use mathlib.Core.Bool.{false≢true}
use multi_threaded_web_serve.Waf.Automaton.{
  Addr, Node, Rule, Store, fresh_node, get_next, insert_path, load, next_of, store,
}
use multi_threaded_web_serve.Waf.Initial.{Closed, onto}
use multi_threaded_web_serve.Base.{
  ℕ, suc, ◌+◌, ◌≤◌, ◌<◌, Bool, true, false, ◌&&◌, ◌||◌, List, [], ◌∷◌, ◌++◌, ◌≡◌, refl, subst, ap,
  sym, ◌∙◌, ◌==◌, ==_iff, length, arith, inl, inr, ◌⊎◌, Option, none, some, Bool-cases,
  if◌then◌else◌, same, same_iff, ◌≢◌,
}

-- There is a node at the address.
unfoldable pub has : Store → Addr → Bool
has [] w = false
has ((q, n) ∷ st) w = same q w || has st w

pub load-store :
    (st : Store) (p q : Addr) (n : Node)
    → load (store st p n) q ≡ (if same p q then n else load st q)
unfolding load store
load-store [] p q n = refl
load-store ((r, m) ∷ st) p q n =
    ground (arith, same_iff r p, same_iff r q, same_iff p q, load-store st p q n)

pub has-store : (st : Store) (p q : Addr) (n : Node) → has (store st p n) q ≡ (same p q || has st q)
unfolding has store
has-store [] p q n = refl
has-store ((r, m) ∷ st) p q n =
    ground (arith, same_iff r p, same_iff r q, same_iff p q, has-store st p q n)

pub load-absent : (st : Store) (w : Addr) → has st w ≡ false → load st w ≡ fresh_node
unfolding has load
load-absent [] w h = refl
load-absent ((q, n) ∷ st) w h = ground (arith, load-absent st w)

pub same_refl : (w : Addr) → same w w ≡ true
same_refl w = (same_iff w w).1 refl

pub same_ne : (v w : Addr) → v ≢ w → same v w ≡ false
same_ne v w h = ground (arith, same_iff v w)

-- The entries of a node's map: each leads one byte further, and no byte has two.
abbrev pub Children : Addr → List (ℕ × Addr) → Type 0
Children w [] = Unit
Children w ((b, p) ∷ next) = (p ≡ b ∷ w) × (get_next next b ≡ none) × Children w next

pub record IsTrie (st : Store) : Type 0 where
  pub rooted : has st [] ≡ true
  pub closed : Closed (has st)
  pub leads : (w : Addr) (b : ℕ) → next_of st w b ≡ (if has st (b ∷ w) then some (b ∷ w) else none)
  pub keyed : (w : Addr) → Children w (load st w).next

get_next-concat :
    (next : List (ℕ × Addr)) (b c : ℕ) (p : Addr)
    → get_next next b ≡ none
    → get_next (next ++ (b, p) ∷ []) c ≡ (if b == c then some p else get_next next c)
unfolding get_next
get_next-concat [] b c p h = refl
get_next-concat ((d, q) ∷ next) b c p h = ground (arith, get_next-concat next b c p)

Children-concat :
    (w : Addr) (next : List (ℕ × Addr)) (b : ℕ)
    → Children w next
    → get_next next b ≡ none
    → Children w (next ++ (b, b ∷ w) ∷ [])
unfolding get_next
Children-concat w [] b h n = (refl, refl, tt)
Children-concat w ((d, q) ∷ next) b (e, k, h) n = (
  e,
  get_next-concat next b d (b ∷ w) (ground arith) ∙ ground arith,
  Children-concat w next b h (ground arith),
)

-- A new node `b ∷ w` below `w`, as `insert_path` makes it.
unfoldable pub grow : Store → Addr → ℕ → Store
grow st w b =
    let node = load st w in
    store (store st w (record node { next = node.next ++ (b, b ∷ w) ∷ [] })) (b ∷ w) fresh_node

longer : (w : Addr) (b : ℕ) → w ≢ b ∷ w
longer w b e = let l = ap length e in absurd (omega arith)

pub some-ne-none : {A : Type 0} → (a : A) → some a ≡ none → ⊥
some-ne-none a h = cc

module _ (st : Store) (w : Addr) (b : ℕ) (trie : IsTrie st) (here : has st w ≡ true) where
  pub grow-has : (x : Addr) → has (grow st w b) x ≡ (same (b ∷ w) x || has st x)
  unfolding grow
  grow-has x =
      let node = load st w in
      let linked = store st w (record node { next = node.next ++ (b, b ∷ w) ∷ [] }) in
      has-store linked (b ∷ w) x fresh_node
      ∙ ground (
        arith,
        has-store st w x (record node { next = node.next ++ (b, b ∷ w) ∷ [] }),
        same_iff w x,
        here,
        ap (has st) {x = w} {y = x},
      )

  pub grow-load :
      (x : Addr)
      → load (grow st w b) x ≡ (
          if same (b ∷ w) x
          then fresh_node
          else if same w x
          then record (load st w) { next = (load st w).next ++ (b, b ∷ w) ∷ [] }
          else load st x)
  unfolding grow
  grow-load x =
      let node = load st w in
      let grown = record node { next = node.next ++ (b, b ∷ w) ∷ [] } in
      load-store (store st w grown) (b ∷ w) x fresh_node
      ∙ ap (λ n. if same (b ∷ w) x then fresh_node else n) (load-store st w x grown)

  pub grow-absent : next_of st w b ≡ none → has st (b ∷ w) ≡ false
  grow-absent h = elim (Bool-cases (has st (b ∷ w))) [
    | inl y ↦ absurd (
        some-ne-none (b ∷ w)
          (sym (ap (λ t. if t then some (b ∷ w) else none) y) ∙ sym (trie.leads w b) ∙ h))
    | inr n ↦ n
  ]

  -- The entries of the new store, at its three kinds of address.
  grow-next :
      (x : Addr)
      → (load (grow st w b) x).next ≡ (
          if same (b ∷ w) x
          then []
          else if same w x
          then (load st w).next ++ (b, b ∷ w) ∷ []
          else (load st x).next)
  grow-next x = ap Node.next (grow-load x) ∙ elim (Bool-cases (same (b ∷ w) x)) [
    | inl y ↦ rw y
    | inr n ↦ rw n (elim (Bool-cases (same w x)) [ inl y ↦ rw y | inr k ↦ rw k ])
  ]

  -- Below a node that is not there, there is none.
  grow-below : next_of st w b ≡ none → (c : ℕ) → has st (c ∷ b ∷ w) ≡ false
  grow-below none_yet c = elim (Bool-cases (has st (c ∷ b ∷ w))) [
    | inl y ↦ absurd (false≢true (sym (grow-absent none_yet) ∙ trie.closed c (b ∷ w) y))
    | inr n ↦ n
  ]

  grow-leads :
      next_of st w b ≡ none
      → (x : Addr) (c : ℕ)
      → next_of (grow st w b) x c ≡ (if has (grow st w b) (c ∷ x) then some (c ∷ x) else none)
  unfolding next_of get_next
  grow-leads none_yet x c =
      rw (grow-next x, grow-has (c ∷ x))
        (elim (Bool-cases (same (b ∷ w) x)) [
          | inl y ↦
              let at : b ∷ w ≡ x = (same_iff (b ∷ w) x).0 y in
              let below : has st (c ∷ x) ≡ false =
                subst (λ v. has st (c ∷ v) ≡ false) at (grow-below none_yet c) in
              let apart : same w x ≡ false = same_ne w x (λ e. longer w b (e ∙ sym at)) in
              rw (y, apart, below) (ground arith)
          | inr n ↦ rw n (elim (Bool-cases (same w x)) [
            | inl y ↦
                let at : w ≡ x = (same_iff w x).0 y in
                let added = get_next-concat (load st w).next b c (b ∷ w) none_yet in
                rw (y, added)
                  (subst
                    (λ v.
                      (if b == c then some (b ∷ w) else next_of st w c)
                      ≡ (if b == c && true || has st (c ∷ v) then some (c ∷ v) else none))
                    at (ground (arith, trie.leads w c)))
            | inr k ↦ rw k (ground (arith, trie.leads x c))
          ])
        ])

  grow-keyed : next_of st w b ≡ none → (x : Addr) → Children x (load (grow st w b) x).next
  unfolding next_of
  grow-keyed none_yet x = rw (grow-next x) (elim (Bool-cases (same (b ∷ w) x)) [
    | inl y ↦ rw y tt
    | inr n ↦ rw n (elim (Bool-cases (same w x)) [
      | inl y ↦ rw y (
          subst (λ v. Children v ((load st w).next ++ (b, b ∷ w) ∷ [])) ((same_iff w x).0 y)
            (Children-concat w (load st w).next b (trie.keyed w) none_yet))
      | inr k ↦ rw k (trie.keyed x)
    ])
  ])

  grow-closed : Closed (has (grow st w b))
  grow-closed c x h =
      let was = ap (λ t. t) (sym (grow-has (c ∷ x)) ∙ h) in
      rw (grow-has x) (elim (Bool-cases (same w x)) [
        | inl y ↦ ground (arith, subst (λ v. has st v ≡ true) ((same_iff w x).0 y) here)
        | inr k ↦ ground (arith, trie.closed c x, was)
      ])

  pub grow-IsTrie : next_of st w b ≡ none → IsTrie (grow st w b)
  grow-IsTrie none_yet = record {
    rooted = rw (grow-has []) (ground (arith, trie.rooted));
    closed = grow-closed;
    leads = grow-leads none_yet;
    keyed = grow-keyed none_yet;
  }

  pub grow-output :
      next_of st w b ≡ none → (x : Addr) → (load (grow st w b) x).output ≡ (load st x).output
  grow-output none_yet x = ap Node.output (grow-load x) ∙ elim (Bool-cases (same (b ∷ w) x)) [
    | inl y ↦
        let at : b ∷ w ≡ x = (same_iff (b ∷ w) x).0 y in
        rw y (
          subst (λ v. none ≡ (load st v).output) at
            (sym (ap Node.output (load-absent st (b ∷ w) (grow-absent none_yet)))))
    | inr n ↦ rw n (elim (Bool-cases (same w x)) [
      | inl y ↦ rw y (ap (λ v. (load st v).output) ((same_iff w x).0 y))
      | inr k ↦ rw k
    ])
  ]

  pub grow-fail :
      ((x : Addr) → (load st x).fail ≡ none) → (x : Addr) → (load (grow st w b) x).fail ≡ none
  grow-fail none_yet x = ap Node.fail (grow-load x) ∙ elim (Bool-cases (same (b ∷ w) x)) [
    | inl y ↦ rw y
    | inr n ↦
        rw n
          (elim (Bool-cases (same w x)) [ inl y ↦ rw y (none_yet w) | inr k ↦ rw k (none_yet x) ])
  ]

pub next_of-some :
    (st : Store) (w : Addr) (b : ℕ) (p : Addr)
    → IsTrie st
    → next_of st w b ≡ some p
    → (p ≡ b ∷ w) × (has st (b ∷ w) ≡ true)
next_of-some st w b p t e = elim (Bool-cases (has st (b ∷ w))) [
  | inl y ↦
      let leads : some (b ∷ w) ≡ some p =
        sym (t.leads w b ∙ ap (λ t. if t then some (b ∷ w) else none) y) ∙ e in
      (cc, y)
  | inr n ↦
      let leads : none ≡ some p =
        sym (t.leads w b ∙ ap (λ t. if t then some (b ∷ w) else none) n) ∙ e in
      absurd (some-ne-none p (sym leads))
]

-- A node may change its other fields.
module _ (st : Store) (w : Addr) (n : Node) (here : has st w ≡ true)
    (kept : n.next ≡ (load st w).next) where
  pub put-has : (x : Addr) → has (store st w n) x ≡ has st x
  put-has x = has-store st w x n ∙ elim (Bool-cases (same w x)) [
    | inl y ↦ rw y (sym (subst (λ v. has st v ≡ true) ((same_iff w x).0 y) here))
    | inr k ↦ rw k
  ]

  pub put-next : (x : Addr) → (load (store st w n) x).next ≡ (load st x).next
  put-next x = ap Node.next (load-store st w x n) ∙ elim (Bool-cases (same w x)) [
    | inl y ↦ rw y (kept ∙ ap (λ v. (load st v).next) ((same_iff w x).0 y))
    | inr k ↦ rw k
  ]

  pub put-IsTrie : IsTrie st → IsTrie (store st w n)
  unfolding next_of
  put-IsTrie t = record {
    rooted = put-has [] ∙ t.rooted;
    closed = λ b x h. put-has x ∙ t.closed b x (sym (put-has (b ∷ x)) ∙ h);
    leads = λ x b. rw (put-next x, put-has (b ∷ x)) (t.leads x b);
    keyed = λ x. subst (Children x) (sym (put-next x)) (t.keyed x);
  }
