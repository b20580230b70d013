-- ===== src/Waf/Links.antt =====
-- security/waf/automaton.go: what a node of the finished automaton holds, and one link.
pub mod Levels
pub mod Stores
use mathlib.Core.Bool.{false≢true}
use native.Mathlib.Decide.{dec_lt}
use multi_threaded_web_serve.Waf.Automaton.{
  Addr, Node, Rule, Store, find_fail, link_child, load, next_of, root, store,
}
use multi_threaded_web_serve.Waf.Initial.{
  Best, Best-extends, Best-next, Best-root, Closed, Longest, starts, starts-length, starts_nested,
  starts_refl, starts_trans, starts_whole,
}
use multi_threaded_web_serve.Waf.Trie.{
  Children, IsTrie, has, same_refl, load-absent, load-store, put-IsTrie, put-has, put-next,
}
use multi_threaded_web_serve.Waf.Trie.Paths.{is_some, key, Marks, marked}
use multi_threaded_web_serve.Base.{
  ℕ, zero, suc, ◌+◌, ◌≤◌, ◌<◌, Bool, true, false, ◌||◌, List, [], ◌∷◌, ◌≡◌, refl, subst, ap, sym,
  ◌∙◌, arith, inl, inr, ◌⊎◌, Option, none, some, Option-cases, Bool-cases, if◌then◌else◌, same,
  same_iff, Bytes, All, length,
}

-- Every pattern that ends at a segment of the path is reported.
abbrev pub Fires : (Addr → Bool) → Node → Addr → Type 0
Fires ends n w = (x : Addr) → ends x ≡ true → starts x w ≡ true → is_some n.output ≡ true

-- A node that is linked: its fail pointer leads to its longest proper segment, its output fires.
abbrev pub Good : (Addr → Bool) → (Addr → Bool) → Node → Addr → Type 0
Good T ends n [] = n.fail ≡ none
Good T ends n (c ∷ v) =
    (p : Addr) × (n.fail ≡ some p) × Longest T (length v) (c ∷ v) p × Fires ends n (c ∷ v)

-- What holds of every node at all times: a rule that it reports does end there.
pub record Partial (P : Bytes → Type 0) (ends : Addr → Bool) (n : Node) (w : Addr) : Type 0 where
  pub sound : (r : Rule) → n.output ≡ some r → P r.pattern × (starts (key r.pattern) w ≡ true)
  pub own : ends w ≡ true → is_some n.output ≡ true

-- The trie that is linked: its nodes and the ends of its patterns.
pub record IsBase (P : Bytes → Type 0) (base : Store) : Type 0 where
  pub marks : Marks P base
  pub no_empty : marked base [] ≡ false

-- A store on the way: the nodes of the trie with their maps.
pub record On (P : Bytes → Type 0) (base st : Store) : Type 0 where
  pub trie : IsTrie st
  pub nodes : (w : Addr) → has st w ≡ has base w
  pub partial : (w : Addr) → Partial P (marked base) (load st w) w

module _ (T : Addr → Bool) (ends : Addr → Bool) (none_empty : ends [] ≡ false) where
  pub Good-Fires : (n : Node) (w : Addr) → Good T ends n w → Fires ends n w
  Good-Fires n [] g [] e s = absurd (false≢true (sym none_empty ∙ e))
  Good-Fires n [] g (a ∷ x) e s = absurd (false≢true s)
  Good-Fires n (c ∷ v) (p, f, l, fires) x e s = fires x e s

module _ {P : Bytes → Type 0} {base : Store} (b_is : IsBase P base) (st : Store)
    (on : On P base st) where
  leads : (w : Addr) (b : ℕ) → next_of st w b ≡ (if has base (b ∷ w) then some (b ∷ w) else none)
  leads w b = on.trie.leads w b ∙ ap (λ t. if t then some (b ∷ w) else none) (on.nodes (b ∷ w))

  next-there : (w : Addr) (b : ℕ) → has base (b ∷ w) ≡ true → next_of st w b ≡ some (b ∷ w)
  next-there w b y = leads w b ∙ ap (λ t. if t then some (b ∷ w) else none) y

  next-absent : (w : Addr) (b : ℕ) → has base (b ∷ w) ≡ false → next_of st w b ≡ none
  next-absent w b k = leads w b ∙ ap (λ t. if t then some (b ∷ w) else none) k

  pub closed : Closed (has base)
  closed = b_is.marks.trie.closed

  -- What the search for a fail pointer ends with.
  abbrev pub Found : ℕ → Addr → ℕ → Option Addr → Type 0
  Found n u b none = (has base (b ∷ []) ≡ false) × Best (has base) n u b []
  Found n u b (some q) = (has base (b ∷ q) ≡ true) × Best (has base) n u b q

  find_fail-Found :
      (d fuel n : ℕ) (u : Addr) (b : ℕ) (p : Addr)
      → ((w : Addr)
          → has base w ≡ true
          → length w ≤ d
          → Good (has base) (marked base) (load st w) w)
      → length p ≤ d
      → length p < fuel
      → Best (has base) n u b p
      → Found n u b (find_fail fuel st (some p) b)
  unfolding find_fail
  find_fail-Found d zero n u b p good l f h = absurd (omega arith)
  find_fail-Found d (suc fuel) n u b [] good l f h = elim (Bool-cases (has base (b ∷ []))) [
    | inl y ↦ rw (find_fail, next-there [] b y) (y, h)
    | inr k ↦ rw (find_fail, next-absent [] b k, good [] b_is.marks.trie.rooted l) (k, h)
  ]
  find_fail-Found d (suc fuel) n u b (c ∷ q) good l f h = elim (Bool-cases (has base (b ∷ c ∷ q))) [
    | inl y ↦ rw (find_fail, next-there (c ∷ q) b y) (y, h)
    | inr k ↦
        let (p, e, longest, _) = good (c ∷ q) h.member l in
        rw (find_fail, next-absent (c ∷ q) b k, e)
          (find_fail-Found d fuel n u b p good (omega (arith, longest.short))
            (omega (arith, longest.short)) (Best-next (has base) closed n u b c q p h k longest))
  ]

  -- What a linked child holds.
  pub record Linked (c : ℕ) (v : Addr) (n : Node) : Type 0 where
    pub kept : n.next ≡ (load st (c ∷ v)).next
    pub good : Good (has base) (marked base) n (c ∷ v)
    pub partial : Partial P (marked base) n (c ∷ v)

  -- An end that is a segment of the child is the child, or a segment within its parent's length.
  segments : (c : ℕ) (v x : Addr) → starts x (c ∷ v) ≡ true → (x ≡ c ∷ v) ⊎ (length x ≤ length v)
  segments c v x s = elim (dec_lt (length v) (length x)) [
    | yes l ↦ inl (starts_whole x (c ∷ v) s (omega (arith, starts-length x (c ∷ v) s)))
    | no l ↦ inr (omega arith)
  ]

  pub marked-has : (x : Addr) → marked base x ≡ true → has base x ≡ true
  marked-has x e = elim (Bool-cases (has base x)) [
    | inl y ↦ y
    | inr k ↦
        absurd (false≢true (sym (ap (λ (n : Node). is_some n.output) (load-absent base x k)) ∙ e))
  ]

  not_root : (x : Addr) → marked base x ≡ true → length x ≤ 0 → ⊥
  not_root [] e l = false≢true (sym b_is.no_empty ∙ e)
  not_root (a ∷ x) e l = absurd (omega arith)

  -- The fail pointer leads to the root.
  pub to_root-Linked :
      (c : ℕ) (v : Addr)
      → Longest (has base) (length v) (c ∷ v) []
      → Linked c v (record (load st (c ∷ v)) { fail = some root })
  to_root-Linked c v l = record {
    kept = refl;
    good = (
      [],
      refl,
      l,
      λ x e s. elim (segments c v x s) [
        | inl whole ↦ (on.partial (c ∷ v)).own (subst (λ y. marked base y ≡ true) whole e)
        | inr short ↦ absurd (not_root x e (l.longest x (marked-has x e) s short))
      ],
    );
    partial = record { sound = (on.partial (c ∷ v)).sound; own = (on.partial (c ∷ v)).own };
  }

  abbrev pub inherited : Option Rule → Option Rule → Option Rule
  inherited own target = elim own [ some rule ↦ some rule | none ↦ target ]

  inherited-own :
      (own target : Option Rule) → is_some own ≡ true → is_some (inherited own target) ≡ true
  inherited-own none target h = absurd (false≢true h)
  inherited-own (some r) target h = refl

  inherited-target :
      (own target : Option Rule) → is_some target ≡ true → is_some (inherited own target) ≡ true
  inherited-target none target h = h
  inherited-target (some r) target h = refl

  inherited-cases :
      (own target : Option Rule) (r : Rule)
      → inherited own target ≡ some r
      → (own ≡ some r) ⊎ (target ≡ some r)
  inherited-cases none target r h = inr h
  inherited-cases (some q) target r h = inl h

  -- It leads to another node, whose output is inherited.
  to_target-Linked :
      (c : ℕ) (v t : Addr)
      → Longest (has base) (length v) (c ∷ v) t
      → Fires (marked base) (load st t) t
      → Linked c v (record (load st (c ∷ v)) {
        fail = some t;
        output = inherited (load st (c ∷ v)).output (load st t).output;
      })
  to_target-Linked c v t l fires = record {
    kept = refl;
    good = (
      t,
      refl,
      l,
      λ x e s. elim (segments c v x s) [
        | inl whole ↦
            inherited-own _ _ ((on.partial (c ∷ v)).own (subst (λ y. marked base y ≡ true) whole e))
        | inr short ↦
            let within = l.longest x (marked-has x e) s short in
            inherited-target _ _ (fires x e (starts_nested t x (c ∷ v) l.initial s within))
      ],
    );
    partial = record {
      sound = λ r e. elim (inherited-cases _ _ r e) [
        | inl own ↦ (on.partial (c ∷ v)).sound r own
        | inr target ↦
            let (p, s) = (on.partial t).sound r target in
            (p, starts_trans (key r.pattern) t (c ∷ v) s l.initial)
      ];
      own = λ e. inherited-own _ _ ((on.partial (c ∷ v)).own e);
    };
  }

  Longest-Best :
      (c b : ℕ) (v p : Addr)
      → Longest (has base) (length v) (c ∷ v) p
      → Best (has base) (length v) (c ∷ v) b p
  Longest-Best c b v p l = record {
    member = l.member;
    initial = l.initial;
    short = l.short;
    longest = λ x m s k. l.longest x (closed b x m) s k;
  }

  -- One child of a node other than the root, where all nodes that are not longer are good.
  pub link_child-Linked :
      (c b : ℕ) (v : Addr)
      → ((w : Addr)
          → has base w ≡ true
          → length w ≤ length (c ∷ v)
          → Good (has base) (marked base) (load st w) w)
      → has base (c ∷ v) ≡ true
      → (n : Node) × (link_child st (c ∷ v) b (b ∷ c ∷ v) ≡ store st (b ∷ c ∷ v) n)
        × Linked b (c ∷ v) n
  unfolding link_child
  link_child-Linked c b v good h =
      let (p, e, l, _) = good (c ∷ v) h (omega arith) in
      let search =
        find_fail-Found (length (c ∷ v)) (suc (length (c ∷ v))) (length v) (c ∷ v) b p good
          (omega (arith, l.short)) (omega (arith, l.short)) (Longest-Best c b v p l) in
      elim (Option-cases (find_fail (suc (length (c ∷ v))) st (some p) b)) [
        | inl k ↦
            let (absent, best) = subst (Found (length v) (c ∷ v) b) k search in
            (
              _,
              rw (e, link_child, k) refl,
              to_root-Linked b (c ∷ v) (
                  Best-root (has base) closed (length v) (c ∷ v) b b_is.marks.trie.rooted best
                    absent),
            )
        | inr (q, k) ↦
            let (there, best) = subst (Found (length v) (c ∷ v) b) k search in
            let l1 = Best-extends (has base) closed (length v) (c ∷ v) b q best there in
            (
              _,
              rw (e, link_child, k, next-there q b there) refl,
              to_target-Linked b (c ∷ v) (b ∷ q) l1 (
                  Good-Fires (has base) (marked base) b_is.no_empty (load st (b ∷ q)) (b ∷ q)
                    (good (b ∷ q) there l1.short)),
            )
      ]
