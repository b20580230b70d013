-- ===== src/Waf/Links/Levels/Finished.antt =====
-- security/waf/automaton.go: at the end of `NewRules` every node is linked.
use mathlib.Core.Bool.{false≢true}
use native.Mathlib.Decide.{dec_lt}
use multi_threaded_web_serve.Waf.Automaton.{
  Addr, Store, link_children, link_queue, link_to_root, load, root, targets,
}
use multi_threaded_web_serve.Waf.Initial.{starts, starts_refl}
use multi_threaded_web_serve.Waf.Links.{IsBase, On}
use multi_threaded_web_serve.Waf.Links.Stores.{Keeps, keys}
use multi_threaded_web_serve.Waf.Links.Levels.{
  Back, GoodAt, GoodTo, Level, Level-step, entry, link_to_root-Keeps, targets-contains, targets-has,
}
use multi_threaded_web_serve.Waf.Links.Levels.Demand.{demand, demand-less, demand-root}
use multi_threaded_web_serve.Waf.Trie.{Children, has}
use multi_threaded_web_serve.Base.{
  ℕ, zero, suc, ◌≤◌, ◌<◌, true, false, ◌||◌, List, [], ◌∷◌, ◌++◌, ◌≡◌, refl, subst, ap, sym, ◌∙◌,
  arith, inl, inr, Bytes, length, All, Bool-cases, contains, same, same_iff, append_assoc,
  append-nil,
}

pub All-contains :
    (Q : Addr → Type 0) (w : Addr) (xs : List Addr) → All Q xs → contains w xs ≡ true → Q w
unfolding contains
All-contains Q w [] h c = absurd (false≢true c)
All-contains Q w (x ∷ xs) (h, hs) c = elim (Bool-cases (same x w)) [
  | inl y ↦ subst Q ((same_iff x w).0 y) h
  | inr n ↦ All-contains Q w xs hs (sym (ap (λ t. t || contains w xs) n) ∙ c)
]

has-keys : (st : Store) (w : Addr) → has st w ≡ contains w (keys st)
unfolding has contains
has-keys [] w = refl
has-keys ((q, n) ∷ st) w = ap (λ t. same q w || t) (has-keys st w)

module _ {P : Bytes → Type 0} {base : Store} (b_is : IsBase P base) where
  fronts_of :
      (d : ℕ) (st : Store) (back : List Addr)
      → All (Back b_is d st) back
      → All (λ w. (has base w ≡ true) × (length w ≡ suc d)) back
  fronts_of d st [] h = tt
  fronts_of d st (w ∷ back) ((m, s, g), h) = ((m, s), fronts_of d st back h)

  module _ (d : ℕ) (st : Store) (back : List Addr) (l : Level b_is d st [] back) where
    in_back : (w : Addr) → has base w ≡ true → length w ≡ suc d → contains w back ≡ true
    unfolding contains
    in_back [] m s = absurd (omega arith)
    in_back (c ∷ v) m s = l.covered c v m (omega arith)

    -- With an empty front the search goes on one deeper.
    Level-shift : Level b_is (suc d) st back []
    unfolding contains
    Level-shift = record {
      on = l.on;
      good = λ w m s. elim (dec_lt d (length w)) [
        | no h ↦ l.good w m (omega arith)
        | yes h ↦ (All-contains (Back b_is d st) w back l.backs (in_back w m (omega arith))).2
      ];
      fronts = fronts_of d st back l.backs;
      backs = tt;
      covered = λ b w m s. ap (λ t. t || false) (in_back w (b_is.marks.trie.closed b w m) s);
    }

  -- With nothing in the queue all nodes are linked.
  nothing_deeper :
      (d : ℕ) (st : Store)
      → Level b_is d st [] []
      → (w : Addr) → has base w ≡ true
      → d < length w
      → ⊥
  unfolding contains
  nothing_deeper d st l [] m s = absurd (omega arith)
  nothing_deeper d st l (c ∷ v) m s = elim (dec_lt d (length v)) [
    | yes h ↦ nothing_deeper d st l v (b_is.marks.trie.closed c v m) h
    | no h ↦ false≢true (l.covered c v m (omega arith))
  ]

  -- A round of the queue, and that it has fewer nodes to come.
  Level-round :
      (e : ℕ) (st : Store) (c : ℕ) (v : Addr) (front back : List Addr)
      → Level b_is (suc e) st ((c ∷ v) ∷ front) back
      → demand ((front ++ back) ++ targets (load st (c ∷ v)).next) (keys st)
        < demand ((c ∷ v) ∷ front ++ back) (keys st)
  Level-round e st c v front back l =
      demand-less (c ∷ v) (front ++ back) (load st (c ∷ v)).next (keys st) (l.on.trie.keyed (c ∷ v))
        (sym (has-keys st (c ∷ v)) ∙ l.on.nodes (c ∷ v) ∙ l.fronts.0.0)

  -- What the search leaves.
  pub record Finished (st : Store) : Type 0 where
    pub on : On P base st
    pub good : (w : Addr) → has base w ≡ true → GoodAt b_is st w

  -- The search from a level, with so much fuel.
  abbrev Finishes : ℕ → ℕ → Store → List Addr → List Addr → Type 0
  Finishes fuel e st front back =
      Level b_is (suc e) st front back
      → demand (front ++ back) (keys st) ≤ fuel
      → Finished (link_queue fuel st (front ++ back))

  advance :
      (fuel e : ℕ) (st : Store) (c : ℕ) (v : Addr) (front back : List Addr)
      → ((st' : Store) (front' back' : List Addr) → Finishes fuel e st' front' back')
      → Finishes (suc fuel) e st ((c ∷ v) ∷ front) back
  unfolding link_queue
  advance fuel e st c v front back ih l h =
      let next = (load st (c ∷ v)).next in
      let st' = link_children st (c ∷ v) next in
      let (step, k) = Level-step b_is e st c v front back l in
      let moved = append_assoc front back (targets next) in
      let less = Level-round e st c v front back l in
      let bound : demand (front ++ (back ++ targets next)) (keys st') ≤ fuel =
        subst (λ ks. demand (front ++ (back ++ targets next)) ks ≤ fuel) (sym k.same_keys)
          (subst (λ q. demand q (keys st) ≤ fuel) moved (omega arith)) in
      subst (λ q. Finished (link_queue fuel st' q)) (sym moved)
        (ih st' front (back ++ targets next) step bound)

  out_of_fuel :
      (e : ℕ) (st : Store) (c : ℕ) (v : Addr) (front back : List Addr)
      → Finishes zero e st ((c ∷ v) ∷ front) back
  out_of_fuel e st c v front back l h = absurd (omega (arith, Level-round e st c v front back l))

  link_queue-Finished :
      (fuel e : ℕ) (st : Store) (front back : List Addr) → Finishes fuel e st front back
  unfolding link_queue
  link_queue-Finished fuel e st [] [] l h = record {
    on = l.on;
    good = λ w m. elim (dec_lt (suc e) (length w)) [
      | yes s ↦ absurd (nothing_deeper (suc e) st l w m s)
      | no s ↦ l.good w m (omega arith)
    ];
  }
  link_queue-Finished fuel e st ([] ∷ front) back l h = absurd (omega (arith, l.fronts.0.1))
  link_queue-Finished fuel e st [] ([] ∷ back) l h = absurd (omega (arith, l.backs.0.1))
  link_queue-Finished zero e st ((c ∷ v) ∷ front) back l h = out_of_fuel e st c v front back l h
  link_queue-Finished (suc fuel) e st ((c ∷ v) ∷ front) back l h =
      advance fuel e st c v front back (link_queue-Finished fuel e) l h
  link_queue-Finished zero e st [] ((c ∷ v) ∷ back) l h =
      out_of_fuel (suc e) st c v back [] (Level-shift (suc e) st ((c ∷ v) ∷ back) l)
        (subst (λ q. demand q (keys st) ≤ 0) (sym (append-nil ((c ∷ v) ∷ back))) h)
  link_queue-Finished (suc fuel) e st [] ((c ∷ v) ∷ back) l h =
      subst (λ q. Finished (link_queue (suc fuel) st q)) (append-nil ((c ∷ v) ∷ back))
        (advance fuel (suc e) st c v back [] (link_queue-Finished fuel (suc e))
          (Level-shift (suc e) st ((c ∷ v) ∷ back) l)
          (subst (λ q. demand q (keys st) ≤ suc fuel) (sym (append-nil ((c ∷ v) ∷ back))) h))

  -- The root's children are the first level.
  base-On : On P base base
  base-On = record {
    trie = b_is.marks.trie;
    nodes = λ w. refl;
    partial = λ w. record {
      sound = λ r e.
          let (p, at) = b_is.marks.sound w r e in
          (p, subst (λ v. starts v w ≡ true) (sym at) (starts_refl w));
      own = λ e. e;
    };
  }

  abbrev linked : Store
  linked = link_to_root base (load base root).next

  abbrev first : List Addr
  first = targets (load base root).next

  first-has : All (λ w. has base w ≡ true) first
  first-has =
      targets-has b_is root (load base root).next (b_is.marks.trie.keyed root)
        (λ b h. sym (entry b_is base root b base-On) ∙ h)

  linked-Keeps : Keeps P base base linked × All (GoodAt b_is linked) first
  linked-Keeps =
      link_to_root-Keeps b_is (load base root).next base base-On (b_is.marks.trie.keyed root)
        first-has

  in_first : (c : ℕ) → has base (c ∷ []) ≡ true → contains (c ∷ []) first ≡ true
  in_first c m =
      targets-contains b_is root (load base root).next c (b_is.marks.trie.keyed root)
        (entry b_is base root c base-On ∙ m)

  first_good : GoodTo b_is 1 linked
  first_good [] m s = linked-Keeps.0.good [] (b_is.marks.no_fail [])
  first_good (c ∷ []) m s =
      All-contains (GoodAt b_is linked) (c ∷ []) first linked-Keeps.1 (in_first c m)
  first_good (c ∷ d ∷ v) m s = absurd (omega arith)

  first_covered :
      (b : ℕ) (w : Addr)
      → has base (b ∷ w) ≡ true
      → length w ≡ 1
      → (contains w first || contains (b ∷ w) []) ≡ true
  unfolding contains
  first_covered b [] m s = absurd (omega arith)
  first_covered b (c ∷ []) m s =
      ap (λ t. t || false) (in_first c (b_is.marks.trie.closed b (c ∷ []) m))
  first_covered b (c ∷ d ∷ v) m s = absurd (omega arith)

  first_fronts :
      (next : List (ℕ × Addr))
      → Children root next
      → All (λ w. has base w ≡ true) (targets next)
      → All (λ w. (has base w ≡ true) × (length w ≡ 1)) (targets next)
  first_fronts [] ch h = tt
  first_fronts ((b, p) ∷ next) (at, _, ch) (h, hs) = ((h, ap length at), first_fronts next ch hs)

  first-Level : Level b_is 1 linked first []
  first-Level = record {
    on = linked-Keeps.0.on;
    good = first_good;
    fronts = first_fronts (load base root).next (b_is.marks.trie.keyed root) first-has;
    backs = tt;
    covered = first_covered;
  }

  length-keys : (st : Store) → length (keys st) ≡ length st
  length-keys [] = refl
  length-keys ((q, n) ∷ st) = ap suc (length-keys st)

  -- The whole search, with one round for each node.
  pub link_queue-whole : Finished (link_queue (length base) linked first)
  link_queue-whole =
      let less =
        demand-less root [] (load base root).next (keys base) (b_is.marks.trie.keyed root)
          (sym (has-keys base root) ∙ b_is.marks.trie.rooted) in
      let bound : demand (first ++ []) (keys linked) ≤ length base =
        subst (λ ks. demand (first ++ []) ks ≤ length base) (sym linked-Keeps.0.same_keys)
          (subst (λ q. demand q (keys base) ≤ length base) (sym (append-nil first))
            (omega (arith, demand-root root (keys base), length-keys base))) in
      subst (λ q. Finished (link_queue (length base) linked q)) (append-nil first)
        (link_queue-Finished (length base) 0 linked first [] first-Level bound)
