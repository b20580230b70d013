-- ===== src/Waf/Links/Levels.antt =====
-- security/waf/automaton.go: the breadth-first search. It takes the nodes by their depth, so that a
-- fail pointer, which leads to a shorter path, is found among nodes that are linked already.
pub mod Demand
pub mod Finished
use mathlib.Core.Bool.{false≢true}
use multi_threaded_web_serve.Waf.Automaton.{
  Addr, Node, Rule, Store, get_next, link_child, link_children, link_queue, link_to_root, load,
  next_of, root, store, targets,
}
use multi_threaded_web_serve.Waf.Initial.{Closed, Longest}
use multi_threaded_web_serve.Waf.Links.{
  Good, IsBase, Linked, On, closed, link_child-Linked, to_root-Linked,
}
use multi_threaded_web_serve.Waf.Links.Stores.{Keeps, Keeps-refl, Keeps-trans, store-Keeps, keys}
use multi_threaded_web_serve.Waf.Trie.{Children, IsTrie, has}
use multi_threaded_web_serve.Waf.Trie.Paths.{is_some, marked}
use multi_threaded_web_serve.Base.{
  ℕ, zero, suc, ◌+◌, ◌≤◌, ◌<◌, Bool, true, false, List, [], ◌∷◌, ◌++◌, ◌≡◌, refl, subst, ap, sym,
  ◌∙◌, arith, inl, inr, ◌⊎◌, Option, none, some, Option-cases, Bool-cases, Bytes, length, All,
  All-append, contains, ◌||◌, ◌==◌, same, same_iff, if◌then◌else◌,
}

module _ {P : Bytes → Type 0} {base : Store} (b_is : IsBase P base) where
  abbrev GoodAt : Store → Addr → Type 0
  GoodAt st w = Good (has base) (marked base) (load st w) w

  -- All nodes down to the depth `d` are linked.
  abbrev GoodTo : ℕ → Store → Type 0
  GoodTo d st = (w : Addr) → has base w ≡ true → length w ≤ d → GoodAt st w

  -- The children of a node other than the root.
  link_children-Keeps :
      (c : ℕ) (v : Addr) (next : List (ℕ × Addr)) (st : Store)
      → On P base st
      → GoodTo (length (c ∷ v)) st
      → has base (c ∷ v) ≡ true
      → Children (c ∷ v) next
      → All (λ w. has base w ≡ true) (targets next)
      → Keeps P base st (link_children st (c ∷ v) next)
        × All (GoodAt (link_children st (c ∷ v) next)) (targets next)
  unfolding link_children
  link_children-Keeps c v [] st on good h ch ts = (Keeps-refl st on, tt)
  link_children-Keeps c v ((b, p) ∷ next) st on good h (at, _, ch) (t, ts) =
      let there = subst (λ w. has base w ≡ true) at t in
      let (n, is_store, linked) = link_child-Linked b_is st on c b v good h in
      let (k, g) = store-Keeps b_is st on b (c ∷ v) n there linked in
      let st' = store st (b ∷ c ∷ v) n in
      let (ks, gs) =
        link_children-Keeps c v next st' k.on (λ w m l. k.good w (good w m l)) h ch ts in
      let step : link_child st (c ∷ v) b p ≡ st' = ap (link_child st (c ∷ v) b) at ∙ is_store in
      let done = Keeps-trans st st' (link_children st' (c ∷ v) next) k ks in
      subst
        (λ x.
          Keeps P base st (link_children x (c ∷ v) next)
          × All (GoodAt (link_children x (c ∷ v) next)) (targets ((b, p) ∷ next)))
        (sym step)
        (
          done,
          (subst (GoodAt (link_children st' (c ∷ v) next)) (sym at) (ks.good (b ∷ c ∷ v) g), gs),
        )

  -- The children of the root.
  link_to_root-Keeps :
      (next : List (ℕ × Addr)) (st : Store)
      → On P base st
      → Children [] next
      → All (λ w. has base w ≡ true) (targets next)
      → Keeps P base st (link_to_root st next) × All (GoodAt (link_to_root st next)) (targets next)
  unfolding link_to_root
  link_to_root-Keeps [] st on ch ts = (Keeps-refl st on, tt)
  link_to_root-Keeps ((b, p) ∷ next) st on (at, _, ch) (t, ts) =
      let there = subst (λ w. has base w ≡ true) at t in
      let n = record (load st (b ∷ [])) { fail = some root } in
      let linked = to_root-Linked b_is st on b [] (record {
        member = b_is.marks.trie.rooted;
        initial = refl;
        short = omega arith;
        longest = λ x m s k. k;
      }) in
      let (k, g) = store-Keeps b_is st on b [] n there linked in
      let st' = store st (b ∷ []) n in
      let (ks, gs) = link_to_root-Keeps next st' k.on ch ts in
      let step : store st p (record (load st p) { fail = some root }) ≡ st' =
        ap (λ x. store st x (record (load st x) { fail = some root })) at in
      let done = Keeps-trans st st' (link_to_root st' next) k ks in
      subst
        (λ x.
          Keeps P base st (link_to_root x next)
          × All (GoodAt (link_to_root x next)) (targets ((b, p) ∷ next)))
        (sym step)
        (done, (subst (GoodAt (link_to_root st' next)) (sym at) (ks.good (b ∷ []) g), gs))

  abbrev Back : ℕ → Store → Addr → Type 0
  Back d st w = (has base w ≡ true) × (length w ≡ suc d) × GoodAt st w

  -- The search at the depth `d`: the nodes `front` of that depth wait, and then those of `back`,
  -- one deeper. Whatever is not linked yet lies below a node of `front`.
  record Level (d : ℕ) (st : Store) (front back : List Addr) : Type 0 where
    on : On P base st
    good : GoodTo d st
    fronts : All (λ w. (has base w ≡ true) × (length w ≡ d)) front
    backs : All (Back d st) back
    covered :
        (b : ℕ) (w : Addr)
        → has base (b ∷ w) ≡ true
        → length w ≡ d
        → (contains w front || contains (b ∷ w) back) ≡ true

  -- The entries of a map are nodes.
  targets-has :
      (w : Addr) (next : List (ℕ × Addr))
      → Children w next
      → ((b : ℕ) → is_some (get_next next b) ≡ true → has base (b ∷ w) ≡ true)
      → All (λ x. has base x ≡ true) (targets next)
  unfolding get_next
  targets-has w [] ch h = tt
  targets-has w ((b, p) ∷ next) (at, _, ch) h =
      (rw at (h b (ground arith)), targets-has w next ch (λ c e. h c (ground arith)))

  targets-contains :
      (w : Addr) (next : List (ℕ × Addr)) (b : ℕ)
      → Children w next
      → is_some (get_next next b) ≡ true
      → contains (b ∷ w) (targets next) ≡ true
  unfolding get_next contains
  targets-contains w [] b ch e = absurd (false≢true e)
  targets-contains w ((c, p) ∷ next) b (at, _, ch) e =
      rw at (ground (arith, same_iff w w, targets-contains w next b ch))

  contains-append :
      (w : Addr) (xs ys : List Addr) → contains w (xs ++ ys) ≡ (contains w xs || contains w ys)
  unfolding contains
  contains-append w [] ys = refl
  contains-append w (x ∷ xs) ys = ground (arith, contains-append w xs ys)

  entry :
      (st : Store) (w : Addr) (b : ℕ)
      → On P base st
      → is_some (get_next (load st w).next b) ≡ has base (b ∷ w)
  unfolding next_of
  entry st w b on = ap is_some (on.trie.leads w b) ∙ elim (Bool-cases (has st (b ∷ w))) [
    | inl y ↦ rw (← on.nodes (b ∷ w), y) refl
    | inr k ↦ rw (← on.nodes (b ∷ w), k) refl
  ]

  backs-keep :
      (d : ℕ) (st st' : Store) (back : List Addr)
      → ((w : Addr) → GoodAt st w → GoodAt st' w)
      → All (Back d st) back
      → All (Back d st') back
  backs-keep d st st' [] k h = tt
  backs-keep d st st' (w ∷ back) k ((m, s, g), h) = ((m, s, k w g), backs-keep d st st' back k h)

  Children-backs :
      (w : Addr) (st : Store) (next : List (ℕ × Addr))
      → Children w next
      → All (λ x. has base x ≡ true) (targets next)
      → All (GoodAt st) (targets next)
      → All (Back (length w) st) (targets next)
  Children-backs w st [] ch h g = tt
  Children-backs w st ((b, p) ∷ next) (at, _, ch) (h, hs) (g, gs) =
      ((h, ap length at, g), Children-backs w st next ch hs gs)

  covers :
      (front back : List Addr) (next : List (ℕ × Addr)) (b : ℕ) (here : Bool) (w : Addr)
      → ((here || contains w front) || contains (b ∷ w) back) ≡ true
      → (here ≡ true → contains (b ∷ w) (targets next) ≡ true)
      → (contains w front || contains (b ∷ w) (back ++ targets next)) ≡ true
  covers front back next b here w h k =
      ground (arith, contains-append (b ∷ w) back (targets next), h, k)

  Level-step :
      (e : ℕ) (st : Store) (c : ℕ) (v : Addr) (front back : List Addr)
      → Level (suc e) st ((c ∷ v) ∷ front) back
      → Level
          (suc e)
          (link_children st (c ∷ v) (load st (c ∷ v)).next)
          front
          (back ++ targets (load st (c ∷ v)).next)
        × Keeps P base st (link_children st (c ∷ v) (load st (c ∷ v)).next)
  unfolding contains
  Level-step e st c v front back l =
      let next = (load st (c ∷ v)).next in
      let ((here, depth), fronts) = l.fronts in
      let ch = l.on.trie.keyed (c ∷ v) in
      let there = targets-has (c ∷ v) next ch (λ b h. sym (entry st (c ∷ v) b l.on) ∙ h) in
      let (k, g) =
        link_children-Keeps c v next st l.on (λ w m s. l.good w m (omega arith)) here ch there in
      let st' = link_children st (c ∷ v) next in
      (
        record {
          on = k.on;
          good = λ w m s. k.good w (l.good w m s);
          fronts = fronts;
          backs = All-append _ back (targets next) (backs-keep (suc e) st st' back k.good l.backs) (
              subst (λ d. All (Back d st') (targets next)) depth
                (Children-backs (c ∷ v) st' next ch there g));
          covered = λ b w m s. covers front back next b (same (c ∷ v) w) w (l.covered b w m s) (λ y.
              let at : c ∷ v ≡ w = (same_iff (c ∷ v) w).0 y in
              subst (λ u. contains (b ∷ u) (targets next) ≡ true) at
                (targets-contains (c ∷ v) next b ch
                  (entry st (c ∷ v) b l.on ∙ subst (λ u. has base (b ∷ u) ≡ true) (sym at) m)));
        },
        k,
      )
