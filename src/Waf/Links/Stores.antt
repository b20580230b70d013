-- ===== src/Waf/Links/Stores.antt =====
-- security/waf/automaton.go: what a link leaves of the store as it was.
use multi_threaded_web_serve.Waf.Links.{Good, IsBase, Linked, On, Partial}
use mathlib.Core.Bool.{false≢true}
use multi_threaded_web_serve.Waf.Automaton.{Addr, Node, Store, load, store}
use multi_threaded_web_serve.Waf.Trie.{has, same_refl, load-store, put-IsTrie, put-has, put-next}
use multi_threaded_web_serve.Waf.Trie.Paths.{marked}
use multi_threaded_web_serve.Base.{
  ℕ, true, ◌||◌, List, [], ◌∷◌, ◌≡◌, refl, subst, ap, sym, ◌∙◌, inl, inr, Bool-cases, if◌then◌else◌,
  same, same_iff, Bytes,
}

abbrev pub keys : Store → List Addr
keys [] = []
keys ((q, n) ∷ st) = q ∷ keys st

pub keys-store :
    (st : Store) (p : Addr) (n : Node) → has st p ≡ true → keys (store st p n) ≡ keys st
unfolding store has
keys-store [] p n h = absurd (false≢true h)
keys-store ((q, m) ∷ st) p n h = elim (Bool-cases (same q p)) [
  | inl y ↦ rw y
  | inr k ↦ rw k (ap (◌∷◌ q) (keys-store st p n (sym (ap (λ t. t || has st p) k) ∙ h)))
]

-- A store that has come some way from another one.
pub record Keeps (P : Bytes → Type 0) (base st st' : Store) : Type 0 where
  pub on : On P base st'
  pub good :
      (w : Addr)
      → Good (has base) (marked base) (load st w) w
      → Good (has base) (marked base) (load st' w) w
  pub nexts : (w : Addr) → (load st' w).next ≡ (load st w).next
  pub same_keys : keys st' ≡ keys st

module _ {P : Bytes → Type 0} {base : Store} where
  pub Keeps-trans : (a b c : Store) → Keeps P base a b → Keeps P base b c → Keeps P base a c
  Keeps-trans a b c h k = record {
    on = k.on;
    good = λ w g. k.good w (h.good w g);
    nexts = λ w. k.nexts w ∙ h.nexts w;
    same_keys = k.same_keys ∙ h.same_keys;
  }

  pub Keeps-refl : (a : Store) → On P base a → Keeps P base a a
  Keeps-refl a on = record { on = on; good = λ w g. g; nexts = λ w. refl; same_keys = refl }

module _ {P : Bytes → Type 0} {base : Store} (b_is : IsBase P base) (st : Store) (on : On P base st)
    (c : ℕ) (v : Addr) (n : Node) (here : has base (c ∷ v) ≡ true)
    (l : Linked b_is st on c v n) where
  here_st : has st (c ∷ v) ≡ true
  here_st = on.nodes (c ∷ v) ∙ here

  -- What holds of the new node there and of the old nodes elsewhere holds everywhere.
  store-each :
      (Q : Node → Addr → Type 0)
      → Q n (c ∷ v)
      → (w : Addr) → Q (load st w) w
      → Q (load (store st (c ∷ v) n) w) w
  store-each Q q w h =
      subst (λ m. Q m w) (sym (load-store st (c ∷ v) w n))
        (elim (Bool-cases (same (c ∷ v) w)) [
          | inl y ↦ rw y (subst (Q n) ((same_iff (c ∷ v) w).0 y) q)
          | inr k ↦ rw k h
        ])

  pub store-Keeps :
      Keeps P base st (store st (c ∷ v) n)
      × Good (has base) (marked base) (load (store st (c ∷ v) n) (c ∷ v)) (c ∷ v)
  store-Keeps = (
    record {
      on = record {
        trie = put-IsTrie st (c ∷ v) n here_st l.kept on.trie;
        nodes = λ w. put-has st (c ∷ v) n here_st l.kept w ∙ on.nodes w;
        partial = λ w. store-each (Partial P (marked base)) l.partial w (on.partial w);
      };
      good = store-each (Good (has base) (marked base)) l.good;
      nexts = put-next st (c ∷ v) n here_st l.kept;
      same_keys = keys-store st (c ∷ v) n here_st;
    },
    subst (λ m. Good (has base) (marked base) m (c ∷ v))
        (sym (
          load-store st (c ∷ v) (c ∷ v) n
          ∙ ap (λ t. if t then n else load st (c ∷ v)) (same_refl (c ∷ v))))
        l.good,
  )
