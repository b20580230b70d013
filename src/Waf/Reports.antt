-- ===== src/Waf/Reports.antt =====
-- security/waf/automaton.go: what the automaton of `New` finds in a value, stated on the patterns.
pub mod Scanned
use mathlib.Core.Bool.{false≢true}
use multi_threaded_web_serve.Waf.Automaton.{
  Addr, Automaton, Match, Node, Rule, Store, insert_rules, load, new, new_rules, next_of, root,
  rule_id, rules_of,
}
use multi_threaded_web_serve.Waf.Initial.{
  Best, Best-extends, Best-next, Best-root, Longest, onto, starts, starts-length, starts_nested,
  starts_trans,
}
use multi_threaded_web_serve.Waf.Links.{marked-has, Fires, Good, Good-Fires, IsBase, On}
use multi_threaded_web_serve.Waf.Links.Levels.Finished.{Finished, link_queue-whole}
use multi_threaded_web_serve.Waf.Normalize.{normalize}
use multi_threaded_web_serve.Waf.Occurs.{meets, meets_of_occurs, occurs, occurs_of_meets}
use multi_threaded_web_serve.Waf.Scanner.{Verdict, clean, fault, found, next_state, report, settle}
use multi_threaded_web_serve.Waf.Tracks.{Says, or_later, walk-Says}
use multi_threaded_web_serve.Waf.Trie.{has, some-ne-none}
use multi_threaded_web_serve.Waf.Trie.Paths.{
  Has, Marks, Stands, first_store, first_store-Marks, insert_rules-Marks, is_some, key, marked,
}
use multi_threaded_web_serve.Waf.Walk.{walk}
use multi_threaded_web_serve.Base.{
  ℕ, zero, suc, ◌+◌, ◌≤◌, ◌<◌, Bool, true, false, ◌||◌, List, [], ◌∷◌, ◌++◌, ◌≡◌, refl, subst, ap,
  sym, ◌∙◌, arith, inl, inr, ◌⊎◌, Option, none, some, Option-cases, Bool-cases, Bytes, length, All,
  contains, if◌then◌else◌, is_empty, same, same_iff,
}

-- The patterns that can be found: those of the list that are not normalized to nothing.
abbrev Listed : List Bytes → Bytes → Type 0
Listed patterns p = (contains p patterns ≡ true) × (is_empty (normalize p) ≡ false)

-- No pattern but the empty one is normalized to nothing.
abbrev pub NoneVanishes : List Bytes → Type 0
NoneVanishes patterns = All (λ p. is_empty (normalize p) ≡ is_empty p) patterns

length-onto : (s w : Addr) → length (onto s w) ≡ length s + length w
length-onto [] w = omega arith
length-onto (b ∷ s) w = omega (arith, length-onto s (b ∷ w))

key-root : (p : Bytes) → key p ≡ [] → is_empty (normalize p) ≡ true
key-root p e = empties (normalize p) (omega (arith, length-onto (normalize p) [], ap length e))
  where
    empties : (s : Bytes) → length s ≡ 0 → is_empty s ≡ true
    empties [] h = refl
    empties (b ∷ s) h = absurd (omega arith)

rules_of-Has :
    (P : Bytes → Type 0) (i : ℕ) (patterns : List Bytes)
    → All (λ p. is_empty p ≡ false → P p) patterns
    → All (Has P) (rules_of i patterns)
unfolding rules_of
rules_of-Has P i [] h = tt
rules_of-Has P i (p ∷ patterns) (h, hs) =
    let rest = rules_of-Has P (i + 1) patterns hs in
    elim (Bool-cases (is_empty p)) [ inl y ↦ rw y rest | inr n ↦ rw n ((λ k. h n), rest) ]

rules_of-Stands :
    (st : Store) (i : ℕ) (patterns : List Bytes)
    → All (Stands st) (rules_of i patterns)
    → All (λ p. is_empty p ≡ false → marked st (key p) ≡ true) patterns
unfolding rules_of
rules_of-Stands st i [] h = tt
rules_of-Stands st i (p ∷ patterns) h = elim (Bool-cases (is_empty p)) [
  | inl y ↦
      ((λ n. absurd (false≢true (sym n ∙ y))), rules_of-Stands st (i + 1) patterns (rw y at h))
  | inr n ↦
      let both : Stands st (record { id = rule_id (i + 1); pattern = p })
          × All (Stands st) (rules_of (i + 1) patterns) =
        (rw n at h) in
      (both.0, rules_of-Stands st (i + 1) patterns both.1)
]

pub All-weaken :
    {A : Type 0} (Q R : A → Type 0) → ((x : A) → Q x → R x) → (xs : List A) → All Q xs → All R xs
All-weaken Q R f [] h = tt
All-weaken Q R f (x ∷ xs) (h, hs) = (f x h, All-weaken Q R f xs hs)

contains_self : (xs : List Bytes) → All (λ x. contains x xs ≡ true) xs
unfolding contains
contains_self [] = tt
contains_self (x ∷ xs) = (
  ground (arith, same_iff x x),
  All-weaken (λ y. contains y xs ≡ true) (λ y. contains y (x ∷ xs) ≡ true)
      (λ y h. or_later (same x y) h) xs (contains_self xs),
)

pub All-both :
    {A : Type 0} (Q R : A → Type 0) (xs : List A) → All Q xs → All R xs → All (λ x. Q x × R x) xs
All-both Q R [] h k = tt
All-both Q R (x ∷ xs) (h, hs) (k, ks) = ((h, k), All-both Q R xs hs ks)

-- What a verdict on the normalized value says of the patterns.
abbrev pub Reports : List Bytes → Bytes → Bytes → Verdict → Type 0
Reports patterns field text clean =
    All (λ p. is_empty p ≡ false → occurs (normalize p) text ≡ false) patterns
Reports patterns field text (found m) =
    (contains m.pattern patterns ≡ true)
    × (is_empty m.pattern ≡ false)
    × (occurs (normalize m.pattern) text ≡ true)
    × (m.field ≡ field)
Reports patterns field text fault = ⊥

given_pattern : (p : Bytes) → is_empty (normalize p) ≡ false → is_empty p ≡ false
unfolding normalize
given_pattern [] h = h
given_pattern (b ∷ p) h = refl

silent_pattern :
    (text p : Bytes)
    → is_empty (normalize p) ≡ false
    → meets (key p) [] text ≡ false
    → occurs (normalize p) text ≡ false
silent_pattern text p e h = elim (Bool-cases (occurs (normalize p) text)) [
  | inr n ↦ n
  | inl y ↦ absurd (false≢true (sym h ∙ meets_of_occurs (normalize p) [] text e y))
]

module _ (patterns : List Bytes) (none_vanish : NoneVanishes patterns) where
  base : Store
  base = insert_rules first_store 0 (rules_of 0 patterns)

  listed : All (λ p. is_empty p ≡ false → Listed patterns p) patterns
  listed =
      All-weaken _ _ (λ p both. λ n. (both.0, both.1 ∙ n)) patterns
        (All-both (λ p. contains p patterns ≡ true) (λ p. is_empty (normalize p) ≡ is_empty p)
          patterns (contains_self patterns) none_vanish)

  inserted : Marks (Listed patterns) base × All (Stands base) (rules_of 0 patterns)
  unfolding base
  inserted =
      insert_rules-Marks (Listed patterns) (rules_of 0 patterns) first_store 0
        (first_store-Marks (Listed patterns)) (rules_of-Has (Listed patterns) 0 patterns listed)

  base-IsBase : IsBase (Listed patterns) base
  base-IsBase = record {
    marks = inserted.0;
    no_empty = elim (Option-cases (load base []).output) [
      | inl e ↦ ap is_some e
      | inr (r, e) ↦
          let ((_, some_text), at) = inserted.0.sound [] r e in
          absurd (false≢true (sym some_text ∙ key-root r.pattern at))
    ];
  }

  nodes : Store
  nodes = (new patterns).nodes

  finished : Finished base-IsBase (new patterns).nodes
  unfolding base new new_rules
  finished = link_queue-whole base-IsBase

  verdict-Reports :
      (field text : Bytes) (v : Verdict)
      → Says (Listed patterns) (marked base) field [] text v
      → Reports patterns field text v
  verdict-Reports field text clean h =
      All-weaken _ _ (λ p both. λ n. silent_pattern text p (both.0 n).1 (h (key p) (both.1 n)))
        patterns (All-both _ _ patterns listed (rules_of-Stands base 0 patterns inserted.1))
  verdict-Reports field text (found m) ((c, n), e, f) =
      (c, given_pattern m.pattern n, occurs_of_meets (normalize m.pattern) [] text e, f)
  verdict-Reports field text fault h = h

  -- The automaton of `New`, where none of the patterns is normalized to nothing without being empty,
  -- never dereferences a nil pointer. On bytes that are normalized it reports nothing only where
  -- none of the patterns, normalized, occurs in them, and the empty ones are passed over; what it
  -- reports is a pattern of the list, not the empty one, that, normalized, occurs in them, under the
  -- field that it was given.
  pub walk-Reports :
      (field text : Bytes) → Reports patterns field text (walk (new patterns).nodes field root text)
  walk-Reports field text = verdict-Reports field text (walk (new patterns).nodes field root text) (
      walk-Says base-IsBase finished field text [] root (record {
        member = base-IsBase.marks.trie.rooted;
        initial = refl;
        short = omega arith;
        longest = λ x m s l. l;
      }))
