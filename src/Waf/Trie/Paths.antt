-- ===== src/Waf/Trie/Paths.antt =====
-- security/waf/automaton.go: the patterns are put into the trie, each with its rule at its end.
use mathlib.Core.Bool.{false≢true}
use multi_threaded_web_serve.Waf.Automaton.{
  Addr, Node, Rule, Store, fresh_node, get_next, insert_path, insert_rule, insert_rules, load,
  next_of, root, rule_id, store,
}
use multi_threaded_web_serve.Waf.Initial.{onto}
use multi_threaded_web_serve.Waf.Normalize.{normalize}
use multi_threaded_web_serve.Waf.Trie.{
  Children, some-ne-none, IsTrie, grow, grow-IsTrie, grow-has, grow-fail, grow-output, has,
  next_of-some, put-IsTrie, load-store, same_refl,
}
use multi_threaded_web_serve.Base.{
  ℕ, ◌+◌, Bool, true, false, ◌||◌, List, [], ◌∷◌, ◌≡◌, refl, subst, ap, sym, ◌∙◌, inl, inr, Option,
  none, some, Option-cases, Bool-cases, if◌then◌else◌, same, same_iff, is_empty, Bytes, All,
}

some_injective : {A : Type 0} {a b : A} → some a ≡ some b → a ≡ b
some_injective h = cc

abbrev pub is_some : {A : Type 0} → Option A → Bool
is_some none = false
is_some (some a) = true

-- What the walk of a pattern leaves: a trie with its nodes, on which no rule has moved.
record Walked (st st' : Store) (last : Addr) : Type 0 where
  trie : IsTrie st'
  there : has st' last ≡ true
  outputs : (x : Addr) → (load st' x).output ≡ (load st x).output
  fails : ((x : Addr) → (load st x).fail ≡ none) → (x : Addr) → (load st' x).fail ≡ none

insert_path-Walked :
    (s : Bytes) (st : Store) (w : Addr)
    → IsTrie st
    → has st w ≡ true
    → ((insert_path st w s).1 ≡ onto s w) × Walked st (insert_path st w s).0 (onto s w)
unfolding insert_path grow
insert_path-Walked [] st w t h =
    (refl, record { trie = t; there = h; outputs = λ x. refl; fails = λ h. h })
insert_path-Walked (b ∷ s) st w t h = elim (Option-cases (next_of st w b)) [
  | inl e ↦
      let (last, k) =
        insert_path-Walked s (grow st w b) (b ∷ w) (grow-IsTrie st w b t h e)
          (grow-has st w b t h (b ∷ w) ∙ ap (λ t. t || has st (b ∷ w)) (same_refl (b ∷ w))) in
      rw (insert_path, e)
        (
          last,
          record {
            trie = k.trie;
            there = k.there;
            outputs = λ x. k.outputs x ∙ grow-output st w b t h e x;
            fails = λ n. k.fails (grow-fail st w b t h n);
          },
        )
  | inr (p, e) ↦
      let (at, below) = next_of-some st w b p t e in
      rw (insert_path, e, at) (insert_path-Walked s st (b ∷ w) t below)
]

-- The node at which a pattern ends.
abbrev pub key : Bytes → Addr
key pattern = onto (normalize pattern) []

-- Each rule on the trie stands where its pattern ends, and has the property.
pub record Marks (P : Bytes → Type 0) (st : Store) : Type 0 where
  pub trie : IsTrie st
  pub sound :
      (w : Addr) (r : Rule) → (load st w).output ≡ some r → P r.pattern × (key r.pattern ≡ w)
  pub no_fail : (w : Addr) → (load st w).fail ≡ none

abbrev pub marked : Store → Addr → Bool
marked st w = is_some (load st w).output

module _ (P : Bytes → Type 0) (st : Store) (i : ℕ) (rule : Rule) (m : Marks P st) where
  walked :
      ((insert_path st root (normalize rule.pattern)).1 ≡ key rule.pattern)
      × Walked st (insert_path st root (normalize rule.pattern)).0 (key rule.pattern)
  walked = insert_path-Walked (normalize rule.pattern) st root m.trie m.trie.rooted

  grown : Store
  grown = (insert_path st root (normalize rule.pattern)).0

  named : Rule
  named = if is_empty rule.id then record rule { id = rule_id (i + 1) } else rule

  ended : Store
  ended =
      store grown (key rule.pattern)
        (record (load grown (key rule.pattern)) { output = some named })

  insert_rule-ended : is_empty rule.pattern ≡ false → insert_rule st i rule ≡ ended
  unfolding insert_rule ended grown named
  insert_rule-ended h = rw (h, insert_rule, walked.0) refl

  ended-output :
      (x : Addr)
      → (load ended x).output
        ≡ (if same (key rule.pattern) x then some named else (load st x).output)
  unfolding ended grown
  ended-output x =
      ap Node.output (
        load-store grown (key rule.pattern) x
          (record (load grown (key rule.pattern)) { output = some named }))
      ∙ elim (Bool-cases (same (key rule.pattern) x)) [
        | inl y ↦ rw y
        | inr k ↦ rw k (walked.1.outputs x)
      ]

  named-pattern : named.pattern ≡ rule.pattern
  unfolding named
  named-pattern = elim (Bool-cases (is_empty rule.id)) [ inl y ↦ rw y | inr k ↦ rw k ]

  ended_sound :
      P rule.pattern
      → (w : Addr) (r : Rule) → (load ended w).output ≡ some r
      → P r.pattern × (key r.pattern ≡ w)
  ended_sound p w r e = elim (Bool-cases (same (key rule.pattern) w)) [
    | inl y ↦
        let is_named : named ≡ r =
          some_injective
            (sym (ended-output w ∙ ap (λ t. if t then some named else (load st w).output) y) ∙ e) in
        let same_pattern : rule.pattern ≡ r.pattern =
          sym named-pattern ∙ ap Rule.pattern is_named in
        (subst P same_pattern p, sym (ap key same_pattern) ∙ (same_iff (key rule.pattern) w).0 y)
    | inr k ↦
        m.sound w r
          (sym (ended-output w ∙ ap (λ t. if t then some named else (load st w).output) k) ∙ e)
  ]

  ended-Marks : P rule.pattern → Marks P ended
  unfolding ended grown
  ended-Marks p = record {
    trie =
        put-IsTrie grown (key rule.pattern)
          (record (load grown (key rule.pattern)) { output = some named }) walked.1.there refl
          walked.1.trie;
    sound = ended_sound p;
    no_fail = λ x.
        ap Node.fail (
          load-store grown (key rule.pattern) x
            (record (load grown (key rule.pattern)) { output = some named }))
        ∙ elim (Bool-cases (same (key rule.pattern) x)) [
          | inl y ↦ rw y (walked.1.fails m.no_fail (key rule.pattern))
          | inr k ↦ rw k (walked.1.fails m.no_fail x)
        ];
  }

  -- One rule more: it is on the trie where it ends, unless its pattern is empty; and all that was.
  pub insert_rule-Marks :
      (is_empty rule.pattern ≡ false → P rule.pattern) → Marks P (insert_rule st i rule)
  unfolding insert_rule
  insert_rule-Marks p = elim (Bool-cases (is_empty rule.pattern)) [
    | inl y ↦ rw (insert_rule, y) m
    | inr k ↦ rw (insert_rule-ended k) (ended-Marks (p k))
  ]

  pub insert_rule-keeps : (w : Addr) → marked st w ≡ true → marked (insert_rule st i rule) w ≡ true
  unfolding insert_rule
  insert_rule-keeps w h = elim (Bool-cases (is_empty rule.pattern)) [
    | inl y ↦ rw (insert_rule, y) h
    | inr k ↦
        rw (insert_rule-ended k, ended-output w)
          (elim (Bool-cases (same (key rule.pattern) w)) [ inl y ↦ rw y | inr n ↦ rw n h ])
  ]

  pub insert_rule-marks :
      is_empty rule.pattern ≡ false → marked (insert_rule st i rule) (key rule.pattern) ≡ true
  insert_rule-marks k =
      rw (insert_rule-ended k, ended-output (key rule.pattern), same_refl (key rule.pattern)) refl

-- The rule stands where it ends, if its pattern is not empty.
abbrev pub Stands : Store → Rule → Type 0
Stands st rule = is_empty rule.pattern ≡ false → marked st (key rule.pattern) ≡ true

-- Every pattern that is put there has the property.
abbrev pub Has : (Bytes → Type 0) → Rule → Type 0
Has P rule = is_empty rule.pattern ≡ false → P rule.pattern

insert_rules-keeps :
    (P : Bytes → Type 0) (rules : List Rule) (st : Store) (i : ℕ)
    → Marks P st
    → All (Has P) rules
    → (w : Addr) → marked st w ≡ true
    → marked (insert_rules st i rules) w ≡ true
unfolding insert_rules
insert_rules-keeps P [] st i m h w k = k
insert_rules-keeps P (rule ∷ rules) st i m (p, ps) w k =
    insert_rules-keeps P rules (insert_rule st i rule) (i + 1) (insert_rule-Marks P st i rule m p)
      ps w (insert_rule-keeps P st i rule m w k)

pub insert_rules-Marks :
    (P : Bytes → Type 0) (rules : List Rule) (st : Store) (i : ℕ)
    → Marks P st
    → All (Has P) rules
    → Marks P (insert_rules st i rules) × All (Stands (insert_rules st i rules)) rules
unfolding insert_rules
insert_rules-Marks P [] st i m h = (m, tt)
insert_rules-Marks P (rule ∷ rules) st i m (p, ps) =
    let next = insert_rule-Marks P st i rule m p in
    let (marks, stand) = insert_rules-Marks P rules (insert_rule st i rule) (i + 1) next ps in
    (
      marks,
      (
        λ k.
            insert_rules-keeps P rules (insert_rule st i rule) (i + 1) next ps (key rule.pattern)
              (insert_rule-marks P st i rule m k),
        stand,
      ),
    )

-- The store that `NewRules` starts with.
abbrev pub first_store : Store
first_store = (root, fresh_node) ∷ []

first-next : (w : Addr) → (load first_store w).next ≡ []
unfolding load
first-next w = elim (Bool-cases (same root w)) [ inl y ↦ rw y | inr n ↦ rw n ]

first-output : (w : Addr) → (load first_store w).output ≡ none
unfolding load
first-output w = elim (Bool-cases (same root w)) [ inl y ↦ rw y | inr n ↦ rw n ]

first-fail : (w : Addr) → (load first_store w).fail ≡ none
unfolding load
first-fail w = elim (Bool-cases (same root w)) [ inl y ↦ rw y | inr n ↦ rw n ]

pub first_store-Marks : (P : Bytes → Type 0) → Marks P first_store
unfolding has load next_of get_next
first_store-Marks P = record {
  trie = record {
    rooted = refl;
    closed = λ b w h. absurd (false≢true h);
    leads = λ w b. ap (λ n. get_next n b) (first-next w);
    keyed = λ w. subst (Children w) (sym (first-next w)) tt;
  };
  sound = λ w r e. absurd (some-ne-none r (sym e ∙ first-output w));
  no_fail = first-fail;
}
