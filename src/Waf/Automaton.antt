-- ===== src/Waf/Automaton.antt =====
-- security/waf/automaton.go: the types, and the construction of the automaton. The nodes are on an
-- explicit store. Go hands out a fresh address for a new node; here the address is the path to the
-- node from the root, last byte first, so that it is fresh wherever the source makes a node.
use multi_threaded_web_serve.Waf.Normalize.{normalize}
use multi_threaded_web_serve.Base.{
  ℕ, zero, suc, ◌+◌, ◌-◌, ◌/◌, ◌%◌, true, false, List, [], ◌∷◌, ◌++◌, map, Option, none, some, ◌==◌,
  ltb, if◌then◌else◌, Bytes, codes, same, is_empty, length,
}

pub record Rule : Type 0 where
  pub id : Bytes
  pub pattern : Bytes

pub record Match : Type 0 where
  pub pattern : Bytes
  pub field : Bytes
  pub rule_id : Bytes

abbrev pub Addr : Type 0
Addr = List ℕ

pub record Node : Type 0 where
  pub next : List (ℕ × Addr)
  pub fail : Option Addr
  pub output : Option Rule

abbrev pub Store : Type 0
Store = List (Addr × Node)

abbrev pub root : Addr
root = []

abbrev pub fresh_node : Node
fresh_node = record { next = []; fail = none; output = none }

-- Reading and writing through a pointer. No pointer of the program dangles; where one would, a read
-- gives an empty node.
unfoldable pub load : Store → Addr → Node
load [] p = fresh_node
load ((q, n) ∷ st) p = if same q p then n else load st p

unfoldable pub store : Store → Addr → Node → Store
store [] p n = (p, n) ∷ []
store ((q, m) ∷ st) p n = if same q p then (q, n) ∷ st else (q, m) ∷ store st p n

-- `next[b]`, where a missing key gives nil.
unfoldable pub get_next : List (ℕ × Addr) → ℕ → Option Addr
get_next [] b = none
get_next ((c, p) ∷ next) b = if c == b then some p else get_next next b

unfoldable pub next_of : Store → Addr → ℕ → Option Addr
unfolding load get_next
next_of st p b = get_next (load st p).next b

-- `zeroPad`: the loop over the digits, with `value` itself as its fuel, and the padding.
unfoldable pub pad_digits : ℕ → ℕ → Bytes → Bytes
pad_digits zero value text = text
pad_digits (suc fuel) value text = elim (ltb 0 value) [
  | true ↦ pad_digits fuel (value / 10) ((b'0' + value % 10) ∷ text)
  | false ↦ text
]

unfoldable pub pad_zeros : ℕ → Bytes → Bytes
pad_zeros zero text = text
pad_zeros (suc missing) text = b'0' ∷ pad_zeros missing text

unfoldable pub zero_pad : ℕ → ℕ → Bytes
unfolding pad_digits pad_zeros
zero_pad value width =
    let digits = pad_digits value value [] in
    let text = if is_empty digits then b'0' ∷ [] else digits in pad_zeros (width - length text) text

unfoldable pub rule_id : ℕ → Bytes
unfolding zero_pad
rule_id index = codes "MTWS-WAF-" ++ zero_pad index 4

-- The walk of a pattern from `current`, making the nodes that are missing: the store after it, and
-- the last node.
unfoldable pub insert_path : Store → Addr → Bytes → Store × Addr
unfolding next_of store
insert_path st current [] = (st, current)
insert_path st current (b ∷ s) = elim (next_of st current b) [
  | some child ↦ insert_path st child s
  | none ↦
      let child = b ∷ current in
      let node = load st current in
      let linked = store st current (record node { next = node.next ++ (b, child) ∷ [] }) in
      insert_path (store linked child fresh_node) child s
]

-- The body of the first loop of `NewRules`, on the rule at index `i`.
unfoldable pub insert_rule : Store → ℕ → Rule → Store
unfolding insert_path rule_id
insert_rule st i rule =
    let named = (if is_empty rule.id then record rule { id = rule_id (i + 1) } else rule) in
    let (grown, last) = insert_path st root (normalize rule.pattern) in
    if is_empty rule.pattern
    then st
    else store grown last (record (load grown last) { output = some named })

unfoldable pub insert_rules : Store → ℕ → List Rule → Store
unfolding insert_rule
insert_rules st i [] = st
insert_rules st i (rule ∷ rules) = insert_rules (insert_rule st i rule) (i + 1) rules

-- `child.fail = root` for the children of the root.
unfoldable pub link_to_root : Store → List (ℕ × Addr) → Store
unfolding store load
link_to_root st [] = st
link_to_root st ((b, child) ∷ next) =
    link_to_root (store st child (record (load st child) { fail = some root })) next

-- `for fail != nil && fail.next[b] == nil { fail = fail.fail }`. A fail pointer leads to a shorter
-- path, so that the length of the path and two bound the rounds.
unfoldable pub find_fail : ℕ → Store → Option Addr → ℕ → Option Addr
unfolding next_of load
find_fail fuel st none b = none
find_fail zero st (some p) b = none
find_fail (suc fuel) st (some p) b = elim (next_of st p b) [
  | some child ↦ some p
  | none ↦ find_fail fuel st (load st p).fail b
]

-- The links of one child of `current` in the breadth-first search.
unfoldable pub link_child : Store → Addr → ℕ → Addr → Store
unfolding find_fail
link_child st current b child =
    let node = load st child in
    elim (find_fail (suc (length current)) st (load st current).fail b) [
      | none ↦ store st child (record node { fail = some root })
      | some p ↦ elim (next_of st p b) [
        | none ↦ store st child (record node { fail = none })
        | some target ↦
            let inherited : Option Rule = (elim node.output [
              | some rule ↦ some rule
              | none ↦ (load st target).output
            ]) in
            store st child (record node { fail = some target; output = inherited })
      ]
    ]

unfoldable pub link_children : Store → Addr → List (ℕ × Addr) → Store
unfolding link_child
link_children st current [] = st
link_children st current ((b, child) ∷ next) =
    link_children (link_child st current b child) current next

abbrev pub targets : List (ℕ × Addr) → List Addr
targets = map λ e. e.1

-- The breadth-first search. Each node enters the queue once, so that the number of nodes is fuel
-- enough. Go visits the children of a node in an unspecified order; here it is that of insertion.
unfoldable pub link_queue : ℕ → Store → List Addr → Store
unfolding link_children
link_queue fuel st [] = st
link_queue zero st (current ∷ queue) = st
link_queue (suc fuel) st (current ∷ queue) =
    let next = (load st current).next in
    link_queue fuel (link_children st current next) (queue ++ targets next)

pub record Automaton : Type 0 where
  pub nodes : Store

unfoldable pub new_rules : List Rule → Automaton
unfolding insert_rules link_to_root link_queue
new_rules rules =
    let trie = insert_rules ((root, fresh_node) ∷ []) 0 rules in
    let next = (load trie root).next in
    record { nodes = link_queue (length trie) (link_to_root trie next) (targets next) }

-- The rules that `New` makes of the patterns from index `i` on.
unfoldable pub rules_of : ℕ → List Bytes → List Rule
unfolding rule_id
rules_of i [] = []
rules_of i (pattern ∷ patterns) =
    let rest = rules_of (i + 1) patterns in
    if is_empty pattern then rest else record { id = rule_id (i + 1); pattern = pattern } ∷ rest

unfoldable pub new : List Bytes → Automaton
unfolding new_rules rules_of
new patterns = new_rules (rules_of 0 patterns)
