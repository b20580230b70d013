-- ===== src/Waf/Scanner.antt =====
-- security/waf/automaton.go: the scanner, which normalizes its input byte by byte and moves through
-- the automaton. A method returns the scanner that it leaves, and its verdict.
use multi_threaded_web_serve.Waf.Normalize.{is_whitespace, lower_ascii}
use multi_threaded_web_serve.Waf.Automaton.{
  Addr, Automaton, Match, Rule, Store, load, next_of, root,
}
use multi_threaded_web_serve.Base.{
  ℕ, zero, suc, Bool, true, false, ◌&&◌, [], ◌∷◌, Option, none, some, ◌==◌, if◌then◌else◌, Bytes,
  length,
}

-- `nil`, a match, or a panic: the dereference of a nil fail pointer.
pub data Verdict : Type 0 where
  clean : Verdict
  found : Match → Verdict
  fault : Verdict

pub record Scanner : Type 0 where
  pub state : Addr
  pub pending_space : Bool
  pub pending_slash : Bool
  pub in_block_comment : Bool
  pub pending_comment_star : Bool
  pub emitted : Bool

abbrev pub new_scanner : Scanner
new_scanner = record {
  state = root;
  pending_space = false;
  pending_slash = false;
  in_block_comment = false;
  pending_comment_star = false;
  emitted = false;
}

abbrev pub Outcome : Type 0
Outcome = Scanner × Verdict

-- `if match := …; match != nil { return match }`, and what follows.
abbrev pub and_then : Outcome → (Scanner → Outcome) → Outcome
and_then (s, clean) k = k s
and_then (s, found m) k = (s, found m)
and_then (s, fault) k = (s, fault)

-- `for s.state != root && s.state.next[b] == nil { s.state = s.state.fail }`; `none` is a panic.
unfoldable pub settle : ℕ → Store → Addr → ℕ → Option Addr
settle fuel st [] b = some root
settle zero st (c ∷ w) b = none
settle (suc fuel) st (c ∷ w) b = elim (next_of st (c ∷ w) b) [
  | some child ↦ some (c ∷ w)
  | none ↦ elim (load st (c ∷ w)).fail [ none ↦ none | some p ↦ settle fuel st p b ]
]

-- The state after the loop and the step behind it.
unfoldable pub next_state : Store → Addr → ℕ → Option Addr
unfolding settle
next_state st state b = elim (settle (length state) st state b) [
  | none ↦ none
  | some p ↦ elim (next_of st p b) [ none ↦ some p | some child ↦ some child ]
]

abbrev pub report : Option Rule → Bytes → Verdict
report none field = clean
report (some r) field = found (record { pattern = r.pattern; field = field; rule_id = r.id })

-- What `feedNormalized` does at the state that its loop and step reach.
abbrev pub arrive : Store → Bytes → Scanner → Option Addr → Outcome
arrive st field s none = (s, fault)
arrive st field s (some p) = (record s { state = p }, report (load st p).output field)

unfoldable pub feed_normalized : Automaton → Bytes → Scanner → ℕ → Outcome
unfolding next_state
feed_normalized a field s b =
    arrive a.nodes field (record s { emitted = true }) (next_state a.nodes s.state b)

-- `if s.pendingSpace && s.emitted { feedNormalized(' ') }; s.pendingSpace = false`.
unfoldable pub flush_space : Automaton → Bytes → Scanner → Outcome
flush_space a field s =
    let fed = feed_normalized a field s b' ' in
    and_then (if s.pending_space && s.emitted then fed else (s, clean))
      λ t. (record t { pending_space = false }, clean)

-- `feedRaw` inside a block comment.
unfoldable pub feed_comment : Scanner → ℕ → Scanner
feed_comment s raw =
    if s.pending_comment_star && raw == b'/'
    then record s { in_block_comment = false; pending_comment_star = false; pending_space = true }
    else record s { pending_comment_star = raw == b'*' }

-- `feedRaw` from `if raw == '/'` on.
unfoldable pub feed_byte : Automaton → Bytes → Scanner → ℕ → Outcome
feed_byte a field s raw =
    if raw == b'/'
    then (record s { pending_slash = true }, clean)
    else if is_whitespace raw
    then (record s { pending_space = true }, clean)
    else and_then (flush_space a field s) λ t. feed_normalized a field t (lower_ascii raw)

-- The pending slash turns out to be a byte of its own.
unfoldable pub flush_slash : Automaton → Bytes → Scanner → Outcome
flush_slash a field s =
    and_then (flush_space a field (record s { pending_slash = false }))
      λ t. feed_normalized a field t b'/'

unfoldable pub feed_raw : Automaton → Bytes → Scanner → ℕ → Outcome
feed_raw a field s raw =
    if s.in_block_comment
    then (feed_comment s raw, clean)
    else if s.pending_slash
    then if raw == b'*'
      then (
        record s { pending_slash = false; in_block_comment = true; pending_space = true },
        clean,
      )
      else and_then (flush_slash a field s) (λ t. feed_byte a field t raw)
    else feed_byte a field s raw

unfoldable pub feed : Automaton → Bytes → Scanner → Bytes → Outcome
unfolding feed_raw feed_comment feed_byte flush_slash flush_space feed_normalized is_whitespace
    lower_ascii
feed a field s [] = (s, clean)
feed a field s (raw ∷ input) = and_then (feed_raw a field s raw) (λ t. feed a field t input)

unfoldable pub finish : Automaton → Bytes → Scanner → Outcome
unfolding flush_slash flush_space feed_normalized
finish a field s =
    let flushed = flush_slash a field s in
    and_then (if s.pending_slash then flushed else (s, clean)) λ t. (
      record t { pending_space = false; in_block_comment = false; pending_comment_star = false },
      clean,
    )
