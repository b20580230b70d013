-- ===== src/Waf/Pending.antt =====
-- security/waf/automaton.go: what a scanner in any state shows to the automaton.
use multi_threaded_web_serve.Waf.Normalize.{is_whitespace, lower_ascii}
use multi_threaded_web_serve.Waf.Automaton.{Addr, Automaton, load}
use multi_threaded_web_serve.Waf.Scanner.{
  Outcome, Scanner, Verdict, and_then, arrive, feed, feed_byte, feed_comment, feed_normalized,
  feed_raw, finish, flush_slash, flush_space, next_state, report,
}
use multi_threaded_web_serve.Waf.Walk.{and_then_assoc, scan, walk}
use multi_threaded_web_serve.Base.{
  ℕ, Bool, true, false, ◌&&◌, [], ◌∷◌, ◌≡◌, refl, sym, ap, subst, ◌∙◌, arith, ◌==◌, if◌then◌else◌,
  Bytes, Bool-cases, Option-cases, inl, inr,
}

-- The bytes that a scanner in block comment `co`, behind a slash `sl` or a star `st`, with a
-- pending space `sp`, having emitted or not `em`, is yet to show for an input.
unfoldable pub spaced : Bool → Bool → Bytes → Bytes
spaced sp em t = if sp && em then b' ' ∷ t else t

-- The same for a byte outside comments and not behind a slash; `k` is for the bytes after it.
unfoldable pub byte_pending : (Bool → Bool → Bool → Bytes) → Bool → Bool → ℕ → Bytes
unfolding spaced
byte_pending k sp em raw =
    if raw == b'/'
    then k true sp em
    else if is_whitespace raw
    then k false true em
    else spaced sp em (lower_ascii raw ∷ k false false true)

unfoldable pub pending : Bool → Bool → Bool → Bool → Bool → Bytes → Bytes
unfolding byte_pending
pending co sl st sp em [] = if sl then spaced sp em (b'/' ∷ []) else []
pending co sl st sp em (raw ∷ s) =
    if co
    then if st && raw == b'/'
      then pending false sl false true em s
      else pending true sl (raw == b'*') sp em s
    else if sl
    then if raw == b'*'
      then pending true false st true em s
      else spaced sp em
          (b'/' ∷ byte_pending (λ sl sp em. pending false sl st sp em s) false true raw)
    else byte_pending (λ sl sp em. pending false sl st sp em s) sp em raw

abbrev pub pending_of : Scanner → Bytes → Bytes
pending_of s =
    pending s.in_block_comment s.pending_slash s.pending_comment_star s.pending_space s.emitted

verdict-and_then_assoc :
    (m : Outcome) (f k : Scanner → Outcome)
    → (and_then (and_then m f) k).1 ≡ (and_then m (λ t. and_then (f t) k)).1
verdict-and_then_assoc m f k = ap (λ o. o.1) (and_then_assoc m f k)

pub and_left : (b c : Bool) → b && c ≡ true → b ≡ true
and_left b c h = ground arith

pub and_right : (b c : Bool) → b && c ≡ true → c ≡ true
and_right b c h = ground arith

abbrev scanner : Addr → Bool → Bool → Bool → Bool → Bool → Scanner
scanner state sp sl co st em = record {
  state = state;
  pending_space = sp;
  pending_slash = sl;
  in_block_comment = co;
  pending_comment_star = st;
  emitted = em;
}

module _ (a : Automaton) (field : Bytes) where
  -- A byte fed is a step of the automaton.
  feed_normalized-walk :
      (s : Scanner) (b : ℕ) (rest : Bytes) (k : Scanner → Outcome)
      → ((p : Addr) → (k (record s { emitted = true; state = p })).1 ≡ walk a.nodes field p rest)
      → (and_then (feed_normalized a field s b) k).1 ≡ walk a.nodes field s.state (b ∷ rest)
  unfolding feed_normalized walk
  feed_normalized-walk s b rest k h = elim (Option-cases (next_state a.nodes s.state b)) [
    | inl e ↦ rw (e, walk, arrive)
    | inr (p, e) ↦ elim (Option-cases (load a.nodes p).output) [
      | inl e' ↦ rw (e, walk, arrive) (rw (e', walk, report, arrive) (h p))
      | inr (r, e') ↦ rw (e, walk, arrive) (rw (e', walk, report, arrive))
    ]
  ]

  flush_space-walk :
      (s : Scanner) (rest : Bytes) (k : Scanner → Outcome)
      → ((p : Addr)
          → (k (record s { pending_space = false; state = p })).1 ≡ walk a.nodes field p rest)
      → (and_then (flush_space a field s) k).1
        ≡ walk a.nodes field s.state (spaced s.pending_space s.emitted rest)
  unfolding flush_space spaced
  flush_space-walk s rest k h = elim (Bool-cases (s.pending_space && s.emitted)) [
    | inl e ↦ rw e (
        verdict-and_then_assoc (feed_normalized a field s b' ') _ k
        ∙ feed_normalized-walk s b' ' rest (λ t. k (record t { pending_space = false }))
            (λ p.
              subst
                (λ em.
                  (k (record s { pending_space = false; state = p; emitted = em })).1
                  ≡ walk a.nodes field p rest)
                (and_right _ _ e) (h p)))
    | inr e ↦ rw e (h s.state)
  ]

  flush_slash-walk :
      (s : Scanner) (rest : Bytes) (k : Scanner → Outcome)
      → ((p : Addr)
          → (k (record s {
            pending_slash = false;
            pending_space = false;
            emitted = true;
            state = p;
          })).1
            ≡ walk a.nodes field p rest)
      → (and_then (flush_slash a field s) k).1
        ≡ walk a.nodes field s.state (spaced s.pending_space s.emitted (b'/' ∷ rest))
  unfolding flush_slash
  flush_slash-walk s rest k h =
      verdict-and_then_assoc (flush_space a field (record s { pending_slash = false })) _ k
      ∙ flush_space-walk (record s { pending_slash = false }) (b'/' ∷ rest) _
          (λ p.
            feed_normalized-walk
              (record s { pending_slash = false; pending_space = false; state = p }) b'/' rest k h)

  feed_byte-walk :
      (s : Scanner) (raw : ℕ) (k : Scanner → Outcome) (rest : Bool → Bool → Bool → Bytes)
      → ((sl sp em : Bool) (p : Addr)
          → (k (record s { pending_slash = sl; pending_space = sp; emitted = em; state = p })).1
            ≡ walk a.nodes field p (rest sl sp em))
      → s.pending_slash ≡ false
      → (and_then (feed_byte a field s raw) k).1
        ≡ walk a.nodes field s.state (byte_pending rest s.pending_space s.emitted raw)
  unfolding feed_byte byte_pending
  feed_byte-walk s raw k rest h unslashed = elim (Bool-cases (raw == b'/')) [
    | inl e ↦ rw e (h true s.pending_space s.emitted s.state)
    | inr e ↦ rw e (elim (Bool-cases (is_whitespace raw)) [
      | inl e' ↦ rw e' (same_slash (h false true s.emitted s.state))
      | inr e' ↦ rw e' (
          verdict-and_then_assoc (flush_space a field s) _ k
          ∙ flush_space-walk s _ _ (λ p.
            feed_normalized-walk (record s { pending_space = false; state = p }) (lower_ascii raw) _
              k (λ q. same_slash (h false false true q))))
    ])
  ]
    where
      same_slash :
          {sp em : Bool} {p : Addr} {v : Verdict}
          → (k (record s { pending_slash = false; pending_space = sp; emitted = em; state = p })).1
            ≡ v
          → (k (record s { pending_space = sp; emitted = em; state = p })).1 ≡ v
      same_slash {sp} {em} {p} {v} =
          subst
            (λ sl.
              (k (record s { pending_slash = sl; pending_space = sp; emitted = em; state = p })).1
              ≡ v)
            (sym unslashed)

  feed_raw-walk :
      (state : Addr) (sp sl co st em : Bool) (raw : ℕ) (input : Bytes) (k : Scanner → Outcome)
      → ((t : Scanner) → (k t).1 ≡ walk a.nodes field t.state (pending_of t input))
      → (and_then (feed_raw a field (scanner state sp sl co st em) raw) k).1
        ≡ walk a.nodes field state (pending co sl st sp em (raw ∷ input))
  unfolding feed_raw feed_comment pending
  feed_raw-walk state sp sl true st em raw input k h = elim (Bool-cases (st && raw == b'/')) [
    | inl e ↦ rw e (h _)
    | inr e ↦ rw e (h _)
  ]
  feed_raw-walk state sp true false st em raw input k h = elim (Bool-cases (raw == b'*')) [
    | inl e ↦ rw e (h _)
    | inr e ↦ rw e (
        verdict-and_then_assoc (flush_slash a field _) _ k
        ∙ flush_slash-walk (scanner state sp true false st em) _ _ (λ p.
          feed_byte-walk (scanner p false false false st true) raw k _
            (λ sl sp em q. h (scanner q sp sl false st em)) refl))
  ]
  feed_raw-walk state sp false false st em raw input k h =
      feed_byte-walk (scanner state sp false false st em) raw k _
        (λ sl sp em q. h (scanner q sp sl false st em)) refl

  finish-walk :
      (state : Addr) (sp sl co st em : Bool)
      → (finish a field (scanner state sp sl co st em)).1
        ≡ walk a.nodes field state (pending co sl st sp em [])
  unfolding finish pending walk
  finish-walk state sp true co st em =
      flush_slash-walk (scanner state sp true co st em) [] _ (λ p. refl)
  finish-walk state sp false co st em = refl

  -- The scanner finds what the automaton finds in the bytes that are pending, whatever its state.
  pub scan-walk :
      (input : Bytes) (s : Scanner)
      → (scan a field s input).1 ≡ walk a.nodes field s.state (pending_of s input)
  unfolding scan feed
  scan-walk [] s =
      finish-walk s.state s.pending_space s.pending_slash s.in_block_comment s.pending_comment_star
        s.emitted
  scan-walk (raw ∷ input) s =
      verdict-and_then_assoc (feed_raw a field s raw) _ (finish a field)
      ∙ feed_raw-walk s.state s.pending_space s.pending_slash s.in_block_comment
          s.pending_comment_star s.emitted raw input _ (scan-walk input)
