-- ===== src/Waf/Occurs.antt =====
-- security/waf/automaton.go: an address that starts the reversed text read so far is a pattern that
-- ends there.
use mathlib.Core.Bool.{false≢true}
use multi_threaded_web_serve.Go.Strings.{has_prefix}
use multi_threaded_web_serve.Waf.Automaton.{Addr}
use multi_threaded_web_serve.Waf.Initial.{onto, starts}
use multi_threaded_web_serve.Base.{
  Bool, true, false, ◌||◌, [], ◌∷◌, ◌++◌, ◌≡◌, refl, subst, ap, sym, ◌∙◌, arith, inl, inr, Bytes,
  Bool-cases, is_empty,
}

-- The text has the pattern in it.
unfoldable pub occurs : Bytes → Bytes → Bool
unfolding has_prefix
occurs pattern [] = is_empty pattern
occurs pattern (b ∷ text) = has_prefix (b ∷ text) pattern || occurs pattern text

-- The address starts the reversed text at some place in `s`, which is read after `u`.
abbrev pub meets : Addr → Addr → Bytes → Bool
meets x u [] = false
meets x u (b ∷ s) = starts x (b ∷ u) || meets x (b ∷ u) s

has_prefix_append : (q s : Bytes) → has_prefix (q ++ s) q ≡ true
unfolding has_prefix
has_prefix_append [] [] = refl
has_prefix_append [] (b ∷ s) = refl
has_prefix_append (c ∷ q) s = ground (arith, has_prefix_append q s)

occurs-onto : (q w text : Bytes) → occurs q text ≡ true → occurs q (onto w text) ≡ true
unfolding occurs
occurs-onto q [] text h = h
occurs-onto q (b ∷ w) text h = occurs-onto q w (b ∷ text) (ground (arith, h))

occurs-here : (q s : Bytes) → occurs q (q ++ s) ≡ true
unfolding occurs has_prefix
occurs-here [] [] = refl
occurs-here [] (b ∷ s) = refl
occurs-here (c ∷ q) s = ground (arith, has_prefix_append q s)

-- What starts the reversed text is the last part of the text.
starts-onto : (x w s : Bytes) → starts x w ≡ true → (v : Bytes) × (onto w s ≡ onto v (onto x s))
starts-onto [] w s h = (w, refl)
starts-onto (a ∷ x) [] s h = absurd (false≢true h)
starts-onto (a ∷ x) (b ∷ w) s h =
    let both : (a ≡ b) × (starts x w ≡ true) = ground arith in
    let (v, e) = starts-onto x w (b ∷ s) both.1 in
    (v, e ∙ ap (λ c. onto v (onto x (c ∷ s))) (sym both.0))

onto-onto : (q v s : Bytes) → onto (onto q v) s ≡ onto v (q ++ s)
onto-onto [] v s = refl
onto-onto (c ∷ q) v s = onto-onto q (c ∷ v) s

-- A pattern whose address is met occurs in the text.
pub occurs_of_meets : (q u s : Bytes) → meets (onto q []) u s ≡ true → occurs q (onto u s) ≡ true
occurs_of_meets q u [] h = absurd (false≢true h)
occurs_of_meets q u (b ∷ s) h = elim (Bool-cases (starts (onto q []) (b ∷ u))) [
  | inl y ↦
      let (v, e) = starts-onto (onto q []) (b ∷ u) s y in
      subst (λ text. occurs q text ≡ true) (sym (e ∙ ap (onto v) (onto-onto q [] s)))
        (occurs-onto q v (q ++ s) (occurs-here q s))
  | inr n ↦ occurs_of_meets q (b ∷ u) s (sym (ap (λ t. t || meets (onto q []) (b ∷ u) s) n) ∙ h)
]

-- A pattern that stands at the head of what is read is met, whatever of it was read before.
meets_of_prefix :
    (q s v u : Bytes)
    → is_empty q ≡ false
    → has_prefix s q ≡ true
    → starts v u ≡ true
    → meets (onto q v) u s ≡ true
unfolding has_prefix
meets_of_prefix [] s v u e h k = absurd (false≢true (sym e))
meets_of_prefix (c ∷ q) [] v u e h k = absurd (false≢true h)
meets_of_prefix (c ∷ []) (b ∷ s) v u e h k = ground arith
meets_of_prefix (c ∷ d ∷ q) (b ∷ s) v u e h k =
    let both : (b ≡ c) × (has_prefix s (d ∷ q) ≡ true) = ground arith in
    let later = meets_of_prefix (d ∷ q) s (c ∷ v) (b ∷ u) refl both.1 (ground (arith, k)) in
    ground (arith, later)

pub meets_of_occurs :
    (q u s : Bytes) → is_empty q ≡ false → occurs q s ≡ true → meets (onto q []) u s ≡ true
unfolding occurs
meets_of_occurs q u [] e h = absurd (false≢true (sym e ∙ h))
meets_of_occurs q u (b ∷ s) e h = elim (Bool-cases (has_prefix (b ∷ s) q)) [
  | inl y ↦ meets_of_prefix q (b ∷ s) [] u e y refl
  | inr n ↦
      let later = meets_of_occurs q (b ∷ u) s e (sym (ap (λ t. t || occurs q s) n) ∙ h) in
      ground (arith, later)
]
