-- ===== src/Base/Maps.antt =====
-- Go's maps with string keys: association lists in the order of insertion.
use mathlib.Core.Path.{◌≡◌, refl, subst}
use mathlib.Core.Logic.{inl, inr}
use mathlib.Core.Bool.{Bool, false, ◌||◌}
use mathlib.Core.List.{List, [], ◌∷◌}
use mathlib.Core.Option.{Option, none, some}
use native.Mathlib.Omega.{arith}
use multi_threaded_web_serve.Base.Tests.{Bool-cases, if◌then◌else◌}
use multi_threaded_web_serve.Base.Lists.{All}
use multi_threaded_web_serve.Base.Texts.{Bytes, same, same_iff}

unfoldable pub contains : Bytes → List Bytes → Bool
contains k [] = false
contains k (j ∷ ks) = same j k || contains k ks

module _ {V : Type 0} where
  unfoldable pub lookup : Bytes → List (Bytes × V) → Option V
  lookup k [] = none
  lookup k ((j, v) ∷ m) = if same j k then some v else lookup k m

  unfoldable pub insert : Bytes → V → List (Bytes × V) → List (Bytes × V)
  insert k v [] = (k, v) ∷ []
  insert k v ((j, w) ∷ m) = if same j k then (j, v) ∷ m else (j, w) ∷ insert k v m

  pub lookup-insert :
      (k j : Bytes) (v : V) (m : List (Bytes × V))
      → lookup j (insert k v m) ≡ (if same k j then some v else lookup j m)
  unfolding lookup insert
  lookup-insert k j v [] = refl
  lookup-insert k j v ((i, w) ∷ m) =
      ground (arith, same_iff k j, same_iff i k, same_iff i j, lookup-insert k j v m)

-- A property of the values, at an insertion and at a lookup.
pub All-insert :
    {V : Type 0} (P : Bytes × V → Type 0) (k : Bytes) (v : V) (m : List (Bytes × V))
    → ((j : Bytes) → P (j, v))
    → All P m
    → All P (insert k v m)
unfolding insert
All-insert P k v [] p h = (p k, tt)
All-insert P k v ((j, w) ∷ m) p (q, h) = elim (Bool-cases (same j k)) [
  | inl y ↦ rw y (p j, h)
  | inr n ↦ rw n (q, All-insert P k v m p h)
]

some_same : {V : Type 0} {v w : V} → some v ≡ some w → v ≡ w
some_same h = cc

pub All-lookup :
    {V : Type 0} (P : V → Type 0) (k : Bytes) (v : V) (m : List (Bytes × V))
    → All (λ e. P e.1) m
    → lookup k m ≡ some v
    → P v
unfolding lookup
All-lookup P k v [] h e = absurd (cc)
All-lookup P k v ((j, w) ∷ m) (q, h) e = elim (Bool-cases (same j k)) [
  | inl y ↦ let is_v : w ≡ v = some_same (rw (lookup, y) at e) in subst P is_v q
  | inr n ↦ All-lookup P k v m h (rw (lookup, n) at e)
]
