-- ===== src/Http/Complete/FieldLoops.antt =====
-- http/parser.go: the loops over header lines and trailers, for what either takes of a field.
use mathlib.Core.Bool.{false≢true}
use mathlib.Core.Path.{subst₂}
use multi_threaded_web_serve.Http.Action.{Action}
use multi_threaded_web_serve.Http.Complete.{Gives}
use multi_threaded_web_serve.Http.Fields.Names.{Distinct, Seen, contains-insert, insert-fresh, keys}
use multi_threaded_web_serve.Http.Lines.{crlf}
use multi_threaded_web_serve.Http.Read.{Headers}
use multi_threaded_web_serve.Base.{
  ℕ, zero, suc, ◌<◌, Bool, true, false, ◌||◌, List, [], ◌∷◌, ◌++◌, ◌≡◌, ◌∙◌, refl, sym, ap,
  append_assoc, append-nil, All, arith, Bool-cases, inl, inr, Bytes, contains, insert, length, same,
  same_iff,
}

abbrev pub header_line : Bytes → Bytes → Bytes
header_line name value = name ++ (b':' ∷ b' ' ∷ value)

-- The lines of fields, each with its CRLF.
abbrev pub field_lines : Headers → Bytes
field_lines [] = []
field_lines ((name, value) ∷ fields) = header_line name value ++ (crlf ++ field_lines fields)

-- A loop that takes a new field with the property, and stops at an empty line.
pub record TakesFields (P : Bytes → Bytes → Type 0)
    (loop : ℕ → List Bytes → Headers → Action Headers) : Type 0 where
  pub step :
      (rounds : ℕ) (seen : List Bytes) (fields out : Headers) (name value s t : Bytes)
      → P name value
      → contains name seen ≡ false
      → Gives (loop rounds (name ∷ seen) (insert name value fields)) s out t
      → Gives (loop (suc rounds) seen fields) (header_line name value ++ (crlf ++ s)) out t
  pub stop :
      (rounds : ℕ) (seen : List Bytes) (fields : Headers) (t : Bytes)
      → Gives (loop (suc rounds) seen fields) (crlf ++ t) fields t

-- No name of the list is among those seen.
abbrev pub Fresh : List Bytes → List Bytes → Type 0
Fresh seen names = All (λ k. contains k seen ≡ false) names

pub or-false : (x y : Bool) → (x || y) ≡ false → (x ≡ false) × (y ≡ false)
or-false true y h = absurd (false≢true (sym h))
or-false false y h = (refl, h)

pub turned : (j k : Bytes) → same j k ≡ false → same k j ≡ false
turned j k h = elim (Bool-cases (same k j)) [
  | inr n ↦ n
  | inl y ↦ absurd (false≢true (sym h ∙ (same_iff j k).1 (sym ((same_iff k j).0 y))))
]

pub Fresh-next :
    (name : Bytes) (seen names : List Bytes)
    → contains name names ≡ false
    → Fresh seen names
    → Fresh (name ∷ seen) names
unfolding contains
Fresh-next name seen [] h f = f
Fresh-next name seen (k ∷ names) h (f, fs) =
    let (other, more) = or-false (same k name) _ h in
    (rw (contains, turned k name other) f, Fresh-next name seen names more fs)

pub TakesFields-Gives :
    (P : Bytes → Bytes → Type 0) (loop : ℕ → List Bytes → Headers → Action Headers)
    → TakesFields P loop
    → (rounds : ℕ) (seen : List Bytes) (taken fields : Headers) (t : Bytes) → Seen seen taken
    → Fresh seen (keys fields)
    → Distinct (keys fields)
    → All (λ h. P h.0 h.1) fields
    → length fields < rounds
    → Gives (loop rounds seen taken) (field_lines fields ++ (crlf ++ t)) (taken ++ fields) t
unfolding contains
TakesFields-Gives P loop l zero seen taken fields t s f d p h = absurd (omega arith)
TakesFields-Gives P loop l (suc rounds) seen taken [] t s f d p h =
    rw (append-nil taken) (l.stop rounds seen taken t)
TakesFields-Gives P loop l (suc rounds) seen taken ((name, value) ∷ fields) t s (n, ns) (d, ds)
      (p, ps) h =
    let taken' = insert name value taken in
    let out : taken' ++ fields ≡ taken ++ (name, value) ∷ fields =
      ap (λ l. l ++ fields) (insert-fresh name value taken (s name ∙ n))
      ∙ append_assoc taken ((name, value) ∷ []) fields in
    let input : header_line name value ++ (crlf ++ (field_lines fields ++ (crlf ++ t)))
        ≡ field_lines ((name, value) ∷ fields) ++ (crlf ++ t) =
      sym (append_assoc (header_line name value) (crlf ++ field_lines fields) (crlf ++ t)) in
    subst₂ (λ i o. Gives (loop (suc rounds) seen taken) i o t) input out
      (l.step rounds seen taken (taken' ++ fields) name value (field_lines fields ++ (crlf ++ t)) t
        p n
        (TakesFields-Gives P loop l rounds (name ∷ seen) taken' fields t
          (λ k. contains-insert k name value taken ∙ ap (λ b. same name k || b) (s k))
          (Fresh-next name seen (keys fields) d ns) ds ps (omega (arith, h))))
