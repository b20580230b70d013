-- ===== src/Http/Fields/Names.antt =====
-- http/parser.go: the map of the headers, as the loops fill it: no name stands twice.
use multi_threaded_web_serve.Http.Read.{Headers}
use multi_threaded_web_serve.Base.{
  ◌+◌, ◌≤◌, false, ◌||◌, List, [], ◌∷◌, ◌++◌, ◌≡◌, refl, ap, ◌∙◌, arith, Bytes, All, All-append,
  contains, insert, length, map, same, same_iff,
}

abbrev pub keys : Headers → List Bytes
keys = map λ h. h.0

-- No name stands twice.
abbrev pub Distinct : List Bytes → Type 0
Distinct [] = Unit {0}
Distinct (k ∷ ks) = (contains k ks ≡ false) × Distinct ks

-- The fields have the property, and their names are distinct.
pub record AreFields (P : Bytes → Bytes → Type 0) (headers : Headers) : Type 0 where
  pub each : All (λ h. P h.0 h.1) headers
  pub distinct : Distinct (keys headers)

-- The set of names seen is that of the fields.
abbrev pub Seen : List Bytes → Headers → Type 0
Seen seen headers = (k : Bytes) → contains k (keys headers) ≡ contains k seen

pub insert-fresh :
    (name value : Bytes) (headers : Headers)
    → contains name (keys headers) ≡ false
    → insert name value headers ≡ headers ++ (name, value) ∷ []
unfolding insert contains
insert-fresh name value [] h = refl
insert-fresh name value ((k, v) ∷ headers) h = ground (arith, insert-fresh name value headers)

pub contains-insert :
    (k name value : Bytes) (headers : Headers)
    → contains k (keys (insert name value headers)) ≡ same name k || contains k (keys headers)
unfolding insert contains
contains-insert k name value [] = refl
contains-insert k name value ((j, v) ∷ headers) =
    ground
      (arith, contains-insert k name value headers, same_iff j name, same_iff j k, same_iff name k)

insert-Distinct :
    (name value : Bytes) (headers : Headers)
    → Distinct (keys headers)
    → Distinct (keys (insert name value headers))
unfolding insert contains
insert-Distinct name value [] h = (refl, tt)
insert-Distinct name value ((j, v) ∷ headers) h = ground (
  arith,
  insert-Distinct name value headers h.1,
  contains-insert j name value headers,
  same_iff j name,
  same_iff name j,
)

pub length-insert :
    (name value : Bytes) (headers : Headers)
    → length (insert name value headers) ≤ length headers + 1
unfolding insert
length-insert name value [] = omega arith
length-insert name value ((j, v) ∷ headers) = ground (arith, length-insert name value headers)

module _ {P : Bytes → Bytes → Type 0} where
  pub AreFields-insert :
      (name value : Bytes) (headers : Headers) (seen : List Bytes)
      → AreFields P headers
      → Seen seen headers
      → contains name seen ≡ false
      → P name value
      → AreFields P (insert name value headers) × Seen (name ∷ seen) (insert name value headers)
  unfolding contains
  AreFields-insert name value headers seen f s n p = (
    record {
      each =
          rw (insert-fresh name value headers (s name ∙ n))
            (All-append _ headers ((name, value) ∷ []) f.each (p, tt));
      distinct = insert-Distinct name value headers f.distinct;
    },
    λ k. contains-insert k name value headers ∙ ap (λ b. same name k || b) (s k),
  )
