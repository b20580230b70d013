-- ===== src/Go/FilePath/Climbs.antt =====
-- path/filepath: when the names of a relative path climb above where they start.
use mathlib.Core.Bool.{false≢true}
use mathlib.Core.List.{reverse-cons}
use multi_threaded_web_serve.Go.FilePath.{enter, enter_all, go_up, parent_name}
use multi_threaded_web_serve.Go.Strings.{split}
use multi_threaded_web_serve.Base.{
  ℕ, Bool, true, false, ◌||◌, List, [], ◌∷◌, ◌++◌, ◌≡◌, ◌∙◌, refl, ap, sym, reverse, append-nil,
  append_assoc, All, Bool-cases, inl, inr, Bytes, codes, contains, is_empty, same, same_iff, ==_iff,
  ◌==◌,
}

-- One of the names is "..".
abbrev pub climbs : List Bytes → Bool
climbs names = contains parent_name names

-- A ".." at the head of a relative path stays there.
go_up-climbs : (back : List Bytes) → climbs back ≡ true → climbs (go_up false back) ≡ true
unfolding go_up contains
go_up-climbs [] h = refl
go_up-climbs (name ∷ back) h = elim (Bool-cases (same name parent_name)) [
  | inl y ↦ rw y refl
  | inr n ↦ rw n (rw (contains, n) at h)
]

climbs-push :
    (name : Bytes) (back : List Bytes)
    → climbs (name ∷ back) ≡ (same name parent_name || climbs back)
unfolding contains
climbs-push name back = refl

enter-climbs :
    (back : List Bytes) (name : Bytes) → climbs back ≡ true → climbs (enter false back name) ≡ true
unfolding enter
enter-climbs back name h = elim (Bool-cases (is_empty name || same name (codes "."))) [
  | inl y ↦ rw y h
  | inr n ↦ elim (Bool-cases (same name parent_name)) [
    | inl y ↦ rw (n, y) (go_up-climbs back h)
    | inr m ↦ rw (n, m) (climbs-push name back ∙ rw m h)
  ]
]

pub enter_all-climbs :
    (back names : List Bytes) → climbs back ≡ true → climbs (enter_all false back names) ≡ true
unfolding enter_all
enter_all-climbs back [] h = h
enter_all-climbs back (name ∷ names) h =
    enter_all-climbs (enter false back name) names (enter-climbs back name h)

-- Where a relative path does not climb, it does the same above any names.
go_up-above :
    (rooted : Bool) (back base : List Bytes)
    → climbs (go_up false back) ≡ false
    → go_up rooted (back ++ base) ≡ go_up false back ++ base
unfolding go_up
go_up-above rooted [] base h = absurd (false≢true (sym h ∙ climbs-push parent_name []))
go_up-above rooted (name ∷ back) base h = elim (Bool-cases (same name parent_name)) [
  | inl y ↦ rw (go_up, y) refl
  | inr n ↦ rw (go_up, n) refl
]

enter-above :
    (rooted : Bool) (back base : List Bytes) (name : Bytes)
    → climbs (enter false back name) ≡ false
    → enter rooted (back ++ base) name ≡ enter false back name ++ base
unfolding enter
enter-above rooted back base name h = elim (Bool-cases (is_empty name || same name (codes "."))) [
  | inl y ↦ rw y refl
  | inr n ↦ elim (Bool-cases (same name parent_name)) [
    | inl y ↦ rw (n, y) (go_up-above rooted back base (rw (enter, n, y) at h))
    | inr m ↦ rw (n, m) refl
  ]
]

pub enter_all-above :
    (rooted : Bool) (back base names : List Bytes)
    → climbs (enter_all false back names) ≡ false
    → enter_all rooted (back ++ base) names ≡ enter_all false back names ++ base
unfolding enter_all
enter_all-above rooted back base [] h = refl
enter_all-above rooted back base (name ∷ names) h =
    ap (λ b. enter_all rooted b names) (enter-above rooted back base name stays)
    ∙ enter_all-above rooted (enter false back name) base names h
  where
    stays : climbs (enter false back name) ≡ false
    stays = elim (Bool-cases (climbs (enter false back name))) [
      | inl y ↦ absurd (false≢true (sym h ∙ enter_all-climbs (enter false back name) names y))
      | inr n ↦ n
    ]

pub enter_all-append :
    (rooted : Bool) (back xs ys : List Bytes)
    → enter_all rooted back (xs ++ ys) ≡ enter_all rooted (enter_all rooted back xs) ys
unfolding enter_all
enter_all-append rooted back [] ys = refl
enter_all-append rooted back (x ∷ xs) ys = enter_all-append rooted (enter rooted back x) xs ys

pub split-append :
    (sep : ℕ) (back s t : Bytes)
    → split sep back (s ++ sep ∷ t) ≡ split sep back s ++ split sep [] t
unfolding split
split-append sep back [] t = rw (split, (==_iff sep sep).1 refl) refl
split-append sep back (b ∷ s) t = elim (Bool-cases (b == sep)) [
  | inl y ↦ rw (split, y, split-append sep [] s t) refl
  | inr n ↦ rw (split, n, split-append sep (b ∷ back) s t) refl
]

-- The names before a ".." are ".." as well.
abbrev pub Settled : List Bytes → Type 0
Settled [] = Unit
Settled (name ∷ back) =
    (same name parent_name ≡ true → All (λ n. same n parent_name ≡ true) back) × Settled back

go_up-Settled : (back : List Bytes) → Settled back → Settled (go_up false back)
unfolding go_up
go_up-Settled [] s = (λ _. tt, tt)
go_up-Settled (name ∷ back) (ups, s) = elim (Bool-cases (same name parent_name)) [
  | inl y ↦ rw y (λ _. (y, ups y), (ups, s))
  | inr n ↦ rw n s
]

enter-Settled : (back : List Bytes) (name : Bytes) → Settled back → Settled (enter false back name)
unfolding enter
enter-Settled back name s = elim (Bool-cases (is_empty name || same name (codes "."))) [
  | inl y ↦ rw y s
  | inr n ↦ elim (Bool-cases (same name parent_name)) [
    | inl y ↦ rw (n, y) (go_up-Settled back s)
    | inr m ↦ rw (n, m) (λ y. absurd (false≢true (sym m ∙ y)), s)
  ]
]

pub enter_all-Settled :
    (back names : List Bytes) → Settled back → Settled (enter_all false back names)
unfolding enter_all
enter_all-Settled back [] s = s
enter_all-Settled back (name ∷ names) s =
    enter_all-Settled (enter false back name) names (enter-Settled back name s)

-- A path that climbs begins with "..".
only_one :
    (back : List Bytes)
    → All (λ n. same n parent_name ≡ true) back
    → climbs back ≡ false
    → back ≡ []
unfolding contains
only_one [] ups h = refl
only_one (name ∷ back) (y, _) h = absurd (false≢true (sym h ∙ rw y refl))

pub climbs-first :
    (back : List Bytes)
    → Settled back
    → climbs back ≡ true
    → (rest : List Bytes) × (reverse back ≡ parent_name ∷ rest)
unfolding contains
climbs-first [] s h = absurd (false≢true h)
climbs-first (name ∷ back) (ups, s) h = elim (Bool-cases (climbs back)) [
  | inl y ↦
      let (rest, e) = climbs-first back s y in
      (rest ++ name ∷ [], reverse-cons name back ∙ ap (λ l. l ++ name ∷ []) e)
  | inr n ↦ elim (Bool-cases (same name parent_name)) [
    | inr m ↦ absurd (false≢true (sym (rw m n) ∙ h))
    | inl y ↦ (
      [],
      ap (λ b. reverse (name ∷ b)) (only_one back (ups y) n)
          ∙ ap (λ x. x ∷ []) ((same_iff name parent_name).0 y),
    )
  ]
]

climbs-append : (xs ys : List Bytes) → climbs (xs ++ ys) ≡ (climbs xs || climbs ys)
unfolding contains
climbs-append [] ys = refl
climbs-append (x ∷ xs) ys = elim (Bool-cases (same x parent_name)) [
  | inl y ↦ rw y refl
  | inr n ↦ rw n (climbs-append xs ys)
]

swap_last : (a b c : Bool) → a ≡ c → (a || (b || false)) ≡ (b || c)
swap_last true true c e = refl
swap_last true false c e = e
swap_last false true c e = refl
swap_last false false c e = e

pub climbs-reverse : (xs : List Bytes) → climbs (reverse xs) ≡ climbs xs
unfolding contains
climbs-reverse [] = refl
climbs-reverse (x ∷ xs) =
    ap climbs (reverse-cons x xs)
    ∙ climbs-append (reverse xs) (x ∷ [])
    ∙ swap_last (climbs (reverse xs)) (same x parent_name) (climbs xs) (climbs-reverse xs)

pub reverse-append : (xs ys : List Bytes) → reverse (xs ++ ys) ≡ reverse ys ++ reverse xs
reverse-append [] ys = sym (append-nil (reverse ys))
reverse-append (x ∷ xs) ys =
    reverse-cons x (xs ++ ys)
    ∙ ap (λ l. l ++ x ∷ []) (reverse-append xs ys)
    ∙ append_assoc (reverse ys) (reverse xs) (x ∷ [])
    ∙ ap (λ l. reverse ys ++ l) (sym (reverse-cons x xs))
