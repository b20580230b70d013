-- ===== src/Server/Static/Paths.antt =====
-- cmd/server/main.go: a path that is safe leads from the static root downwards.
use mathlib.Core.Bool.{false≢true}
use multi_threaded_web_serve.Go.FilePath.{
  clean_path, enter, enter_all, is_abs, join_names, join_path, names_of, parent_name, render,
}
use multi_threaded_web_serve.Go.FilePath.Climbs.{
  climbs, climbs-first, climbs-reverse, enter_all-Settled, enter_all-above, enter_all-append,
  reverse-append, split-append,
}
use multi_threaded_web_serve.Go.Strings.{contains_byte, has_prefix, split}
use multi_threaded_web_serve.Server.Static.{has_control, is_safe_static_path}
use multi_threaded_web_serve.Base.{
  Bool, true, false, not, ◌||◌, ◌&&◌, List, [], ◌∷◌, ◌++◌, ◌≡◌, ◌∙◌, refl, ap, sym, reverse,
  append-nil, Bool-cases, inl, inr, Bytes, codes, contains, is_empty, same, if◌then◌else◌,
}

-- What the test of a path reads of its clean form.
abbrev passes : Bytes → Bool
passes path =
    if same path (codes ".")
    then true
    else not (has_prefix path (codes "../"))
      && not (same path parent_name)
      && not (has_prefix path (codes "/"))

passes-first : (rest : List Bytes) → passes (render false (parent_name ∷ rest)) ≡ false
unfolding join_names has_prefix
passes-first [] = refl
passes-first (name ∷ rest) = refl

passes-rooted : (names : List Bytes) → passes (render true names) ≡ false
unfolding has_prefix
passes-rooted names = refl

safe-passes :
    (path : Bytes)
    → is_safe_static_path path ≡ true
    → is_empty path ≡ false
    → passes (clean_path path) ≡ true
unfolding is_safe_static_path
safe-passes path h e =
    elim (Bool-cases (contains_byte path b'\\' || contains_byte path b':' || has_control path)) [
      | inl y ↦ absurd (false≢true (rw (is_safe_static_path, e, y) at h))
      | inr n ↦ rw (is_safe_static_path, e, n) at h
    ]

below :
    (path : Bytes)
    → passes (clean_path path) ≡ true
    → (is_abs path ≡ false) × (climbs (enter_all false [] (split b'/' [] path)) ≡ false)
unfolding clean_path names_of
below path h =
    let parts = split b'/' [] path in
    let made = (λ (r : Bool). passes (render r (reverse (enter_all r [] parts)))) in
    elim (Bool-cases (is_abs path)) [
      | inl y ↦ absurd (
          false≢true
            (sym (passes-rooted (reverse (enter_all true [] parts))) ∙ sym (ap made y) ∙ h))
      | inr n ↦ elim (Bool-cases (climbs (enter_all false [] parts))) [
        | inr m ↦ (n, m)
        | inl y ↦
            let (rest, e) =
              climbs-first (enter_all false [] parts) (enter_all-Settled [] parts tt) y in
            absurd (
              false≢true (
                sym (passes-first rest)
                ∙ ap (λ (names : List Bytes). passes (render false names)) (sym e)
                ∙ sym (ap made n)
                ∙ h))
      ]
    ]

-- A safe path is relative, and its names do not climb.
safe-below :
    (path : Bytes)
    → is_safe_static_path path ≡ true
    → (is_abs path ≡ false) × (climbs (enter_all false [] (split b'/' [] path)) ≡ false)
unfolding split enter_all enter contains
safe-below [] h = (refl, refl)
safe-below (b ∷ s) h = below (b ∷ s) (safe-passes (b ∷ s) h refl)

is_abs-append : (root t : Bytes) → is_abs root ≡ true → is_abs (root ++ b'/' ∷ t) ≡ true
is_abs-append [] t h = absurd (cc)
is_abs-append (b ∷ s) t h = h

joined :
    (root path : Bytes)
    → is_abs root ≡ true
    → (is_abs path ≡ false) × (climbs (enter_all false [] (split b'/' [] path)) ≡ false)
    → names_of (root ++ b'/' ∷ path) ≡ names_of root ++ names_of path
unfolding names_of
joined root path r (p, below) =
    let base = enter_all true [] (split b'/' [] root) in
    let parts = split b'/' [] path in
    ap (λ (k : Bool). reverse (enter_all k [] (split b'/' [] (root ++ b'/' ∷ path))))
      (is_abs-append root path r)
    ∙ ap (λ (l : List Bytes). reverse (enter_all true [] l)) (split-append b'/' [] root path)
    ∙ ap reverse (enter_all-append true [] (split b'/' [] root) parts)
    ∙ ap reverse (enter_all-above true [] base parts below)
    ∙ reverse-append (enter_all false [] parts) base
    ∙ ap
        (λ (k : Bool).
          reverse (enter_all k [] (split b'/' [] root)) ++ reverse (enter_all false [] parts))
        (sym r)
    ∙ ap (λ (k : Bool). names_of root ++ reverse (enter_all k [] parts)) (sym p)

-- Under a root that is an absolute path, the candidate for a path that is safe is written as the
-- names of the root, followed by the names of the path, none of which is "..".
pub join_path-safe :
    (root path : Bytes)
    → is_abs root ≡ true
    → is_safe_static_path path ≡ true
    → (join_path root path ≡ render true (names_of root ++ names_of path))
      × (contains parent_name (names_of path) ≡ false)
unfolding join_path clean_path names_of
join_path-safe root path r h =
    let (p, b) = safe-below path h in
    (
      go path (p, b),
      climbs-reverse (enter_all (is_abs path) [] (split b'/' [] path))
          ∙ ap (λ (k : Bool). climbs (enter_all k [] (split b'/' [] path))) p
          ∙ b,
    )
  where
    go :
        (path : Bytes)
        → (is_abs path ≡ false) × (climbs (enter_all false [] (split b'/' [] path)) ≡ false)
        → join_path root path ≡ render true (names_of root ++ names_of path)
    go [] q =
        ap (λ (k : Bool). render k (names_of root)) r
        ∙ ap (render true) (sym (append-nil (names_of root)))
    go (b ∷ s) q =
        ap (λ (k : Bool). render k (names_of (root ++ b'/' ∷ b ∷ s))) (is_abs-append root (b ∷ s) r)
        ∙ ap (render true) (joined root (b ∷ s) r q)
