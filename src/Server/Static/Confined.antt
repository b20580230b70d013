-- ===== src/Server/Static/Confined.antt =====
-- cmd/server/main.go: a file that is sent stands under the static root.
use multi_threaded_web_serve.Core.Response.{StatusCode}
use multi_threaded_web_serve.Go.FilePath.{
  climb, is_abs, join_names, join_path, names_of, parent_name, rel_path, way, written,
}
use multi_threaded_web_serve.Go.Strings.{cut, has_prefix}
use multi_threaded_web_serve.Go.Url.{path_unescape}
use multi_threaded_web_serve.Server.Static.{
  FileError, FileSystem, decoded_answer, file, is_safe_static_path, is_within_root, of_error,
  not_exist, other_error, raw_relative, read_index, read_resolved, read_static, refused,
  static_answer, stays_inside,
}
use multi_threaded_web_serve.Base.{
  Bool, true, false, List, [], ◌∷◌, ◌++◌, ◌≡◌, refl, ap, sym, ◌∙◌, Bool-cases, inl, inr, Option,
  none, some, Bytes, codes, same, same_iff, Result-cases, ok, if◌then◌else◌,
}
use mathlib.Core.Bool.{false≢true}

climb-stays :
    (base targets : List Bytes) (name : Bytes)
    → stays_inside (written (some (climb (name ∷ base) targets))) ≡ false
unfolding climb join_names has_prefix
climb-stays base targets name = go (climb base targets)
  where
    go : (names : List Bytes) → stays_inside (written (some (parent_name ∷ names))) ≡ false
    go [] = refl
    go (n ∷ names) = refl

-- A way that stays inside does not climb: the base is where the target begins.
way-stays :
    (base targets : List Bytes)
    → stays_inside (written (way base targets)) ≡ true
    → (rest : List Bytes) × (targets ≡ base ++ rest)
unfolding way
way-stays [] targets h = (targets, refl)
way-stays (name ∷ base) [] h = elim (Bool-cases (same name parent_name)) [
  | inl y ↦ absurd (false≢true (rw y at h))
  | inr n ↦ absurd (false≢true (sym (climb-stays base [] name) ∙ rw n at h))
]
way-stays (name ∷ base) (target ∷ targets) h = elim (Bool-cases (same name target)) [
  | inl y ↦
      let (rest, e) = way-stays base targets (rw y at h) in
      let same_name : name ≡ target = (same_iff name target).0 y in (rest, cc)
  | inr n ↦ elim (Bool-cases (same name parent_name)) [
    | inl y ↦ absurd (false≢true (rw (n, y) at h))
    | inr m ↦ absurd (false≢true (sym (climb-stays base (target ∷ targets) name) ∙ rw (n, m) at h))
  ]
]

-- The target has the names of the root first.
abbrev pub IsUnder : Bytes → Bytes → Type 0
IsUnder root target =
    (is_abs target ≡ true) × (rest : List Bytes) × (names_of target ≡ names_of root ++ rest)

absolute_target :
    (root target : Bool) (way : Option Bytes)
    → root ≡ true
    → stays_inside (if root then (if target then way else none) else (if target then none else way))
      ≡ true
    → (target ≡ true) × (stays_inside way ≡ true)
absolute_target true true way r h = (refl, h)
absolute_target true false way r h = absurd (false≢true h)
absolute_target false target way r h = absurd (false≢true r)

pub is_within_root-IsUnder :
    (root target : Bytes)
    → is_abs root ≡ true
    → is_within_root root target ≡ true
    → IsUnder root target
unfolding is_within_root rel_path
is_within_root-IsUnder root target absolute h =
    let (target_absolute, stays) = absolute_target (is_abs root) (is_abs target) _ absolute h in
    let (rest, e) = way-stays (names_of root) (names_of target) stays in (target_absolute, rest, e)

refused-ne-file : {code : StatusCode} {t body : Bytes} → refused code ≡ file t body → ⊥
refused-ne-file h = cc

module _ (fs : FileSystem) where
  -- The body is that of a file under the root that is not a directory.
  abbrev pub IsServed : Bytes → Bytes → Type 0
  IsServed root body =
      (resolved : Bytes) × IsUnder root resolved
      × (fs.is_dir resolved ≡ ok false)
      × (fs.read_file resolved ≡ ok body)

  of_error-refuses : (e : FileError) (t body : Bytes) → of_error e ≡ file t body → ⊥
  of_error-refuses not_exist t body h = cc
  of_error-refuses other_error t body h = cc

  file_body : {t u b c : Bytes} → file t b ≡ file u c → b ≡ c
  file_body h = cc

  read_resolved-read :
      (resolved t body : Bytes)
      → read_resolved fs resolved ≡ file t body
      → fs.read_file resolved ≡ ok body
  unfolding read_resolved
  read_resolved-read resolved t body h = elim (Result-cases (fs.read_file resolved)) [
    | inl (e, k) ↦ absurd (refused-ne-file (rw (read_resolved, k) at h))
    | inr (b, k) ↦ k ∙ ap ok (file_body (rw (read_resolved, k) at h))
  ]

  read_index-IsServed :
      (root dir t body : Bytes)
      → is_abs root ≡ true
      → read_index fs root dir ≡ file t body
      → IsServed root body
  unfolding read_index
  read_index-IsServed root dir t body absolute h =
      elim (Result-cases (fs.eval_symlinks (join_path dir (codes "index.html")))) [
        | inl (e, k) ↦ absurd (of_error-refuses e t body (rw (read_index, k) at h))
        | inr (p, k) ↦ elim (Bool-cases (is_within_root root p)) [
          | inr out ↦ absurd (refused-ne-file (rw (read_index, k, out) at h))
          | inl inside ↦ elim (Result-cases (fs.is_dir p)) [
            | inl (e, d) ↦ absurd (refused-ne-file (rw (read_index, k, inside, d) at h))
            | inr (true, d) ↦ absurd (refused-ne-file (rw (read_index, k, inside, d) at h))
            | inr (false, d) ↦ (
              p,
              is_within_root-IsUnder root p absolute inside,
              d,
              read_resolved-read p t body (rw (read_index, k, inside, d) at h),
            )
          ]
        ]
      ]

  read_static-IsServed :
      (root relative t body : Bytes)
      → is_abs root ≡ true
      → read_static fs root relative ≡ file t body
      → IsServed root body
  unfolding read_static
  read_static-IsServed root relative t body absolute h =
      elim (Result-cases (fs.eval_symlinks (join_path root relative))) [
        | inl (e, k) ↦ absurd (of_error-refuses e t body (rw (read_static, k) at h))
        | inr (p, k) ↦ elim (Bool-cases (is_within_root root p)) [
          | inr out ↦ absurd (refused-ne-file (rw (read_static, k, out) at h))
          | inl inside ↦ elim (Result-cases (fs.is_dir p)) [
            | inl (e, d) ↦ absurd (of_error-refuses e t body (rw (read_static, k, inside, d) at h))
            | inr (true, d) ↦
                read_index-IsServed root p t body absolute (rw (read_static, k, inside, d) at h)
            | inr (false, d) ↦ (
              p,
              is_within_root-IsUnder root p absolute inside,
              d,
              read_resolved-read p t body (rw (read_static, k, inside, d) at h),
            )
          ]
        ]
      ]

  decoded_answer-IsServed :
      (root t body : Bytes) (relative : Option Bytes)
      → is_abs root ≡ true
      → decoded_answer fs (ok root) relative ≡ file t body
      → IsServed root body
  unfolding decoded_answer
  decoded_answer-IsServed root t body none absolute h = absurd (refused-ne-file h)
  decoded_answer-IsServed root t body (some relative) absolute h =
      elim (Bool-cases (is_safe_static_path relative)) [
        | inr n ↦ absurd (refused-ne-file (rw (decoded_answer, n) at h))
        | inl y ↦ read_static-IsServed root relative t body absolute (rw (decoded_answer, y) at h)
      ]

  -- Whatever the target of a request, and wherever symbolic links lead: a file that the static
  -- handler sends is read from a path that has the names of the static root first, where the root is
  -- an absolute path, and this path is not a directory.
  pub static_answer-IsServed :
      (root target t body : Bytes)
      → is_abs root ≡ true
      → static_answer fs (ok root) target ≡ file t body
      → IsServed root body
  unfolding static_answer
  static_answer-IsServed root target t body absolute h =
      decoded_answer-IsServed root t body (path_unescape (raw_relative fs (cut b'?' target).0))
        absolute h
