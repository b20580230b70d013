-- ===== src/Lab/Fixtures.antt =====
-- cmd/lab/main.go: the payloads, and the line ends of those that are kept as text.
pub mod LineEnds
use multi_threaded_web_serve.Go.FilePath.{join_path}
use multi_threaded_web_serve.Go.Replacing.{has_suffix, replace_all, replace_from, trim_right}
use multi_threaded_web_serve.Base.{
  Bool, true, false, not, ◌&&◌, ◌||◌, ◌==◌, List, [], ◌∷◌, ◌++◌, Bytes, codes, is_empty, same, ltb,
  Result, ok, err, if◌then◌else◌,
}

abbrev pub cr : Bytes
cr = b'\r' ∷ []

abbrev pub lf : Bytes
lf = b'\n' ∷ []

abbrev pub crlf : Bytes
crlf = b'\r' ∷ b'\n' ∷ []

abbrev pub blank_line : Bytes
blank_line = crlf ++ crlf

-- The three replacements.
unfoldable pub unified : Bytes → Bytes
unfolding replace_from
unified body = replace_all lf crlf (replace_all cr lf (replace_all crlf lf body))

unfoldable pub normalize_http_fixture : Bytes → Bytes
unfolding unified has_suffix trim_right
normalize_http_fixture body =
    let text = unified body in
    if not (has_suffix text blank_line) then trim_right crlf text ++ blank_line else text

-- An entry of a directory: its name, and whether it is one itself.
pub record Entry : Type 0 where
  pub name : Bytes
  pub is_dir : Bool

-- `os.ReadDir`, and `os.ReadFile` of a path; errors are of type `E`.
pub record PayloadFiles (E : Type 0) : Type 0 where
  pub read_dir : Bytes → Result E (List Entry)
  pub read_file : Bytes → Result E Bytes

pub record PayloadCase : Type 0 where
  pub name : Bytes
  pub body : Bytes

-- `filepath.Ext` of a name without a slash: from its last dot on.
unfoldable pub ext : Bytes → Bytes
ext [] = []
ext (b ∷ s) = let rest = ext s in if is_empty rest then if b == b'.' then b ∷ s else [] else rest

-- The order of strings.
unfoldable pub less_text : Bytes → Bytes → Bool
less_text s [] = false
less_text [] (b ∷ t) = true
less_text (a ∷ s) (b ∷ t) = ltb a b || a == b && less_text s t

-- `sort.Slice` by the name; the names of a directory differ.
unfoldable pub insert_payload : PayloadCase → List PayloadCase → List PayloadCase
unfolding less_text
insert_payload p [] = p ∷ []
insert_payload p (q ∷ ps) =
    let rest = insert_payload p ps in if less_text q.name p.name then q ∷ rest else p ∷ q ∷ ps

unfoldable pub sort_payloads : List PayloadCase → List PayloadCase
unfolding insert_payload
sort_payloads [] = []
sort_payloads (p ∷ ps) = insert_payload p (sort_payloads ps)

module _ {E : Type 0} (files : PayloadFiles E) (dir : Bytes) where
  abbrev pub added :
      Bytes → Result E Bytes → Result E (List PayloadCase) → Result E (List PayloadCase)
  added name (err e) rest = err e
  added name (ok body) (err e) = err e
  added name (ok body) (ok ps) = ok (record { name = name; body = body } ∷ ps)

  abbrev pub fixture_body : Bytes → Result E Bytes → Result E Bytes
  unfolding normalize_http_fixture
  fixture_body name (err e) = err e
  fixture_body name (ok body) =
      ok (if same (ext name) (codes ".http") then normalize_http_fixture body else body)

  -- The loop over the entries. An error is that of the first file that cannot be read.
  unfoldable pub read_payloads : List Entry → Result E (List PayloadCase)
  unfolding ext join_path normalize_http_fixture
  read_payloads [] = ok []
  read_payloads (entry ∷ entries) =
      let kind = ext entry.name in
      let rest = read_payloads entries in
      let body = files.read_file (join_path dir entry.name) in
      if entry.is_dir || not (same kind (codes ".http")) && not (same kind (codes ".raw"))
      then rest
      else added entry.name (fixture_body entry.name body) rest

  abbrev pub sorted_payloads : Result E (List PayloadCase) → Result E (List PayloadCase)
  unfolding sort_payloads
  sorted_payloads (err e) = err e
  sorted_payloads (ok ps) = ok (sort_payloads ps)

  unfoldable pub load_payloads : Result E (List PayloadCase)
  unfolding read_payloads sort_payloads
  load_payloads = elim (files.read_dir dir) [
    | err e ↦ err e
    | ok entries ↦ sorted_payloads (read_payloads entries)
  ]
