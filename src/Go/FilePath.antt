-- ===== src/Go/FilePath.antt =====
-- The functions of Go's path/filepath package that the program calls, on a system whose separator is
-- the slash. A path is its names: `FromSlash` and `ToSlash` change nothing there.
pub mod Climbs
use multi_threaded_web_serve.Go.Strings.{split}
use multi_threaded_web_serve.Base.{
  Bool, true, false, ◌||◌, List, [], ◌∷◌, ◌++◌, reverse, Option, none, some, Bytes, codes, is_empty,
  same, ◌==◌, if◌then◌else◌,
}

-- filepath.IsAbs
abbrev pub is_abs : Bytes → Bool
is_abs [] = false
is_abs (b ∷ s) = b == b'/'

abbrev pub parent_name : Bytes
parent_name = codes ".."

-- ".." drops the name before it; at the root it is dropped itself, at the head of a relative path it stays.
unfoldable pub go_up : Bool → List Bytes → List Bytes
go_up true [] = []
go_up false [] = parent_name ∷ []
go_up rooted (name ∷ back) = if same name parent_name then parent_name ∷ name ∷ back else back

-- One element of a path, on the names so far, the last one first.
unfoldable pub enter : Bool → List Bytes → Bytes → List Bytes
unfolding go_up
enter rooted back name =
    if is_empty name || same name (codes ".")
    then back
    else if same name parent_name
    then go_up rooted back
    else name ∷ back

unfoldable pub enter_all : Bool → List Bytes → List Bytes → List Bytes
unfolding enter
enter_all rooted back [] = back
enter_all rooted back (name ∷ names) = enter_all rooted (enter rooted back name) names

-- The names of a clean path.
unfoldable pub names_of : Bytes → List Bytes
unfolding enter_all split
names_of path = reverse (enter_all (is_abs path) [] (split b'/' [] path))

unfoldable pub join_names : List Bytes → Bytes
join_names [] = []
join_names (name ∷ []) = name
join_names (name ∷ next ∷ names) = name ++ b'/' ∷ join_names (next ∷ names)

abbrev pub dot_if_empty : Bytes → Bytes
dot_if_empty [] = codes "."
dot_if_empty (b ∷ s) = b ∷ s

abbrev pub render : Bool → List Bytes → Bytes
render true names = b'/' ∷ join_names names
render false names = dot_if_empty (join_names names)

-- filepath.Clean
unfoldable pub clean_path : Bytes → Bytes
unfolding names_of join_names
clean_path path = render (is_abs path) (names_of path)

-- filepath.Join of two elements, of which the first is not empty.
unfoldable pub join_path : Bytes → Bytes → Bytes
unfolding clean_path
join_path dir [] = clean_path dir
join_path dir (b ∷ s) = clean_path (dir ++ b'/' ∷ b ∷ s)

unfoldable pub climb : List Bytes → List Bytes → List Bytes
climb [] targets = targets
climb (name ∷ base) targets = parent_name ∷ climb base targets

-- The way from the names of a base to those of a target; there is none from a ".." on.
unfoldable pub way : List Bytes → List Bytes → Option (List Bytes)
unfolding climb
way [] targets = some targets
way (name ∷ base) [] = if same name parent_name then none else some (climb (name ∷ base) [])
way (name ∷ base) (target ∷ targets) =
    let inner = way base targets in
    if same name target
    then inner
    else if same name parent_name
    then none
    else some (climb (name ∷ base) (target ∷ targets))

abbrev pub written : Option (List Bytes) → Option Bytes
written none = none
written (some names) = some (dot_if_empty (join_names names))

-- filepath.Rel of two absolute paths or of two relative ones; `none` is its error.
unfoldable pub rel_path : Bytes → Bytes → Option Bytes
unfolding names_of way join_names
rel_path base target =
    if is_abs base
    then (if is_abs target then written (way (names_of base) (names_of target)) else none)
    else if is_abs target
    then none
    else written (way (names_of base) (names_of target))

unfoldable pub up_to_slash : Bytes → Bytes
up_to_slash [] = []
up_to_slash (b ∷ s) = if b == b'/' then b ∷ s else up_to_slash s

-- filepath.Dir: what stands up to the last slash.
unfoldable pub dir_path : Bytes → Bytes
unfolding clean_path up_to_slash
dir_path path = clean_path (reverse (up_to_slash (reverse path)))

-- filepath.Ext: from the last dot of the last name.
unfoldable pub ext_from : Bytes → Bytes → Bytes
ext_from ext [] = []
ext_from ext (b ∷ s) = if b == b'/' then [] else if b == b'.' then b ∷ ext else ext_from (b ∷ ext) s

unfoldable pub ext_path : Bytes → Bytes
unfolding ext_from
ext_path path = ext_from [] (reverse path)
