-- ===== src/Go/Url.antt =====
-- url.PathUnescape, url.QueryUnescape and url.ParseQuery of Go's net/url.
use multi_threaded_web_serve.Go.Strings.{contains_byte, cut, split}
use multi_threaded_web_serve.Base.{
  ℕ, ◌+◌, ◌-◌, ◌*◌, true, false, List, [], ◌∷◌, map, is_empty, Option, none, some, ◌==◌, within,
  if◌then◌else◌, Bytes,
}

unfoldable pub unhex : ℕ → Option ℕ
unhex b =
    if within b'0' b'9' b
    then some (b - b'0')
    else if within b'a' b'f' b
    then some (b - b'a' + 10)
    else if within b'A' b'F' b
    then some (b - b'A' + 10)
    else none

abbrev pub unhex_pair : Option ℕ → Option ℕ → Option ℕ
unhex_pair (some high) (some low) = some (high * 16 + low)
unhex_pair (some high) none = none
unhex_pair none low = none

abbrev pub cons_some : Option ℕ → Option Bytes → Option Bytes
cons_some (some b) (some s) = some (b ∷ s)
cons_some (some b) none = none
cons_some none s = none

-- Each '%' stands with two hexadecimal digits, or the string is refused.
unfoldable pub path_unescape : Bytes → Option Bytes
unfolding unhex
path_unescape [] = some []
path_unescape (c ∷ []) = if c == b'%' then none else some (c ∷ [])
path_unescape (c ∷ a ∷ []) = elim (c == b'%') [
  | true ↦ none
  | false ↦ cons_some (some c) (path_unescape (a ∷ []))
]
path_unescape (c ∷ a ∷ b ∷ s) = elim (c == b'%') [
  | true ↦ cons_some (unhex_pair (unhex a) (unhex b)) (path_unescape s)
  | false ↦ cons_some (some c) (path_unescape (a ∷ b ∷ s))
]

-- url.QueryUnescape: the same, and a '+' is a space.
abbrev pub plus_space : ℕ → ℕ
plus_space b = if b == b'+' then b' ' else b

unfoldable pub query_unescape : Bytes → Option Bytes
unfolding path_unescape
query_unescape s = path_unescape (map plus_space s)

abbrev pub some_pair : Option Bytes → Option Bytes → Option (Bytes × Bytes)
some_pair (some key) (some value) = some (key, value)
some_pair (some key) none = none
some_pair none value = none

unfoldable pub query_pair : Bytes → Option (Bytes × Bytes)
unfolding query_unescape cut
query_pair part =
    let (key, value, found) = cut b'=' part in some_pair (query_unescape key) (query_unescape value)

abbrev pub cons_pair :
    Option (Bytes × Bytes) → Option (List (Bytes × Bytes)) → Option (List (Bytes × Bytes))
cons_pair (some pair) (some pairs) = some (pair ∷ pairs)
cons_pair (some pair) none = none
cons_pair none pairs = none

unfoldable pub query_pairs : List Bytes → Option (List (Bytes × Bytes))
unfolding query_pair contains_byte
query_pairs [] = some []
query_pairs (part ∷ parts) =
    let rest = query_pairs parts in
    if contains_byte part b';'
    then none
    else if is_empty part
    then rest
    else cons_pair (query_pair part) rest

-- url.ParseQuery: the values in their order, unless there is an error.
unfoldable pub parse_query : Bytes → Option (List (Bytes × Bytes))
unfolding query_pairs split
parse_query query = query_pairs (split b'&' [] query)
