-- ===== src/Go/Replacing.antt =====
-- Go's strings package: replacing, suffixes, trimming on the right and splitting into so many parts.
use multi_threaded_web_serve.Go.Strings.{contains_byte, cut, has_prefix}
use multi_threaded_web_serve.Base.{
  ℕ, zero, suc, ◌-◌, Bool, ◌&&◌, List, [], ◌∷◌, ◌++◌, Bytes, drop, is_empty, leb, length, same,
  if◌then◌else◌,
}

-- strings.ReplaceAll from the left, of a string that is not empty; `skip` bytes belong to one that has been
-- replaced.
unfoldable pub replace_from : ℕ → Bytes → Bytes → Bytes → Bytes
unfolding has_prefix
replace_from skip old new [] = []
replace_from (suc skip) old new (b ∷ s) = replace_from skip old new s
replace_from zero old new (b ∷ s) =
    let replaced = replace_from (length old - 1) old new s in
    let kept = replace_from 0 old new s in
    if has_prefix (b ∷ s) old then new ++ replaced else b ∷ kept

abbrev pub replace_all : Bytes → Bytes → Bytes → Bytes
replace_all old new s = replace_from 0 old new s

-- strings.HasSuffix
unfoldable pub has_suffix : Bytes → Bytes → Bool
has_suffix s suffix =
    leb (length suffix) (length s) && same (drop (length s - length suffix) s) suffix

-- strings.TrimRight with a set of ASCII characters.
unfoldable pub trim_right : Bytes → Bytes → Bytes
unfolding contains_byte
trim_right cutset [] = []
trim_right cutset (b ∷ s) =
    let rest = trim_right cutset s in
    if is_empty rest && contains_byte cutset b then [] else b ∷ rest

-- strings.SplitN at a byte, for a positive number of parts.
unfoldable pub split_n : ℕ → ℕ → Bytes → List Bytes
unfolding cut
split_n zero sep s = []
split_n (suc zero) sep s = s ∷ []
split_n (suc (suc n)) sep s =
    let (part, rest, found) = cut sep s in
    let more = split_n (suc n) sep rest in if found then part ∷ more else part ∷ []
