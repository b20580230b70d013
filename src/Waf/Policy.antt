-- ===== src/Waf/Policy.antt =====
-- security/waf/policy.go: the patterns that the firewall starts with. The lines of a policy file, as
-- bufio.Scanner gives them, or `none` for an error, are a function of its path.
pub mod FailSafe
use multi_threaded_web_serve.Go.Strings.{has_prefix, trim_space}
use multi_threaded_web_serve.Waf.Automaton.{Automaton, new}
use multi_threaded_web_serve.Base.{
  Bool, List, [], ◌∷◌, ◌||◌, Option, none, some, Bytes, codes, is_empty, if◌then◌else◌,
}

abbrev pub default_patterns : List Bytes
default_patterns =
    codes "union select"
    ∷ codes "select * from"
    ∷ codes "information_schema"
    ∷ codes "drop table"
    ∷ codes "sleep("
    ∷ codes "benchmark("
    ∷ codes "' or 1=1"
    ∷ codes "\" or 1=1"
    ∷ codes "<script"
    ∷ codes "</script"
    ∷ codes "javascript:"
    ∷ codes "onerror="
    ∷ codes "onload="
    ∷ codes "../"
    ∷ codes "..\\"
    ∷ codes "/etc/passwd"
    ∷ codes "cmd.exe"
    ∷ codes "/bin/sh"
    ∷ codes "powershell -"
    ∷ codes "169.254.169.254"
    ∷ codes "metadata.google.internal"
    ∷ []

-- The loop over the lines of a file.
unfoldable pub patterns_of_lines : List Bytes → List Bytes
unfolding trim_space has_prefix
patterns_of_lines [] = []
patterns_of_lines (text ∷ lines) =
    let line = trim_space text in
    let rest = patterns_of_lines lines in
    if is_empty line || has_prefix line (codes "#") then rest else line ∷ rest

unfoldable pub load_patterns_file : (Bytes → Option (List Bytes)) → Bytes → Option (List Bytes)
unfolding patterns_of_lines
load_patterns_file files path = elim (files path) [
  | none ↦ none
  | some lines ↦ some (patterns_of_lines lines)
]

-- What a loaded file amounts to: the defaults replace an error and an empty list.
abbrev pub or_defaults : Option (List Bytes) → List Bytes
or_defaults none = default_patterns
or_defaults (some []) = default_patterns
or_defaults (some (p ∷ patterns)) = p ∷ patterns

-- `variable` is the value of MTWS_WAF_POLICY_FILE.
unfoldable pub load_patterns : (Bytes → Option (List Bytes)) → Bytes → List Bytes
unfolding load_patterns_file trim_space
load_patterns files variable =
    let path = trim_space variable in
    if is_empty path then default_patterns else or_defaults (load_patterns_file files path)

unfoldable pub new_default_automaton : (Bytes → Option (List Bytes)) → Bytes → Automaton
unfolding load_patterns new
new_default_automaton files variable = new (load_patterns files variable)
