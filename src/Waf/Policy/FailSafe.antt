-- ===== src/Waf/Policy/FailSafe.antt =====
-- security/waf/policy.go with security/waf/automaton.go and http/parser.go: where no pattern comes out of
-- the policy file, the firewall goes by the defaults.
use multi_threaded_web_serve.Go.Reader.{Reader}
use multi_threaded_web_serve.Go.Strings.{has_prefix, trim_space}
use multi_threaded_web_serve.Go.Url.{path_unescape}
use multi_threaded_web_serve.Http.Harmless.{FreeOf, parse_request-FreeOf}
use multi_threaded_web_serve.Http.Parser.{Request, parse_request}
use multi_threaded_web_serve.Http.Read.{decoded}
use multi_threaded_web_serve.Waf.Normalize.{normalize}
use multi_threaded_web_serve.Waf.Reports.{NoneVanishes}
use multi_threaded_web_serve.Waf.Policy.{
  default_patterns, load_patterns, load_patterns_file, new_default_automaton, patterns_of_lines,
}
use multi_threaded_web_serve.Base.{
  true, List, [], ◌∷◌, ◌≡◌, refl, ◌||◌, ◌⊎◌, Option, none, some, inl, inr, Bytes, codes, All,
  is_empty, ok, Bool-cases,
}

default_patterns-NoneVanishes : NoneVanishes default_patterns
unfolding normalize
default_patterns-NoneVanishes = (
  refl,
  (
    refl,
    (
      refl,
      (
        refl,
        (
          refl,
          (
            refl,
            (
              refl,
              (
                refl,
                (
                  refl,
                  (
                    refl,
                    (
                      refl,
                      (
                        refl,
                        (refl, (refl, (refl, (refl, (refl, (refl, (refl, (refl, (refl, tt))))))))),
                      ),
                    ),
                  ),
                ),
              ),
            ),
          ),
        ),
      ),
    ),
  ),
)

-- A line without a pattern: it is blank, or it is a comment.
abbrev pub IsSkipped : Bytes → Type 0
IsSkipped text = (is_empty (trim_space text) || has_prefix (trim_space text) (codes "#")) ≡ true

-- The variable is blank, or its file cannot be read, or no line of the file has a pattern.
abbrev pub FallsBack : (Bytes → Option (List Bytes)) → Bytes → Type 0
FallsBack files variable =
    (is_empty (trim_space variable) ≡ true)
    ⊎ ((files (trim_space variable) ≡ none)
        ⊎ ((lines : List Bytes) × (files (trim_space variable) ≡ some lines) × All IsSkipped lines))

patterns_of_lines-IsSkipped :
    (lines : List Bytes) → All IsSkipped lines → patterns_of_lines lines ≡ []
unfolding patterns_of_lines
patterns_of_lines-IsSkipped [] h = refl
patterns_of_lines-IsSkipped (text ∷ lines) (h, k) = rw h (patterns_of_lines-IsSkipped lines k)

load_patterns-FallsBack :
    (files : Bytes → Option (List Bytes)) (variable : Bytes)
    → FallsBack files variable
    → load_patterns files variable ≡ default_patterns
unfolding load_patterns load_patterns_file
load_patterns-FallsBack files variable (inl unset) = rw unset refl
load_patterns-FallsBack files variable (inr h) =
    elim (Bool-cases (is_empty (trim_space variable))) [
      | inl unset ↦ rw unset refl
      | inr set ↦ elim h [
        | inl failed ↦ rw (set, load_patterns_file, failed) refl
        | inr (lines, read, skipped) ↦
            rw (set, load_patterns_file, read, patterns_of_lines-IsSkipped lines skipped) refl
      ]
    ]

-- Where the variable of the policy file is blank, or its file cannot be read, or each line of the
-- file is blank or a comment, a request that is accepted under the firewall that the server starts
-- with has none of the default patterns, both normalized, in its decoded target, in a header's
-- value, in its body or in a trailer's value.
pub new_default_automaton-FreeOf :
    (files : Bytes → Option (List Bytes)) (variable : Bytes) (r q : Reader) (req : Request)
    → FallsBack files variable
    → parse_request (some (new_default_automaton files variable)) r ≡ ok (req, q)
    → FreeOf default_patterns (decoded req.path (path_unescape req.path))
      × All (λ h. FreeOf default_patterns h.1) req.headers
      × FreeOf default_patterns req.body
      × All (λ h. FreeOf default_patterns h.1) req.trailers
unfolding new_default_automaton
new_default_automaton-FreeOf files variable r q req f h =
    parse_request-FreeOf default_patterns default_patterns-NoneVanishes r q req
      (rw (load_patterns-FallsBack files variable f) at h)
