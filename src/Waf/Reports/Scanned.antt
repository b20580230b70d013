-- ===== src/Waf/Reports/Scanned.antt =====
-- security/waf/automaton.go: what a scanner reports of a value, stated on the patterns.
use multi_threaded_web_serve.Waf.Automaton.{new}
use multi_threaded_web_serve.Waf.Normalize.{normalize}
use multi_threaded_web_serve.Waf.Reports.{NoneVanishes, Reports, walk-Reports}
use multi_threaded_web_serve.Waf.Scanner.{new_scanner}
use multi_threaded_web_serve.Waf.Stream.{scan-normalize}
use multi_threaded_web_serve.Waf.Walk.{scan}
use multi_threaded_web_serve.Base.{List, Bytes, subst, sym}

-- Where none of the patterns is normalized to nothing without being empty, the scanner over the
-- automaton of `New` never dereferences a nil pointer on a value. It reports nothing only where none
-- of the patterns that are not empty occurs in the value, both normalized; what it reports is a
-- pattern of the list, not the empty one, that occurs in the value, both normalized, under the field
-- that it was given.
pub scan-Reports :
    (patterns : List Bytes)
    → NoneVanishes patterns
    → (field input : Bytes)
    → Reports patterns field (normalize input) (scan (new patterns) field new_scanner input).1
scan-Reports patterns none_vanish field input =
    subst (Reports patterns field (normalize input))
      (sym (scan-normalize (new patterns) field input))
      (walk-Reports patterns none_vanish field (normalize input))
