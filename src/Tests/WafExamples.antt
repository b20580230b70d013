-- ===== src/Tests/WafExamples.antt =====
-- The theorems on what the firewall finds, at concrete inputs.
use multi_threaded_web_serve.Go.Strings.{has_prefix, trim_space}
use multi_threaded_web_serve.Go.Url.{path_unescape}
use multi_threaded_web_serve.Http.Action.{blocked}
use multi_threaded_web_serve.Http.Errors.Causes.{IsCaused, parse_request-IsCaused}
use multi_threaded_web_serve.Http.Harmless.{FreeOf, parse_request-FreeOf}
use multi_threaded_web_serve.Http.Parser.{Request, parse_request}
use multi_threaded_web_serve.Http.Read.{decoded}
use multi_threaded_web_serve.Tests.{patterns, wire, reader, request}
use multi_threaded_web_serve.Waf.Automaton.{Match, new}
use multi_threaded_web_serve.Waf.Normalize.{normalize}
use multi_threaded_web_serve.Waf.Policy.{default_patterns, new_default_automaton}
use multi_threaded_web_serve.Waf.Policy.FailSafe.{FallsBack, new_default_automaton-FreeOf}
use multi_threaded_web_serve.Waf.Reports.{NoneVanishes, Reports}
use multi_threaded_web_serve.Waf.Reports.Scanned.{scan-Reports}
use multi_threaded_web_serve.Waf.Scanner.{new_scanner}
use multi_threaded_web_serve.Waf.Walk.{scan}
use multi_threaded_web_serve.Base.{
  ◌≡◌, refl, List, [], ◌∷◌, Option, some, inr, All, Bytes, codes, ok, err,
}

pub patterns-NoneVanishes : NoneVanishes patterns
unfolding normalize
patterns-NoneVanishes = (refl, (refl, (refl, (refl, tt))))

scan-Reports_example :
    Reports patterns
      (codes "body")
      (normalize (codes "x../y"))
      (scan (new patterns) (codes "body") new_scanner (codes "x../y")).1
scan-Reports_example = scan-Reports patterns patterns-NoneVanishes (codes "body") (codes "x../y")

accepted :
    parse_request (some (new patterns)) (reader wire) ≡ ok (request, reader (codes "NEXT" ∷ []))
unfolding parse_request new normalize
accepted = refl

parse_request-FreeOf_example :
    FreeOf patterns (decoded request.path (path_unescape request.path))
    × All (λ h. FreeOf patterns h.1) request.headers
    × FreeOf patterns request.body
    × All (λ h. FreeOf patterns h.1) request.trailers
parse_request-FreeOf_example =
    parse_request-FreeOf patterns patterns-NoneVanishes (reader wire) (reader (codes "NEXT" ∷ []))
      request accepted

abbrev traversal : Match
traversal = record { rule_id = codes "MTWS-WAF-0002"; pattern = codes "../"; field = codes "uri" }

refused :
    parse_request (some (new patterns)) (reader (codes "GET /a/../b HTTP/1.1\r\n" ∷ []))
    ≡ err (blocked traversal)
unfolding parse_request new normalize
refused = refl

parse_request-IsCaused_example : IsCaused patterns (blocked traversal)
parse_request-IsCaused_example =
    parse_request-IsCaused patterns patterns-NoneVanishes
      (reader (codes "GET /a/../b HTTP/1.1\r\n" ∷ [])) (blocked traversal) refused

-- A policy file of a comment and a blank line, at every path.
abbrev comments : Bytes → Option (List Bytes)
comments path = some (codes "# no rules" ∷ codes "  " ∷ [])

comments-FallsBack : FallsBack comments (codes "/policy.txt")
unfolding trim_space has_prefix
comments-FallsBack = inr (inr (codes "# no rules" ∷ codes "  " ∷ [], refl, (refl, (refl, tt))))

abbrev index_request : Request
index_request = record {
  method = codes "GET";
  path = codes "/a";
  version = codes "HTTP/1.1";
  headers = (codes "Host", codes "h") ∷ [];
  trailers = [];
  body = [];
}

index_accepted :
    parse_request
      (some (new_default_automaton comments (codes "/policy.txt")))
      (reader (codes "GET /a HTTP/1.1\r\nhost: h\r\n\r\n" ∷ []))
    ≡ ok (index_request, reader ([] ∷ []))
unfolding parse_request new_default_automaton normalize
index_accepted = refl

new_default_automaton-FreeOf_example :
    FreeOf default_patterns (decoded index_request.path (path_unescape index_request.path))
    × All (λ h. FreeOf default_patterns h.1) index_request.headers
    × FreeOf default_patterns index_request.body
    × All (λ h. FreeOf default_patterns h.1) index_request.trailers
new_default_automaton-FreeOf_example =
    new_default_automaton-FreeOf comments (codes "/policy.txt")
      (reader (codes "GET /a HTTP/1.1\r\nhost: h\r\n\r\n" ∷ [])) (reader ([] ∷ [])) index_request
      comments-FallsBack index_accepted
