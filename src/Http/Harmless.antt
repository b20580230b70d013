-- ===== src/Http/Harmless.antt =====
-- http/parser.go with security/waf: what the inspection of an accepted request means, stated on the
-- patterns of the firewall.
use multi_threaded_web_serve.Go.Reader.{Reader}
use multi_threaded_web_serve.Go.Url.{path_unescape}
use multi_threaded_web_serve.Http.Accepted.{parse_request-IsAccepted}
use multi_threaded_web_serve.Http.Fields.{IsField}
use multi_threaded_web_serve.Http.Inspection.{inspect_body}
use multi_threaded_web_serve.Http.Parser.{Request, parse_request}
use multi_threaded_web_serve.Http.Read.{decoded, inspected, scan_field, header_field}
use multi_threaded_web_serve.Waf.Automaton.{new}
use multi_threaded_web_serve.Waf.Normalize.{normalize}
use multi_threaded_web_serve.Waf.Occurs.{occurs}
use multi_threaded_web_serve.Waf.Reports.{All-weaken, NoneVanishes, Reports}
use multi_threaded_web_serve.Waf.Reports.Scanned.{scan-Reports}
use multi_threaded_web_serve.Waf.Scanner.{clean}
use multi_threaded_web_serve.Base.{
  false, List, [], ◌∷◌, ◌≡◌, subst, sym, ◌∙◌, Bytes, codes, All, is_empty, ok, some, same,
  Bool-cases, inl, inr,
}

-- None of the patterns occurs in the value, after the normalization of both.
abbrev pub FreeOf : List Bytes → Bytes → Type 0
FreeOf patterns value =
    All (λ p. is_empty p ≡ false → occurs (normalize p) (normalize value) ≡ false) patterns

module _ (patterns : List Bytes) (none_vanish : NoneVanishes patterns) where
  FreeOf-nil : FreeOf patterns []
  unfolding occurs normalize
  FreeOf-nil = All-weaken _ _ (λ p e n. e ∙ n) patterns none_vanish

  inspected-nil : (field : Bytes) → inspected field [] ≡ []
  unfolding inspected path_unescape
  inspected-nil field = elim (Bool-cases (same field (codes "uri"))) [ inl y ↦ rw y | inr n ↦ rw n ]

  scan_field-FreeOf :
      (field value : Bytes)
      → scan_field (some (new patterns)) field value ≡ clean
      → FreeOf patterns (inspected field value)
  unfolding scan_field
  scan_field-FreeOf field [] h = subst (FreeOf patterns) (sym (inspected-nil field)) FreeOf-nil
  scan_field-FreeOf field (b ∷ s) h =
      subst (Reports patterns field (normalize (inspected field (b ∷ s)))) h
        (scan-Reports patterns none_vanish field (inspected field (b ∷ s)))

  inspect_body-FreeOf :
      (body : Bytes) → inspect_body (some (new patterns)) body ≡ clean → FreeOf patterns body
  unfolding inspect_body
  inspect_body-FreeOf body h =
      subst (Reports patterns (codes "body") (normalize body)) h
        (scan-Reports patterns none_vanish (codes "body") body)

  -- A header's value is inspected as it is.
  IsField-FreeOf :
      (name value : Bytes) → IsField (some (new patterns)) name value → FreeOf patterns value
  unfolding inspected
  IsField-FreeOf name value f = scan_field-FreeOf (header_field name) value f.inspected

  -- Where none of the patterns is normalized to nothing without being empty, an accepted request
  -- has none of them, both normalized, in its decoded target, in a header's value, in its body or
  -- in a trailer's value. Empty patterns are passed over.
  pub parse_request-FreeOf :
      (r q : Reader) (req : Request)
      → parse_request (some (new patterns)) r ≡ ok (req, q)
      → FreeOf patterns (decoded req.path (path_unescape req.path))
        × All (λ h. FreeOf patterns h.1) req.headers
        × FreeOf patterns req.body
        × All (λ h. FreeOf patterns h.1) req.trailers
  unfolding inspected
  parse_request-FreeOf r q req h =
      let a = parse_request-IsAccepted (some (new patterns)) r q req h in
      (
        scan_field-FreeOf (codes "uri") req.path a.request_line.inspected,
        All-weaken _ _ (λ h f. IsField-FreeOf h.0 h.1 f) req.headers a.fields.each,
        inspect_body-FreeOf req.body a.body.inspected,
        All-weaken _ _ (λ h t. IsField-FreeOf h.0 h.1 t.field) req.trailers
            a.body.are_trailers.each,
      )
