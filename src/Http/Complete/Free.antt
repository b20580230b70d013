-- ===== src/Http/Complete/Free.antt =====
-- http/parser.go with security/waf: the firewall lets through what has none of its patterns in it.
use mathlib.Core.Bool.{false≢true}
use multi_threaded_web_serve.Go.Reader.{Reader}
use multi_threaded_web_serve.Go.Reading.{rest}
use multi_threaded_web_serve.Go.Url.{path_unescape}
use multi_threaded_web_serve.Http.Chars.{max_header_count, max_trailer_count}
use multi_threaded_web_serve.Http.Complete.Fields.{AreWritten, IsWritten, IsWrittenTrailer}
use multi_threaded_web_serve.Http.Complete.Whole.{
  IsFramed, IsMessage, Message, Payload, in_chunks, meaning, parse_request-Gives, payload_body,
  payload_trailers, sized, wire,
}
use multi_threaded_web_serve.Http.Harmless.{FreeOf}
use multi_threaded_web_serve.Http.Inspection.{inspect_body}
use multi_threaded_web_serve.Http.Parser.{parse_request}
use multi_threaded_web_serve.Http.Read.{Headers, decoded, header_field, inspected, scan_field}
use multi_threaded_web_serve.Waf.Automaton.{new}
use multi_threaded_web_serve.Waf.Links.Levels.Finished.{All-contains}
use multi_threaded_web_serve.Waf.Normalize.{normalize}
use multi_threaded_web_serve.Waf.Reports.{All-both, All-weaken, NoneVanishes, Reports}
use multi_threaded_web_serve.Waf.Reports.Scanned.{scan-Reports}
use multi_threaded_web_serve.Waf.Scanner.{Verdict, clean, fault, found}
use multi_threaded_web_serve.Base.{
  ℕ, List, [], ◌∷◌, ◌++◌, ◌≡◌, ◌∙◌, refl, sym, All, none, some, Bytes, codes, ok,
}

module _ (patterns : List Bytes) (none_vanish : NoneVanishes patterns) where
  Reports-clean :
      (field value : Bytes) (v : Verdict)
      → Reports patterns field (normalize value) v
      → FreeOf patterns value
      → v ≡ clean
  Reports-clean field value clean h f = refl
  Reports-clean field value (found m) (listed, given, there, _) f =
      absurd (false≢true (sym (All-contains _ m.pattern patterns f listed given) ∙ there))
  Reports-clean field value fault h f = absurd h

  scan_field-clean :
      (field value : Bytes)
      → FreeOf patterns (inspected field value)
      → scan_field (some (new patterns)) field value ≡ clean
  unfolding scan_field
  scan_field-clean field [] f = refl
  scan_field-clean field (b ∷ s) f =
      Reports-clean field (inspected field (b ∷ s)) _
        (scan-Reports patterns none_vanish field (inspected field (b ∷ s))) f

  inspect_body-free :
      (body : Bytes) → FreeOf patterns body → inspect_body (some (new patterns)) body ≡ clean
  unfolding inspect_body
  inspect_body-free body f =
      Reports-clean (codes "body") body _ (scan-Reports patterns none_vanish (codes "body") body) f

  written_free :
      (name value : Bytes)
      → IsWritten none name value × FreeOf patterns value
      → IsWritten (some (new patterns)) name value
  unfolding inspected
  written_free name value (w, f) = record {
    token = w.token;
    canonical = w.canonical;
    trimmed = w.trimmed;
    harmless = scan_field-clean (header_field name) value f;
    one_line = w.one_line;
    fits = w.fits;
  }

  all_written :
      (limit : ℕ) (P Q : Bytes → Bytes → Type 0) (fields : Headers)
      → ((name value : Bytes) → P name value × FreeOf patterns value → Q name value)
      → AreWritten P limit fields
      → All (λ h. FreeOf patterns h.1) fields
      → AreWritten Q limit fields
  all_written limit P Q fields step w f = record {
    each = All-weaken _ _ (λ h both. step h.0 h.1 both) fields (All-both _ _ fields w.each f);
    distinct = w.distinct;
    few = w.few;
  }

  IsFramed-free :
      (headers : Headers) (p : Payload)
      → IsFramed none headers p
      → All (λ h. FreeOf patterns h.1) (payload_trailers p)
      → IsFramed (some (new patterns)) headers p
  IsFramed-free headers (sized body) f free = f
  IsFramed-free headers (in_chunks chunks last trailers) (coding, no_length, cs, l, ts) free = (
    coding,
    no_length,
    cs,
    l,
    all_written max_trailer_count (IsWrittenTrailer none) (IsWrittenTrailer (some (new patterns)))
        trailers (λ name value ((w, allowed), g). (written_free name value (w, g), allowed)) ts
        free,
  )

  -- Where none of the patterns is normalized to nothing without being empty: a message that is
  -- well-formed for a server without a firewall, and that has none of the patterns that are not
  -- empty, both normalized, in its decoded target, in a header's value, in its body or in a
  -- trailer's value, is not stopped by the firewall. On any reader that is to give its bytes, in
  -- whatever pieces, and then others, the parser returns its request and leaves the other bytes.
  pub parse_request-accepts :
      (m : Message) (t : Bytes) (r : Reader)
      → IsMessage none m
      → FreeOf patterns (decoded m.target (path_unescape m.target))
      → All (λ h. FreeOf patterns h.1) m.headers
      → FreeOf patterns (payload_body m.payload)
      → All (λ h. FreeOf patterns h.1) (payload_trailers m.payload)
      → rest r ≡ wire m ++ t
      → (q : Reader) × (parse_request (some (new patterns)) r ≡ ok (meaning m, q))
        × (rest q ≡ t)
        × (q.fault ≡ r.fault)
  unfolding inspected
  parse_request-accepts m t r i target headers body trailers =
      parse_request-Gives (some (new patterns)) m t
        (record {
          line = record {
            token = i.line.token;
            target_word = i.line.target_word;
            target_form = i.line.target_form;
            harmless = scan_field-clean (codes "uri") m.target target;
            one_line = i.line.one_line;
            fits = i.line.fits;
          };
          fields =
              all_written max_header_count (IsWritten none) (IsWritten (some (new patterns)))
                m.headers written_free i.fields headers;
          host = i.host;
          framed = IsFramed-free m.headers m.payload i.framed trailers;
          small = i.small;
          inspected = inspect_body-free (payload_body m.payload) body;
        })
        r
