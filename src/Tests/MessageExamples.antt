-- ===== src/Tests/MessageExamples.antt =====
-- The theorems on well-formed requests, at concrete ones.
use multi_threaded_web_serve.Core.Connection.{ConnectionOptions, handle_connection, with_defaults}
use multi_threaded_web_serve.Core.Connection.Pipelined.{
  handle_connection-serve_each, serve_each, wires,
}
use multi_threaded_web_serve.Core.Metrics.{
  dec_active_connection, inc_active_connection, new_metrics,
}
use multi_threaded_web_serve.Core.Response.{status_ok, write_text}
use multi_threaded_web_serve.Core.Router.{HandlerFunc, Router}
use multi_threaded_web_serve.Go.Reader.{Reader, content}
use multi_threaded_web_serve.Go.Reading.{rest}
use multi_threaded_web_serve.Go.Strings.{canonical_mime_header_key, contains_any, trim_space}
use multi_threaded_web_serve.Go.Url.{path_unescape}
use multi_threaded_web_serve.Http.Chars.{
  all_bytes, is_chunked_transfer_encoding, is_forbidden_trailer, is_origin_form, is_token,
  parse_chunk_size,
}
use multi_threaded_web_serve.Http.Complete.Chunks.{IsSizeLine}
use multi_threaded_web_serve.Http.Complete.FieldLoops.{header_line}
use multi_threaded_web_serve.Http.Complete.Fields.{IsWritten}
use multi_threaded_web_serve.Http.Complete.Free.{parse_request-accepts}
use multi_threaded_web_serve.Http.Complete.Whole.{
  IsMessage, Message, in_chunks, meaning, parse_request-wire, payload_body, payload_trailers, wire,
}
use multi_threaded_web_serve.Http.Harmless.{FreeOf}
use multi_threaded_web_serve.Http.Inspection.{inspect_body}
use multi_threaded_web_serve.Http.Lines.{has_crlf}
use multi_threaded_web_serve.Http.Parser.{parse_request}
use multi_threaded_web_serve.Http.Read.{decoded, scan_field}
use multi_threaded_web_serve.Tests.{counting, patterns, reader}
use multi_threaded_web_serve.Tests.WafExamples.{patterns-NoneVanishes}
use multi_threaded_web_serve.Waf.Automaton.{new}
use multi_threaded_web_serve.Waf.Normalize.{normalize}
use multi_threaded_web_serve.Waf.Occurs.{occurs}
use multi_threaded_web_serve.Base.{
  ℕ, ◌≤◌, false, true, [], ◌∷◌, ◌++◌, ◌≡◌, refl, All, none, some, arith, Bytes, codes, contains,
  drop, length, lookup, ok, pos, take,
}

abbrev upload : Message
upload = record {
  method = codes "POST";
  target = codes "/a%20b";
  headers = (codes "Host", codes "h.example") ∷ (codes "Transfer-Encoding", codes "chunked") ∷ [];
  payload =
      in_chunks ((codes "3", codes "abc") ∷ (codes "2;x=1", codes "de") ∷ []) (codes "0")
        ((codes "Sum", codes "9") ∷ []);
}

size_line :
    (n : ℕ) (line : Bytes)
    → parse_chunk_size line ≡ ok n
    → has_crlf line ≡ false
    → length line ≤ 100
    → IsSizeLine n line
size_line n line h k l = record { size = h; one_line = k; fits = omega (arith, l) }

plain_field :
    (name value : Bytes)
    → is_token name ≡ true
    → canonical_mime_header_key name ≡ name
    → trim_space value ≡ value
    → has_crlf (header_line name value) ≡ false
    → length (header_line name value) ≤ 100
    → IsWritten none name value
unfolding scan_field
plain_field name value t c s k l = record {
  token = t;
  canonical = c;
  trimmed = s;
  harmless = refl;
  one_line = k;
  fits = omega (arith, l);
}

upload-IsMessage : IsMessage none upload
unfolding is_token all_bytes is_origin_form has_crlf canonical_mime_header_key trim_space scan_field
    contains_any is_chunked_transfer_encoding parse_chunk_size is_forbidden_trailer inspect_body
    lookup contains
upload-IsMessage = record {
  line = record {
    token = refl;
    target_word = (refl, refl);
    target_form = refl;
    harmless = refl;
    one_line = refl;
    fits = omega arith;
  };
  fields = record {
    each = (
      plain_field (codes "Host") (codes "h.example") refl refl refl refl (omega arith),
      (
        plain_field (codes "Transfer-Encoding") (codes "chunked") refl refl refl refl (omega arith),
        tt,
      ),
    );
    distinct = (refl, (refl, tt));
    few = omega arith;
  };
  host = (refl, refl);
  framed = (
    (codes "chunked", refl, refl),
    refl,
    (
      (size_line 3 (codes "3") refl refl (omega arith), omega arith),
      ((size_line 2 (codes "2;x=1") refl refl (omega arith), omega arith), tt),
    ),
    size_line 0 (codes "0") refl refl (omega arith),
    record {
      each = ((plain_field (codes "Sum") (codes "9") refl refl refl refl (omega arith), refl), tt);
      distinct = (refl, tt);
      few = omega arith;
    },
  );
  small = omega arith;
  inspected = refl;
}

abbrev incoming : Bytes
incoming = wire upload ++ codes "GET"

-- The bytes come in pieces, whose ends are inside a line.
abbrev client : Reader
client = reader (take 9 incoming ∷ [] ∷ drop 9 incoming ∷ [])

client-incoming : rest client ≡ wire upload ++ codes "GET"
unfolding content
client-incoming = refl

parse_request-wire_example :
    (q : Reader) × (parse_request none client ≡ ok (meaning upload, q))
    × (rest q ≡ codes "GET")
    × (q.fault ≡ client.fault)
parse_request-wire_example =
    parse_request-wire none upload (codes "GET") client upload-IsMessage client-incoming

upload-FreeOf :
    FreeOf patterns (decoded upload.target (path_unescape upload.target))
    × All (λ h. FreeOf patterns h.1) upload.headers
    × FreeOf patterns (payload_body upload.payload)
    × All (λ h. FreeOf patterns h.1) (payload_trailers upload.payload)
unfolding occurs normalize path_unescape
upload-FreeOf = (
  (λ _. refl, (λ _. refl, (λ _. refl, (λ _. refl, tt)))),
  (
    (λ _. refl, (λ _. refl, (λ _. refl, (λ _. refl, tt)))),
    ((λ _. refl, (λ _. refl, (λ _. refl, (λ _. refl, tt)))), tt),
  ),
  (λ _. refl, (λ _. refl, (λ _. refl, (λ _. refl, tt)))),
  ((λ _. refl, (λ _. refl, (λ _. refl, (λ _. refl, tt)))), tt),
)

parse_request-accepts_example :
    (q : Reader) × (parse_request (some (new patterns)) client ≡ ok (meaning upload, q))
    × (rest q ≡ codes "GET")
    × (q.fault ≡ client.fault)
parse_request-accepts_example =
    parse_request-accepts patterns patterns-NoneVanishes upload (codes "GET") client
      upload-IsMessage upload-FreeOf.0 upload-FreeOf.1 upload-FreeOf.2 upload-FreeOf.3
      client-incoming

abbrev echo : HandlerFunc ℕ
echo req w = (write_text counting status_ok req.body w).0

abbrev echoing : Router ℕ
echoing = record { routes = []; prefix_routes = (codes "/", echo) ∷ [] }

abbrev twice : Reader
twice = reader (take 40 incoming ∷ drop 40 (wire upload ++ wire upload) ∷ [])

abbrev no_options : ConnectionOptions
no_options = record {
  read_timeout = pos 0;
  write_timeout = pos 0;
  idle_timeout = pos 0;
  max_requests_per_connection = pos 0;
  disable_keep_alive = false;
}

twice-wires : rest twice ≡ wires (upload ∷ upload ∷ [])
unfolding content
twice-wires = refl

handle_connection-serve_each_example :
    handle_connection counting none (λ sent. pos 7) no_options (some echoing) twice 0 new_metrics
    ≡ (let c =
          serve_each counting none
            (with_defaults no_options)
            (λ sent. pos 7)
            echoing
            (meaning upload ∷ meaning upload ∷ [])
            0
            0
            (inc_active_connection new_metrics) in
        some (record c { metrics = dec_active_connection c.metrics }))
handle_connection-serve_each_example =
    handle_connection-serve_each counting none (λ sent. pos 7) no_options echoing upload
      (upload ∷ []) twice 0 new_metrics (upload-IsMessage, (upload-IsMessage, tt)) twice-wires refl
