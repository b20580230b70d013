-- ===== src/Tests.antt =====
-- Runs of the definitions on inputs that can be followed in the source.
mod Examples
mod ServerExamples
mod WafExamples
mod MessageExamples
mod EdgeExamples
mod LabExamples
mod StartExamples
use multi_threaded_web_serve.Core.Metrics.{new_metrics}
use multi_threaded_web_serve.Core.Response.{Net, ResponseWriter}
use multi_threaded_web_serve.Go.Reader.{Reader, eof}
use multi_threaded_web_serve.Http.Parser.{Request}
use multi_threaded_web_serve.Http.Chars.{parse_chunk_size}
use multi_threaded_web_serve.Waf.Automaton.{Automaton, new}
use multi_threaded_web_serve.Waf.Normalize.{normalize}
use multi_threaded_web_serve.Base.{
  ℕ, ◌+◌, true, false, none, some, length, pos, ◌≡◌, refl, List, [], ◌∷◌, Bytes, codes, ok,
}

abbrev pub patterns : List Bytes
patterns = codes "union select" ∷ codes "../" ∷ codes "he" ∷ codes "she" ∷ []

abbrev pub small : Automaton
unfolding new
small = new patterns

abbrev pub chunks : Bytes
chunks = codes "3;e\r\nabc\r\n2\r\nde\r\n0\r\nX-T: v\r\n\r\nNEXT"

-- A request with a chunked body and a trailer, and the bytes of a next one.
abbrev pub wire : List Bytes
wire =
    codes
      "POST /a?x HTTP/1.1\r\nhost: h\r\nTransfer-Encoding: chunked\r\n\r\n3;e\r\nabc\r\n2\r\nde\r\n0\r\n"
    ∷ codes "X-T: v\r\n\r\nNEXT"
    ∷ []

abbrev pub reader : List Bytes → Reader
reader pieces = record { pieces = pieces; fault = eof }

abbrev pub request : Request
request = record {
  method = codes "POST";
  path = codes "/a?x";
  version = codes "HTTP/1.1";
  headers = (codes "Host", codes "h") ∷ (codes "Transfer-Encoding", codes "chunked") ∷ [];
  trailers = (codes "X-T", codes "v") ∷ [];
  body = codes "abcde";
}

normalize_comments :
    normalize (codes "  UNION/*x*/ /* */SELECT a//b /* open") ≡ codes "union select a//b"
unfolding normalize
normalize_comments = refl

parse_chunk_size_extension : parse_chunk_size (codes "1F;x=y") ≡ ok 31
unfolding parse_chunk_size
parse_chunk_size_extension = refl

-- A connection that counts the bytes it has sent, and never fails.
abbrev pub counting : Net ℕ
counting = record {
  set_read_deadline = λ d sent. (sent, true);
  set_write_deadline = λ d sent. (sent, true);
  send = λ s sent. (sent + length s, some (length s));
  date = λ sent. codes "Thu, 01 Jan 1970 00:00:00 GMT";
}

abbrev pub fresh : ResponseWriter ℕ
fresh = record {
  conn = 0;
  http_version = codes "HTTP/1.1";
  options = record {
    write_timeout = pos 0;
    keep_alive = true;
    keep_alive_timeout = pos 30000000000;
    keep_alive_max_requests = pos 99;
  };
  metrics = new_metrics;
  wrote = false;
  status_code = 0;
  bytes = 0;
}
