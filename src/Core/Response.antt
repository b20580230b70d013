-- ===== src/Core/Response.antt =====
-- core/response.go: status codes and the writer of one response. The connection, the clock's date and
-- the outcome of each call of the network are a parameter.
pub mod Lengths
pub mod Once
use multi_threaded_web_serve.Core.Metrics.{Metrics, record_response}
use multi_threaded_web_serve.Base.{
  ℕ, zero, suc, ◌+◌, ◌/◌, ◌%◌, Bool, true, false, not, List, [], ◌∷◌, ◌++◌, Option, none, some,
  if◌then◌else◌, Bytes, codes, is_empty, length, leb, ltb, ℤ, pos, negsuc, not_positive, ◌≡◌, refl,
  ◌⊎◌, inl, inr, arith,
}

pub record StatusCode : Type 0 where
  pub code : ℕ
  pub reason : Bytes
  pub body : Bytes

abbrev pub status : ℕ → Bytes → StatusCode
status code reason = record { code = code; reason = reason; body = reason ++ b'\n' ∷ [] }

abbrev pub status_ok : StatusCode
status_ok = status 200 (codes "OK")

abbrev pub status_bad_request : StatusCode
status_bad_request = status 400 (codes "Bad Request")

abbrev pub status_forbidden : StatusCode
status_forbidden = status 403 (codes "Forbidden")

abbrev pub status_not_found : StatusCode
status_not_found = status 404 (codes "Not Found")

abbrev pub status_method_not_allowed : StatusCode
status_method_not_allowed = status 405 (codes "Method Not Allowed")

abbrev pub status_too_many_requests : StatusCode
status_too_many_requests = status 429 (codes "Too Many Requests")

abbrev pub status_internal_server_error : StatusCode
status_internal_server_error = status 500 (codes "Internal Server Error")

abbrev pub status_service_unavailable : StatusCode
status_service_unavailable = status 503 (codes "Service Unavailable")

-- A connection's calls: whether it takes a deadline, and how many bytes a write sends, if it does
-- not fail; and the date of the moment.
pub record Net (C : Type 0) : Type 0 where
  pub set_read_deadline : ℤ → C → C × Bool
  pub set_write_deadline : ℤ → C → C × Bool
  pub send : Bytes → C → C × Option ℕ
  pub date : C → Bytes

pub record ResponseOptions : Type 0 where
  pub write_timeout : ℤ
  pub keep_alive : Bool
  pub keep_alive_timeout : ℤ
  pub keep_alive_max_requests : ℤ

-- The metrics are shared: they stand in the writer as the calls before have left them.
pub record ResponseWriter (C : Type 0) : Type 0 where
  pub conn : C
  pub http_version : Bytes
  pub options : ResponseOptions
  pub metrics : Metrics
  pub wrote : Bool
  pub status_code : ℕ
  pub bytes : ℕ

-- `%d`.
unfoldable pub digits : ℕ → ℕ → Bytes → Bytes
digits zero n s = s
digits (suc fuel) n s =
    let d = b'0' + n % 10 in if ltb n 10 then d ∷ s else digits fuel (n / 10) (d ∷ s)

unfoldable pub decimal : ℕ → Bytes
unfolding digits
decimal n = digits (suc n) n []

unfoldable pub signed_decimal : ℤ → Bytes
unfolding decimal
signed_decimal (pos n) = decimal n
signed_decimal (negsuc n) = b'-' ∷ decimal (suc n)

-- `int(d.Seconds())` of nanoseconds.
unfoldable pub whole_seconds : ℤ → ℤ
whole_seconds (pos n) = pos (n / 1000000000)
whole_seconds (negsuc n) = elim (suc n / 1000000000) [ zero ↦ pos 0 | suc k ↦ negsuc k ]

module _ {C : Type 0} (net : Net C) where
  unfoldable pub new_response_writer : C → Bytes → Metrics → ResponseOptions → ResponseWriter C
  new_response_writer conn http_version metrics options = record {
    conn = conn;
    http_version = if is_empty http_version then codes "HTTP/1.1" else http_version;
    options = options;
    metrics = metrics;
    wrote = false;
    status_code = 0;
    bytes = 0;
  }

  unfoldable pub header : ResponseWriter C → StatusCode → Bytes → Bytes → Bytes
  unfolding signed_decimal whole_seconds decimal
  header w status content_type body =
      w.http_version
      ++ codes " "
      ++ decimal status.code
      ++ codes " "
      ++ status.reason
      ++ codes "\r\nDate: "
      ++ net.date w.conn
      ++ codes "\r\nServer: MTWS\r\nContent-Type: "
      ++ content_type
      ++ codes "\r\nX-Content-Type-Options: nosniff\r\nContent-Length: "
      ++ decimal (length body)
      ++ codes "\r\nConnection: "
      ++ (if w.options.keep_alive then codes "keep-alive" else codes "close")
      ++ codes "\r\n"
      ++ (if w.options.keep_alive
          then codes "Keep-Alive: timeout="
            ++ signed_decimal (whole_seconds w.options.keep_alive_timeout)
            ++ codes ", max="
            ++ signed_decimal w.options.keep_alive_max_requests
            ++ codes "\r\n"
          else [])
      ++ codes "\r\n"

  -- The deadline of a write, where there is one: the connection after, and whether it took it.
  unfoldable pub deadline : ResponseWriter C → C × Bool
  deadline w =
      if not_positive w.options.write_timeout
      then (w.conn, true)
      else net.set_write_deadline w.options.write_timeout w.conn

  -- What follows `conn.Write`. The flag says that there was no error.
  unfoldable pub after_send : StatusCode → ResponseWriter C → C → Option ℕ → ResponseWriter C × Bool
  after_send status w conn none = (record w { conn = conn }, false)
  after_send status w conn (some n) = (
    record w {
      conn = conn;
      wrote = true;
      status_code = status.code;
      bytes = n;
      metrics = record_response status.code w.metrics;
    },
    true,
  )

  unfoldable pub send_response :
      StatusCode → Bytes → ResponseWriter C → Bytes → ResponseWriter C × Bool
  unfolding header after_send
  send_response status content_type w body =
      let (conn, sent) = net.send (header w status content_type body ++ body) w.conn in
      after_send status w conn sent

  unfoldable pub write : StatusCode → Bytes → Bytes → ResponseWriter C → ResponseWriter C × Bool
  unfolding deadline send_response
  write status content_type body w =
      let (conn, set) = deadline w in
      let reached = record w { conn = conn } in
      if w.wrote
      then (w, false)
      else if set
      then send_response status content_type reached body
      else (reached, false)

  unfoldable pub write_text : StatusCode → Bytes → ResponseWriter C → ResponseWriter C × Bool
  unfolding write
  write_text status body w =
      write status (codes "text/plain; charset=utf-8") (if is_empty body then status.body else body)
        w

  unfoldable pub write_bytes :
      StatusCode → Bytes → Bytes → ResponseWriter C → ResponseWriter C × Bool
  unfolding write
  write_bytes status content_type body w =
      write status
        (if is_empty content_type then codes "application/octet-stream" else content_type) body w

  unfoldable pub write_error_response :
      Bytes → StatusCode → ResponseOptions → C → Metrics → C × Metrics
  unfolding write_text new_response_writer
  write_error_response http_version status options conn metrics =
      let (w, sent) =
        write_text status status.body (new_response_writer conn http_version metrics options) in
      (w.conn, w.metrics)
