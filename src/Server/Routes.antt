-- ===== src/Server/Routes.antt =====
-- cmd/server/main.go: the table of handlers. What JSON makes of a payload, the numbers of
-- float64 and the log store at a moment are parameters.
pub mod Guarded
pub mod Limits
use multi_threaded_web_serve.Core.LogSink.{LogEntry, LogStore, snapshot}
use multi_threaded_web_serve.Core.Metrics.{Metrics}
use multi_threaded_web_serve.Core.Metrics.Text.{Milliseconds, prometheus}
use multi_threaded_web_serve.Core.Response.{
  Net, ResponseWriter, StatusCode, status_internal_server_error, status_ok, write_bytes, write_text,
}
use multi_threaded_web_serve.Core.Router.{HandlerFunc, Router, handle, handle_prefix, new_router}
use multi_threaded_web_serve.Go.Strings.{atoi, cut, trim_space}
use multi_threaded_web_serve.Go.Url.{parse_query}
use multi_threaded_web_serve.Http.Parser.{Request}
use multi_threaded_web_serve.Server.Static.{
  FileSystem, require_method, resolve_static_root, secure_static_handler, serve_index_page,
}
use multi_threaded_web_serve.Base.{
  ℕ, Bool, true, false, List, [], ◌∷◌, ◌++◌, Option, none, some, Bytes, codes, is_empty, leb,
  lookup, ltb, ℤ, pos, negsuc, not_positive, magnitude, if◌then◌else◌,
}

abbrev pub given : Option Bytes → Bytes
given none = []
given (some s) = s

-- The number of the query's limit, if it is positive, up to 200.
abbrev pub bounded : ℤ → Option ℤ → ℤ
bounded fallback none = fallback
bounded fallback (some n) =
    if not_positive n then fallback else if ltb 200 (magnitude n) then pos 200 else n

unfoldable pub limit_of_text : ℤ → Bytes → ℤ
unfolding atoi
limit_of_text fallback raw = if is_empty raw then fallback else bounded fallback (atoi raw)

unfoldable pub limit_of_values : ℤ → Option (List (Bytes × Bytes)) → ℤ
unfolding limit_of_text lookup trim_space
limit_of_values fallback none = fallback
limit_of_values fallback (some values) =
    limit_of_text fallback (trim_space (given (lookup (codes "limit") values)))

unfoldable pub log_limit : Bytes → ℤ → ℤ
unfolding limit_of_values cut parse_query
log_limit path fallback =
    let (before, query, found) = cut b'?' path in
    if found then limit_of_values fallback (parse_query query) else fallback

-- What the handlers show of the process; a `none` is an error of json.Marshal.
pub record Views (C F : Type 0) : Type 0 where
  pub monitor_json : C → Metrics → Option Bytes
  pub logs_json : List LogEntry → Option Bytes
  pub logs : C → LogStore
  pub milliseconds : Milliseconds F

module _ {C F : Type 0} (net : Net C) (fs : FileSystem) (views : Views C F)
    (static_dir : Bytes) where
  abbrev pub text_handler : Bytes → HandlerFunc C
  text_handler body req w = let (written, sent) = write_text net status_ok body w in written

  unfoldable pub write_json : StatusCode → Option Bytes → ResponseWriter C → ResponseWriter C
  unfolding write_text write_bytes
  write_json status none w =
      let (written, sent) = write_text net status_internal_server_error [] w in written
  write_json status (some data_) w =
      let (written, sent) =
        write_bytes net status (codes "application/json; charset=utf-8") data_ w in
      written

  unfoldable pub monitor_handler : HandlerFunc C
  unfolding write_json
  monitor_handler req w = write_json status_ok (views.monitor_json w.conn w.metrics) w

  unfoldable pub logs_handler : HandlerFunc C
  unfolding write_json log_limit snapshot
  logs_handler req w =
      write_json status_ok
        (views.logs_json (snapshot (views.logs w.conn) (log_limit req.path (pos 60)))) w

  unfoldable pub metrics_handler : HandlerFunc C
  unfolding write_text prometheus
  metrics_handler req w = text_handler (prometheus views.milliseconds (some w.metrics)) req w

  unfoldable pub search_handler : HandlerFunc C
  unfolding write_text cut
  search_handler req w =
      let (before, query, found) = cut b'?' req.path in
      text_handler (codes "query=" ++ query ++ codes "\n") req w

  unfoldable pub build_router : Router C
  unfolding handle handle_prefix new_router require_method serve_index_page monitor_handler
      logs_handler metrics_handler search_handler secure_static_handler resolve_static_root
  build_router =
      let get = codes "GET" in
      let r = new_router in
      let r = handle (codes "/") (require_method net get (serve_index_page net fs static_dir)) r in
      let r = handle (codes "/api/monitor") (require_method net get monitor_handler) r in
      let r = handle (codes "/api/logs") (require_method net get logs_handler) r in
      let r = handle (codes "/health") (require_method net get (text_handler (codes "ok\n"))) r in
      let r = handle (codes "/ready") (require_method net get (text_handler (codes "ready\n"))) r in
      let r = handle (codes "/metrics") (require_method net get metrics_handler) r in
      let r =
        handle (codes "/submit")
          (require_method net (codes "POST")
            (text_handler (codes "MTWS baseline server is running\n")))
          r in
      let r = handle (codes "/search") (require_method net get search_handler) r in
      handle_prefix (codes "/static/")
        (secure_static_handler net fs (resolve_static_root fs static_dir)) r
