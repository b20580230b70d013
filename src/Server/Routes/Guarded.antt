-- ===== src/Server/Routes/Guarded.antt =====
-- cmd/server/main.go with core/router.go: every route asks for its method.
use multi_threaded_web_serve.Core.Response.{
  Net, ResponseWriter, status_method_not_allowed, write_text,
}
use multi_threaded_web_serve.Core.Router.{
  HandlerFunc, Router, find_prefix, handle, handle_prefix, new_router, not_found, serve_http,
}
use multi_threaded_web_serve.Go.Strings.{cut, has_prefix}
use multi_threaded_web_serve.Http.Parser.{Request}
use multi_threaded_web_serve.Server.Routes.{
  Views, build_router, logs_handler, metrics_handler, monitor_handler, search_handler, text_handler,
}
use multi_threaded_web_serve.Server.Static.{
  FileSystem, require_method, resolve_static_root, secure_static_handler, serve_index_page,
  static_answer, write_answer,
}
use multi_threaded_web_serve.Base.{
  All, All-lookup, Bool, true, false, List, [], ◌∷◌, ◌≡◌, refl, subst, ◌⊎◌, inl, inr, Option, some,
  Option-cases, Bytes, codes, insert, lookup, same, if◌then◌else◌,
}

module _ {C : Type 0} (net : Net C) where
  -- A request with neither GET nor POST is answered with 405, and nothing else is done.
  abbrev pub Guards : Request → ResponseWriter C → HandlerFunc C → Type 0
  Guards req w handler = handler req w ≡ (write_text net status_method_not_allowed [] w).0

  require_method-Guards :
      (req : Request) (w : ResponseWriter C) (method : Bytes) (next : HandlerFunc C)
      → same req.method method ≡ false
      → Guards req w (require_method net method next)
  unfolding require_method
  require_method-Guards req w method next h = rw h refl

  prefix-Guards :
      (req : Request) (w : ResponseWriter C) (path : Bytes) (routes : List (Bytes × HandlerFunc C))
      (handler : HandlerFunc C)
      → All (λ e. Guards req w e.1) routes
      → find_prefix path routes ≡ some handler
      → Guards req w handler
  unfolding find_prefix
  prefix-Guards req w path [] handler h e = absurd (cc)
  prefix-Guards req w path ((prefix, f) ∷ routes) handler (g, h) e =
      go (has_prefix path prefix) e (prefix-Guards req w path routes handler h)
    where
      go :
          (b : Bool)
          → ◌≡◌ {A = Option (HandlerFunc C)}
              (if b then some f else find_prefix path routes)
              (some handler)
          → (find_prefix path routes ≡ some handler → Guards req w handler)
          → Guards req w handler
      go true e more = let same : f ≡ handler = cc in subst (λ k. Guards req w k) same g
      go false e more = more e

  serve_http-Guards :
      (r : Router C) (req : Request) (w : ResponseWriter C)
      → All (λ e. Guards req w e.1) r.routes
      → All (λ e. Guards req w e.1) r.prefix_routes
      → Guards req w (serve_http net r) ⊎ (serve_http net r req w ≡ not_found net w)
  unfolding serve_http
  serve_http-Guards r req w exact prefixes =
      let path = (cut b'?' req.path).0 in
      elim (Option-cases (lookup path r.routes)) [
        | inr (handler, e) ↦ inl (
            rw (serve_http, e)
              (All-lookup (λ handler. Guards req w handler) path handler r.routes exact e))
        | inl e ↦ elim (Option-cases (find_prefix path r.prefix_routes)) [
          | inr (handler, k) ↦
              inl (
                rw (serve_http, e, k) (prefix-Guards req w path r.prefix_routes handler prefixes k))
          | inl k ↦ inr (rw (serve_http, e, k) refl)
        ]
      ]

  module _ {F : Type 0} (fs : FileSystem) (views : Views C F) (static_dir : Bytes) where
    -- A request with another method than GET and POST is answered by the server with 405 or, where
    -- no route fits, with 404. It reads no file and shows nothing of the process.
    pub build_router-Guards :
        (req : Request) (w : ResponseWriter C)
        → same req.method (codes "GET") ≡ false
        → same req.method (codes "POST") ≡ false
        → Guards req w (serve_http net (build_router net fs views static_dir))
          ⊎ (serve_http net (build_router net fs views static_dir) req w ≡ not_found net w)
    unfolding build_router handle handle_prefix new_router insert secure_static_handler
    build_router-Guards req w get post =
        let by_get =
          (λ (next : HandlerFunc C). require_method-Guards req w (codes "GET") next get) in
        serve_http-Guards (build_router net fs views static_dir) req w
          (
            by_get (serve_index_page net fs static_dir),
            (
              by_get (monitor_handler net fs views static_dir),
              (
                by_get (logs_handler net fs views static_dir),
                (
                  by_get (text_handler net fs views static_dir (codes "ok\n")),
                  (
                    by_get (text_handler net fs views static_dir (codes "ready\n")),
                    (
                      by_get (metrics_handler net fs views static_dir),
                      (
                        require_method-Guards req w (codes "POST")
                            (text_handler net fs views static_dir
                              (codes "MTWS baseline server is running\n"))
                            post,
                        (by_get (search_handler net fs views static_dir), tt),
                      ),
                    ),
                  ),
                ),
              ),
            ),
          )
          (
            by_get (λ req w.
                write_answer net (static_answer fs (resolve_static_root fs static_dir) req.path) w),
            tt,
          )
