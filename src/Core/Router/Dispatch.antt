-- ===== src/Core/Router/Dispatch.antt =====
-- core/router.go: how a registration changes what is served.
use multi_threaded_web_serve.Core.Response.{Net, ResponseWriter}
use multi_threaded_web_serve.Core.Router.{
  HandlerFunc, Router, find_prefix, not_found, handle, handle_prefix, serve_http,
}
use multi_threaded_web_serve.Go.Strings.{cut, has_prefix}
use multi_threaded_web_serve.Http.Parser.{Request}
use multi_threaded_web_serve.Base.{
  Bool, true, false, ◌&&◌, List, [], ◌∷◌, ◌++◌, Option, none, some, Bytes, is_empty, if◌then◌else◌,
  lookup, lookup-insert, same, ◌≡◌, refl, Option-cases, inl, inr, Bool-cases,
}

-- The path of a request, its query cut off.
abbrev pub route_of : Request → Bytes
route_of req = (cut b'?' req.path).0

abbrev pub is_none : {A : Type 0} → Option A → Bool
is_none none = true
is_none (some a) = false

-- What the router does with the exact route and the prefix route that it finds.
abbrev outcome : {A B : Type 0} → (A → B) → B → Option A → Option A → B
outcome run missing (some handler) route = run handler
outcome run missing none (some handler) = run handler
outcome run missing none none = missing

serve_http-outcome :
    {C : Type 0}
    → (net : Net C) (r : Router C) (req : Request) (w : ResponseWriter C)
    → serve_http net r req w
      ≡ outcome
          (λ f. f req w)
          (not_found net w)
          (lookup (route_of req) r.routes)
          (find_prefix (route_of req) r.prefix_routes)
unfolding serve_http
serve_http-outcome net r req w = elim (Option-cases (lookup (route_of req) r.routes)) [
  | inr (f, e) ↦ rw (serve_http, e) refl
  | inl e ↦
      rw (serve_http, e)
        (elim (Option-cases (find_prefix (route_of req) r.prefix_routes)) [
          | inr (f, e1) ↦ rw e1 refl
          | inl e1 ↦ rw e1 refl
        ])
]

handle-routes :
    {C : Type 0}
    → (path : Bytes) (handler : HandlerFunc C) (r : Router C) → is_empty path ≡ false
    → (key : Bytes)
    → lookup key (handle path handler r).routes
      ≡ (if same path key then some handler else lookup key r.routes)
unfolding handle
handle-routes path handler r h key = rw h (lookup-insert path key handler r.routes)

handle-prefix_routes :
    {C : Type 0}
    → (path : Bytes) (handler : HandlerFunc C) (r : Router C)
    → (handle path handler r).prefix_routes ≡ r.prefix_routes
unfolding handle
handle-prefix_routes path handler r = elim (Bool-cases (is_empty path)) [
  | inl y ↦ rw y refl
  | inr n ↦ rw n refl
]

module _ {C : Type 0} (net : Net C) (r : Router C) (path : Bytes) (handler : HandlerFunc C) where
  -- After `handle` with a path that is not empty, requests whose path up to the query is that path
  -- go to the new handler, and all others where they went before.
  pub serve_http-handle :
      is_empty path ≡ false
      → (req : Request) (w : ResponseWriter C)
      → serve_http net (handle path handler r) req w
        ≡ (if same path (route_of req) then handler req w else serve_http net r req w)
  serve_http-handle h req w =
      let here = serve_http-outcome net r req w in
      let there = serve_http-outcome net (handle path handler r) req w in
      rw
        (
          there,
          here,
          handle-routes path handler r h (route_of req),
          handle-prefix_routes path handler r,
        )
        (elim (Bool-cases (same path (route_of req))) [ inl y ↦ rw y refl | inr n ↦ rw n refl ])

find_prefix-append :
    {C : Type 0}
    → (path prefix : Bytes) (handler : HandlerFunc C) (routes : List (Bytes × HandlerFunc C))
    → find_prefix path (routes ++ (prefix, handler) ∷ []) ≡ elim (find_prefix path routes) [
      | some first ↦ some first
      | none ↦ if has_prefix path prefix then some handler else none
    ]
unfolding find_prefix
find_prefix-append path prefix handler [] = refl
find_prefix-append path prefix handler ((p, f) ∷ routes) = elim (Bool-cases (has_prefix path p)) [
  | inl y ↦ rw y refl
  | inr n ↦ rw n (find_prefix-append path prefix handler routes)
]

outcome-append :
    {A B : Type 0}
    → (run : A → B) (missing : B) (handler : A) (has : Bool) (exact route : Option A)
    → outcome run missing exact
        (elim route [ some first ↦ some first | none ↦ if has then some handler else none ])
      ≡ (if has && is_none exact && is_none route
          then run handler
          else outcome run missing exact route)
outcome-append run missing handler true (some f) none = refl
outcome-append run missing handler false (some f) none = refl
outcome-append run missing handler true (some f) (some g) = refl
outcome-append run missing handler false (some f) (some g) = refl
outcome-append run missing handler true none (some g) = refl
outcome-append run missing handler false none (some g) = refl
outcome-append run missing handler true none none = refl
outcome-append run missing handler false none none = refl

handle_prefix-adds :
    {C : Type 0}
    → (prefix : Bytes) (handler : HandlerFunc C) (r : Router C) → is_empty prefix ≡ false
    → handle_prefix prefix handler r
      ≡ record r { prefix_routes = r.prefix_routes ++ (prefix, handler) ∷ [] }
unfolding handle_prefix
handle_prefix-adds prefix handler r h = rw h refl

module _ {C : Type 0} (net : Net C) (r : Router C) (prefix : Bytes) (handler : HandlerFunc C) where
  -- After `handle_prefix` with a prefix that is not empty, a request goes to the new handler if its
  -- path up to the query has the prefix and neither an exact route nor an earlier prefix route
  -- takes it; all others go where they went before.
  pub serve_http-handle_prefix :
      is_empty prefix ≡ false
      → (req : Request) (w : ResponseWriter C)
      → serve_http net (handle_prefix prefix handler r) req w ≡ (
          if has_prefix (route_of req) prefix
            && is_none (lookup (route_of req) r.routes)
            && is_none (find_prefix (route_of req) r.prefix_routes)
          then handler req w
          else serve_http net r req w)
  serve_http-handle_prefix h req w =
      let here = serve_http-outcome net r req w in
      let there = serve_http-outcome net (handle_prefix prefix handler r) req w in
      rw (there, here, handle_prefix-adds prefix handler r h)
        (rw (find_prefix-append (route_of req) prefix handler r.prefix_routes) (
          outcome-append (λ f. f req w) (not_found net w) handler (has_prefix (route_of req) prefix)
            (lookup (route_of req) r.routes) (find_prefix (route_of req) r.prefix_routes)))
