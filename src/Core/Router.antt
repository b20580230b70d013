-- ===== src/Core/Router.antt =====
-- core/router.go: the table of handlers. A handler is a function of the request on the state `S`.
pub mod Dispatch
use multi_threaded_web_serve.Core.Response.{Net, ResponseWriter, status_not_found, write_text}
use multi_threaded_web_serve.Go.Strings.{cut, has_prefix}
use multi_threaded_web_serve.Http.Parser.{Request}
use multi_threaded_web_serve.Base.{
  List, [], ◌∷◌, ◌++◌, Option, none, some, Bytes, is_empty, if◌then◌else◌, lookup, insert,
}

abbrev pub HandlerFunc : Type 0 → Type 0
HandlerFunc C = Request → ResponseWriter C → ResponseWriter C

pub record Router (C : Type 0) : Type 0 where
  pub routes : List (Bytes × HandlerFunc C)
  pub prefix_routes : List (Bytes × HandlerFunc C)

module _ {C : Type 0} where
  unfoldable pub new_router : Router C
  new_router = record { routes = []; prefix_routes = [] }

  unfoldable pub handle : Bytes → HandlerFunc C → Router C → Router C
  unfolding insert
  handle path handler r =
      if is_empty path then r else record r { routes = insert path handler r.routes }

  unfoldable pub handle_prefix : Bytes → HandlerFunc C → Router C → Router C
  handle_prefix prefix handler r =
      if is_empty prefix
      then r
      else record r { prefix_routes = r.prefix_routes ++ (prefix, handler) ∷ [] }

  -- The loop over the prefix routes.
  unfoldable pub find_prefix : Bytes → List (Bytes × HandlerFunc C) → Option (HandlerFunc C)
  unfolding has_prefix
  find_prefix path [] = none
  find_prefix path ((prefix, handler) ∷ routes) =
      if has_prefix path prefix then some handler else find_prefix path routes

  unfoldable pub not_found : Net C → ResponseWriter C → ResponseWriter C
  unfolding write_text
  not_found net w =
      let (written, sent) = write_text net status_not_found status_not_found.body w in written

  unfoldable pub serve_http : Net C → Router C → HandlerFunc C
  unfolding lookup find_prefix cut
  serve_http net r req w =
      let (path, query, found) = cut b'?' req.path in
      elim (lookup path r.routes) [
        | some handler ↦ handler req w
        | none ↦ elim (find_prefix path r.prefix_routes) [
          | some handler ↦ handler req w
          | none ↦ not_found net w
        ]
      ]
