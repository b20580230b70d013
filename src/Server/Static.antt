-- ===== src/Server/Static.antt =====
-- cmd/server/main.go: static files. The file system is a parameter: it stays as it is while a request
-- is answered. Logging is left out.
pub mod Confined
pub mod Paths
use multi_threaded_web_serve.Core.Response.{
  Net, ResponseWriter, StatusCode, status_bad_request, status_forbidden,
  status_internal_server_error, status_method_not_allowed, status_not_found, status_ok, write_bytes,
  write_text,
}
use multi_threaded_web_serve.Core.Router.{HandlerFunc}
use multi_threaded_web_serve.Go.FilePath.{
  clean_path, dir_path, ext_path, is_abs, join_path, parent_name, rel_path,
}
use multi_threaded_web_serve.Go.Strings.{contains_byte, cut, has_prefix}
use multi_threaded_web_serve.Go.Url.{path_unescape}
use multi_threaded_web_serve.Http.Parser.{Request}
use multi_threaded_web_serve.Base.{
  ℕ, zero, suc, Bool, true, false, not, ◌&&◌, ◌||◌, List, [], ◌∷◌, Option, none, some, Bytes, codes,
  is_empty, same, Result, ok, err, leb, ◌==◌, if◌then◌else◌, drop, length,
}

-- Whether `os.IsNotExist` holds of an error.
pub data FileError : Type 0 where
  not_exist other_error : FileError

-- The calls of os, and mime.TypeByExtension, which is empty for an extension that it does not know.
pub record FileSystem : Type 0 where
  pub getwd : Result FileError Bytes
  pub eval_symlinks : Bytes → Result FileError Bytes
  pub is_dir : Bytes → Result FileError Bool
  pub read_file : Bytes → Result FileError Bytes
  pub type_by_extension : Bytes → Bytes

-- A rune below 32 or 127 is one byte.
unfoldable pub has_control : Bytes → Bool
has_control [] = false
has_control (b ∷ s) = leb b 31 || b == 127 || has_control s

unfoldable pub is_safe_static_path : Bytes → Bool
unfolding has_control contains_byte clean_path has_prefix
is_safe_static_path path =
    if is_empty path
    then true
    else if contains_byte path b'\\' || contains_byte path b':' || has_control path
    then false
    else if same (clean_path path) (codes ".")
    then true
    else not (has_prefix (clean_path path) (codes "../"))
      && not (same (clean_path path) parent_name)
      && not (has_prefix (clean_path path) (codes "/"))

abbrev pub stays_inside : Option Bytes → Bool
stays_inside none = false
stays_inside (some relative) =
    same relative (codes ".")
    || not (has_prefix relative (codes "../"))
      && not (same relative parent_name)
      && not (is_abs relative)

unfoldable pub is_within_root : Bytes → Bytes → Bool
unfolding rel_path has_prefix
is_within_root root target = stays_inside (rel_path root target)

-- What a request for a file is answered with: a text of the status, or a file with its type.
pub data Answer : Type 0 where
  refused : StatusCode → Answer
  file : Bytes → Bytes → Answer

-- Both `if os.IsNotExist(err)` and what follows.
abbrev pub of_error : FileError → Answer
of_error not_exist = refused status_not_found
of_error other_error = refused status_internal_server_error

abbrev pub with_type : Bytes → Bytes → Answer
with_type content_type body =
    file (if is_empty content_type then codes "application/octet-stream" else content_type) body

module _ (fs : FileSystem) where
  -- The loop of `resolveStaticRoot` over the directories upwards: the first that has the directory.
  unfoldable pub search_root : ℕ → Bytes → Bytes → Option Bytes
  unfolding join_path dir_path
  search_root zero wd root = none
  search_root (suc left) wd root =
      let rest = search_root left (dir_path wd) root in
      elim (fs.is_dir (join_path wd root)) [
        | ok true ↦ some (join_path wd root)
        | ok false ↦ if same (dir_path wd) wd then none else rest
        | err e ↦ if same (dir_path wd) wd then none else rest
      ]

  unfoldable pub resolve_static_root : Bytes → Result FileError Bytes
  unfolding search_root
  resolve_static_root root = if is_abs root then fs.eval_symlinks root else elim fs.getwd [
    | err e ↦ err e
    | ok wd ↦ elim (search_root 6 wd root) [
      | some candidate ↦ fs.eval_symlinks candidate
      | none ↦ fs.eval_symlinks (join_path wd root)
    ]
  ]

  unfoldable pub read_resolved : Bytes → Answer
  unfolding ext_path
  read_resolved resolved = elim (fs.read_file resolved) [
    | err e ↦ refused status_internal_server_error
    | ok body ↦ with_type (fs.type_by_extension (ext_path resolved)) body
  ]

  -- The `index.html` of a directory.
  unfoldable pub read_index : Bytes → Bytes → Answer
  unfolding is_within_root read_resolved join_path
  read_index root dir = elim (fs.eval_symlinks (join_path dir (codes "index.html"))) [
    | err e ↦ of_error e
    | ok resolved ↦
        if not (is_within_root root resolved)
        then refused status_forbidden
        else elim (fs.is_dir resolved) [
          | err e ↦ refused status_not_found
          | ok true ↦ refused status_not_found
          | ok false ↦ read_resolved resolved
        ]
  ]

  unfoldable pub read_static : Bytes → Bytes → Answer
  unfolding is_within_root read_index read_resolved join_path
  read_static root relative = elim (fs.eval_symlinks (join_path root relative)) [
    | err e ↦ of_error e
    | ok resolved ↦
        if not (is_within_root root resolved)
        then refused status_forbidden
        else elim (fs.is_dir resolved) [
          | err e ↦ of_error e
          | ok true ↦ read_index root resolved
          | ok false ↦ read_resolved resolved
        ]
  ]

  abbrev pub raw_relative : Bytes → Bytes
  raw_relative path =
      let raw = (if has_prefix path (codes "/static/") then drop 8 path else path) in
      if is_empty raw then codes "index.html" else raw

  -- On the decoded path, if it decodes.
  unfoldable pub decoded_answer : Result FileError Bytes → Option Bytes → Answer
  unfolding is_safe_static_path read_static
  decoded_answer root none = refused status_bad_request
  decoded_answer root (some relative) =
      if not (is_safe_static_path relative) then refused status_bad_request else elim root [
        | err e ↦ refused status_internal_server_error
        | ok dir ↦ read_static dir relative
      ]

  unfoldable pub static_answer : Result FileError Bytes → Bytes → Answer
  unfolding decoded_answer path_unescape cut has_prefix
  static_answer root target =
      let (path, query, found) = cut b'?' target in
      decoded_answer root (path_unescape (raw_relative path))

  unfoldable pub index_answer : Result FileError Bytes → Answer
  unfolding join_path
  index_answer (err e) = refused status_internal_server_error
  index_answer (ok root) = elim (fs.read_file (join_path root (codes "index.html"))) [
    | err e ↦ of_error e
    | ok body ↦ file (codes "text/html; charset=utf-8") body
  ]

module _ {C : Type 0} (net : Net C) where
  unfoldable pub write_answer : Answer → ResponseWriter C → ResponseWriter C
  unfolding write_text write_bytes
  write_answer (refused code) w = let (written, sent) = write_text net code [] w in written
  write_answer (file content_type body) w =
      let (written, sent) = write_bytes net status_ok content_type body w in written

  -- `if !requireMethod(w, req, method) { return }`, and what follows.
  unfoldable pub require_method : Bytes → HandlerFunc C → HandlerFunc C
  unfolding write_text
  require_method method next req w =
      let (written, sent) = write_text net status_method_not_allowed [] w in
      let handled = next req w in if same req.method method then handled else written

  unfoldable pub serve_index_page : FileSystem → Bytes → HandlerFunc C
  unfolding index_answer resolve_static_root write_answer
  serve_index_page fs static_dir req w =
      write_answer (index_answer fs (resolve_static_root fs static_dir)) w

  -- The root is resolved once, when the handler is made.
  unfoldable pub secure_static_handler : FileSystem → Result FileError Bytes → HandlerFunc C
  unfolding require_method static_answer write_answer
  secure_static_handler fs root =
      require_method (codes "GET") (λ req w. write_answer (static_answer fs root req.path) w)
