-- ===== src/Server/Start/Secured.antt =====
-- cmd/server/main.go with config/config.go: a server that is given a file for TLS serves over TLS only.
use mathlib.Core.Bool.{false≢true}
use multi_threaded_web_serve.Core.Response.{Net}
use multi_threaded_web_serve.Server.Admission.{Accepted, Fate, Front, serve_all}
use multi_threaded_web_serve.Server.Limiter.{Floats}
use multi_threaded_web_serve.Server.Routes.{Views, build_router}
use multi_threaded_web_serve.Server.Settings.{Config}
use multi_threaded_web_serve.Server.Start.{
  System, first_front, listen, run, serve_until_shutdown, version_tls12,
}
use multi_threaded_web_serve.Server.Static.{FileSystem}
use multi_threaded_web_serve.Base.{
  ℕ, Bool, false, ◌&&◌, List, none, some, ok, is_empty, Result-cases, Bool-cases, inl, inr, sym,
  ◌≡◌,
}

no_some : {A : Type 0} {x : A} → none ≡ some x → ⊥
no_some h = cc

in_some : {A : Type 0} {x y : A} → some x ≡ some y → x ≡ y
in_some h = cc

module _ {C F E K : Type 0} (sys : System C E K) (cfg : Config F) where
  -- What is served comes from the listener for TLS from version 1.2 on, under the certificate of the two files.
  pub record IsOverTls (serves : List (Accepted C) → Front C F × List (Fate C))
      (served : Front C F × List (Fate C)) : Type 0 where
    cert_given : is_empty cfg.tls_cert_file ≡ false
    key_given : is_empty cfg.tls_key_file ≡ false
    pair : K
    loaded : sys.load_key_pair cfg.tls_cert_file cfg.tls_key_file ≡ ok pair
    connections : List (Accepted C)
    listens : sys.listen_tls version_tls12 cfg.server_address pair ≡ ok connections
    serves_these : serves connections ≡ served

  module _ (net : Net C) (fl : Floats F) (fs : FileSystem) (views : Views C F) (close : C → C)
      (now : ℕ) (stopped : Bool) where
    abbrev pub serves : List (Accepted C) → Front C F × List (Fate C)
    unfolding serve_all build_router
    serves l =
        serve_all net fl close (some (build_router net fs views cfg.static_dir)) cfg l
          (first_front sys cfg net fl fs views close now stopped)

    -- A server with a file for its certificate or for its key that serves connections at all has
    -- both files, has loaded them, and serves the connections that the listener for TLS under them,
    -- from version 1.2 of TLS on, accepts, and no others.
    pub run-IsOverTls :
        (x : Front C F × List (Fate C))
        → is_empty cfg.tls_cert_file && is_empty cfg.tls_key_file ≡ false
        → (run sys cfg net fl fs views close now stopped).served ≡ some x
        → IsOverTls serves x
    unfolding run listen serve_until_shutdown
    run-IsOverTls x h s = elim (Bool-cases (is_empty cfg.tls_cert_file)) [
      | inl c ↦ elim (Bool-cases (is_empty cfg.tls_key_file)) [
        | inl k ↦ absurd (false≢true (rw (c, k) at (sym h)))
        | inr k ↦ absurd (no_some (rw (run, c, k) at s))
      ]
      | inr c ↦ elim (Bool-cases (is_empty cfg.tls_key_file)) [
        | inl k ↦ absurd (no_some (rw (run, c, k) at s))
        | inr k ↦ elim (Result-cases (sys.load_key_pair cfg.tls_cert_file cfg.tls_key_file)) [
          | inl (e, l) ↦ absurd (no_some (rw (run, listen, c, k, l) at s))
          | inr (pair, l) ↦
              elim (Result-cases (sys.listen_tls version_tls12 cfg.server_address pair)) [
                | inl (e, t) ↦ absurd (no_some (rw (run, listen, c, k, l, t) at s))
                | inr (connections, t) ↦ record {
                  cert_given = c;
                  key_given = k;
                  pair = pair;
                  loaded = l;
                  connections = connections;
                  listens = t;
                  serves_these = in_some (rw (run, listen, c, k, l, t) at s);
                }
              ]
        ]
      ]
    ]
