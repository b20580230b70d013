-- ===== src/Server/Start.antt =====
-- cmd/server/main.go: `run`, from the settings to the shutdown, and `listen`. What the listeners and the
-- key files give is a parameter; so is whether the workers return before the timer of the shutdown.
pub mod Secured
use multi_threaded_web_serve.Core.Metrics.{Metrics, new_metrics}
use multi_threaded_web_serve.Core.Response.{Net, decimal}
use multi_threaded_web_serve.Server.Admission.{Accepted, Fate, Front, serve_all}
use multi_threaded_web_serve.Server.Limiter.{Floats, new_limiter}
use multi_threaded_web_serve.Server.Routes.{Views, build_router}
use multi_threaded_web_serve.Server.Settings.{Config, tls_enabled, tls_partially_configured}
use multi_threaded_web_serve.Server.Static.{FileSystem}
use multi_threaded_web_serve.Base.{
  ℕ, Bool, true, false, not, List, [], Option, none, some, Bytes, Result, ok, err, ℤ, if◌then◌else◌,
  ◌==◌, ◌++◌, codes, length, false,
}

-- `net.Listen`, `tls.LoadX509KeyPair` and `tls.Listen`: a listener is what its calls of `Accept` return,
-- an error is of type `E`, a certificate of type `K`. That of TLS is
-- asked for with the least version of the protocol.
pub record System (C E K : Type 0) : Type 0 where
  pub listen_tcp : Bytes → Result E (List (Accepted C))
  pub load_key_pair : Bytes → Bytes → Result E K
  pub listen_tls : ℕ → Bytes → K → Result E (List (Accepted C))

-- tls.VersionTLS12.
abbrev pub version_tls12 : ℕ
version_tls12 = 771

pub data RunError (E : Type 0) : Type 0 where
  tls_needs_both_files : RunError E
  listen_failed : E → RunError E
  load_certificate_failed : E → RunError E
  shutdown_timed_out : ℤ → RunError E

abbrev pub wrapped : {E A : Type 0} → (E → RunError E) → Result E A → Result (RunError E) A
wrapped wrap (err e) = err (wrap e)
wrapped wrap (ok x) = ok x

-- The state of the front and the fates of the connections when the listener is closed, where there
-- was one, and the error that is returned.
pub record Served (C F E : Type 0) : Type 0 where
  pub served : Option (Front C F × List (Fate C))
  pub error : Option (RunError E)

-- `net.SplitHostPort` is the parameter: the host, where the address has one.
unfoldable pub remote_ip : (Bytes → Option Bytes) → Bytes → Bytes
remote_ip split_host_port remote_addr = elim (split_host_port remote_addr) [
  | none ↦ remote_addr
  | some client_ip ↦ client_ip
]

unfoldable pub http_status_text : ℕ → Bytes
http_status_text code =
    if code == 429
    then codes "Too Many Requests"
    else if code == 503
    then codes "Service Unavailable"
    else codes "OK"

-- The connection when it is closed, and whether the write had no error.
unfoldable pub write_response_and_close : {C : Type 0} → Net C → (C → C) → C → ℕ → Bytes → C × Bool
unfolding decimal http_status_text
write_response_and_close net close conn code body =
    let response =
      codes "HTTP/1.1 "
      ++ decimal code
      ++ codes " "
      ++ http_status_text code
      ++ codes "\r\nContent-Type: text/plain\r\nContent-Length: "
      ++ decimal (length body)
      ++ codes "\r\n\r\n"
      ++ body in
    let (sent, n) = net.send response conn in (close sent, elim n [ none ↦ false | some k ↦ true ])

module _ {C F E K : Type 0} (sys : System C E K) (cfg : Config F) where
  unfoldable pub listen : Result (RunError E) (List (Accepted C))
  listen =
      if not (tls_enabled cfg)
      then wrapped listen_failed (sys.listen_tcp cfg.server_address)
      else elim (sys.load_key_pair cfg.tls_cert_file cfg.tls_key_file) [
        | err e ↦ err (load_certificate_failed e)
        | ok cert ↦ wrapped listen_failed (sys.listen_tls version_tls12 cfg.server_address cert)
      ]

  module _ (net : Net C) (fl : Floats F) (fs : FileSystem) (views : Views C F) (close : C → C)
      (now : ℕ) (stopped : Bool) where
    abbrev pub first_front : Front C F
    unfolding new_limiter
    first_front = record {
      jobs = [];
      limiter = new_limiter cfg.rate_limit_rate cfg.rate_limit_capacity now;
      metrics = new_metrics;
    }

    -- The part of `run` behind `listen`. `serve` returns no error.
    unfoldable pub serve_until_shutdown : List (Accepted C) → Served C F E
    unfolding serve_all build_router
    serve_until_shutdown l = record {
      served = some (
          serve_all net fl close (some (build_router net fs views cfg.static_dir)) cfg l
            first_front);
      error = if stopped then none else some (shutdown_timed_out cfg.shutdown_timeout);
    }

    unfoldable pub run : Served C F E
    unfolding listen serve_until_shutdown
    run =
        if tls_partially_configured cfg
        then record { served = none; error = some tls_needs_both_files }
        else elim listen [
          | err e ↦ record { served = none; error = some e }
          | ok l ↦ serve_until_shutdown l
        ]
