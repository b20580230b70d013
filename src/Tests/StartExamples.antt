-- ===== src/Tests/StartExamples.antt =====
-- The theorem on the start of the server, at a concrete input.
use multi_threaded_web_serve.Server.Settings.{Config}
use multi_threaded_web_serve.Server.Start.{System, run}
use multi_threaded_web_serve.Server.Start.Secured.{IsOverTls, run-IsOverTls, serves}
use multi_threaded_web_serve.Tests.{counting}
use multi_threaded_web_serve.Tests.EdgeExamples.{arrivals, config, files, views, whole_tokens}
use multi_threaded_web_serve.Base.{ℕ, true, [], ◌≡◌, refl, Bytes, codes, some, ok}

abbrev secured : Config ℕ
secured = record config { tls_cert_file = codes "c.pem"; tls_key_file = codes "k.pem" }

-- Plain connections would come from a listener that the server is not to open.
abbrev system : System ℕ Bytes ℕ
system = record {
  listen_tcp = λ addr. ok [];
  load_key_pair = λ cert key. ok 1;
  listen_tls = λ version addr cert. ok arrivals;
}

served :
    (run system secured counting whole_tokens files views (λ c. c) 5 true).served
    ≡ some (serves system secured counting whole_tokens files views (λ c. c) 5 true arrivals)
unfolding run
served = refl

run-IsOverTls_example :
    IsOverTls system secured
      (serves system secured counting whole_tokens files views (λ c. c) 5 true)
      (serves system secured counting whole_tokens files views (λ c. c) 5 true arrivals)
run-IsOverTls_example =
    run-IsOverTls system secured counting whole_tokens files views (λ c. c) 5 true
      (serves system secured counting whole_tokens files views (λ c. c) 5 true arrivals) refl served
