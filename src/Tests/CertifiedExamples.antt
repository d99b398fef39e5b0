-- ===== src/Tests/CertifiedExamples.antt =====
-- A tunnel whose client makes a TLS handshake, in src/proxy/internal.rs, with the authority of
-- src/certificate_authority/rcgen_authority.rs.
use hudsucker.Prelude.{ℕ, ◌≡◌, refl, true, none, some, List, [], ◌∷◌, Bytes, ◌==◌, ok, All}
use hudsucker.Http.{Request, https_scheme}
use hudsucker.Rewind.{new}
use hudsucker.Handler.{noop_http, noop_websocket}
use hudsucker.Internal.Runtime.{Runtime, InternalProxy}
use hudsucker.Internal.Connect.{accepted, served, tls, connect_task}
use hudsucker.Internal.Connect.Protocols.{Goes, connect_task-Goes}
use hudsucker.Internal.Connect.Certified.{EventPresents, connect_task-EventPresents}
use hudsucker.Builder.{Parts}
use hudsucker.Start.{Listening}
use hudsucker.Tests.HttpSample.{http}
use hudsucker.Tests.AuthoritySample.{serving, localhost, config}
use hudsucker.Tests.AuthorityExamples.{rcgen, ca, overlap}
use hudsucker.Authority.Rcgen.{issuer}
use hudsucker.Authority.Rcgen.Issuing.{rcgen-Certifying}
use hudsucker.Tests.IoSample.{platform, buffers, runtime, Frame}
use hudsucker.Tests.InternalExamples.{connect_request, get, uri}

-- The client sends the first bytes of a handshake.
abbrev hello : Bytes
hello = 0x16 ∷ 3 ∷ 1 ∷ 0 ∷ 5 ∷ []

abbrev tls_runtime : Runtime platform buffers
tls_runtime = record runtime { upgrade_on = λ req. (ok hello, req) }

abbrev tls_proxy : InternalProxy tls_runtime (noop_http platform) (noop_websocket platform)
tls_proxy = record {
  ca = tt;
  client = tt;
  server = tt;
  http_handler = tt;
  websocket_handler = tt;
  websocket_connector = none;
  client_addr = 127;
}

-- The stream of the handshake is served.
serves_https :
    connect_task tls_runtime
      (noop_http platform)
      (noop_websocket platform)
      tls_proxy
      connect_request
      localhost
    ≡ accepted localhost (new (5 ∷ []) (0x16 ∷ 3 ∷ 1 ∷ 0 ∷ []))
      ∷ served tls_proxy (tls (5 ∷ [])) https_scheme localhost
      ∷ []
unfolding connect_task ◌==◌
serves_https = refl

connect_task-Goes_example :
    Goes tls_runtime
      (noop_http platform)
      (noop_websocket platform)
      tls_proxy
      localhost
      (new (5 ∷ []) (0x16 ∷ 3 ∷ 1 ∷ 0 ∷ []))
      true
      (0x16 ∷ 3 ∷ 1 ∷ 0 ∷ [])
      (connect_task tls_runtime
        (noop_http platform)
        (noop_websocket platform)
        tls_proxy
        connect_request
        localhost)
connect_task-Goes_example =
    connect_task-Goes tls_runtime (noop_http platform) (noop_websocket platform) tls_proxy
      connect_request connect_request localhost hello (5 ∷ []) (0x16 ∷ 3 ∷ 1 ∷ 0 ∷ []) refl refl

connect_task-EventPresents_example :
    All
      (EventPresents tls_runtime
        (noop_http platform)
        (noop_websocket platform)
        serving
        (λ a. a)
        (λ cfg. cfg)
        true
        5
        103)
      (connect_task tls_runtime
        (noop_http platform)
        (noop_websocket platform)
        tls_proxy
        connect_request
        localhost)
connect_task-EventPresents_example =
    connect_task-EventPresents tls_runtime (noop_http platform) (noop_websocket platform) serving
      (λ a. a) (λ cfg. cfg) true (issuer rcgen ca) 1000 5 100 (λ n. localhost)
      (λ now' _. rcgen-Certifying rcgen true ca now') overlap.1 0 103 (config 100) overlap.2
      tls_proxy connect_request localhost refl refl

abbrev tls_parts : Parts tls_runtime
tls_parts = record {
  TcpListener = ℕ;
  rustls_client = tt;
  native_tls_client = tt;
  Shutdown = Unit {0};
  pending = tt;
}

abbrev tls_listening : Listening tls_parts
tls_listening = record { bind = λ a. ok a; default_server = tt }

abbrev connect_incoming : Request http (List Frame)
connect_incoming = get (uri none (some localhost) none) true
