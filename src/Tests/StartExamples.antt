-- ===== src/Tests/StartExamples.antt =====
-- Tests of the models of src/proxy/builder.rs and src/proxy/mod.rs, and the theorems about them at
-- concrete inputs.
use hudsucker.Prelude.{
  ℕ, ◌≡◌, refl, Bool, true, false, none, some, List, [], ◌∷◌, codes, ok, err, if◌then◌else◌, nat_eq,
}
use hudsucker.Handler.{noop_http, noop_websocket}
use hudsucker.Builder.{Parts, addr, Proxy}
use hudsucker.Builder.Laws.{server, websocket_connector}
use hudsucker.Builder.Chains.{
  wants_addr, wants_handlers, Calls, then_call, stop, addr_call, rustls_client_call, ca_call,
  setting_call, new, built, run, call, Builds, built-run,
}
use hudsucker.Start.{
  accept_loop, Listening, Pick, accepted, accept_error, cancelled, start, service, spawned,
  accept_failed,
}
use hudsucker.Start.Laws.{Starts, start-Starts}
use hudsucker.Tests.IoSample.{platform, runtime}

abbrev pub parts : Parts runtime
parts = record {
  TcpListener = ℕ;
  rustls_client = tt;
  native_tls_client = tt;
  Shutdown = Bool;
  pending = false;
}

-- An address, a client, an authority, and two server builders with a connector between them.
abbrev calls : Calls parts wants_addr wants_handlers
calls = then_call (addr_call 80) (
    then_call rustls_client_call (
      then_call (ca_call tt) (
        then_call (setting_call (server tt)) (
          then_call (setting_call (websocket_connector tt))
            (then_call (setting_call (server tt)) stop)))))

built_proxy : (built parts (run parts (new parts) calls)).websocket_connector ≡ some tt
unfolding run call
built_proxy = refl

built-run_example : Builds parts calls
built-run_example = built-run parts calls

abbrev pub noop_proxy : Proxy parts
noop_proxy = record {
  al = addr 80;
  ca = tt;
  client = tt;
  http_handler = record { handler = noop_http platform; state = tt };
  websocket_handler = record { handler = noop_websocket platform; state = tt };
  websocket_connector = none;
  server = none;
  graceful_shutdown = false;
}

-- Port 1 cannot be bound.
abbrev pub listening : Listening parts
listening = record { bind = λ a. if nat_eq a 1 then err 13 else ok a; default_server = tt }

abbrev pub picks : List (Pick runtime)
picks =
    accepted (codes "a") 10
    ∷ accept_error 24
    ∷ accepted (codes "b") 11
    ∷ cancelled
    ∷ accepted (codes "c") 12
    ∷ []

two_connections :
    start listening noop_proxy picks
    ≡ ok (
      spawned (codes "a") (service listening noop_proxy 10)
          ∷ accept_failed 24
          ∷ spawned (codes "b") (service listening noop_proxy 11)
          ∷ [],
      true,
    )
unfolding start accept_loop
two_connections = refl

start-Starts_example : Starts listening noop_proxy picks
start-Starts_example = start-Starts listening noop_proxy picks
