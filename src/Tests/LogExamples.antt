-- ===== src/Tests/LogExamples.antt =====
-- The handler of examples/log.rs in the proxy, and the theorems about handlers that change nothing.
use hudsucker.Prelude.{
  true, Bool, ◌+◌, ◌*◌, false, nat_eq, if◌then◌else◌, ℕ, ◌≡◌, refl, none, List, [], ◌∷◌, ◌++◌, map,
  Result, ok, err,
}
use hudsucker.Handler.{
  WebSocketContext, client_to_server, server_to_client, noop_websocket, Forwarder, handle_websocket,
}
use hudsucker.Internal.Runtime.{InternalProxy}
use hudsucker.Internal.Transparent.{forget_reply}
use hudsucker.Internal.Upgrade.{Forward, forwarding, websocket_task}
use hudsucker.Internal.Upgrade.Session.{message_forwarder, sent_on, websocket_task-passes}
use hudsucker.Examples.{printed_message, log_http, log_websocket, log_websocket-PassesMessages}
use hudsucker.Examples.Mains.{noop_main, openssl_main, forget_connection, openssl_main-forget}
use hudsucker.Start.{Connection, completed, dropped, shut_down, service, connection_task}
use hudsucker.Start.Laws.{replies}
use hudsucker.Tests.StartExamples.{parts, listening}
use hudsucker.Tests.BstrSample.{bstr}
use hudsucker.Tests.IoSample.{platform, runtime}
use hudsucker.Tests.InternalExamples.{get, home, bare_get}

abbrev log_proxy : InternalProxy runtime (log_http platform) (noop_websocket platform)
log_proxy = record {
  ca = tt;
  client = tt;
  server = tt;
  http_handler = printed_message 5 ∷ [];
  websocket_handler = tt;
  websocket_connector = none;
  client_addr = 80;
}

abbrev ctx : WebSocketContext platform
ctx = client_to_server 1 home

-- A sink that keeps what it is sent, and refuses the message 3.
abbrev send : List ℕ → ℕ → Result (Unit {0}) ℕ × List ℕ
send sent m = if nat_eq m 3 then (err 3, sent) else (ok tt, sent ++ (m ∷ []))

abbrev idle : Forwarder platform (log_websocket platform) send ctx
idle = record { handler = []; sink = []; logged = [] }

abbrev stream : List (Result ℕ ℕ)
stream = ok 1 ∷ ok 3 ∷ err 4 ∷ ok 2 ∷ []

printed :
    (handle_websocket platform (log_websocket platform) send ctx stream idle).handler
    ≡ printed_message 1 ∷ printed_message 3 ∷ []
unfolding handle_websocket
printed = refl

-- The client's connection, 7, yields two messages, and the server's, 8, one and an error; a sink
-- keeps what it is sent as digits.
abbrev items : ℕ × Bool → List (Result ℕ ℕ)
items source = if nat_eq source.0 7 then ok 1 ∷ ok 2 ∷ [] else ok 3 ∷ err 4 ∷ ok 5 ∷ []

abbrev send_digit : ℕ × Bool → ℕ → Result (Unit {0}) ℕ × (ℕ × Bool)
send_digit sink m = (ok tt, (sink.0 * 10 + m, sink.1))

abbrev log_both : InternalProxy runtime (log_http platform) (log_websocket platform)
log_both = record {
  ca = tt;
  client = tt;
  server = tt;
  http_handler = [];
  websocket_handler = [];
  websocket_connector = none;
  client_addr = 80;
}

to_server_digits :
    sent_on runtime
      (log_http platform)
      (log_websocket platform)
      items
      send_digit
      ctx
      (7, false)
      (8, true)
    ≡ (812, true)
to_server_digits = refl

websocket_task-passes_example :
    (to_server : Forward runtime (log_http platform) (log_websocket platform))
    × (to_client : Forward runtime (log_http platform) (log_websocket platform)) × (websocket_task
          runtime
          (log_http platform)
          (log_websocket platform)
          log_both
          7
          bare_get
        ≡ forwarding to_server ∷ forwarding to_client ∷ [])
    × (to_server.ctx ≡ server_to_client home 80)
    × (to_client.ctx ≡ client_to_server 80 home)
    × (message_forwarder runtime
          (log_http platform)
          (log_websocket platform)
          items
          send_digit
          to_server
        ≡ sent_on runtime
            (log_http platform)
            (log_websocket platform)
            items
            send_digit
            to_server.ctx
            (7, false)
            (8, true))
    × (message_forwarder runtime
          (log_http platform)
          (log_websocket platform)
          items
          send_digit
          to_client
        ≡ sent_on runtime
            (log_http platform)
            (log_websocket platform)
            items
            send_digit
            to_client.ctx
            (8, false)
            (7, true))
websocket_task-passes_example =
    websocket_task-passes runtime (log_http platform) (log_websocket platform) items send_digit refl
      (log_websocket-PassesMessages platform) log_both 7 bare_get 7 8 refl refl

-- A connection to the program openssl.rs, on which a request arrives before the shutdown and
-- another after.
abbrev requests : Connection listening (openssl_main parts 10 tt true)
requests =
    shut_down (completed (get home false) ∷ dropped (get home false) ∷ [])
      (completed (get home true) ∷ []) (ok tt)

openssl_main-forget_example :
    replies listening
      (noop_main parts 10 tt true)
      bstr
      (service listening (noop_main parts 10 tt true) 20)
      (connection_task listening
        (noop_main parts 10 tt true)
        bstr
        (service listening (noop_main parts 10 tt true) 20)
        (forget_connection parts 10 tt true listening bstr requests))
    ≡ map forget_reply (
        replies listening
          (openssl_main parts 10 tt true)
          bstr
          (service listening (openssl_main parts 10 tt true) 20)
          (connection_task listening
            (openssl_main parts 10 tt true)
            bstr
            (service listening (openssl_main parts 10 tt true) 20)
            requests))
openssl_main-forget_example = openssl_main-forget parts 10 tt true listening bstr 20 requests
