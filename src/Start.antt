-- ===== src/Start.antt =====
-- `Proxy::start` of src/proxy/mod.rs: connections are accepted until the shutdown comes, and each is
-- served in a task of its own, with a new `InternalProxy` for every request.
pub mod Laws
pub mod Shutdown
use hudsucker.Prelude.{
  Bool, true, false, Option, none, some, List, [], ◌∷◌, ◌++◌, map, Outcome, Result, ok, err,
}
use hudsucker.Http.{Request}
use hudsucker.Error.{Error, io}
use hudsucker.Platform.{Platform}
use hudsucker.Rewind.{Buffers}
use hudsucker.Bstr.{Bstr}
use hudsucker.Internal.Runtime.{Runtime, InternalProxy}
use hudsucker.Internal.Effect.{Reply}
use hudsucker.Internal.Routing.{proxy}
use hudsucker.Builder.{Parts, AddrOrListener, addr, listener, Proxy}

-- What `start` takes from `tokio` and `hyper-util` beside what the builder takes.
pub record Listening {p : Platform} {buf : Buffers} {r : Runtime p buf} (k : Parts r) : Type 0 where
  -- `TcpListener::bind`
  pub bind : p.SocketAddr → Result k.TcpListener p.bodies.errors.IoError
  -- `auto::Builder::new(..)` with both settings for the case of headers
  pub default_server : r.Server

-- Which branch of the `select!` of the loop is taken, and with what.
pub data Pick {p : Platform} {buf : Buffers} (r : Runtime p buf) : Type 0 where
  accepted : r.TcpStream → p.SocketAddr → Pick r
  accept_error : p.bodies.errors.IoError → Pick r
  cancelled : Pick r

module _ {p : Platform} {buf : Buffers} {r : Runtime p buf} {k : Parts r} (s : Listening k)
    (self : Proxy k) where
  open self use {http_handler, websocket_handler}

  abbrev Handled : Type 0
  Handled = InternalProxy r (http_handler.handler) (websocket_handler.handler)

  -- What the task of a connection captures.
  pub record Service : Type 0 where
    pub server : r.Server
    pub client : r.Client
    pub ca : r.Ca
    pub http_state : http_handler.handler.State
    pub websocket_state : websocket_handler.handler.State
    pub websocket_connector : Option r.Connector
    pub client_addr : p.SocketAddr

  -- What the loop does with a connection, or with the failure to accept one.
  pub data Action : Type 0 where
    spawned : r.TcpStream → Service → Action
    accept_failed : p.bodies.errors.IoError → Action

  abbrev pub server_or_default : Option r.Server → r.Server
  server_or_default none = s.default_server
  server_or_default (some server) = server

  -- The clones that a connection gets.
  unfoldable pub service : p.SocketAddr → Service
  service client_addr = record {
    server = server_or_default self.server;
    client = self.client;
    ca = self.ca;
    http_state = http_handler.state;
    websocket_state = websocket_handler.state;
    websocket_connector = self.websocket_connector;
    client_addr = client_addr;
  }

  -- The loop, for the picks of a run so far: what was done, and whether it was left.
  unfoldable pub accept_loop : List (Pick r) → List Action × Bool
  unfolding service
  accept_loop [] = ([], false)
  accept_loop (accepted tcp client_addr ∷ picks) =
      let (actions, stopped) = accept_loop picks in
      (spawned tcp (service client_addr) ∷ actions, stopped)
  accept_loop (accept_error e ∷ picks) =
      let (actions, stopped) = accept_loop picks in (accept_failed e ∷ actions, stopped)
  accept_loop (cancelled ∷ picks) = ([], true)

  abbrev Run : Type 0
  Run = Result (List Action × Bool) (Error p.bodies.errors)

  -- With `?`, which makes an error of `bind` one of the library.
  bound : Result k.TcpListener p.bodies.errors.IoError → List (Pick r) → Run
  bound (ok _) picks = ok (accept_loop picks)
  bound (err e) picks = err (io e)

  start_on : AddrOrListener k → List (Pick r) → Run
  start_on (addr a) picks = bound (s.bind a) picks
  start_on (listener l) picks = ok (accept_loop picks)

  unfoldable pub start : List (Pick r) → Run
  unfolding start_on bound
  start picks = start_on self.al picks

  -- The `InternalProxy` that is made for a request.
  unfoldable pub internal_proxy : Service → Handled
  internal_proxy c = record {
    ca = c.ca;
    client = c.client;
    server = c.server;
    http_handler = c.http_state;
    websocket_handler = c.websocket_state;
    websocket_connector = c.websocket_connector;
    client_addr = c.client_addr;
  }

  abbrev pub Incoming : Type 0
  Incoming = Request p.http p.bodies.incoming.Carrier

  -- What becomes of a request on a connection: its future completes, or `hyper` drops it before
  -- that, as when the client goes away, and it is not answered.
  pub data Exchange : Type 0 where
    completed : Incoming → Exchange
    dropped : Incoming → Exchange

  -- How serving a connection goes: its requests in the order in which their futures end, which over
  -- HTTP/2 need not be that in which they arrive, the result, and those before and after the
  -- shutdown if that comes first.
  pub data Connection : Type 0 where
    served : List Exchange → Result (Unit {0}) r.ServeError → Connection
    shut_down : List Exchange → List Exchange → Result (Unit {0}) r.ServeError → Connection

  pub data ConnectionEvent : Type 0 where
    answered :
        Outcome (Reply r (http_handler.handler) (websocket_handler.handler)) → ConnectionEvent
    abandoned : Incoming → ConnectionEvent
    graceful_shutdown : ConnectionEvent
    serving_failed : r.ServeError → ConnectionEvent

  answers : Bstr → Service → List Exchange → List ConnectionEvent
  answers b c [] = []
  answers b c (dropped req ∷ reqs) = abandoned req ∷ answers b c reqs
  answers b c (completed req ∷ reqs) =
      answered (proxy b r (http_handler.handler) (websocket_handler.handler) (internal_proxy c) req)
      ∷ answers b c reqs

  log_result : Result (Unit {0}) r.ServeError → List ConnectionEvent
  log_result (ok _) = []
  log_result (err e) = serving_failed e ∷ []

  -- The task of a connection.
  pub connection_task : Bstr → Service → Connection → List ConnectionEvent
  unfolding answers log_result internal_proxy
  connection_task b c (served reqs res) = answers b c reqs ++ log_result res
  connection_task b c (shut_down reqs late res) =
      answers b c reqs ++ graceful_shutdown ∷ (answers b c late ++ log_result res)
