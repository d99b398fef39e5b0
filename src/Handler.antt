-- ===== src/Handler.antt =====
-- The handlers of src/lib.rs and src/noop.rs: what a user of the proxy implements, with the default
-- methods. A method returns the new state of the handler beside its result.
pub mod Messages
use hudsucker.Prelude.{
  ◌≡◌, ap, ℕ, Bool, true, false, if◌then◌else◌, Option, none, some, List, [], ◌∷◌, ◌++◌, Result, ok,
  err,
}
use hudsucker.Platform.{Platform, BodyRequest, BodyResponse, empty_response}

-- Line of a log: a message of `tracing::error!` with its argument.
pub data LogLine (E : Type 0) : Type 0 where
  send_error message_error close_error : E → LogLine E

module _ (p : Platform) where
  open p use {SocketAddr, ClientError, Message, WsError}

  pub data RequestOrResponse : Type 0 where
    request : BodyRequest p → RequestOrResponse
    response : BodyResponse p → RequestOrResponse

  pub record HttpContext : Type 0 where
    pub client_addr : SocketAddr

  pub data WebSocketContext : Type 0 where
    client_to_server : (src : SocketAddr) (dst : p.http.Uri) → WebSocketContext
    server_to_client : (src : p.http.Uri) (dst : SocketAddr) → WebSocketContext

  pub record HttpHandler : Type 1 where
    pub State : Type 0
    pub handle_request : State → HttpContext → BodyRequest p → State × RequestOrResponse
    pub handle_response : State → HttpContext → BodyResponse p → State × BodyResponse p
    -- beside the response, the errors for which it logs a line, in order
    pub handle_error : State → HttpContext → ClientError → State × List ClientError × BodyResponse p
    pub should_intercept : State → HttpContext → BodyRequest p → State × Bool

  abbrev pub OwnMethod : Type 0 → Type 1
  OwnMethod State =
      (K : Type 0)
      → (K → Message → Result (Unit {0}) WsError × K)
      → State
      → WebSocketContext
      → List (Result Message WsError)
      → K
      → K

  -- A handler may have its own `handle_websocket`, which is given how a sink is sent a message, what
  -- the stream yields, and the sink, and returns the sink as it leaves it; without one it has the
  -- default method, which is `handle_websocket` below.
  pub record WebSocketHandler : Type 1 where
    pub State : Type 0
    pub handle_message : State → WebSocketContext → Message → State × Option Message
    pub own_handle_websocket : Option (
        (K : Type 0)
        → (K → Message → Result (Unit {0}) WsError × K)
        → State
        → WebSocketContext
        → List (Result Message WsError)
        → K
        → K)

  module _ {S : Type 0} where
    -- The default methods of `HttpHandler`.
    abbrev pub default_handle_request : S → HttpContext → BodyRequest p → S × RequestOrResponse
    default_handle_request s _ctx req = (s, request req)

    abbrev pub default_handle_response : S → HttpContext → BodyResponse p → S × BodyResponse p
    default_handle_response s _ctx res = (s, res)

    abbrev pub default_handle_error :
        S → HttpContext → ClientError → S × List ClientError × BodyResponse p
    default_handle_error s _ctx failure = (s, failure ∷ [], empty_response p 502)

    abbrev pub default_should_intercept : S → HttpContext → BodyRequest p → S × Bool
    default_should_intercept s _ctx _req = (s, true)

    -- The default method of `WebSocketHandler`.
    abbrev pub default_handle_message : S → WebSocketContext → Message → S × Option Message
    default_handle_message s _ctx message = (s, some message)

  -- `NoopHandler`.
  abbrev pub noop_http : HttpHandler
  noop_http = record {
    State = Unit {0};
    handle_request = default_handle_request;
    handle_response = default_handle_response;
    handle_error = default_handle_error;
    should_intercept = default_should_intercept;
  }

  abbrev pub noop_websocket : WebSocketHandler
  noop_websocket = record {
    State = Unit {0};
    handle_message = default_handle_message;
    own_handle_websocket = none;
  }

  module _ (w : WebSocketHandler) {K : Type 0} (send : K → Message → Result (Unit {0}) WsError × K)
      (ctx : WebSocketContext) where
    -- The state of the loop: the handler, the sink and what was logged.
    pub record Forwarder : Type 0 where
      pub handler : w.State
      pub sink : K
      pub logged : List (LogLine WsError)

    -- The lines that a `send` leaves in the log: none if the connection was closed.
    abbrev log_send :
        (WsError → LogLine WsError) → Result (Unit {0}) WsError → List (LogLine WsError)
    log_send line (ok _) = []
    log_send line (err e) = if p.is_connection_closed e then [] else line e ∷ []

    -- `sink.send(message).await`, and the match on its result.
    send_with : (WsError → LogLine WsError) → Message → Forwarder → Forwarder
    send_with line message f =
        let (res, sink') = send f.sink message in
        record f { sink = sink'; logged = f.logged ++ log_send line res }

    forward : Option Message → Forwarder → Forwarder
    forward none f = f
    forward (some message) f = send_with send_error message f

    handle_one : Message → Forwarder → Forwarder
    handle_one message f =
        let (handler', out) = w.handle_message f.handler ctx message in
        forward out (record f { handler = handler' })

    close_after : WsError → Forwarder → Forwarder
    close_after e f =
        send_with close_error p.close (record f { logged = f.logged ++ message_error e ∷ [] })

    -- The default method: the loop over the items that the stream yields before it ends.
    unfoldable pub handle_websocket : List (Result Message WsError) → Forwarder → Forwarder
    unfolding handle_one forward send_with close_after
    handle_websocket [] f = f
    handle_websocket (ok message ∷ stream) f = handle_websocket stream (handle_one message f)
    handle_websocket (err e ∷ stream) f = close_after e f

    run_method : Option (OwnMethod w.State) → w.State → List (Result Message WsError) → K → K
    run_method (some own) handler stream sink = own K send handler ctx stream sink
    run_method none handler stream sink =
        (handle_websocket stream (record { handler = handler; sink = sink; logged = [] })).sink

    -- `handler.handle_websocket(ctx, stream, sink)`, by the method that the handler has: the sink
    -- after it.
    pub run_handler : w.State → List (Result Message WsError) → K → K
    unfolding run_method
    run_handler handler stream sink = run_method w.own_handle_websocket handler stream sink

    -- A handler without its own method runs the default one.
    pub run_handler-default :
        w.own_handle_websocket ≡ none
        → (handler : w.State) (stream : List (Result Message WsError)) (sink : K)
        → run_handler handler stream sink
          ≡ (handle_websocket stream (record { handler = handler; sink = sink; logged = [] })).sink
    unfolding run_handler run_method
    run_handler-default default handler stream sink =
        ap (λ own. run_method own handler stream sink) default
