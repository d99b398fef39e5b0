-- ===== src/Internal/Upgrade.antt =====
-- `upgrade_websocket` and `handle_websocket` of src/proxy/internal.rs: a WebSocket through the
-- proxy is a connection to the client, which the proxy accepts, and one to the server, which it
-- dials.
pub mod Laws
pub mod Ends
pub mod Outcomes
pub mod Transparent
pub mod Session
use hudsucker.Prelude.{
  Bool, true, false, if◌then◌else◌, Option, none, some, List, [], ◌∷◌, Bytes, codes, ◌==◌, Result,
  ok, err,
}
use hudsucker.Http.{Http, Request, Response, Scheme, http_scheme, map_body}
use hudsucker.Body.{Body, from_full}
use hudsucker.Platform.{Platform, BodyRequest, BodyResponse}
use hudsucker.Handler.{
  HttpHandler, WebSocketHandler, WebSocketContext, client_to_server, server_to_client,
}
use hudsucker.Rewind.{Buffers}
use hudsucker.Internal.Runtime.{Runtime, InternalProxy}
use hudsucker.Internal.Effect.{Effect, Reply, spawned_websocket, bad_request}

abbrev pub ws_scheme : Scheme
ws_scheme = codes "ws"

abbrev pub wss_scheme : Scheme
wss_scheme = codes "wss"

-- `parts.scheme.unwrap_or(Scheme::HTTP) == Scheme::HTTP`.
abbrev pub is_http : Option Scheme → Bool
is_http none = true
is_http (some scheme) = scheme == http_scheme

pub websocket_scheme : Option Scheme → Scheme
websocket_scheme scheme = if is_http scheme then ws_scheme else wss_scheme

module _ {p : Platform} {k : Buffers} (r : Runtime p k) (h : HttpHandler p)
    (w : WebSocketHandler p) where
  open p.http use {Uri}

  websocket_uri : Uri → Option Uri
  unfolding websocket_scheme
  websocket_uri uri =
      let parts = p.http.into_parts uri in
      p.http.from_parts (record parts { scheme = some (websocket_scheme parts.scheme) })

  -- The request without its body and with another URI.
  abbrev pub bare : BodyRequest p → Uri → Request p.http (Unit {0})
  bare req uri = record {
    method = req.method;
    uri = uri;
    version = req.version;
    headers = req.headers;
    extensions = req.extensions;
    body = tt;
  }

  abbrev Upgraded : Type 0
  Upgraded =
      Result (Response p.http p.bodies.full.Carrier × r.Websocket × Request p.http (Unit {0}))
        p.WsError

  upgrade_result : InternalProxy r h w → Upgraded → Reply r h w
  upgrade_result self (ok (res, websocket, req)) =
      (spawned_websocket self websocket req ∷ [], map_body (from_full p.bodies) res)
  upgrade_result self (err _) = ([], bad_request p)

  upgrade_with : InternalProxy r h w → BodyRequest p → Option Uri → Reply r h w
  upgrade_with self req none = ([], bad_request p)
  upgrade_with self req (some uri) = upgrade_result self (r.upgrade (bare req uri))

  pub upgrade_websocket : InternalProxy r h w → BodyRequest p → Reply r h w
  unfolding websocket_uri upgrade_result upgrade_with
  upgrade_websocket self req = upgrade_with self req (websocket_uri req.uri)

  -- `spawn_message_forwarder`: where messages are read, where they are sent, and with what handler
  -- and context.
  pub record Forward : Type 0 where
    pub source : r.WsSource
    pub sink : r.WsSink
    pub handler : w.State
    pub ctx : WebSocketContext p

  pub data SocketEvent : Type 0 where
    forwarding : Forward → SocketEvent
    handle_failed upgrade_failed : p.WsError → SocketEvent

  dialled :
      InternalProxy r h w
      → Uri
      → r.WsStream
      → Result r.WsStream p.WsError
      → Result (List SocketEvent) p.WsError
  dialled self uri server_socket (err e) = err e
  dialled self uri server_socket (ok client_socket) =
      let (server_sink, server_stream) = r.split server_socket in
      let (client_sink, client_stream) = r.split client_socket in
      ok (
        forwarding (record {
          source = server_stream;
          sink = client_sink;
          handler = self.websocket_handler;
          ctx = server_to_client uri self.client_addr;
        })
        ∷ forwarding (record {
          source = client_stream;
          sink = server_sink;
          handler = self.websocket_handler;
          ctx = client_to_server self.client_addr uri;
        })
        ∷ [])

  -- The connection to the server, by the features that are on.
  abbrev pub dial : InternalProxy r h w → Request p.http (Unit {0}) → Result r.WsStream p.WsError
  dial self req =
      if r.tls_client then r.connect_tls req self.websocket_connector else r.connect_plain req

  pub handle_websocket :
      InternalProxy r h w
      → r.WsStream
      → Request p.http (Unit {0})
      → Result (List SocketEvent) p.WsError
  unfolding dialled
  handle_websocket self server_socket req = dialled self req.uri server_socket (dial self req)

  after_handling : Result (List SocketEvent) p.WsError → List SocketEvent
  after_handling (ok events) = events
  after_handling (err e) = handle_failed e ∷ []

  after_upgrade :
      InternalProxy r h w
      → Request p.http (Unit {0})
      → Result r.WsStream p.WsError
      → List SocketEvent
  after_upgrade self req (ok ws) = after_handling (handle_websocket self ws req)
  after_upgrade self req (err e) = upgrade_failed e ∷ []

  -- The task that `upgrade_websocket` spawns.
  pub websocket_task :
      InternalProxy r h w → r.Websocket → Request p.http (Unit {0}) → List SocketEvent
  unfolding after_upgrade after_handling
  websocket_task self websocket req = after_upgrade self req (r.accept_websocket websocket)
