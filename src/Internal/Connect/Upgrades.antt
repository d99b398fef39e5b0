-- ===== src/Internal/Connect/Upgrades.antt =====
-- How a WebSocket is dialled that a client asks for in the tunnel of its CONNECT request, in
-- src/proxy/internal.rs.
use hudsucker.Prelude.{◌≡◌, refl, ap, ◌∙◌, true, false, some, [], ◌∷◌, ok, err, done, All}
use hudsucker.Http.{Request, Response, Scheme, map_body, map_request}
use hudsucker.Body.{from_incoming, from_full}
use hudsucker.Platform.{Platform, BodyRequest}
use hudsucker.Handler.{WebSocketHandler, noop_http}
use hudsucker.Rewind.{Buffers, Rewind}
use hudsucker.Bstr.{Bstr}
use hudsucker.Internal.Runtime.{Runtime, InternalProxy}
use hudsucker.Internal.Effect.{spawned_websocket, bad_request}
use hudsucker.Internal.Routing.Noop.{proxy-noop_upgrade}
use hudsucker.Internal.Serve.{is_http_1}
use hudsucker.Internal.Serve.Absolute.{make_absolute-http_1}
use hudsucker.Internal.Service.{tunnel_service}
use hudsucker.Internal.Service.Tunnelled.{tunnel_service-goes}
use hudsucker.Internal.Upgrade.{ws_scheme, wss_scheme, websocket_scheme, upgrade_websocket, bare}
use hudsucker.Internal.Upgrade.Laws.{
  upgrade_websocket-upgrades, websocket_scheme-http, websocket_scheme-https,
}
use hudsucker.Internal.Connect.{Stream, plain, tls, Event, served, connect_task}
use hudsucker.Internal.Connect.Laws.{Concerns}
use hudsucker.Internal.Connect.Served.{OnServed, connect_task-OnServed}

module _ {p : Platform} {k : Buffers} (b : Bstr) (r : Runtime p k) (w : WebSocketHandler p)
    (authority : p.http.Authority) where
  abbrev Proxying : Type 0
  Proxying = InternalProxy r (noop_http p) w

  abbrev Arriving : Type 0
  Arriving = Request p.http p.bodies.incoming.Carrier

  -- The scheme with which a WebSocket is dialled for a client on a stream.
  abbrev pub dial_scheme : Stream r (noop_http p) w → Scheme
  dial_scheme (plain io) = ws_scheme
  dial_scheme (tls stream) = wss_scheme

  -- The one upgrade that is asked for, by a request with this URI, and the answers to its outcomes.
  pub record Dials (self : Proxying) (scheme : Scheme) (a : p.http.Authority) (to : Scheme)
      (req : Arriving) (path : p.http.PathAndQuery) : Type 0 where
    pub uri : p.http.Uri
    pub goes_to :
        p.http.into_parts uri
        ≡ record { scheme = some to; authority = some authority; path_and_query = some path }
    pub succeeds :
        (res : Response p.http p.bodies.full.Carrier) (websocket : r.Websocket)
        (left : Request p.http (Unit {0}))
        → r.upgrade (bare r (noop_http p) w (map_request (from_incoming p.bodies) req) uri)
          ≡ ok (res, websocket, left)
        → (left.uri ≡ uri)
          × (tunnel_service b r (noop_http p) w self scheme a req
              ≡ done
                  (spawned_websocket self websocket left ∷ [], map_body (from_full p.bodies) res))
    pub fails :
        (e : p.WsError)
        → r.upgrade (bare r (noop_http p) w (map_request (from_incoming p.bodies) req) uri) ≡ err e
        → tunnel_service b r (noop_http p) w self scheme a req ≡ done ([], bad_request p)

  -- A connection that is served dials the WebSockets that are asked for.
  abbrev StreamDials : Proxying → Stream r (noop_http p) w → Scheme → p.http.Authority → Type 0
  StreamDials self stream scheme a =
      (req : Arriving) (path : p.http.PathAndQuery)
      → is_http_1 req.version ≡ true
      → (p.http.into_parts req.uri).path_and_query ≡ some path
      → p.http.is_connect req.method ≡ false
      → ((uri : p.http.Uri)
          → r.is_upgrade_request (map_request (from_incoming p.bodies) (record req { uri = uri }))
            ≡ true)
      → Dials self scheme a (dial_scheme stream) req path

  abbrev pub EventDials : Event r (noop_http p) w → Type 0
  EventDials = OnServed r (noop_http p) w StreamDials

  served-StreamDials :
      (self : Proxying) (stream : Stream r (noop_http p) w) (scheme : Scheme) (a : p.http.Authority)
      → a ≡ authority
      → websocket_scheme (some scheme) ≡ dial_scheme stream
      → StreamDials self stream scheme a
  served-StreamDials self stream scheme a same_authority by_scheme req path old has_path not_connect
        upgrades =
      let (absolute, made, parts) = make_absolute-http_1 p.http scheme a req path old has_path in
      let asked : BodyRequest p =
        map_request (from_incoming p.bodies) (record req { uri = absolute }) in
      let (uri, parts', succeeds, fails) =
        upgrade_websocket-upgrades r (noop_http p) w self asked a path (ap (λ x. x.authority) parts)
          (ap (λ x. x.path_and_query) parts) in
      let served : tunnel_service b r (noop_http p) w self scheme a req
          ≡ done (upgrade_websocket r (noop_http p) w self asked) =
        tunnel_service-goes b r (noop_http p) w self scheme a req made
        ∙ proxy-noop_upgrade b r w self (record req { uri = absolute }) not_connect
            (upgrades absolute) in
      record {
        uri = uri;
        goes_to = parts' ∙ rw (ap (λ x. x.scheme) parts, by_scheme, same_authority) refl;
        succeeds = λ res websocket left e. (
          r.upgrade-uri _ left res websocket e,
          served ∙ ap done (succeeds res websocket left e),
        );
        fails = λ e failed. served ∙ ap done (fails e failed);
      }

  concerned-StreamDials :
      (ca : r.Ca) (conn : Rewind r.upgraded.Io) (self : Proxying)
      (stream : Stream r (noop_http p) w) (scheme : Scheme) (a : p.http.Authority)
      → Concerns r (noop_http p) w ca authority conn (served self stream scheme a)
      → StreamDials self stream scheme a
  concerned-StreamDials ca conn self (plain io) scheme a (same, _, by_http) =
      served-StreamDials self (plain io) scheme a same
        (ap (λ s. websocket_scheme (some s)) by_http ∙ websocket_scheme-http)
  concerned-StreamDials ca conn self (tls stream) scheme a (same, _, by_https) =
      served-StreamDials self (tls stream) scheme a same
        (ap (λ s. websocket_scheme (some s)) by_https ∙ websocket_scheme-https)

  -- With the handler that does nothing, whatever connection the task of a tunnel serves, an upgrade
  -- request over HTTP/1 with a path in it, which is not CONNECT, asks for exactly one upgrade, with
  -- a URI that has the authority of the CONNECT request, the request's own path, and the scheme
  -- "wss" if the tunnel is in TLS and "ws" if not, whatever server the request names. If the
  -- upgrade succeeds, its response is the answer and the one effect is the task for the WebSocket,
  -- which is given a request with that URI to dial the server with; if it fails, the answer has the
  -- status 400 and there is no effect.
  pub connect_task-EventDials :
      (self : Proxying) (req : BodyRequest p)
      → All EventDials (connect_task r (noop_http p) w self req authority)
  connect_task-EventDials self req =
      connect_task-OnServed r (noop_http p) w self authority StreamDials
        (concerned-StreamDials self.ca) req
