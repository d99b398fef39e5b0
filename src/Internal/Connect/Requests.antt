-- ===== src/Internal/Connect/Requests.antt =====
-- Where the requests go that a client makes in the tunnel of its CONNECT request, in
-- src/proxy/internal.rs.
use hudsucker.Prelude.{◌≡◌, refl, ◌∙◌, true, false, some, [], ◌∷◌, ok, err, done, All}
use hudsucker.Http.{Request, Scheme, http_scheme, https_scheme, map_body, map_request}
use hudsucker.Body.{from_incoming}
use hudsucker.Platform.{Platform, BodyRequest, empty_response}
use hudsucker.Handler.{WebSocketHandler, noop_http}
use hudsucker.Rewind.{Buffers, Rewind}
use hudsucker.Bstr.{Bstr}
use hudsucker.Internal.Runtime.{Runtime, InternalProxy}
use hudsucker.Internal.Effect.{requested, logged}
use hudsucker.Internal.Normalize.Laws.{IsNormalized}
use hudsucker.Internal.Serve.{is_http_1}
use hudsucker.Internal.Service.{tunnel_service}
use hudsucker.Internal.Service.Tunnelled.{tunnel_service-noop}
use hudsucker.Internal.Connect.{Stream, plain, tls, Event, served, connect_task}
use hudsucker.Internal.Connect.Laws.{Concerns}
use hudsucker.Internal.Connect.Served.{OnServed, connect_task-OnServed}

module _ {p : Platform} {k : Buffers} (b : Bstr) (r : Runtime p k) (w : WebSocketHandler p)
    (authority : p.http.Authority) where
  abbrev Proxying : Type 0
  Proxying = InternalProxy r (noop_http p) w

  abbrev TunnelEvent : Type 0
  TunnelEvent = Event r (noop_http p) w

  abbrev pub scheme_of : Stream r (noop_http p) w → Scheme
  scheme_of (plain io) = http_scheme
  scheme_of (tls stream) = https_scheme

  -- The one request that is sent for a request in a tunnel, and its answer.
  pub record Forwards (self : Proxying) (scheme : Scheme) (a : p.http.Authority) (to : Scheme)
      (req : Request p.http p.bodies.incoming.Carrier) (path : p.http.PathAndQuery) : Type 0 where
    pub sent : BodyRequest p
    pub uri : p.http.Uri
    pub goes_to :
        p.http.into_parts sent.uri
        ≡ record { scheme = some to; authority = some authority; path_and_query = some path }
    pub normal :
        IsNormalized p.http b (map_request (from_incoming p.bodies) (record req { uri = uri })) sent
    pub answered :
        tunnel_service b r (noop_http p) w self scheme a req
        ≡ done (elim (r.request self.client sent) [
          | ok res ↦ (requested sent ∷ [], map_body (from_incoming p.bodies) res)
          | err e ↦ (requested sent ∷ logged e ∷ [], empty_response p 502)
        ])

  -- A connection that is served forwards plain requests to the authority.
  abbrev StreamForwards : Proxying → Stream r (noop_http p) w → Scheme → p.http.Authority → Type 0
  StreamForwards self stream scheme a =
      (req : Request p.http p.bodies.incoming.Carrier) (path : p.http.PathAndQuery)
      → is_http_1 req.version ≡ true
      → (p.http.into_parts req.uri).path_and_query ≡ some path
      → p.http.is_connect req.method ≡ false
      → ((uri : p.http.Uri)
          → r.is_upgrade_request (map_request (from_incoming p.bodies) (record req { uri = uri }))
            ≡ false)
      → Forwards self scheme a (scheme_of stream) req path

  abbrev pub EventForwards : TunnelEvent → Type 0
  EventForwards = OnServed r (noop_http p) w StreamForwards

  served-StreamForwards :
      (self : Proxying) (stream : Stream r (noop_http p) w) (scheme : Scheme) (a : p.http.Authority)
      → a ≡ authority
      → scheme ≡ scheme_of stream
      → StreamForwards self stream scheme a
  served-StreamForwards self stream scheme a same_authority same_scheme req path old has_path
        not_connect not_upgrade =
      let (sent, uri, parts, normal, answered) =
        tunnel_service-noop b r w scheme a req path old has_path self not_connect not_upgrade in
      record {
        sent = sent;
        uri = uri;
        goes_to = parts ∙ rw (same_authority, same_scheme) refl;
        normal = normal;
        answered = answered;
      }

  concerned-StreamForwards :
      (ca : r.Ca) (conn : Rewind r.upgraded.Io) (self : Proxying)
      (stream : Stream r (noop_http p) w) (scheme : Scheme) (a : p.http.Authority)
      → Concerns r (noop_http p) w ca authority conn (served self stream scheme a)
      → StreamForwards self stream scheme a
  concerned-StreamForwards ca conn self (plain io) scheme a (same, _, by_http) =
      served-StreamForwards self (plain io) scheme a same by_http
  concerned-StreamForwards ca conn self (tls stream) scheme a (same, _, by_https) =
      served-StreamForwards self (tls stream) scheme a same by_https

  -- With the handler that does nothing, whatever connection the task of a tunnel serves, be it
  -- plain or in TLS, a request over HTTP/1 with a path in it, which is neither CONNECT nor an
  -- upgrade, makes the client send exactly one request, normalised, to the authority of the CONNECT
  -- request, with the request's own path, and with HTTPS if the tunnel is in TLS and HTTP if not,
  -- whatever server the request names. The server's response goes back as it is, or, if the request
  -- could not be sent, the error is logged and an empty response with the status 502 goes back.
  pub connect_task-EventForwards :
      (self : Proxying) (req : BodyRequest p)
      → All EventForwards (connect_task r (noop_http p) w self req authority)
  connect_task-EventForwards self req =
      connect_task-OnServed r (noop_http p) w self authority StreamForwards
        (concerned-StreamForwards self.ca) req
