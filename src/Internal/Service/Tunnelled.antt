-- ===== src/Internal/Service/Tunnelled.antt =====
-- Where the requests of an intercepted tunnel go.
use hudsucker.Prelude.{
  ◌≡◌, refl, ◌∙◌, ap, true, false, none, some, inl, inr, [], ◌∷◌, ok, err, Outcome, done, panic,
  Bool-cases, Option-cases,
}
use hudsucker.Http.{Request, Scheme, map_body, map_request}
use hudsucker.Body.{from_incoming}
use hudsucker.Platform.{Platform, BodyRequest, empty_response}
use hudsucker.Handler.{HttpHandler, WebSocketHandler, noop_http}
use hudsucker.Rewind.{Buffers}
use hudsucker.Bstr.{Bstr}
use hudsucker.Internal.Runtime.{Runtime, InternalProxy}
use hudsucker.Internal.Effect.{Reply, requested, logged}
use hudsucker.Internal.Normalize.Laws.{IsNormalized}
use hudsucker.Internal.Serve.{is_http_1, make_absolute}
use hudsucker.Internal.Routing.{proxy}
use hudsucker.Internal.Serve.Absolute.{make_absolute-http_1, make_absolute-panic, make_absolute-new}
use hudsucker.Internal.Routing.Answers.{Answers, proxy-Answers, proxy-noop}
use hudsucker.Internal.Service.{tunnel_service}

-- The proxy answers what the request was made.
pub tunnel_service-goes :
    {p : Platform} {k : Buffers} (b : Bstr) (r : Runtime p k) (h : HttpHandler p)
    (w : WebSocketHandler p) (self : InternalProxy r h w) (scheme : Scheme)
    (authority : p.http.Authority) (req : Request p.http p.bodies.incoming.Carrier)
    {req' : Request p.http p.bodies.incoming.Carrier}
    → make_absolute p.http scheme authority req ≡ done req'
    → tunnel_service b r h w self scheme authority req ≡ proxy b r h w self req'
unfolding tunnel_service
tunnel_service-goes b r h w self scheme authority req made = rw made refl

module _ {p : Platform} {k : Buffers} (b : Bstr) (r : Runtime p k) (w : WebSocketHandler p)
    (scheme : Scheme) (authority : p.http.Authority)
    (req : Request p.http p.bodies.incoming.Carrier) (path : p.http.PathAndQuery)
    (old : is_http_1 req.version ≡ true)
    (has_path : (p.http.into_parts req.uri).path_and_query ≡ some path) where
  -- A request over HTTP/1 with a path that arrives in an intercepted tunnel is answered, without a
  -- panic, as the proxy answers the request with the scheme and the authority of the tunnel in its
  -- URI and its own path.
  pub tunnel_service-Answers :
      (h : HttpHandler p) (self : InternalProxy r h w)
      → (uri : p.http.Uri) × (reply : Reply r h w) × (tunnel_service b r h w self scheme authority
            req
          ≡ done reply)
        × (p.http.into_parts uri ≡ record {
          scheme = some scheme;
          authority = some authority;
          path_and_query = some path;
        })
        × Answers b r h w self
            (map_request (from_incoming p.bodies) (record req { uri = uri }))
            reply
  unfolding tunnel_service
  tunnel_service-Answers h self =
      let (uri, made, parts) = make_absolute-http_1 p.http scheme authority req path old has_path in
      let (reply, answered, answers) = proxy-Answers b r h w self (record req { uri = uri }) in
      (uri, reply, rw made answered, parts, answers)

  -- With the handler that does nothing, a request over HTTP/1 with a path in an intercepted tunnel,
  -- which is neither CONNECT nor an upgrade whatever its URI, makes the client send exactly one
  -- request: to the authority of the tunnel, with the tunnel's scheme and the request's own path,
  -- whatever server the request names in its URI or its headers, and otherwise as normalising leaves
  -- it. The answer is the server's response as it is, or an empty one with the status 502 if the
  -- request could not be sent, which is logged.
  pub tunnel_service-noop :
      (self : InternalProxy r (noop_http p) w)
      → p.http.is_connect req.method ≡ false
      → ((uri : p.http.Uri)
          → r.is_upgrade_request (map_request (from_incoming p.bodies) (record req { uri = uri }))
            ≡ false)
      → (sent : BodyRequest p) × (uri : p.http.Uri) × (p.http.into_parts sent.uri
          ≡ record { scheme = some scheme; authority = some authority; path_and_query = some path })
        × IsNormalized p.http b
            (map_request (from_incoming p.bodies) (record req { uri = uri }))
            sent
        × (tunnel_service b r (noop_http p) w self scheme authority req
            ≡ done (elim (r.request self.client sent) [
              | ok res ↦ (requested sent ∷ [], map_body (from_incoming p.bodies) res)
              | err e ↦ (requested sent ∷ logged e ∷ [], empty_response p 502)
            ]))
  unfolding tunnel_service
  tunnel_service-noop self not_connect not_upgrade =
      let (uri, made, parts) = make_absolute-http_1 p.http scheme authority req path old has_path in
      let (sent, normal, answered) =
        proxy-noop b r w self (record req { uri = uri }) not_connect (not_upgrade uri) in
      (sent, uri, ap p.http.into_parts normal.uri ∙ parts, normal, rw made answered)

module _ {p : Platform} {k : Buffers} (b : Bstr) (r : Runtime p k) (h : HttpHandler p)
    (w : WebSocketHandler p) (self : InternalProxy r h w) (scheme : Scheme)
    (authority : p.http.Authority) (req : Request p.http p.bodies.incoming.Carrier) where
  -- What becomes of a request that arrives in an intercepted tunnel.
  pub data Serves (out : Outcome (Reply r h w)) : Type 0 where
    -- over HTTP/1 with a path: it goes to the proxy with the scheme and the authority of the tunnel
    absolute :
        (path : p.http.PathAndQuery) (uri : p.http.Uri) (reply : Reply r h w)
        → is_http_1 req.version ≡ true
        → (p.http.into_parts req.uri).path_and_query ≡ some path
        → p.http.into_parts uri
          ≡ record { scheme = some scheme; authority = some authority; path_and_query = some path }
        → out ≡ done reply
        → Answers b r h w self
            (map_request (from_incoming p.bodies) (record req { uri = uri }))
            reply
        → Serves out
    -- over HTTP/1 without a path
    panics :
        is_http_1 req.version ≡ true
        → (p.http.into_parts req.uri).path_and_query ≡ none
        → out ≡ panic
        → Serves out
    -- over another version, HTTP/2 for one: it goes to the proxy as it is, with its own URI
    unchanged :
        (reply : Reply r h w)
        → is_http_1 req.version ≡ false
        → out ≡ done reply
        → Answers b r h w self (map_request (from_incoming p.bodies) req) reply
        → Serves out

  pub tunnel_service-panics :
      is_http_1 req.version ≡ true
      → (p.http.into_parts req.uri).path_and_query ≡ none
      → tunnel_service b r h w self scheme authority req ≡ panic
  unfolding tunnel_service
  tunnel_service-panics old lacks =
      rw ((make_absolute-panic p.http scheme authority req).1 (old, lacks))

  tunnel_service-unchanged :
      is_http_1 req.version ≡ false → Serves (tunnel_service b r h w self scheme authority req)
  unfolding tunnel_service
  tunnel_service-unchanged new =
      let (reply, answered, answers) = proxy-Answers b r h w self req in
      unchanged reply new (rw (make_absolute-new p.http scheme authority req new) answered) answers

  -- A request over HTTP/1 with a path that arrives in an intercepted tunnel is answered as the
  -- proxy answers it with the scheme and the authority of the tunnel in its URI, whatever its URI
  -- said of these, and its own path. One over HTTP/1 without a path, such as CONNECT in the tunnel,
  -- makes the service panic. One over another version, such as HTTP/2, is answered as the proxy
  -- answers it with its own URI, so it may go to another server than that of the tunnel.
  pub tunnel_service-Serves : Serves (tunnel_service b r h w self scheme authority req)
  tunnel_service-Serves = elim (Bool-cases (is_http_1 req.version)) [
    | inr new ↦ tunnel_service-unchanged new
    | inl old ↦ elim (Option-cases (p.http.into_parts req.uri).path_and_query) [
      | inl lacks ↦ panics old lacks (tunnel_service-panics old lacks)
      | inr (path, has) ↦
          let (uri, reply, answered, parts, answers) =
            tunnel_service-Answers b r w scheme authority req path old has h self in
          absolute path uri reply old has parts answered answers
    ]
  ]
