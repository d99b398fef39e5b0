-- ===== src/Internal/Upgrade/Laws.antt =====
-- What `upgrade_websocket` and `handle_websocket` of src/proxy/internal.rs promise.
use hudsucker.Prelude.{
  ◌≡◌, refl, ◌↔◌, ◌⊎◌, inl, inr, ap, Option, none, some, List, [], ◌∷◌, ◌==◌, ==_iff, ==_refl, ok,
  err, Bool-cases,
}
use hudsucker.Http.{Scheme, http_scheme, https_scheme, Request, Response, map_body}
use hudsucker.Body.{from_full}
use hudsucker.Platform.{Platform, BodyRequest}
use hudsucker.Handler.{HttpHandler, WebSocketHandler, client_to_server, server_to_client}
use hudsucker.Rewind.{Buffers}
use hudsucker.Internal.Runtime.{Runtime, InternalProxy}
use hudsucker.Internal.Effect.{bad_request, spawned_websocket}
use hudsucker.Internal.Upgrade.{
  ws_scheme, wss_scheme, websocket_scheme, websocket_uri, upgrade_with, upgrade_result,
  upgrade_websocket, SocketEvent, Forward, forwarding, dialled, handle_websocket, after_upgrade,
  websocket_task, bare, dial,
}

wss_scheme-ne-ws_scheme : ¬ (◌≡◌ {A = Scheme} wss_scheme ws_scheme)
wss_scheme-ne-ws_scheme e = cc

some-injective : (a b : Scheme) → some a ≡ some b → a ≡ b
some-injective a b e = cc

-- The server of a WebSocket is dialled without TLS exactly if the request has no scheme or the
-- scheme "http"; so it is dialled with TLS for every other scheme, "ws" among them.
pub websocket_scheme_iff :
    (scheme : Option Scheme)
    → (websocket_scheme scheme ≡ ws_scheme) ↔ ((scheme ≡ none) ⊎ (scheme ≡ some http_scheme))
unfolding websocket_scheme
websocket_scheme_iff none = ((λ _. inl refl), λ _. refl)
websocket_scheme_iff (some scheme) = (there, back)
  where
    there :
        websocket_scheme (some scheme) ≡ ws_scheme
        → (some scheme ≡ none) ⊎ (some scheme ≡ some http_scheme)
    there e = elim (Bool-cases (scheme == http_scheme)) [
      | inl same ↦ inr (ap some ((==_iff scheme http_scheme).0 same))
      | inr other ↦ absurd (wss_scheme-ne-ws_scheme (rw other at e))
    ]

    back :
        (some scheme ≡ none) ⊎ (some scheme ≡ some http_scheme)
        → websocket_scheme (some scheme) ≡ ws_scheme
    back (inl e) = cc
    back (inr e) = rw (some-injective scheme http_scheme e, websocket_scheme, ==_refl http_scheme)

pub websocket_scheme-http : websocket_scheme (some http_scheme) ≡ ws_scheme
websocket_scheme-http = (websocket_scheme_iff (some http_scheme)).1 (inr refl)

pub websocket_scheme-https : websocket_scheme (some https_scheme) ≡ wss_scheme
unfolding websocket_scheme ◌==◌
websocket_scheme-https = refl

module _ {p : Platform} {k : Buffers} (r : Runtime p k) (h : HttpHandler p)
    (w : WebSocketHandler p) where
  websocket_uri-none :
      (uri : p.http.Uri)
      → ((p.http.into_parts uri).authority ≡ none) ⊎ ((p.http.into_parts uri).path_and_query ≡ none)
      → websocket_uri r h w uri ≡ none
  unfolding websocket_uri
  websocket_uri-none uri (inl lacks) = rw (lacks, websocket_uri, p.http.from_parts-no_authority)
  websocket_uri-none uri (inr lacks) = rw (lacks, websocket_uri, p.http.from_parts-no_path)

  -- A request whose URI has no authority, or no path, is answered with the status 400, and no task
  -- is spawned for it.
  pub upgrade_websocket-refused :
      (self : InternalProxy r h w) (req : BodyRequest p)
      → ((p.http.into_parts req.uri).authority ≡ none)
        ⊎ ((p.http.into_parts req.uri).path_and_query ≡ none)
      → upgrade_websocket r h w self req ≡ ([], bad_request p)
  unfolding upgrade_websocket
  upgrade_websocket-refused self req lacks =
      rw (websocket_uri-none req.uri lacks, upgrade_with) refl

  pub upgrade_websocket-refuses :
      (self : InternalProxy r h w) (req : BodyRequest p)
      → ((p.http.into_parts req.uri).authority ≡ none)
        ⊎ ((p.http.into_parts req.uri).path_and_query ≡ none)
      → ((upgrade_websocket r h w self req).0 ≡ [])
        × ((upgrade_websocket r h w self req).1.status ≡ 400)
  unfolding bad_request
  upgrade_websocket-refuses self req lacks =
      rw (upgrade_websocket-refused self req lacks) (refl, refl)

  -- A request whose URI has an authority and a path is upgraded with the scheme of a WebSocket in
  -- place of its own, and with the authority and the path that it had. If the upgrade succeeds, its
  -- response is the answer and the one effect is the task for the WebSocket, with the proxy's state;
  -- if it fails, the answer has the status 400 and there is no effect.
  pub upgrade_websocket-upgrades :
      (self : InternalProxy r h w) (req : BodyRequest p) (a : p.http.Authority)
      (path : p.http.PathAndQuery)
      → (p.http.into_parts req.uri).authority ≡ some a
      → (p.http.into_parts req.uri).path_and_query ≡ some path
      → (uri : p.http.Uri) × (p.http.into_parts uri ≡ record {
        scheme = some (websocket_scheme (p.http.into_parts req.uri).scheme);
        authority = some a;
        path_and_query = some path;
      })
        × ((res : Response p.http p.bodies.full.Carrier) (websocket : r.Websocket)
              (left : Request p.http (Unit {0}))
            → r.upgrade (bare r h w req uri) ≡ ok (res, websocket, left)
            → upgrade_websocket r h w self req
              ≡ (spawned_websocket self websocket left ∷ [], map_body (from_full p.bodies) res))
        × ((e : p.WsError)
            → r.upgrade (bare r h w req uri) ≡ err e
            → upgrade_websocket r h w self req ≡ ([], bad_request p))
  unfolding upgrade_websocket
  upgrade_websocket-upgrades self req a path has_authority has_path =
      let (uri, made, parts) =
        p.http.from_parts-absolute (websocket_scheme (p.http.into_parts req.uri).scheme) a path in
      let rewritten : websocket_uri r h w req.uri ≡ some uri =
        unfold websocket_uri in rw (has_authority, has_path, websocket_uri) made in
      (
        uri,
        parts,
        λ res websocket left e. rw (rewritten, upgrade_with) (rw (e, upgrade_result)),
        λ error e. rw (rewritten, upgrade_with) (rw (e, upgrade_result)),
      )

  -- Two tasks pass messages between the connection to the client and the one to the server.
  pub record Relays (self : InternalProxy r h w) (uri : p.http.Uri) (client server : r.WsStream)
      (events : List (SocketEvent r h w)) : Type 0 where
    pub to_server : Forward r h w
    pub to_client : Forward r h w
    pub both : events ≡ forwarding to_server ∷ forwarding to_client ∷ []
    pub from_client : to_server.source ≡ (r.split client).1
    pub into_server : to_server.sink ≡ (r.split server).0
    pub from_server : to_client.source ≡ (r.split server).1
    pub into_client : to_client.sink ≡ (r.split client).0
    pub handlers :
        (to_server.handler ≡ self.websocket_handler) × (to_client.handler ≡ self.websocket_handler)
    pub contexts :
        (to_server.ctx ≡ server_to_client uri self.client_addr)
        × (to_client.ctx ≡ client_to_server self.client_addr uri)

  module _ (self : InternalProxy r h w) (websocket : r.Websocket) (req : Request p.http (Unit {0}))
      (client server : r.WsStream) (accepted : r.accept_websocket websocket ≡ ok client)
      (reached : dial r h w self req ≡ ok server) where
    -- When the client's WebSocket is accepted and the server's is reached, the task spawns two
    -- forwarders and no more: one from the client to the server and one from the server to the
    -- client, each with the proxy's handler in the state in which the request left it. The context
    -- of the one from the client to the server says that its messages go from the server to the
    -- client, and the context of the other says that they go from the client to the server.
    pub websocket_task-Relays :
        Relays self req.uri client server (websocket_task r h w self websocket req)
    unfolding websocket_task handle_websocket
    websocket_task-Relays =
        rw (accepted, after_upgrade)
          (rw (reached, dialled)
            (record {
              to_server = _;
              to_client = _;
              both = refl;
              from_client = refl;
              into_server = refl;
              from_server = refl;
              into_client = refl;
              handlers = (refl, refl);
              contexts = (refl, refl);
            }))
