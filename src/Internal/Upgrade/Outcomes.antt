-- ===== src/Internal/Upgrade/Outcomes.antt =====
-- All that can become of a request to upgrade in `upgrade_websocket` of src/proxy/internal.rs.
use hudsucker.Prelude.{◌≡◌, ◌⊎◌, inl, inr, none, some, [], ◌∷◌, ok, err, Option-cases, Result-cases}
use hudsucker.Http.{Request, Response, map_body}
use hudsucker.Body.{from_full}
use hudsucker.Platform.{Platform, BodyRequest}
use hudsucker.Handler.{HttpHandler, WebSocketHandler}
use hudsucker.Rewind.{Buffers}
use hudsucker.Internal.Runtime.{Runtime, InternalProxy}
use hudsucker.Internal.Effect.{Reply, bad_request, spawned_websocket}
use hudsucker.Internal.Upgrade.{websocket_scheme, upgrade_websocket, bare}
use hudsucker.Internal.Upgrade.Laws.{upgrade_websocket-refused, upgrade_websocket-upgrades}

module _ {p : Platform} {k : Buffers} (r : Runtime p k) (h : HttpHandler p)
    (w : WebSocketHandler p) where
  -- The URI of a request as that of a WebSocket.
  abbrev IsWebsocketUri :
      BodyRequest p → p.http.Uri → p.http.Authority → p.http.PathAndQuery → Type 0
  IsWebsocketUri req uri a path =
      ((p.http.into_parts req.uri).authority ≡ some a)
      × ((p.http.into_parts req.uri).path_and_query ≡ some path)
      × (p.http.into_parts uri ≡ record {
        scheme = some (websocket_scheme (p.http.into_parts req.uri).scheme);
        authority = some a;
        path_and_query = some path;
      })

  -- What becomes of a request to upgrade.
  pub data Upgrades (self : InternalProxy r h w) (req : BodyRequest p) (reply : Reply r h w)
      : Type 0 where
    -- without an authority or without a path
    incomplete :
        ((p.http.into_parts req.uri).authority ≡ none)
          ⊎ ((p.http.into_parts req.uri).path_and_query ≡ none)
        → reply ≡ ([], bad_request p)
        → Upgrades self req reply
    -- the upgrade, asked for with the URI of a WebSocket, succeeds
    upgraded :
        (a : p.http.Authority) (path : p.http.PathAndQuery) (uri : p.http.Uri)
        (res : Response p.http p.bodies.full.Carrier) (websocket : r.Websocket)
        (left : Request p.http (Unit {0}))
        → IsWebsocketUri req uri a path
        → r.upgrade (bare r h w req uri) ≡ ok (res, websocket, left)
        → reply ≡ (spawned_websocket self websocket left ∷ [], map_body (from_full p.bodies) res)
        → Upgrades self req reply
    -- the upgrade, asked for with the URI of a WebSocket, fails
    refused :
        (a : p.http.Authority) (path : p.http.PathAndQuery) (uri : p.http.Uri) (e : p.WsError)
        → IsWebsocketUri req uri a path
        → r.upgrade (bare r h w req uri) ≡ err e
        → reply ≡ ([], bad_request p)
        → Upgrades self req reply

  upgrade_websocket-complete :
      (self : InternalProxy r h w) (req : BodyRequest p) (a : p.http.Authority)
      (path : p.http.PathAndQuery)
      → (p.http.into_parts req.uri).authority ≡ some a
      → (p.http.into_parts req.uri).path_and_query ≡ some path
      → Upgrades self req (upgrade_websocket r h w self req)
  upgrade_websocket-complete self req a path has_authority has_path =
      let (uri, parts, succeeds, fails) =
        upgrade_websocket-upgrades r h w self req a path has_authority has_path in
      let made : IsWebsocketUri req uri a path = (has_authority, has_path, parts) in
      elim (Result-cases (r.upgrade (bare r h w req uri))) [
        | inl ((res, websocket, left), e) ↦
            upgraded a path uri res websocket left made e (succeeds res websocket left e)
        | inr (error, e) ↦ refused a path uri error made e (fails error e)
      ]

  -- A request to upgrade is refused with the status 400, with no task, exactly if its URI lacks an
  -- authority or a path, or if the upgrade fails. Else the upgrade's response is the answer, and the
  -- one effect is the task for the WebSocket, with the proxy's state. The upgrade is asked for with
  -- the request's own method, headers, version and extensions, and with the URI that has the scheme
  -- of a WebSocket in place of its own and its own authority and path.
  pub upgrade_websocket-Upgrades :
      (self : InternalProxy r h w) (req : BodyRequest p)
      → Upgrades self req (upgrade_websocket r h w self req)
  upgrade_websocket-Upgrades self req = elim (Option-cases (p.http.into_parts req.uri).authority) [
    | inl lacks ↦ incomplete (inl lacks) (upgrade_websocket-refused r h w self req (inl lacks))
    | inr (a, has_authority) ↦ elim (Option-cases (p.http.into_parts req.uri).path_and_query) [
      | inl lacks ↦ incomplete (inr lacks) (upgrade_websocket-refused r h w self req (inr lacks))
      | inr (path, has_path) ↦ upgrade_websocket-complete self req a path has_authority has_path
    ]
  ]
