-- ===== src/Internal/Routing/Noop.antt =====
-- What `InternalProxy::proxy` of src/proxy/internal.rs answers to CONNECT and to upgrades with the
-- handler that does nothing.
use hudsucker.Prelude.{◌≡◌, refl, true, false, some, [], ◌∷◌, done}
use hudsucker.Http.{Request, map_request}
use hudsucker.Body.{from_incoming}
use hudsucker.Platform.{Platform, empty_response}
use hudsucker.Handler.{WebSocketHandler, noop_http}
use hudsucker.Rewind.{Buffers}
use hudsucker.Bstr.{Bstr}
use hudsucker.Internal.Runtime.{Runtime, InternalProxy}
use hudsucker.Internal.Effect.{spawned_connect}
use hudsucker.Internal.Upgrade.{upgrade_websocket}
use hudsucker.Internal.Routing.{connect_to, process_connect, proxy}

-- With the handler that does nothing, CONNECT with an authority is answered with 200, and the one
-- effect is the task for the tunnel.
pub proxy-noop_connect :
    {p : Platform} {k : Buffers} (b : Bstr) (r : Runtime p k) (w : WebSocketHandler p)
    (self : InternalProxy r (noop_http p) w) (req : Request p.http p.bodies.incoming.Carrier)
    (authority : p.http.Authority)
    → p.http.is_connect req.method ≡ true
    → (p.http.into_parts req.uri).authority ≡ some authority
    → proxy b r (noop_http p) w self req
      ≡ done (
        spawned_connect self (map_request (from_incoming p.bodies) req) authority ∷ [],
        empty_response p 200,
      )
unfolding proxy process_connect connect_to
proxy-noop_connect b r w self req authority c has = rw (c, has) refl

-- With the handler that does nothing, an upgrade that is not CONNECT goes to `upgrade_websocket`.
pub proxy-noop_upgrade :
    {p : Platform} {k : Buffers} (b : Bstr) (r : Runtime p k) (w : WebSocketHandler p)
    (self : InternalProxy r (noop_http p) w) (req : Request p.http p.bodies.incoming.Carrier)
    → p.http.is_connect req.method ≡ false
    → r.is_upgrade_request (map_request (from_incoming p.bodies) req) ≡ true
    → proxy b r (noop_http p) w self req
      ≡ done (upgrade_websocket r (noop_http p) w self (map_request (from_incoming p.bodies) req))
unfolding proxy
proxy-noop_upgrade b r w self req not_connect upgrades = rw (not_connect, upgrades) refl
