-- ===== src/Internal/Upgrade/Transparent.antt =====
-- `upgrade_websocket` of src/proxy/internal.rs does not depend on the state of the handler.
use hudsucker.Prelude.{◌≡◌, refl, inl, inr, Option-cases, Result-cases, done}
use hudsucker.Platform.{Platform, BodyRequest}
use hudsucker.Handler.{HttpHandler, WebSocketHandler, noop_http}
use hudsucker.Rewind.{Buffers}
use hudsucker.Internal.Runtime.{Runtime, InternalProxy}
use hudsucker.Internal.Transparent.{forget, forget_reply}
use hudsucker.Internal.Upgrade.{upgrade_websocket, websocket_uri, bare}

module _ {p : Platform} {k : Buffers} (r : Runtime p k) (h : HttpHandler p)
    (w : WebSocketHandler p) where
  pub upgrade_websocket-forget :
      (self : InternalProxy r h w) (req : BodyRequest p)
      → done (upgrade_websocket r (noop_http p) w (forget self) req)
        ≡ forget_reply (done (upgrade_websocket r h w self req))
  unfolding upgrade_websocket websocket_uri
  upgrade_websocket-forget self req = elim (Option-cases (websocket_uri r h w req.uri)) [
    | inl lacks ↦ rw lacks refl
    | inr (uri, has) ↦ elim (Result-cases (r.upgrade (bare r h w req uri))) [
      | inl (out, ok_upgrade) ↦ rw (has, ok_upgrade) refl
      | inr (e, refused) ↦ rw (has, refused) refl
    ]
  ]
