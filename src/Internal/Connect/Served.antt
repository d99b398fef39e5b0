-- ===== src/Internal/Connect/Served.antt =====
-- The connections that the task of `process_connect` serves, in src/proxy/internal.rs.
use hudsucker.Prelude.{ap, inl, inr, Result-cases, All, map-All}
use hudsucker.Http.{Scheme}
use hudsucker.Platform.{Platform, BodyRequest}
use hudsucker.Handler.{HttpHandler, WebSocketHandler}
use hudsucker.Rewind.{Buffers, Rewind, new}
use hudsucker.Internal.Runtime.{Runtime, InternalProxy}
use hudsucker.Internal.Connect.{
  Stream, Event, upgrade_error, read_failed, config_panicked, accepted, tls_failed, served,
  websocket_connect_error, https_connect_error, unknown_protocol, connect_failed, tunnelled,
  tunnel_failed, connect_task, upgraded, first_bytes,
}
use hudsucker.Internal.Connect.Laws.{Concerns}
use hudsucker.Internal.Connect.Intercept.{connect_task-Handles}

module _ {p : Platform} {k : Buffers} (r : Runtime p k) (h : HttpHandler p) (w : WebSocketHandler p)
    (P : InternalProxy r h w → Stream r h w → Scheme → p.http.Authority → Type 0) where
  -- If the event is that a connection is served, then `P` holds of what it is served with.
  abbrev pub OnServed : Event r h w → Type 0
  OnServed (served self stream scheme a) = P self stream scheme a
  OnServed (accepted a io) = Unit
  OnServed (tunnelled a io) = Unit
  OnServed (config_panicked a) = Unit
  OnServed (upgrade_error e) = Unit
  OnServed (read_failed e) = Unit
  OnServed (tls_failed e) = Unit
  OnServed (websocket_connect_error e) = Unit
  OnServed (https_connect_error e) = Unit
  OnServed (unknown_protocol bytes) = Unit
  OnServed (connect_failed a e) = Unit
  OnServed (tunnel_failed a e) = Unit

  on_served :
      (ca : r.Ca) (authority : p.http.Authority)
      → ((conn : Rewind r.upgraded.Io) (self' : InternalProxy r h w) (stream : Stream r h w)
            (scheme : Scheme) (a : p.http.Authority)
          → Concerns r h w ca authority conn (served self' stream scheme a)
          → P self' stream scheme a)
      → (conn : Rewind r.upgraded.Io) (e : Event r h w) → Concerns r h w ca authority conn e
      → OnServed e
  on_served ca authority holds conn (served self' stream scheme a) c =
      holds conn self' stream scheme a c
  on_served ca authority holds conn (accepted a io) c = tt
  on_served ca authority holds conn (tunnelled a io) c = tt
  on_served ca authority holds conn (config_panicked a) c = tt
  on_served ca authority holds conn (upgrade_error e) c = tt
  on_served ca authority holds conn (read_failed e) c = tt
  on_served ca authority holds conn (tls_failed e) c = tt
  on_served ca authority holds conn (websocket_connect_error e) c = tt
  on_served ca authority holds conn (https_connect_error e) c = tt
  on_served ca authority holds conn (unknown_protocol bytes) c = tt
  on_served ca authority holds conn (connect_failed a e) c = tt
  on_served ca authority holds conn (tunnel_failed a e) c = tt

module _ {p : Platform} {k : Buffers} (r : Runtime p k) (h : HttpHandler p) (w : WebSocketHandler p)
    (self : InternalProxy r h w) (authority : p.http.Authority) where
  -- What holds of the two ways in which the task ends before it has read, and of every event that
  -- concerns a connection of the authority, holds of all that the task does.
  connect_task-All :
      (P : Event r h w → Type 0)
      → ((e : r.HyperError) → P (upgrade_error e))
      → ((e : r.upgraded.IoError) → P (read_failed e))
      → ((conn : Rewind r.upgraded.Io) (e : Event r h w)
          → Concerns r h w self.ca authority conn e
          → P e)
      → (req : BodyRequest p) → All P (connect_task r h w self req authority)
  unfolding connect_task upgraded first_bytes
  connect_task-All P on_upgrade on_read on_concern req = elim (Result-cases (r.upgrade_on req).0) [
    | inr (e, refused) ↦ rw refused (on_upgrade e, tt)
    | inl (io, up) ↦ elim (Result-cases (r.read 4 io).0) [
      | inr (e, failed) ↦ rw (up, failed) (on_read e, tt)
      | inl (bytes, first) ↦
          map-All (Concerns r h w self.ca authority (new (r.read 4 io).1 bytes)) P
            (connect_task r h w self req authority) (on_concern (new (r.read 4 io).1 bytes))
            (connect_task-Handles r h w self req (r.upgrade_on req).1 authority io (r.read 4 io).1
              bytes (ap (λ x. (x, (r.upgrade_on req).1)) up)
              (ap (λ x. (x, (r.read 4 io).1)) first)).concerns
    ]
  ]

  -- What holds of every served connection that concerns the authority, holds of those that the task
  -- serves.
  pub connect_task-OnServed :
      (P : InternalProxy r h w → Stream r h w → Scheme → p.http.Authority → Type 0)
      → ((conn : Rewind r.upgraded.Io) (self' : InternalProxy r h w) (stream : Stream r h w)
            (scheme : Scheme) (a : p.http.Authority)
          → Concerns r h w self.ca authority conn (served self' stream scheme a)
          → P self' stream scheme a)
      → (req : BodyRequest p) → All (OnServed r h w P) (connect_task r h w self req authority)
  connect_task-OnServed P holds req =
      connect_task-All (OnServed r h w P) (λ e. tt) (λ e. tt)
        (on_served r h w P self.ca authority holds) req
