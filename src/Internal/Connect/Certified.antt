-- ===== src/Internal/Connect/Certified.antt =====
-- The certificate with which the task of a tunnel, in src/proxy/internal.rs, meets its client, when
-- the proxy has an authority of src/certificate_authority/.
use hudsucker.Prelude.{ℕ, ◌≤◌, ◌≡◌, sym, ◌∙◌, done, done-injective, Bool, ok, All}
use hudsucker.Http.{Scheme}
use hudsucker.Platform.{Platform, BodyRequest}
use hudsucker.Handler.{HttpHandler, WebSocketHandler}
use hudsucker.Rewind.{Buffers, Rewind}
use hudsucker.Internal.Runtime.{Runtime, InternalProxy}
use hudsucker.Internal.Connect.{Stream, plain, tls, Event, served, connect_task}
use hudsucker.Internal.Connect.Laws.{Concerns}
use hudsucker.Internal.Connect.Served.{OnServed, connect_task-OnServed}
use hudsucker.Authority.{Time, Serving, Issuer}
use hudsucker.Authority.Validity.{Certifying}
use hudsucker.Authority.Certificate.{Serves}
use hudsucker.Authority.Concurrent.{Reach, System, returned}
use hudsucker.Authority.Concurrent.Safety.{start, Reach-Serves}

-- The authority's types of authorities and configurations are the proxy's.
module _ {p : Platform} {buf : Buffers} (r : Runtime p buf) (h : HttpHandler p)
    (w : WebSocketHandler p) (k : Serving) (same_authority : p.http.Authority → k.Authority)
    (same_config : k.ServerConfig → r.ServerConfig) (http2 : Bool) where
  -- A stream in TLS comes from a handshake with a configuration that serves an authority at a time.
  pub record Presents (delay : ℕ) (at : Time) (stream : r.TlsStream) (a : p.http.Authority)
      : Type 0 where
    pub conn : Rewind r.upgraded.Io
    pub cfg : k.ServerConfig
    pub handshake : r.tls_accept (same_config cfg) conn ≡ ok stream
    pub serves : Serves k http2 delay (same_authority a) at cfg

  -- A stream in TLS that is served presents a certificate for the authority that it is served for.
  abbrev StreamPresents :
      ℕ → Time → InternalProxy r h w → Stream r h w → Scheme → p.http.Authority → Type 0
  StreamPresents delay at self (tls stream) scheme a = Presents delay at stream a
  StreamPresents delay at self (plain io) scheme a = Unit

  abbrev pub EventPresents : ℕ → Time → Event r h w → Type 0
  EventPresents delay at = OnServed r h w (StreamPresents delay at)

  module _ (self : InternalProxy r h w) (authority : p.http.Authority) (delay : ℕ) (at : Time)
      (cfg : k.ServerConfig) (serves : Serves k http2 delay (same_authority authority) at cfg)
      (given : r.gen_server_config self.ca authority ≡ done (same_config cfg)) where
    concerned-StreamPresents :
        (conn : Rewind r.upgraded.Io) (self' : InternalProxy r h w) (stream : Stream r h w)
        (scheme : Scheme) (a : p.http.Authority)
        → Concerns r h w self.ca authority conn (served self' stream scheme a)
        → StreamPresents delay at self' stream scheme a
    concerned-StreamPresents conn self' (plain io) scheme a c = tt
    concerned-StreamPresents conn self' (tls stream) scheme a (same, (config, made, shaken), _) =
        record {
          conn = conn;
          cfg = cfg;
          handshake = rw (done-injective (sym made ∙ given)) at shaken;
          serves = rw same serves;
        }

    task-EventPresents :
        (req : BodyRequest p) → All (EventPresents delay at) (connect_task r h w self req authority)
    task-EventPresents req =
        connect_task-OnServed r h w self authority (StreamPresents delay at)
          concerned-StreamPresents req

  -- A proxy has a new authority that makes its certificates for the time and the host, and whose
  -- calls from the tasks of tunnels overlap in any way, each inserting what it made within a delay.
  -- If the task of a CONNECT request is given the configuration that one of these calls, for that
  -- request's authority, returned, then every stream in TLS that the task serves comes from a
  -- handshake in which the client was shown one certificate, which names the host for which the
  -- stream is then served, and was valid when the call returned and for at least half of a
  -- certificate's lifetime, less a minute and the delay, after that.
  pub connect_task-EventPresents :
      {Drawn : Type 0} (i : Issuer k Drawn) (cache_size delay : ℕ) (now : Time)
      (authorities : ℕ → k.Authority) {t : System k http2 i delay}
      → ((now' : Time) → now' ≤ t.now → Certifying k http2 i now')
      → Reach k http2 i delay (start k http2 i delay now cache_size authorities) t
      → (n : ℕ) (at : Time) (cfg : k.ServerConfig) → (t.call n).stage ≡ returned at cfg
      → (self : InternalProxy r h w) (req : BodyRequest p) (authority : p.http.Authority)
      → authorities n ≡ same_authority authority
      → r.gen_server_config self.ca authority ≡ done (same_config cfg)
      → All (EventPresents delay at) (connect_task r h w self req authority)
  connect_task-EventPresents i cache_size delay now authorities certifying reach n at cfg e self req
        authority called given =
      let serves =
        Reach-Serves k http2 i delay now cache_size authorities certifying reach n at cfg e in
      task-EventPresents self authority delay at cfg (rw called at serves) given req
