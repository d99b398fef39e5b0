-- ===== src/Internal/Connect.antt =====
-- `process_connect` of src/proxy/internal.rs: what becomes of a connection after a CONNECT request.
pub mod Laws
pub mod Intercept
pub mod Protocols
pub mod Lossless
pub mod Served
pub mod Requests
pub mod Certified
pub mod Upgrades
use hudsucker.Prelude.{
  ℕ, Bool, true, false, if◌then◌else◌, Option, none, some, List, [], ◌∷◌, ◌++◌, Bytes, codes, ◌==◌,
  take, starts_with, Outcome, done, panic, Result, ok, err,
}
use hudsucker.Http.{Scheme, http_scheme, https_scheme}
use hudsucker.Platform.{Platform, BodyRequest}
use hudsucker.Handler.{HttpHandler, WebSocketHandler}
use hudsucker.Rewind.{Buffers, Rewind, new}
use hudsucker.Internal.Runtime.{Runtime, InternalProxy, context}

-- `let mut buffer = [0; 4]`, after bytes were read into its front.
abbrev pub fill : Bytes → Bytes
fill bytes = take 4 (bytes ++ 0 ∷ 0 ∷ 0 ∷ 0 ∷ [])

-- `b"\x16\x03"`.
abbrev pub tls_record : Bytes
tls_record = 0x16 ∷ 3 ∷ []

module _ {p : Platform} {k : Buffers} (r : Runtime p k) (h : HttpHandler p)
    (w : WebSocketHandler p) where
  open p.http use {Authority}
  open r.upgraded use {Io, IoError}
  open r use {ServeError}

  -- What `serve_stream` is called with.
  pub data Stream : Type 0 where
    plain : Rewind Io → Stream
    tls : r.TlsStream → Stream

  -- What the task does, in order.
  pub data Event : Type 0 where
    upgrade_error : r.HyperError → Event
    read_failed : IoError → Event
    -- no configuration can be made for a TLS handshake as the authority, and the task panics
    config_panicked : Authority → Event
    -- a TLS handshake on the connection, as the authority
    accepted : Authority → Rewind Io → Event
    tls_failed : IoError → Event
    -- `serve_stream`
    served : InternalProxy r h w → Stream → Scheme → Authority → Event
    websocket_connect_error https_connect_error : ServeError → Event
    unknown_protocol : Bytes → Event
    connect_failed : Authority → IoError → Event
    -- `copy_bidirectional` with a connection to the authority
    tunnelled : Authority → Rewind Io → Event
    tunnel_failed : Authority → IoError → Event

  -- The connection to the server, and the copying in both directions.
  pub tunnel : Authority → Rewind Io → List Event
  tunnel authority io = elim (r.connect authority) [
    | err e ↦ connect_failed authority e ∷ []
    | ok server ↦ elim (r.copy_bidirectional io server) [
      | ok _ ↦ tunnelled authority io ∷ []
      | err e ↦ tunnelled authority io ∷ tunnel_failed authority e ∷ []
    ]
  ]

  serve_http : InternalProxy r h w → Authority → Rewind Io → List Event
  serve_http self authority io =
      served self (plain io) http_scheme authority
      ∷ elim (r.serve_plain self.server io) [ ok _ ↦ [] | err e ↦ websocket_connect_error e ∷ [] ]

  abbrev shutting_down : Bytes
  shutting_down = codes "error shutting down connection"

  serve_https : InternalProxy r h w → Authority → r.TlsStream → List Event
  serve_https self authority stream =
      served self (tls stream) https_scheme authority ∷ elim (r.serve_tls self.server stream) [
        | ok _ ↦ []
        | err e ↦
            if starts_with (r.to_string e) shutting_down then [] else https_connect_error e ∷ []
      ]

  handshake : InternalProxy r h w → Authority → Rewind Io → Outcome r.ServerConfig → List Event
  handshake self authority io panic = config_panicked authority ∷ []
  handshake self authority io (done config) =
      accepted authority io ∷ elim (r.tls_accept config io) [
        | ok stream ↦ serve_https self authority stream
        | err e ↦ tls_failed e ∷ []
      ]

  intercept_tls : InternalProxy r h w → Authority → Rewind Io → List Event
  intercept_tls self authority io =
      handshake self authority io (r.gen_server_config self.ca authority)

  pub intercept : InternalProxy r h w → Authority → Bytes → Rewind Io → List Event
  intercept self authority bytes io =
      if fill bytes == codes "GET "
      then serve_http self authority io
      else if take 2 (fill bytes) == tls_record
      then intercept_tls self authority io
      else (unknown_protocol bytes ∷ tunnel authority io)

  -- After the first bytes were read.
  pub connected : InternalProxy r h w → BodyRequest p → Authority → Bytes → Io → List Event
  connected self req authority bytes io =
      let (handler', wanted) = h.should_intercept self.http_handler (context self) req in
      let self' : InternalProxy r h w = record self { http_handler = handler' } in
      let rewound = new io bytes in
      if wanted then intercept self' authority bytes rewound else tunnel authority rewound

  -- After the first read.
  first_bytes :
      InternalProxy r h w → BodyRequest p → Authority → Result Bytes IoError × Io → List Event
  first_bytes self req authority (err e, io') = read_failed e ∷ []
  first_bytes self req authority (ok bytes, io') = connected self req authority bytes io'

  -- After the upgrade.
  upgraded : InternalProxy r h w → Authority → Result Io r.HyperError × BodyRequest p → List Event
  upgraded self authority (ok io, req') = first_bytes self req' authority (r.read 4 io)
  upgraded self authority (err e, req') = upgrade_error e ∷ []

  -- The task that `process_connect` spawns.
  unfoldable pub connect_task : InternalProxy r h w → BodyRequest p → Authority → List Event
  unfolding upgraded first_bytes connected intercept tunnel serve_http serve_https handshake
      intercept_tls
  connect_task self req authority = upgraded self authority (r.upgrade_on req)
