-- ===== src/Internal/Connect/Protocols.antt =====
-- What the task of `process_connect`, in src/proxy/internal.rs, does with a connection, by the
-- protocol of its first bytes.
use hudsucker.Prelude.{
  ◌≤◌, ◌≡◌, refl, ap, inl, inr, Bool, true, false, List, [], ◌∷◌, Bytes, codes, ◌==◌, take, length,
  ok, err, done, panic, Bool-cases, Result-cases, Outcome-cases, starts_with, false≢true, sym, ◌∙◌,
}
use hudsucker.Http.{http_scheme, https_scheme}
use hudsucker.Platform.{Platform, BodyRequest}
use hudsucker.Handler.{HttpHandler, WebSocketHandler}
use hudsucker.Rewind.{Buffers, Rewind, new}
use hudsucker.Internal.Runtime.{Runtime, InternalProxy, context}
use hudsucker.Internal.Connect.{
  fill, tls_record, plain, tls, Event, config_panicked, accepted, tls_failed, served,
  websocket_connect_error, https_connect_error, unknown_protocol, connect_failed, tunnelled,
  tunnel_failed, tunnel, serve_http, serve_https, handshake, intercept_tls, intercept, connected,
  connect_task,
}
use hudsucker.Internal.Connect.Intercept.{IsTls, IsGet, fill-IsGet, fill-IsTls, wanted}

module _ {p : Platform} {k : Buffers} (r : Runtime p k) (h : HttpHandler p)
    (w : WebSocketHandler p) where
  open p.http use {Authority}
  open r.upgraded use {Io, IoError}

  -- The ways in which a connection is left to the server of the authority.
  pub data Copies (authority : Authority) (conn : Rewind Io) (events : List (Event r h w))
      : Type 0 where
    unreached :
        (e : IoError)
        → r.connect authority ≡ err e
        → events ≡ connect_failed authority e ∷ []
        → Copies authority conn events
    copied :
        (server : r.TcpStream)
        → r.connect authority ≡ ok server
        → r.copy_bidirectional conn server ≡ ok tt
        → events ≡ tunnelled authority conn ∷ []
        → Copies authority conn events
    breaks_off :
        (server : r.TcpStream) (e : IoError)
        → r.connect authority ≡ ok server
        → r.copy_bidirectional conn server ≡ err e
        → events ≡ tunnelled authority conn ∷ tunnel_failed authority e ∷ []
        → Copies authority conn events

  -- What is logged when serving a connection over HTTP ends.
  pub data HttpEnds (self : InternalProxy r h w) (conn : Rewind Io) (lines : List (Event r h w))
      : Type 0 where
    http_served : r.serve_plain self.server conn ≡ ok tt → lines ≡ [] → HttpEnds self conn lines
    http_fails :
        (e : r.ServeError)
        → r.serve_plain self.server conn ≡ err e
        → lines ≡ websocket_connect_error e ∷ []
        → HttpEnds self conn lines

  -- What is logged when serving a TLS stream ends: an error of the closing of the connection is not.
  pub data HttpsEnds (self : InternalProxy r h w) (stream : r.TlsStream)
      (lines : List (Event r h w)) : Type 0 where
    https_served : r.serve_tls self.server stream ≡ ok tt → lines ≡ [] → HttpsEnds self stream lines
    https_fails :
        (e : r.ServeError)
        → r.serve_tls self.server stream ≡ err e
        → starts_with (r.to_string e) (codes "error shutting down connection") ≡ false
        → lines ≡ https_connect_error e ∷ []
        → HttpsEnds self stream lines
    https_closes :
        (e : r.ServeError)
        → r.serve_tls self.server stream ≡ err e
        → starts_with (r.to_string e) (codes "error shutting down connection") ≡ true
        → lines ≡ []
        → HttpsEnds self stream lines

  -- All that is done with a connection on which `bytes` were read first, by the handler's answer
  -- and these bytes.
  pub data Goes (self : InternalProxy r h w) (authority : Authority) (conn : Rewind Io)
      (wants : Bool) (bytes : Bytes) (events : List (Event r h w)) : Type 0 where
    unwanted :
        wants ≡ false → Copies authority conn events → Goes self authority conn wants bytes events
    unknown :
        (copies : List (Event r h w))
        → wants ≡ true
        → ¬ IsGet bytes
        → ¬ IsTls bytes
        → events ≡ unknown_protocol bytes ∷ copies
        → Copies authority conn copies
        → Goes self authority conn wants bytes events
    http :
        (lines : List (Event r h w))
        → wants ≡ true
        → IsGet bytes
        → events ≡ served self (plain conn) http_scheme authority ∷ lines
        → HttpEnds self conn lines
        → Goes self authority conn wants bytes events
    no_config :
        wants ≡ true
        → IsTls bytes
        → r.gen_server_config self.ca authority ≡ panic
        → events ≡ config_panicked authority ∷ []
        → Goes self authority conn wants bytes events
    refused :
        (config : r.ServerConfig) (e : IoError)
        → wants ≡ true
        → IsTls bytes
        → r.gen_server_config self.ca authority ≡ done config
        → r.tls_accept config conn ≡ err e
        → events ≡ accepted authority conn ∷ tls_failed e ∷ []
        → Goes self authority conn wants bytes events
    https :
        (config : r.ServerConfig) (stream : r.TlsStream) (lines : List (Event r h w))
        → wants ≡ true
        → IsTls bytes
        → r.gen_server_config self.ca authority ≡ done config
        → r.tls_accept config conn ≡ ok stream
        → events ≡ accepted authority conn ∷ served self (tls stream) https_scheme authority ∷ lines
        → HttpsEnds self stream lines
        → Goes self authority conn wants bytes events

  tunnel-Copies :
      (authority : Authority) (conn : Rewind Io)
      → Copies authority conn (tunnel r h w authority conn)
  unfolding tunnel
  tunnel-Copies authority conn = elim (Result-cases (r.connect authority)) [
    | inr (e, fails) ↦ unreached e fails (rw (fails, tunnel) refl)
    | inl (server, reached) ↦ elim (Result-cases (r.copy_bidirectional conn server)) [
      | inl (_, ends) ↦ copied server reached ends (rw (reached, tunnel) (rw (ends, tunnel) refl))
      | inr (e, fails) ↦
          breaks_off server e reached fails (rw (reached, tunnel) (rw (fails, tunnel) refl))
    ]
  ]

  module _ (self : InternalProxy r h w) (authority : Authority) (conn : Rewind Io)
      (bytes : Bytes) where
    serve_http-Goes :
        IsGet bytes → Goes self authority conn true bytes (serve_http r h w self authority conn)
    unfolding serve_http
    serve_http-Goes get = elim (Result-cases (r.serve_plain self.server conn)) [
      | inl (_, e) ↦ http [] refl get (rw e refl) (http_served e refl)
      | inr (failure, e) ↦ http _ refl get (rw e refl) (http_fails failure e refl)
    ]

    serve_https-Goes :
        IsTls bytes
        → (config : r.ServerConfig) (stream : r.TlsStream)
        → r.gen_server_config self.ca authority ≡ done config
        → r.tls_accept config conn ≡ ok stream
        → Goes self authority conn true bytes
            (accepted authority conn ∷ serve_https r h w self authority stream)
    unfolding serve_https
    serve_https-Goes hello config stream given shaken =
        elim (Result-cases (r.serve_tls self.server stream)) [
          | inl (_, e) ↦
              https config stream [] refl hello given shaken (rw e refl) (https_served e refl)
          | inr (failure, e) ↦
              elim (Bool-cases
                (starts_with (r.to_string failure) (codes "error shutting down connection"))) [
                  | inl quiet ↦
                      https config stream [] refl hello given shaken (rw (e, quiet) refl)
                        (https_closes failure e quiet refl)
                  | inr loud ↦
                      https config stream _ refl hello given shaken (rw (e, loud) refl)
                        (https_fails failure e loud refl)
                ]
        ]

    intercept_tls-Goes :
        IsTls bytes → Goes self authority conn true bytes (intercept_tls r h w self authority conn)
    unfolding intercept_tls handshake
    intercept_tls-Goes hello = elim (Outcome-cases (r.gen_server_config self.ca authority)) [
      | inr fails ↦ no_config refl hello fails (rw (fails, handshake) refl)
      | inl (config, given) ↦ elim (Result-cases (r.tls_accept config conn)) [
        | inl (stream, shaken) ↦
            rw (given, handshake)
              (rw (shaken, handshake) (serve_https-Goes hello config stream given shaken))
        | inr (e, fails) ↦
            refused config e refl hello given fails
              (rw (given, handshake) (rw (fails, handshake) refl))
      ]
    ]

    intercept-Goes :
        length bytes ≤ 4
        → Goes self authority conn true bytes (intercept r h w self authority bytes conn)
    unfolding intercept
    intercept-Goes short = elim (Bool-cases (fill bytes == codes "GET ")) [
      | inl get ↦ rw get (serve_http-Goes ((fill-IsGet bytes short).0 get))
      | inr not_get ↦ elim (Bool-cases (take 2 (fill bytes) == tls_record)) [
        | inl hello ↦ rw (not_get, hello) (intercept_tls-Goes ((fill-IsTls bytes).0 hello))
        | inr other ↦
            rw (not_get, other)
              (unknown _ refl (λ get. false≢true (sym not_get ∙ (fill-IsGet bytes short).1 get))
                (λ hello. false≢true (sym other ∙ (fill-IsTls bytes).1 hello)) refl
                (tunnel-Copies authority conn))
      ]
    ]

  -- The proxy in the state in which the handler is after it was asked whether to intercept.
  abbrev pub asked : InternalProxy r h w → BodyRequest p → InternalProxy r h w
  asked self req = record self {
    http_handler = (h.should_intercept self.http_handler (context self) req).0;
  }

  connected-Goes :
      (self : InternalProxy r h w) (req : BodyRequest p) (authority : Authority) (bytes : Bytes)
      (io : Io)
      → length bytes ≤ 4
      → Goes
          (asked self req)
          authority
          (new io bytes)
          (wanted r h w self req)
          bytes
          (connected r h w self req authority bytes io)
  unfolding connected
  connected-Goes self req authority bytes io short = elim (Bool-cases (wanted r h w self req)) [
    | inl yes_wanted ↦
        rw yes_wanted (intercept-Goes (asked self req) authority (new io bytes) bytes short)
    | inr not_wanted ↦ rw not_wanted (unwanted refl (tunnel-Copies authority (new io bytes)))
  ]

  -- Once the connection is upgraded and its first bytes were read, what the task does, all of it,
  -- is one of six things, on the connection with these bytes put back in front and with the handler
  -- in the state in which it is after it was asked. If the handler does not want the connection,
  -- its bytes are copied to and from the server of the authority, and an error is logged with which
  -- that cannot be reached or the copying ends. If it does: bytes that are neither "GET " nor the
  -- beginning of a TLS handshake are logged, and the rest is as before; after "GET " the connection
  -- is served over HTTP for the authority; and at a TLS handshake either the authority can make no
  -- configuration and the task panics, or the handshake with its configuration fails, which is
  -- logged, or the stream of the handshake is served over HTTPS for the authority. An error with
  -- which serving ends is logged, except, over HTTPS, one of closing the connection.
  pub connect_task-Goes :
      (self : InternalProxy r h w) (req req' : BodyRequest p) (authority : Authority) (io io' : Io)
      (bytes : Bytes)
      → r.upgrade_on req ≡ (ok io, req')
      → r.read 4 io ≡ (ok bytes, io')
      → Goes
          (asked self req')
          authority
          (new io' bytes)
          (wanted r h w self req')
          bytes
          (connect_task r h w self req authority)
  unfolding connect_task
  connect_task-Goes self req req' authority io io' bytes up first =
      rw (up, first)
        (connected-Goes self req' authority bytes io' (r.read-le 4 io bytes (ap (λ x. x.0) first)))
