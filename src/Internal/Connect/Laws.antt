-- ===== src/Internal/Connect/Laws.antt =====
-- The parts of the task of `process_connect`, in src/proxy/internal.rs, by what they do with a
-- connection.
use hudsucker.Prelude.{
  ℕ, ◌≡◌, refl, inl, inr, Bool, true, false, if◌then◌else◌, List, [], ◌∷◌, Bytes, codes, ◌==◌, take,
  ok, arith, All, ◌||◌, Bool-cases, starts_with, Result-cases, Outcome-cases, done, panic, ◌+◌,
}
use hudsucker.Http.{http_scheme, https_scheme}
use hudsucker.Platform.{Platform}
use hudsucker.Handler.{HttpHandler, WebSocketHandler}
use hudsucker.Rewind.{Buffers, Rewind}
use hudsucker.Internal.Runtime.{Runtime, InternalProxy}
use hudsucker.Internal.Connect.{
  fill, tls_record, plain, tls, Event, upgrade_error, read_failed, accepted, tls_failed, served,
  websocket_connect_error, https_connect_error, unknown_protocol, connect_failed, tunnelled,
  tunnel_failed, tunnel, serve_http, serve_https, shutting_down, handshake, intercept_tls,
  intercept, config_panicked,
}

-- The first bytes are those of a protocol that is intercepted, by the tests of the code.
abbrev pub is_known : Bytes → Bool
is_known bytes = fill bytes == codes "GET " || take 2 (fill bytes) == tls_record

module _ {p : Platform} {k : Buffers} (r : Runtime p k) (h : HttpHandler p)
    (w : WebSocketHandler p) where
  open p.http use {Authority}
  open r.upgraded use {Io, IoError}

  -- The proxy takes a hand in the connection: it serves it, or makes a TLS handshake on it, or
  -- panics when it is to make one.
  abbrev pub is_interception : Event r h w → Bool
  is_interception (accepted authority io) = true
  is_interception (served self stream scheme authority) = true
  is_interception (config_panicked authority) = true
  is_interception (upgrade_error e) = false
  is_interception (read_failed e) = false
  is_interception (tls_failed e) = false
  is_interception (websocket_connect_error e) = false
  is_interception (https_connect_error e) = false
  is_interception (unknown_protocol bytes) = false
  is_interception (connect_failed authority e) = false
  is_interception (tunnelled authority io) = false
  is_interception (tunnel_failed authority e) = false

  abbrev pub intercepted : List (Event r h w) → Bool
  intercepted [] = false
  intercepted (e ∷ events) = is_interception e || intercepted events

  -- How often bytes are copied between the client and a server.
  abbrev pub tunnels : List (Event r h w) → ℕ
  tunnels [] = 0
  tunnels (tunnelled authority io ∷ events) = 1 + tunnels events
  tunnels (e ∷ events) = tunnels events

  -- The stream comes from a handshake on the connection with the authority's configuration.
  abbrev pub HandshakeGives : r.Ca → Authority → Rewind Io → r.TlsStream → Type 0
  HandshakeGives ca authority conn stream =
      (config : r.ServerConfig) × (r.gen_server_config ca authority ≡ done config)
      × (r.tls_accept config conn ≡ ok stream)

  -- An event concerns the connection `conn` of the authority that was asked for.
  abbrev pub Concerns : r.Ca → Authority → Rewind Io → Event r h w → Type 0
  Concerns ca authority conn (accepted a io) = (a ≡ authority) × (io ≡ conn)
  Concerns ca authority conn (served self (plain io) scheme a) =
      (a ≡ authority) × (io ≡ conn) × (scheme ≡ http_scheme)
  Concerns ca authority conn (served self (tls stream) scheme a) =
      (a ≡ authority) × HandshakeGives ca authority conn stream × (scheme ≡ https_scheme)
  Concerns ca authority conn (tunnelled a io) = (a ≡ authority) × (io ≡ conn)
  Concerns ca authority conn (connect_failed a e) = a ≡ authority
  Concerns ca authority conn (tunnel_failed a e) = a ≡ authority
  Concerns ca authority conn (config_panicked a) =
      (a ≡ authority) × (r.gen_server_config ca authority ≡ panic)
  Concerns ca authority conn e = Unit

  -- The end of a connection on which `bytes` were read first: whether the proxy takes a hand in it,
  -- that all events concern it, and that otherwise its bytes are copied, once, if the server can be
  -- reached.
  pub record Handles (ca : r.Ca) (authority : Authority) (conn : Rewind Io) (hit : Bool)
      (events : List (Event r h w)) : Type 0 where
    pub interception : intercepted events ≡ hit
    pub concerns : All (Concerns ca authority conn) events
    pub copies :
        (server : r.TcpStream)
        → r.connect authority ≡ ok server
        → tunnels events ≡ (if hit then 0 else 1)

  module _ (self : InternalProxy r h w) (authority : Authority) (io : Rewind Io) where
    pub tunnel-Handles : Handles self.ca authority io false (tunnel r h w authority io)
    unfolding tunnel
    tunnel-Handles = elim (Result-cases (r.connect authority)) [
      | inl (server, e) ↦ elim (Result-cases (r.copy_bidirectional io server)) [
        | inl (_, e') ↦
            rw (e, tunnel)
              (rw (e', tunnel)
                (record {
                  interception = refl;
                  concerns = ((refl, refl), tt);
                  copies = λ _ _. refl;
                }))
        | inr (_, e') ↦
            rw (e, tunnel)
              (rw (e', tunnel)
                (record {
                  interception = refl;
                  concerns = ((refl, refl), (refl, tt));
                  copies = λ _ _. refl;
                }))
      ]
      | inr (_, e) ↦
          rw (e, tunnel)
            (record {
              interception = refl;
              concerns = (refl, tt);
              copies = λ server e'. ground arith;
            })
    ]

    serve_http-Handles : Handles self.ca authority io true (serve_http r h w self authority io)
    unfolding serve_http
    serve_http-Handles = elim (Result-cases (r.serve_plain self.server io)) [
      | inl (_, e) ↦
          rw (e, serve_http)
            (record {
              interception = refl;
              concerns = ((refl, refl, refl), tt);
              copies = λ _ _. refl;
            })
      | inr (_, e) ↦
          rw (e, serve_http)
            (record {
              interception = refl;
              concerns = ((refl, refl, refl), (tt, tt));
              copies = λ _ _. refl;
            })
    ]

    serve_https-Concerns :
        (stream : r.TlsStream)
        → HandshakeGives self.ca authority io stream
        → All (Concerns self.ca authority io) (serve_https r h w self authority stream)
          × (tunnels (serve_https r h w self authority stream) ≡ 0)
    unfolding serve_https
    serve_https-Concerns stream e = elim (Result-cases (r.serve_tls self.server stream)) [
      | inl (_, e') ↦ rw (e', serve_https) (((refl, e, refl), tt), refl)
      | inr (error, e') ↦
          elim (Bool-cases (starts_with (r.to_string error) (shutting_down r h w))) [
            | inl shut ↦ rw (e', serve_https) (rw shut (((refl, e, refl), tt), refl))
            | inr other ↦ rw (e', serve_https) (rw other (((refl, e, refl), (tt, tt)), refl))
          ]
    ]

    handshake-Handles :
        (config : r.ServerConfig)
        → r.gen_server_config self.ca authority ≡ done config
        → Handles self.ca authority io true (handshake r h w self authority io (done config))
    unfolding handshake
    handshake-Handles config given = elim (Result-cases (r.tls_accept config io)) [
      | inl (stream, e) ↦
          let (concerns, none_copied) = serve_https-Concerns stream (config, given, e) in
          rw (e, handshake)
            (record {
              interception = refl;
              concerns = ((refl, refl), concerns);
              copies = λ _ _. none_copied;
            })
      | inr (_, e) ↦
          rw (e, handshake)
            (record {
              interception = refl;
              concerns = ((refl, refl), (tt, tt));
              copies = λ _ _. refl;
            })
    ]

    intercept_tls-Handles :
        Handles self.ca authority io true (intercept_tls r h w self authority io)
    unfolding intercept_tls handshake
    intercept_tls-Handles = elim (Outcome-cases (r.gen_server_config self.ca authority)) [
      | inl (config, given) ↦ rw given (handshake-Handles config given)
      | inr fails ↦
          rw (fails, handshake)
            (record { interception = refl; concerns = ((refl, fails), tt); copies = λ _ _. refl })
    ]

    pub intercept-Handles :
        (bytes : Bytes)
        → Handles self.ca authority io (is_known bytes) (intercept r h w self authority bytes io)
    unfolding intercept
    intercept-Handles bytes = elim (Bool-cases (fill bytes == codes "GET ")) [
      | inl get ↦ rw get serve_http-Handles
      | inr not_get ↦ elim (Bool-cases (take 2 (fill bytes) == tls_record)) [
        | inl hello ↦ rw (not_get, hello) intercept_tls-Handles
        | inr other ↦
            rw (not_get, other)
              (record {
                interception = tunnel-Handles.interception;
                concerns = (tt, tunnel-Handles.concerns);
                copies = tunnel-Handles.copies;
              })
      ]
    ]
