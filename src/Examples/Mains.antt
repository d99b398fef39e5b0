-- ===== src/Examples/Mains.antt =====
-- The programs examples/noop.rs, examples/log.rs and examples/openssl.rs, from where they have an
-- authority.
use hudsucker.Prelude.{◌≡◌, refl, sym, ap, ◌∙◌, List, [], ◌∷◌, map}
use hudsucker.Platform.{Platform}
use hudsucker.Handler.{noop_websocket}
use hudsucker.Rewind.{Buffers}
use hudsucker.Bstr.{Bstr}
use hudsucker.Internal.Runtime.{Runtime}
use hudsucker.Internal.Transparent.{forget_reply}
use hudsucker.Internal.Routing.Transparent.{proxy-forget}
use hudsucker.Builder.{
  Parts, Proxy, with_addr, with_rustls_client, with_ca, with_http_handler, with_websocket_handler,
  with_graceful_shutdown, build,
}
use hudsucker.Start.{
  Listening, service, internal_proxy, Incoming, Exchange, completed, dropped, Connection, served,
  shut_down, connection_task,
}
use hudsucker.Start.Laws.{replies, finished_of, completed_on, fresh_answer, connection_task-replies}
use hudsucker.Examples.{log_http, log_websocket, log_http-IsTransparent}

-- The address 127.0.0.1:3000, the authority, and the future of `shutdown_signal`.
module _ {p : Platform} {buf : Buffers} {r : Runtime p buf} (k : Parts r)
    (localhost_3000 : p.SocketAddr) (ca : r.Ca) (shutdown : k.Shutdown) where
  abbrev pub noop_main : Proxy k
  noop_main = build k (
      with_graceful_shutdown k (with_ca k (with_rustls_client k (with_addr k tt localhost_3000)) ca)
        shutdown)

  abbrev pub log_main : Proxy k
  log_main = build k (
      with_graceful_shutdown k
        (with_websocket_handler k
          (with_http_handler k (with_ca k (with_rustls_client k (with_addr k tt localhost_3000)) ca)
            (record { handler = log_http p; state = [] }))
          (record { handler = log_websocket p; state = [] }))
        shutdown)

  abbrev pub openssl_main : Proxy k
  openssl_main = build k (
      with_graceful_shutdown k
        (with_http_handler k (with_ca k (with_rustls_client k (with_addr k tt localhost_3000)) ca)
          (record { handler = log_http p; state = [] }))
        shutdown)

  module _ (s : Listening k) (b : Bstr) where
    abbrev pub forget_exchanges : List (Exchange s openssl_main) → List (Exchange s noop_main)
    forget_exchanges [] = []
    forget_exchanges (completed req ∷ reqs) = completed req ∷ forget_exchanges reqs
    forget_exchanges (dropped req ∷ reqs) = dropped req ∷ forget_exchanges reqs

    forget_exchanges_lem :
        (a : p.SocketAddr) (reqs : List (Exchange s openssl_main))
        → finished_of s noop_main b (service s noop_main a) (forget_exchanges reqs)
          ≡ finished_of s openssl_main b (service s openssl_main a) reqs
    forget_exchanges_lem a [] = refl
    forget_exchanges_lem a (completed req ∷ reqs) = ap (λ l. req ∷ l) (forget_exchanges_lem a reqs)
    forget_exchanges_lem a (dropped req ∷ reqs) = forget_exchanges_lem a reqs

    -- The same connection of the other program.
    abbrev pub forget_connection : Connection s openssl_main → Connection s noop_main
    forget_connection (served reqs res) = served (forget_exchanges reqs) res
    forget_connection (shut_down reqs late res) =
        shut_down (forget_exchanges reqs) (forget_exchanges late) res

    completed_on-forget_connection :
        (a : p.SocketAddr) (conn : Connection s openssl_main)
        → completed_on s noop_main b (service s noop_main a) (forget_connection conn)
          ≡ completed_on s openssl_main b (service s openssl_main a) conn
    completed_on-forget_connection a (served reqs res) = forget_exchanges_lem a reqs
    completed_on-forget_connection a (shut_down reqs late res) =
        rw (forget_exchanges_lem a reqs, forget_exchanges_lem a late) refl

    answers-forget :
        (a : p.SocketAddr) (reqs : List (Incoming s openssl_main))
        → map (fresh_answer s noop_main b (service s noop_main a)) reqs
          ≡ map forget_reply (map (fresh_answer s openssl_main b (service s openssl_main a)) reqs)
    unfolding service internal_proxy
    answers-forget a [] = refl
    answers-forget a (req ∷ reqs) =
        rw
          (
            proxy-forget b r (log_http p) (noop_websocket p) (log_http-IsTransparent p)
                (internal_proxy s openssl_main (service s openssl_main a)) req,
            answers-forget a reqs,
          )
          refl

    -- Whatever happens on a connection, with or without a shutdown, the program openssl.rs, whose
    -- handler prints requests and responses, answers as noop.rs does, which has no handler, given
    -- the same authority: the same responses in the same order, to the requests whose futures
    -- complete, and the same requests and tasks beside them, up to what was printed.
    pub openssl_main-forget :
        (a : p.SocketAddr) (conn : Connection s openssl_main)
        → replies s noop_main b
            (service s noop_main a)
            (connection_task s noop_main b (service s noop_main a) (forget_connection conn))
          ≡ map forget_reply (
              replies s openssl_main b
                (service s openssl_main a)
                (connection_task s openssl_main b (service s openssl_main a) conn))
    openssl_main-forget a conn =
        connection_task-replies s noop_main b (service s noop_main a) (forget_connection conn)
        ∙ ap (map (fresh_answer s noop_main b (service s noop_main a)))
            (completed_on-forget_connection a conn)
        ∙ answers-forget a (completed_on s openssl_main b (service s openssl_main a) conn)
        ∙ ap (map forget_reply)
            (sym (connection_task-replies s openssl_main b (service s openssl_main a) conn))
