-- ===== src/Builder/Laws.antt =====
-- What the calls on a builder of src/proxy/builder.rs build.
use hudsucker.Prelude.{◌≡◌, refl, Option, none, some, List, [], ◌∷◌}
use hudsucker.Platform.{Platform}
use hudsucker.Rewind.{Buffers}
use hudsucker.Internal.Runtime.{Runtime}
use hudsucker.Handler.{noop_http, noop_websocket}
use hudsucker.Builder.{
  Parts, HttpWith, WebSocketWith, WantsCa, WantsHandlers, Proxy, with_ca, with_http_handler,
  with_websocket_handler, with_websocket_connector, with_server, with_graceful_shutdown, build,
}

module _ {p : Platform} {buf : Buffers} {r : Runtime p buf} (k : Parts r) where
  -- A call of one of the setters that the last state of the builder has.
  pub data Setting : Type 1 where
    http_handler : HttpWith p → Setting
    websocket_handler : WebSocketWith p → Setting
    websocket_connector : r.Connector → Setting
    server : r.Server → Setting
    graceful_shutdown : k.Shutdown → Setting

  abbrev pub set : WantsHandlers k → Setting → WantsHandlers k
  set b (http_handler h) = with_http_handler k b h
  set b (websocket_handler h) = with_websocket_handler k b h
  set b (websocket_connector c) = with_websocket_connector k b c
  set b (server s) = with_server k b s
  set b (graceful_shutdown f) = with_graceful_shutdown k b f

  -- The setters called one after the other.
  abbrev pub set_all : WantsHandlers k → List Setting → WantsHandlers k
  set_all b [] = b
  set_all b (s ∷ settings) = set_all (set b s) settings

  -- The last setting of each kind in a series of calls, or what was there before.
  abbrev pub last_http : HttpWith p → List Setting → HttpWith p
  last_http old [] = old
  last_http old (http_handler h ∷ settings) = last_http h settings
  last_http old (s ∷ settings) = last_http old settings

  abbrev pub last_websocket : WebSocketWith p → List Setting → WebSocketWith p
  last_websocket old [] = old
  last_websocket old (websocket_handler h ∷ settings) = last_websocket h settings
  last_websocket old (s ∷ settings) = last_websocket old settings

  abbrev pub last_connector : Option r.Connector → List Setting → Option r.Connector
  last_connector old [] = old
  last_connector old (websocket_connector c ∷ settings) = last_connector (some c) settings
  last_connector old (s ∷ settings) = last_connector old settings

  abbrev pub last_server : Option r.Server → List Setting → Option r.Server
  last_server old [] = old
  last_server old (server s ∷ settings) = last_server (some s) settings
  last_server old (s ∷ settings) = last_server old settings

  abbrev pub last_shutdown : k.Shutdown → List Setting → k.Shutdown
  last_shutdown old [] = old
  last_shutdown old (graceful_shutdown f ∷ settings) = last_shutdown f settings
  last_shutdown old (s ∷ settings) = last_shutdown old settings

  -- The proxy that these settings ask for.
  abbrev pub asked_for : WantsHandlers k → List Setting → Proxy k
  asked_for b settings = record {
    al = b.al;
    ca = b.ca;
    client = b.client;
    http_handler = last_http b.http_handler settings;
    websocket_handler = last_websocket b.websocket_handler settings;
    websocket_connector = last_connector b.websocket_connector settings;
    server = last_server b.server settings;
    graceful_shutdown = last_shutdown b.graceful_shutdown settings;
  }

  build-set_all :
      (b : WantsHandlers k) (settings : List Setting)
      → build k (set_all b settings) ≡ asked_for b settings
  build-set_all b [] = refl
  build-set_all b (http_handler h ∷ settings) = build-set_all (set b (http_handler h)) settings
  build-set_all b (websocket_handler h ∷ settings) =
      build-set_all (set b (websocket_handler h)) settings
  build-set_all b (websocket_connector c ∷ settings) =
      build-set_all (set b (websocket_connector c)) settings
  build-set_all b (server s ∷ settings) = build-set_all (set b (server s)) settings
  build-set_all b (graceful_shutdown f ∷ settings) =
      build-set_all (set b (graceful_shutdown f)) settings

  -- After an address or listener, a client and an authority were given, whatever setters are called
  -- and in whatever order, the built proxy has just these three, and of each kind of setting the
  -- last that was made; a kind that was not set is the handler that does nothing, no connector, no
  -- server builder, and a shutdown that never comes.
  pub build-with_ca :
      (b : WantsCa k) (ca : r.Ca) (settings : List Setting)
      → build k (set_all (with_ca k b ca) settings) ≡ record {
        al = b.al;
        ca = ca;
        client = b.client;
        http_handler = last_http (record { handler = noop_http p; state = tt }) settings;
        websocket_handler =
            last_websocket (record { handler = noop_websocket p; state = tt }) settings;
        websocket_connector = last_connector none settings;
        server = last_server none settings;
        graceful_shutdown = last_shutdown k.pending settings;
      }
  build-with_ca b ca settings = build-set_all (with_ca k b ca) settings
