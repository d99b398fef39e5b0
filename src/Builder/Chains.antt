-- ===== src/Builder/Chains.antt =====
-- Which series of calls the types of src/proxy/builder.rs allow, and what they build. A method is
-- defined for one state of the builder and returns it in one state, so a series of calls is a path
-- from state to state.
use hudsucker.Prelude.{◌≡◌, refl, ap, ◌∙◌, none, List, [], ◌∷◌, map}
use hudsucker.Platform.{Platform}
use hudsucker.Rewind.{Buffers}
use hudsucker.Internal.Runtime.{Runtime}
use hudsucker.Handler.{noop_http, noop_websocket}
use hudsucker.Builder.{
  Parts, AddrOrListener, addr, listener, WantsAddr, WantsClient, WantsCa, WantsHandlers, Proxy,
  with_addr, with_listener, with_client, with_rustls_client, with_native_tls_client, with_ca, build,
}
use hudsucker.Builder.Laws.{
  Setting, set, set_all, last_http, last_websocket, last_connector, last_server, last_shutdown,
  build-with_ca,
}

-- The types that `ProxyBuilder` is instantiated with.
pub data BuilderState : Type 0 where
  wants_addr wants_client wants_ca wants_handlers : BuilderState

module _ {p : Platform} {buf : Buffers} {r : Runtime p buf} (k : Parts r) where
  -- `ProxyBuilder`, by the type that it is instantiated with.
  pub data ProxyBuilder : BuilderState → Type 1 where
    for_addr : WantsAddr k → ProxyBuilder wants_addr
    for_client : WantsClient k → ProxyBuilder wants_client
    for_ca : WantsCa k → ProxyBuilder wants_ca
    for_handlers : WantsHandlers k → ProxyBuilder wants_handlers

  -- `ProxyBuilder::new`.
  abbrev pub new : ProxyBuilder wants_addr
  new = for_addr tt

  -- A call of a method, by the states of the builder before and after it.
  pub data Call : BuilderState → BuilderState → Type 1 where
    addr_call : p.SocketAddr → Call wants_addr wants_client
    listener_call : k.TcpListener → Call wants_addr wants_client
    client_call : r.Client → Call wants_client wants_ca
    rustls_client_call native_tls_client_call : Call wants_client wants_ca
    ca_call : r.Ca → Call wants_ca wants_handlers
    setting_call : Setting k → Call wants_handlers wants_handlers

  unfoldable pub call : {s t : BuilderState} → ProxyBuilder s → Call s t → ProxyBuilder t
  call (for_addr b) (addr_call a) = for_client (with_addr k b a)
  call (for_addr b) (listener_call l) = for_client (with_listener k b l)
  call (for_client b) (client_call c) = for_ca (with_client k b c)
  call (for_client b) rustls_client_call = for_ca (with_rustls_client k b)
  call (for_client b) native_tls_client_call = for_ca (with_native_tls_client k b)
  call (for_ca b) (ca_call ca) = for_handlers (with_ca k b ca)
  call (for_handlers b) (setting_call s) = for_handlers (set k b s)

  -- Calls one after the other.
  pub data Calls : BuilderState → BuilderState → Type 1 where
    stop : {s : BuilderState} → Calls s s
    then_call : {s t u : BuilderState} → Call s t → Calls t u → Calls s u

  unfoldable pub run : {s t : BuilderState} → ProxyBuilder s → Calls s t → ProxyBuilder t
  unfolding call
  run b stop = b
  run b (then_call c calls) = run (call b c) calls

  -- `build`, which only the last state has.
  abbrev pub built : ProxyBuilder wants_handlers → Proxy k
  built (for_handlers b) = build k b

  -- What a call says of the proxy.
  pub data Given : Type 1 where
    given_address : AddrOrListener k → Given
    given_client : r.Client → Given
    given_ca : r.Ca → Given
    given_setting : Setting k → Given

  abbrev pub given : {s t : BuilderState} → Call s t → Given
  given (addr_call a) = given_address (addr a)
  given (listener_call l) = given_address (listener l)
  given (client_call c) = given_client c
  given rustls_client_call = given_client k.rustls_client
  given native_tls_client_call = given_client k.native_tls_client
  given (ca_call ca) = given_ca ca
  given (setting_call s) = given_setting s

  abbrev pub all_given : {s t : BuilderState} → Calls s t → List Given
  all_given stop = []
  all_given (then_call c calls) = given c ∷ all_given calls

  run-settings :
      (b : WantsHandlers k) (calls : Calls wants_handlers wants_handlers)
      → (settings : List (Setting k)) × (all_given calls ≡ map given_setting settings)
        × (run (for_handlers b) calls ≡ for_handlers (set_all k b settings))
  unfolding run call
  run-settings b stop = ([], refl, refl)
  run-settings b (then_call (setting_call s) calls) =
      let (settings, names, runs) = run-settings (set k b s) calls in
      (s ∷ settings, ap (◌∷◌ (given_setting s)) names, runs)

  run-ca :
      (b : WantsCa k) (calls : Calls wants_ca wants_handlers)
      → (ca : r.Ca) × (settings : List (Setting k)) × (all_given calls
          ≡ given_ca ca ∷ map given_setting settings)
        × (run (for_ca b) calls ≡ for_handlers (set_all k (with_ca k b ca) settings))
  unfolding run call
  run-ca b (then_call (ca_call ca) calls) =
      let (settings, names, runs) = run-settings (with_ca k b ca) calls in
      (ca, settings, ap (◌∷◌ (given_ca ca)) names, runs)

  run-client :
      (b : WantsClient k) (calls : Calls wants_client wants_handlers)
      → (client : r.Client) × (ca : r.Ca) × (settings : List (Setting k)) × (all_given calls
          ≡ given_client client ∷ given_ca ca ∷ map given_setting settings)
        × (run (for_client b) calls
            ≡ for_handlers (set_all k (with_ca k (with_client k b client) ca) settings))
  unfolding run call
  run-client b (then_call (client_call c) calls) =
      let (ca, settings, names, runs) = run-ca (with_client k b c) calls in
      (c, ca, settings, ap (◌∷◌ (given_client c)) names, runs)
  run-client b (then_call rustls_client_call calls) =
      let (ca, settings, names, runs) = run-ca (with_client k b k.rustls_client) calls in
      (k.rustls_client, ca, settings, ap (◌∷◌ (given_client k.rustls_client)) names, runs)
  run-client b (then_call native_tls_client_call calls) =
      let (ca, settings, names, runs) = run-ca (with_client k b k.native_tls_client) calls in
      (k.native_tls_client, ca, settings, ap (◌∷◌ (given_client k.native_tls_client)) names, runs)

  -- What a series of calls names, and the proxy that it builds.
  pub record Builds (calls : Calls wants_addr wants_handlers) : Type 1 where
    pub al : AddrOrListener k
    pub client : r.Client
    pub ca : r.Ca
    pub settings : List (Setting k)
    pub in_order :
        all_given calls
        ≡ given_address al ∷ given_client client ∷ given_ca ca ∷ map given_setting settings
    pub proxy : built (run new calls) ≡ record {
      al = al;
      ca = ca;
      client = client;
      http_handler = last_http k (record { handler = noop_http p; state = tt }) settings;
      websocket_handler =
          last_websocket k (record { handler = noop_websocket p; state = tt }) settings;
      websocket_connector = last_connector k none settings;
      server = last_server k none settings;
      graceful_shutdown = last_shutdown k k.pending settings;
    }

  -- Whatever series of calls the types of the builder's states allow from its first state to its
  -- last: it gives first one address or listener, then one client, then one authority, and after
  -- that any settings. The proxy that is then built has just these three, and of each kind of
  -- setting the last that was made; a kind that was not set is the handler that does nothing, no
  -- connector, no server builder, and a shutdown that never comes.
  pub built-run : (calls : Calls wants_addr wants_handlers) → Builds calls
  unfolding run call
  built-run (then_call (addr_call a) calls) =
      let (client, ca, settings, names, runs) = run-client (with_addr k tt a) calls in
      record {
        al = addr a;
        client = client;
        ca = ca;
        settings = settings;
        in_order = ap (◌∷◌ (given_address (addr a))) names;
        proxy =
            ap built runs ∙ build-with_ca k (record { al = addr a; client = client }) ca settings;
      }
  built-run (then_call (listener_call l) calls) =
      let (client, ca, settings, names, runs) = run-client (with_listener k tt l) calls in
      record {
        al = listener l;
        client = client;
        ca = ca;
        settings = settings;
        in_order = ap (◌∷◌ (given_address (listener l))) names;
        proxy =
            ap built runs
            ∙ build-with_ca k (record { al = listener l; client = client }) ca settings;
      }
