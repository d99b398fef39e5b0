-- ===== src/Start/Laws.antt =====
-- What `Proxy::start` of src/proxy/mod.rs promises.
use hudsucker.Prelude.{
  ◌≡◌, refl, ap, ◌∙◌, inl, inr, Bool, true, false, List, [], ◌∷◌, ◌++◌, map, append-nil, Result, ok,
  err, Result-cases, Outcome,
}
use hudsucker.Error.{io}
use hudsucker.Platform.{Platform}
use hudsucker.Rewind.{Buffers}
use hudsucker.Bstr.{Bstr}
use hudsucker.Internal.Runtime.{Runtime}
use hudsucker.Internal.Effect.{Reply}
use hudsucker.Internal.Routing.{proxy}
use hudsucker.Builder.{Parts, AddrOrListener, addr, listener, Proxy}
use hudsucker.Start.{
  Listening, Pick, accepted, accept_error, cancelled, Service, Action, spawned, accept_failed,
  server_or_default, accept_loop, bound, start_on, start, internal_proxy, Incoming, Exchange,
  completed, dropped, Connection, served, shut_down, ConnectionEvent, answered, abandoned,
  graceful_shutdown, serving_failed, answers, log_result, connection_task,
}

module _ {p : Platform} {buf : Buffers} (r : Runtime p buf) where
  -- What happens before the shutdown.
  abbrev pub before_shutdown : List (Pick r) → List (Pick r)
  before_shutdown [] = []
  before_shutdown (cancelled ∷ picks) = []
  before_shutdown (accepted tcp a ∷ picks) = accepted tcp a ∷ before_shutdown picks
  before_shutdown (accept_error e ∷ picks) = accept_error e ∷ before_shutdown picks

  -- The shutdown comes.
  abbrev pub is_shut_down : List (Pick r) → Bool
  is_shut_down [] = false
  is_shut_down (cancelled ∷ picks) = true
  is_shut_down (accepted tcp a ∷ picks) = is_shut_down picks
  is_shut_down (accept_error e ∷ picks) = is_shut_down picks

module _ {p : Platform} {buf : Buffers} {r : Runtime p buf} {k : Parts r} (s : Listening k)
    (self : Proxy k) where
  -- An action that a pick calls for: a connection is served with the proxy's own parts, and with its
  -- handlers in the state in which the proxy was built.
  pub data Handles : Pick r → Action s self → Type 0 where
    serves :
        (tcp : r.TcpStream) (a : p.SocketAddr) (c : Service s self)
        → (internal_proxy s self c ≡ record {
          ca = self.ca;
          client = self.client;
          server = server_or_default s self self.server;
          http_handler = self.http_handler.state;
          websocket_handler = self.websocket_handler.state;
          websocket_connector = self.websocket_connector;
          client_addr = a;
        })
        → Handles (accepted tcp a) (spawned tcp c)
    logs : (e : p.bodies.errors.IoError) → Handles (accept_error e) (accept_failed e)

  -- Each of the picks has its action, in order.
  pub data AllHandled : List (Pick r) → List (Action s self) → Type 0 where
    none_left : AllHandled [] []
    next :
        {pick : Pick r} {picks : List (Pick r)} {action : Action s self}
        {actions : List (Action s self)}
        → Handles pick action
        → AllHandled picks actions
        → AllHandled (pick ∷ picks) (action ∷ actions)

  accept_loop-AllHandled :
      (picks : List (Pick r))
      → AllHandled (before_shutdown r picks) (accept_loop s self picks).0
        × ((accept_loop s self picks).1 ≡ is_shut_down r picks)
  unfolding accept_loop internal_proxy
  accept_loop-AllHandled [] = (none_left, refl)
  accept_loop-AllHandled (accepted tcp a ∷ picks) =
      let (handled, stops) = accept_loop-AllHandled picks in
      (next (serves tcp a _ refl) handled, stops)
  accept_loop-AllHandled (accept_error e ∷ picks) =
      let (handled, stops) = accept_loop-AllHandled picks in (next (logs e) handled, stops)
  accept_loop-AllHandled (cancelled ∷ picks) = (none_left, refl)

  -- The outcome of a start.
  pub data Starts (picks : List (Pick r)) : Type 0 where
    -- the address cannot be bound: nothing is accepted
    fails :
        (a : p.SocketAddr) (e : p.bodies.errors.IoError)
        → self.al ≡ addr a
        → s.bind a ≡ err e
        → start s self picks ≡ err (io e)
        → Starts picks
    runs :
        (actions : List (Action s self)) (stopped : Bool)
        → start s self picks ≡ ok (actions, stopped)
        → AllHandled (before_shutdown r picks) actions
        → stopped ≡ is_shut_down r picks
        → Starts picks

  -- Starting fails only if an address was given that cannot be bound, with the error of that. Else
  -- every connection that is accepted before the shutdown is served, in order, with the proxy's
  -- authority, client, connector, server builder (or the default one), the handlers in the state in
  -- which the proxy was built, and the address of the client; a failure to accept is logged and does
  -- not end the loop; after the shutdown no connection is accepted, and the loop ends exactly if the
  -- shutdown comes.
  pub start-Starts : (picks : List (Pick r)) → Starts picks
  unfolding start
  start-Starts picks = by self.al refl
    where
      runs_on : start s self picks ≡ ok (accept_loop s self picks) → Starts picks
      runs_on e =
          let (handled, stops) = accept_loop-AllHandled picks in
          runs (accept_loop s self picks).0 (accept_loop s self picks).1 e handled stops

      by : (al : AddrOrListener k) → self.al ≡ al → Starts picks
      by (listener l) e = runs_on (rw (start, e, start_on) refl)
      by (addr a) e = elim (Result-cases (s.bind a)) [
        | inl (l, bound_to) ↦ runs_on (rw (start, e, start_on) (rw (bound_to, bound) refl))
        | inr (error, refused) ↦
            fails a error e refused (rw (start, e, start_on) (rw (refused, bound) refl))
      ]

  module _ (b : Bstr) (c : Service s self) where
    abbrev pub Answer : Type 0
    Answer = Outcome (Reply r (self.http_handler.handler) (self.websocket_handler.handler))

    -- The answers among the events of a connection.
    abbrev pub replies : List (ConnectionEvent s self) → List Answer
    replies [] = []
    replies (answered reply ∷ events) = reply ∷ replies events
    replies (abandoned req ∷ events) = replies events
    replies (graceful_shutdown ∷ events) = replies events
    replies (serving_failed e ∷ events) = replies events

    -- The requests whose futures complete.
    abbrev pub finished_of : List (Exchange s self) → List (Incoming s self)
    finished_of [] = []
    finished_of (completed req ∷ reqs) = req ∷ finished_of reqs
    finished_of (dropped req ∷ reqs) = finished_of reqs

    -- The requests on a connection whose futures complete.
    abbrev pub completed_on : Connection s self → List (Incoming s self)
    completed_on (served reqs res) = finished_of reqs
    completed_on (shut_down reqs late res) = finished_of reqs ++ finished_of late

    -- The answer of a new `InternalProxy`.
    abbrev pub fresh_answer : Incoming s self → Answer
    fresh_answer req =
        proxy b r (self.http_handler.handler) (self.websocket_handler.handler)
          (internal_proxy s self c) req

    replies-answers :
        (reqs : List (Exchange s self)) (events : List (ConnectionEvent s self))
        → replies (answers s self b c reqs ++ events)
          ≡ map fresh_answer (finished_of reqs) ++ replies events
    unfolding answers
    replies-answers [] events = refl
    replies-answers (dropped req ∷ reqs) events = replies-answers reqs events
    replies-answers (completed req ∷ reqs) events =
        ap (λ l. fresh_answer req ∷ l) (replies-answers reqs events)

    replies-log_result :
        (res : Result (Unit {0}) r.ServeError) → replies (log_result s self res) ≡ []
    unfolding log_result
    replies-log_result (ok _) = refl
    replies-log_result (err e) = refl

    map_append :
        (xs ys : List (Incoming s self))
        → map fresh_answer (xs ++ ys) ≡ map fresh_answer xs ++ map fresh_answer ys
    map_append [] ys = refl
    map_append (x ∷ xs) ys = ap (λ l. fresh_answer x ∷ l) (map_append xs ys)

    -- Each request on a connection whose future completes is answered by a new `InternalProxy`, also
    -- after the shutdown began.
    pub connection_task-replies :
        (conn : Connection s self)
        → replies (connection_task s self b c conn) ≡ map fresh_answer (completed_on conn)
    unfolding connection_task
    connection_task-replies (served reqs res) =
        replies-answers reqs (log_result s self res) ∙ rw (replies-log_result res) (append-nil _)
    connection_task-replies (shut_down reqs late res) =
        replies-answers reqs _
        ∙ rw
            (
              replies-answers late (log_result s self res),
              replies-log_result res,
              append-nil (map fresh_answer (finished_of late)),
              map_append (finished_of reqs) (finished_of late),
            )
            refl
