-- ===== src/Handler/Messages.antt =====
-- Forwarding of WebSocket messages by the default `handle_websocket` of src/lib.rs, against a
-- description without a loop: which messages are read, what the handler makes of them, what is sent.
use hudsucker.Prelude.{
  ◌≡◌, refl, ap, ◌∙◌, Option, none, some, List, [], ◌∷◌, ◌++◌, append-nil, map, Result, ok, err,
  arith,
}
use hudsucker.Platform.{Platform}
use hudsucker.Handler.{
  WebSocketHandler, WebSocketContext, noop_websocket, Forwarder, handle_one, handle_websocket,
}

module _ {M E : Type 0} where
  -- The messages that a stream yields before its first error, and that error.
  abbrev pub received : List (Result M E) → List M
  received [] = []
  received (ok m ∷ items) = m ∷ received items
  received (err e ∷ items) = []

  abbrev pub failure : List (Result M E) → Option E
  failure [] = none
  failure (ok m ∷ items) = failure items
  failure (err e ∷ items) = some e

module _ (p : Platform) (w : WebSocketHandler p) (ctx : WebSocketContext p) where
  open p use {Message, WsError}

  -- The handler is given the messages one after the other.
  abbrev pub handle_all : w.State → List Message → w.State × List Message
  handle_all s [] = (s, [])
  handle_all s (m ∷ ms) =
      let (s', out) = w.handle_message s ctx m in
      let (last, sent) = handle_all s' ms in (last, elim out [ none ↦ sent | some m' ↦ m' ∷ sent ])

  abbrev pub closing : Option WsError → List Message
  closing none = []
  closing (some e) = p.close ∷ []

  -- All that goes to the sink, in order.
  abbrev pub outgoing : w.State → List (Result Message WsError) → List Message
  outgoing s stream = (handle_all s (received stream)).1 ++ closing (failure stream)

  module _ {K : Type 0} (send : K → Message → Result (Unit {0}) WsError × K) where
    -- The sink after sends, whatever they return.
    abbrev pub send_all : K → List Message → K
    send_all k [] = k
    send_all k (m ∷ ms) = send_all (send k m).1 ms

    -- Exactly these messages are sent, whether the sends succeed or not: the messages before the
    -- first error of the stream, as the handler changes or drops them, in order, and then a close
    -- message if there was an error. The handler ends in the state in which those messages leave it.
    pub handle_websocket-sends :
        (stream : List (Result Message WsError)) (f : Forwarder p w send ctx)
        → let f' = handle_websocket p w send ctx stream f in
          (f'.sink ≡ send_all f.sink (outgoing f.handler stream))
          × (f'.handler ≡ (handle_all f.handler (received stream)).0)
    unfolding handle_websocket
    handle_websocket-sends [] f = (refl, refl)
    handle_websocket-sends (err e ∷ stream) f = (refl, refl)
    handle_websocket-sends (ok m ∷ stream) f =
        ground (arith, handle_websocket-sends stream (handle_one p w send ctx m f))

    -- What follows the first error of the stream is never read.
    pub handle_websocket-stops :
        (ms : List Message) (e : WsError) (rest : List (Result Message WsError))
        (f : Forwarder p w send ctx)
        → handle_websocket p w send ctx (map ok ms ++ err e ∷ rest) f
          ≡ handle_websocket p w send ctx (map ok ms ++ err e ∷ []) f
    unfolding handle_websocket
    handle_websocket-stops [] e rest f = refl
    handle_websocket-stops (m ∷ ms) e rest f = handle_websocket-stops ms e rest _

-- A handler that passes every message on, whatever it keeps in its state.
abbrev pub PassesMessages : {p : Platform} → WebSocketHandler p → Type 0
PassesMessages {p} w =
    (s : w.State) (ctx : WebSocketContext p) (m : p.Message) → (w.handle_message s ctx m).1 ≡ some m

module _ (p : Platform) (w : WebSocketHandler p) (ctx : WebSocketContext p) where
  open p use {Message, WsError}

  handle_all-passes :
      PassesMessages w → (s : w.State) (ms : List Message) → (handle_all p w ctx s ms).1 ≡ ms
  handle_all-passes passes s [] = refl
  handle_all-passes passes s (m ∷ ms) =
      rw (passes s ctx m)
        (ap (λ l. m ∷ l) (handle_all-passes passes (w.handle_message s ctx m).0 ms))

  -- With a handler that passes every message on, whatever it keeps in its state and whatever the
  -- sends return, the sink is sent exactly the messages that the stream yields before its first
  -- error, unchanged and in order, and then a close message if there was an error.
  pub handle_websocket-passes :
      {K : Type 0} (send : K → Message → Result (Unit {0}) WsError × K)
      → PassesMessages w
      → (stream : List (Result Message WsError)) (f : Forwarder p w send ctx)
      → (handle_websocket p w send ctx stream f).sink
        ≡ send_all p w ctx send f.sink (received stream ++ closing p w ctx (failure stream))
  handle_websocket-passes send passes stream f =
      (handle_websocket-sends p w ctx send stream f).0
      ∙ rw (handle_all-passes passes f.handler (received stream)) refl

-- The handler that does nothing forwards every message as it is, in order.
pub noop-handle_all :
    (p : Platform) (ctx : WebSocketContext p) (ms : List p.Message)
    → handle_all p (noop_websocket p) ctx tt ms ≡ (tt, ms)
noop-handle_all p ctx [] = refl
noop-handle_all p ctx (m ∷ ms) = rw (noop-handle_all p ctx ms)

received-oks : {M : Type 0} (E : Type 0) (ms : List M) → received {E = E} (map ok ms) ≡ ms
received-oks E [] = refl
received-oks E (m ∷ ms) = rw (received-oks E ms)

failure-oks : {M E : Type 0} (ms : List M) → failure {M = M} {E = E} (map ok ms) ≡ none
failure-oks [] = refl
failure-oks (m ∷ ms) = failure-oks ms

-- With the handler that does nothing a stream of messages without an error reaches the sink as it
-- is: every message is sent, unchanged and in order, and nothing else is.
pub handle_websocket-noop :
    (p : Platform) (ctx : WebSocketContext p) {K : Type 0}
    (send : K → p.Message → Result (Unit {0}) p.WsError × K) (ms : List p.Message)
    (f : Forwarder p (noop_websocket p) send ctx)
    → (handle_websocket p (noop_websocket p) send ctx (map ok ms) f).sink
      ≡ send_all p (noop_websocket p) ctx send f.sink ms
handle_websocket-noop p ctx send ms f =
    (handle_websocket-sends p (noop_websocket p) ctx send (map ok ms) f).0
    ∙ rw (received-oks p.WsError ms, failure-oks ms, noop-handle_all, append-nil)
